-- ===== src/Executor/Leads.antt =====
-- internal/executor: what each action does to the calls so far, from what it is told of each kind of call.
use k8s_dencer.Base.{◌≡◌, String, Bool, true, false, Option, none, some, List, ◌∷◌, string_eq, refl}
use k8s_dencer.Model.Cluster.{Pod, ClusterSnapshot}
use k8s_dencer.Safety.{Blocked, check_eviction}
use k8s_dencer.Store.Runs.{RunEvent}
use k8s_dencer.Executor.Session.{
  Outside, Eviction, evicted, refused, not_evicted, Call, read, asked, tried, logged, Failure,
  Result, ok, err, Session, Action, ◌>>=◌,
}
use k8s_dencer.Executor.Steps.{find_pod}

-- What the calls had before an action gives what they have after it.
abbrev pub Leads :
    (o : Outside) → (List Call → Type 0) → (List Call → Type 0) → {A : Type 0} → Action o A → Type 0
Leads o P Q m = (s : Session o) → P s.calls → Q (m s).1.calls

abbrev pub Keeps : (o : Outside) → (List Call → Type 0) → {A : Type 0} → Action o A → Type 0
Keeps o P m = Leads o P P m

-- What a step may call, apart from marking the node. Only a real run evicts, and right after the read that
-- allows it.
pub record Allows (P : List Call → Type 0) (dry : Bool) : Type 0 where
  pub on_read : (found : Option ClusterSnapshot) (cs : List Call) → P cs → P (read found ∷ cs)
  pub on_asked : (namespace name : String) (cs : List Call) → P cs → P (asked namespace name ∷ cs)
  pub on_logged : (ev : RunEvent) (cs : List Call) → P cs → P (logged ev ∷ cs)
  pub on_tried :
      (snap : ClusterSnapshot) (namespace name : String) (current : Pod) (answer : Eviction)
      (cs : List Call)
      → dry ≡ false
      → find_pod snap namespace name ≡ some current
      → check_eviction current snap ≡ none
      → P cs
      → P (tried namespace name answer ∷ read (some snap) ∷ cs)

module _ (o : Outside) (P Q : List Call → Type 0) {B : Type 0} where
  pub Leads-if :
      (m k : Action o B) (b : Bool)
      → Leads o P Q m
      → Leads o P Q k
      → Leads o P Q (elim b [ true ↦ m | false ↦ k ])
  Leads-if m k true hm hk = hm
  Leads-if m k false hm hk = hk

  pub Leads-split :
      (m k : Action o B) (b : Bool)
      → (b ≡ true → Leads o P Q m)
      → (b ≡ false → Leads o P Q k)
      → Leads o P Q (elim b [ true ↦ m | false ↦ k ])
  Leads-split m k true hm hk = hm refl
  Leads-split m k false hm hk = hk refl

  pub Leads-option :
      {A : Type 0} (n : Action o B) (f : A → Action o B) (v : Option A)
      → (v ≡ none → Leads o P Q n)
      → ((a : A) → v ≡ some a → Leads o P Q (f a))
      → Leads o P Q (elim v [ none ↦ n | some a ↦ f a ])
  Leads-option n f none hn hf = hn refl
  Leads-option n f (some a) hn hf = hf a refl

  Leads-result :
      {A : Type 0} (g : Failure → Action o B) (f : A → Action o B) (r : Result A)
      → ((e : Failure) → Leads o P Q (g e))
      → ((a : A) → Leads o P Q (f a))
      → Leads o P Q (elim r [ err e ↦ g e | ok a ↦ f a ])
  Leads-result g f (ok a) hg hf = hf a
  Leads-result g f (err e) hg hf = hg e

  Leads-known :
      {A : Type 0} (g : Failure → Action o B) (f : A → Action o B) (r : Result A) (s : Session o)
      → ((e : Failure) → r ≡ err e → Q (g e s).1.calls)
      → ((a : A) → Leads o P Q (f a))
      → P s.calls
      → let next : Action o B = elim r [ err e ↦ g e | ok a ↦ f a ] in Q (next s).1.calls
  Leads-known g f (ok a) s hg hf p = hf a s p
  Leads-known g f (err e) s hg hf p = hg e refl

  -- As below, where what fails is known to be the call's answer.
  pub Leads-answer :
      {A : Type 0} (m : Action o (Result A)) (g : Failure → Action o B) (f : A → Action o B)
      → Keeps o P m
      → ((e : Failure) (s : Session o)
          → (m s).0 ≡ err e
          → P (m s).1.calls
          → Q (g e (m s).1).1.calls)
      → ((a : A) → Leads o P Q (f a))
      → Leads o P Q (m >>= λ r. elim r [ err e ↦ g e | ok a ↦ f a ])
  Leads-answer m g f hm hg hf s p =
      Leads-known g f (m s).0 (m s).1 (λ e same. hg e s same (hm s p)) hf (hm s p)

  -- A call that may fail, and what becomes of its answer.
  pub Leads-try :
      {A : Type 0} (m : Action o (Result A)) (g : Failure → Action o B) (f : A → Action o B)
      → Keeps o P m
      → ((e : Failure) → Leads o P Q (g e))
      → ((a : A) → Leads o P Q (f a))
      → Leads o P Q (m >>= λ r. elim r [ err e ↦ g e | ok a ↦ f a ])
  Leads-try m g f hm hg hf s p = Leads-result g f (m s).0 hg hf (m s).1 (hm s p)

  pub Leads-then :
      {A : Type 0} (m : Action o A) (k : Action o B)
      → Keeps o P m
      → Leads o P Q k
      → Leads o P Q (m >>= λ _. k)
  Leads-then m k hm hk s p = hk (m s).1 (hm s p)

  pub Leads-eviction :
      (n k : Action o B) (f : Blocked → Action o B) (v : Eviction)
      → Leads o P Q n
      → ((b : Blocked) → Leads o P Q (f b))
      → Leads o P Q k
      → Leads o P Q (elim v [ evicted ↦ n | refused b ↦ f b | not_evicted ↦ k ])
  Leads-eviction n k f evicted hn hf hk = hn
  Leads-eviction n k f (refused b) hn hf hk = hf b
  Leads-eviction n k f not_evicted hn hf hk = hk
