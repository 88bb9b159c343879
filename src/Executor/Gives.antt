-- ===== src/Executor/Gives.antt =====
-- internal/executor: what an action's answer and the calls after it have together.
use k8s_dencer.Base.{◌≡◌, Bool, true, false, Option, none, some, List, refl}
use k8s_dencer.Executor.Session.{Outside, Call, Failure, Result, ok, err, Session, Action, ◌>>=◌}
use k8s_dencer.Executor.Leads.{Leads, Keeps}

-- What was before a call gives what its answer and the calls after it have.
abbrev pub Gives :
    (o : Outside)
    → (List Call → Type 0)
    → {A : Type 0} → (A → List Call → Type 0)
    → Action o A
    → Type 0
Gives o P R m = (s : Session o) → P s.calls → R (m s).0 (m s).1.calls

module _ (o : Outside) (P : List Call → Type 0) {B : Type 0} (R : B → List Call → Type 0) where
  pub Gives-split :
      (m k : Action o B) (b : Bool)
      → (b ≡ true → Gives o P R m)
      → (b ≡ false → Gives o P R k)
      → Gives o P R (elim b [ true ↦ m | false ↦ k ])
  Gives-split m k true hm hk = hm refl
  Gives-split m k false hm hk = hk refl

  pub Gives-option :
      {A : Type 0} (n : Action o B) (f : A → Action o B) (v : Option A)
      → Gives o P R n
      → ((a : A) → Gives o P R (f a))
      → Gives o P R (elim v [ none ↦ n | some a ↦ f a ])
  Gives-option n f none hn hf = hn
  Gives-option n f (some a) hn hf = hf a

  Gives-result :
      {A : Type 0} (g : Failure → Action o B) (f : A → Action o B) (r : Result A)
      → ((e : Failure) → Gives o P R (g e))
      → ((a : A) → Gives o P R (f a))
      → Gives o P R (elim r [ err e ↦ g e | ok a ↦ f a ])
  Gives-result g f (ok a) hg hf = hf a
  Gives-result g f (err e) hg hf = hg e

  pub Gives-try :
      {A : Type 0} (m : Action o (Result A)) (g : Failure → Action o B) (f : A → Action o B)
      → Keeps o P m
      → ((e : Failure) → Gives o P R (g e))
      → ((a : A) → Gives o P R (f a))
      → Gives o P R (m >>= λ r. elim r [ err e ↦ g e | ok a ↦ f a ])
  Gives-try m g f hm hg hf s p = Gives-result g f (m s).0 hg hf (m s).1 (hm s p)

module _ (o : Outside) (P Q : List Call → Type 0) {A B : Type 0}
    (R : Result A → List Call → Type 0) where
  after-result :
      (g : Failure → Action o B) (f : A → Action o B) (r : Result A)
      → ((e : Failure) → Leads o (R (err e)) Q (g e))
      → ((a : A) → Leads o (R (ok a)) Q (f a))
      → Leads o (R r) Q (elim r [ err e ↦ g e | ok a ↦ f a ])
  after-result g f (ok a) hg hf = hf a
  after-result g f (err e) hg hf = hg e

  -- A call whose answer tells what holds after it.
  pub Leads-after :
      (m : Action o (Result A)) (g : Failure → Action o B) (f : A → Action o B)
      → Gives o P R m
      → ((e : Failure) → Leads o (R (err e)) Q (g e))
      → ((a : A) → Leads o (R (ok a)) Q (f a))
      → Leads o P Q (m >>= λ r. elim r [ err e ↦ g e | ok a ↦ f a ])
  Leads-after m g f hm hg hf s p = after-result g f (m s).0 hg hf (m s).1 (hm s p)
