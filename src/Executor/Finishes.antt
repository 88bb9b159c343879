-- ===== src/Executor/Finishes.antt =====
-- internal/executor/executor.go: the loops that wait end, given a clock that does not go back.
use Prim.Native.Nat.{zero, suc}
use k8s_dencer.Base.{
  ℕ, ◌+◌, ◌-◌, ◌*◌, ◌≤◌, ◌<◌, ◌≡◌, ◌≢◌, String, Bool, true, false, string_eq, Option, none, some,
  List, [], ◌∷◌, ◌++◌, inl, inr, Bool-cases, Option-cases, ltb, lt→ltb, lookup, refl, ap, arith,
  Float64,
}
use native.Mathlib.Nat.{suc-mul}
use k8s_dencer.Model.Cluster.{Pod}
use k8s_dencer.Safety.{Blocked}
use k8s_dencer.Executor.Session.{
  Outside, Eviction, evicted, refused, not_evicted, asked, Failure, blocked, broken, unfinished,
  Result, ok, err, Session, Action,
}
use k8s_dencer.Executor.Waiting.{
  Settings, again, wait_gone_from, wait_gone, note_recovered, healthy_count,
}

-- The clock's reading in a state of the outside.
abbrev pub time : (o : Outside) → o.World → ℕ
time o w = (o.now w).0

-- What Go's monotonic clock and timers promise: no call goes back in time, and a rest that is not cut short
-- takes as long as it says.
pub record Clock (o : Outside) : Type 0 where
  pub now_later : (w : o.World) → time o w ≤ time o (o.now w).1
  pub snapshot_later : (w : o.World) → time o w ≤ time o (o.snapshot w).1
  pub present_later :
      (namespace name : String) (w : o.World) → time o w ≤ time o (o.pod_present namespace name w).1
  pub sleep_later :
      (d : ℕ) (w : o.World) → (o.sleep d w).0 ≡ true → time o w + d ≤ time o (o.sleep d w).1

-- The fuel did not run out.
abbrev pub IsDecided : {A : Type 0} → Result A → Type 0
IsDecided r = r ≢ err unfinished

pub ok-IsDecided : {A : Type 0} (a : A) → IsDecided (ok a)
ok-IsDecided a h = absurd cc

pub broken-IsDecided : {A : Type 0} → IsDecided {A = A} (err broken)
broken-IsDecided h = absurd cc

pub blocked-IsDecided : {A : Type 0} (b : Blocked) → IsDecided {A = A} (err (blocked b))
blocked-IsDecided b h = absurd cc

-- Of an action from a session.
abbrev pub EndsAt : {o : Outside} {A : Type 0} → Session o → Action o (Result A) → Type 0
EndsAt s m = IsDecided (m s).0

module _ {o : Outside} {A : Type 0} where
  pub Decided-split :
      (m k : Action o (Result A)) (b : Bool) (s : Session o)
      → (b ≡ true → IsDecided (m s).0)
      → (b ≡ false → IsDecided (k s).0)
      → EndsAt s (elim b [ true ↦ m | false ↦ k ])
  Decided-split m k true s hm hk = hm refl
  Decided-split m k false s hm hk = hk refl

  pub Decided-option :
      {B : Type 0} (n : Action o (Result A)) (f : B → Action o (Result A)) (v : Option B)
      (s : Session o)
      → IsDecided (n s).0
      → ((b : B) → IsDecided (f b s).0)
      → EndsAt s (elim v [ none ↦ n | some b ↦ f b ])
  Decided-option n f none s hn hf = hn
  Decided-option n f (some b) s hn hf = hf b

  pub Decided-result :
      {B : Type 0} (g : Failure → Action o (Result A)) (f : B → Action o (Result A)) (r : Result B)
      (s : Session o)
      → IsDecided r
      → ((e : Failure) → (e ≢ unfinished) → IsDecided (g e s).0)
      → ((b : B) → IsDecided (f b s).0)
      → EndsAt s (elim r [ err e ↦ g e | ok b ↦ f b ])
  Decided-result g f (ok b) s hr hg hf = hf b
  Decided-result g f (err e) s hr hg hf = hg e (λ same. hr (ap err same))

  pub Decided-eviction :
      (n k : Action o (Result A)) (f : Blocked → Action o (Result A)) (v : Eviction) (s : Session o)
      → IsDecided (n s).0
      → ((b : Blocked) → IsDecided (f b s).0)
      → IsDecided (k s).0
      → EndsAt s (elim v [ evicted ↦ n | refused b ↦ f b | not_evicted ↦ k ])
  Decided-eviction n k f evicted s hn hf hk = hn
  Decided-eviction n k f (refused b) s hn hf hk = hf b
  Decided-eviction n k f not_evicted s hn hf hk = hk

pub err-IsDecided : {A : Type 0} (e : Failure) → (e ≢ unfinished) → IsDecided {A = A} (err e)
err-IsDecided (blocked b) h = blocked-IsDecided b
err-IsDecided broken h = broken-IsDecided
err-IsDecided unfinished h = absurd (h refl)

module _ (o : Outside) (c : Clock o) {fl : Float64} (x : Settings fl) where
  -- The tail of a cycle that began at time `t`: the next one is at least an interval later.
  pub again-IsDecided :
      (deadline t : ℕ) (next : Action o (Result Unit)) (s : Session o)
      → t ≤ time o s.world
      → ((s' : Session o)
          → (ltb deadline (time o s.world) ≡ false)
          → t + x.poll_interval ≤ time o s'.world
          → IsDecided (next s').0)
      → IsDecided (again o x deadline next s).0
  unfolding again
  again-IsDecided deadline t next s later h =
      let s1 : Session o = record s { world = (o.now s.world).1 } in
      let s2 : Session o = record s { world = (o.sleep x.poll_interval s1.world).1 } in
      Decided-split _ _ (ltb deadline (time o s.world)) s1 (λ _. broken-IsDecided)
        (λ early.
          Decided-split _ _ (o.sleep x.poll_interval s1.world).0 s2
            (λ rested.
              let read_later = c.now_later s.world in
              let rest_later = c.sleep_later x.poll_interval s1.world rested in
              h s2 early (omega arith))
            (λ _. broken-IsDecided))

  -- A cycle of the loop of `waitGone`.
  wait_gone-cycle :
      (fuel deadline : ℕ) (pod : Pod) (s : Session o)
      → ((s' : Session o)
          → ltb deadline (time o (o.pod_present pod.namespace pod.name s.world).1) ≡ false
          → time o s.world + x.poll_interval ≤ time o s'.world
          → EndsAt s' (wait_gone_from o x fuel deadline pod))
      → EndsAt s (wait_gone_from o x (suc fuel) deadline pod)
  unfolding wait_gone_from
  wait_gone-cycle fuel deadline pod s h =
      let answer = o.pod_present pod.namespace pod.name s.world in
      let s1 : Session o = record {
        world = answer.1;
        calls = asked pod.namespace pod.name ∷ s.calls;
      } in
      Decided-option _ _ answer.0 s1 broken-IsDecided (λ here.
        Decided-split _ _ here s1
          (λ _.
            again-IsDecided deadline (time o s.world) (wait_gone_from o x fuel deadline pod) s1
              (c.present_later pod.namespace pod.name s.world) h)
          (λ _. ok-IsDecided tt))

  wait_gone_from-IsDecided :
      (fuel deadline : ℕ) (pod : Pod) (s : Session o)
      → deadline < time o s.world + fuel * x.poll_interval
      → EndsAt s (wait_gone_from o x (suc fuel) deadline pod)
  wait_gone_from-IsDecided zero deadline pod s enough =
      wait_gone-cycle zero deadline pod s (λ s' early _.
        let later = c.present_later pod.namespace pod.name s.world in
        let late =
          lt→ltb deadline (time o (o.pod_present pod.namespace pod.name s.world).1) (omega arith) in
        absurd cc)
  wait_gone_from-IsDecided (suc fuel) deadline pod s enough =
      wait_gone-cycle (suc fuel) deadline pod s (λ s' _ later.
        let more = suc-mul fuel x.poll_interval in
        wait_gone_from-IsDecided fuel deadline pod s' (omega arith))

  pub wait_gone-IsDecided :
      (fuel : ℕ) (pod : Pod) (s : Session o)
      → x.settle_timeout < fuel * x.poll_interval
      → EndsAt s (wait_gone o x (suc fuel) pod)
  unfolding wait_gone
  wait_gone-IsDecided fuel pod s enough =
      let later = c.now_later s.world in
      wait_gone_from-IsDecided fuel (time o s.world + x.settle_timeout) pod
        record s { world = (o.now s.world).1 } (omega arith)

  pub note_recovered-later :
      (started : ℕ) (now before recovered : List (String × ℕ)) (affected : List String)
      (s : Session o)
      → time o s.world ≤ time o (note_recovered o x started now before recovered affected s).1.world
  unfolding note_recovered
  note_recovered-later started now before recovered [] s = omega arith
  note_recovered-later started now before recovered (owner ∷ affected) s =
      elim (Bool-cases (ltb (healthy_count owner now) (healthy_count owner before))) [
        | inl lagging ↦
            rw (lagging, note_recovered)
              (note_recovered-later started now before recovered affected s)
        | inr whole ↦ elim (Option-cases (lookup owner recovered)) [
          | inr (t, e) ↦
              rw (whole, e, note_recovered)
                (note_recovered-later started now before recovered affected s)
          | inl first ↦
              let read_later = c.now_later s.world in
              let new = recovered ++ (owner, time o s.world - started) ∷ [] in
              let rest =
                note_recovered-later started now before new affected
                  record s { world = (o.now s.world).1 } in
              rw (whole, first, note_recovered) (omega (arith, rest, read_later))
        ]
      ]
