-- ===== src/Store/Trail.antt =====
-- internal/store/sqlstore/execution.go: the audit trail that a run is read back with.
use k8s_dencer.Base.{
  ℕ, ◌+◌, ◌≡◌, String, Bool, true, false, List, [], ◌∷◌, ◌++◌, inl, inr, Bool-cases, ◌==◌,
  string_eq, if◌then◌else◌, ltb, length, keep, insert_sorted, sort_by, All, All-keep, All-map,
  All-of_each, refl, sym, ◌∙◌, ap, arith,
}
use mathlib.Core.List.{append_assoc, append-nil}
use mathlib.Core.Path.{subst}
use k8s_dencer.Store.Runs.{RunEvent, event_info}
use k8s_dencer.Store.Execution.{max_sequence, append_event, events_of}

-- The trail after appending events of several runs, in the order of the calls.
unfoldable pub append_each : List RunEvent → List RunEvent → List RunEvent
append_each trail [] = trail
append_each trail (e ∷ events) = append_each (append_event e trail) events

-- An event as it is kept.
abbrev kept : ℕ → RunEvent → RunEvent
kept n e = record e { sequence = n; level = if e.level == "" then event_info else e.level }

-- Numbered one after another.
abbrev pub numbered : ℕ → List RunEvent → List RunEvent
numbered n [] = []
numbered n (e ∷ events) = kept n e ∷ numbered (n + 1) events

numbered-snoc :
    (n : ℕ) (events : List RunEvent) (e : RunEvent)
    → numbered n (events ++ e ∷ []) ≡ numbered n events ++ kept (n + length events) e ∷ []
numbered-snoc n [] e = let same : n ≡ n + 0 = omega arith in ap (λ k. kept k e ∷ []) same
numbered-snoc n (x ∷ events) e =
    let same : n + 1 + length events ≡ n + length (x ∷ events) = omega arith in
    ap (λ xs. kept n x ∷ xs)
      (numbered-snoc (n + 1) events e ∙ ap (λ k. numbered (n + 1) events ++ kept k e ∷ []) same)

keep-append :
    (test : RunEvent → Bool) (xs ys : List RunEvent)
    → keep test (xs ++ ys) ≡ keep test xs ++ keep test ys
unfolding keep
keep-append test [] ys = refl
keep-append test (x ∷ xs) ys = elim (Bool-cases (test x)) [
  | inl e ↦ rw (e, keep-append test xs ys)
  | inr e ↦ rw (e, keep-append test xs ys)
]

sort_by-numbered :
    (n : ℕ) (events : List RunEvent)
    → sort_by (λ a b. ltb a.sequence b.sequence) (numbered n events) ≡ numbered n events
unfolding sort_by insert_sorted
sort_by-numbered n [] = refl
sort_by-numbered n (e ∷ []) = refl
sort_by-numbered n (e ∷ x ∷ events) =
    let later : ltb (n + 1) n ≡ false = ground arith in
    rw (sort_by-numbered (n + 1) (x ∷ events), later)

-- The last number given out is that of the last event.
max_sequence-keep :
    (id : String) (trail : List RunEvent)
    → max_sequence id (keep (λ e. e.run_id == id) trail) ≡ max_sequence id trail
unfolding max_sequence keep
max_sequence-keep id [] = refl
max_sequence-keep id (e ∷ trail) = ground (arith, max_sequence-keep id trail)

max_sequence-numbered_cons :
    (id : String) (n : ℕ) (e : RunEvent) (events : List RunEvent)
    → All (λ x. (x.run_id == id) ≡ true) (e ∷ events)
    → max_sequence id (numbered n (e ∷ events)) ≡ n + length events
unfolding max_sequence
max_sequence-numbered_cons id n e [] own = ground arith
max_sequence-numbered_cons id n e (x ∷ events) own =
    let rest = max_sequence-numbered_cons id (n + 1) x events own.1 in
    let first = own.0 in ground arith

max_sequence-numbered :
    (id : String) (events : List RunEvent)
    → All (λ x. (x.run_id == id) ≡ true) events
    → max_sequence id (numbered 1 events) ≡ length events
unfolding max_sequence
max_sequence-numbered id [] own = refl
max_sequence-numbered id (e ∷ events) own =
    max_sequence-numbered_cons id 1 e events own ∙ omega arith

-- A run's part of the trail that the calls so far have left.
abbrev Keeps : String → List RunEvent → List RunEvent → Type 0
Keeps id past trail =
    keep (λ e. e.run_id == id) trail ≡ numbered 1 (keep (λ e. e.run_id == id) past)

keep-one : (test : RunEvent → Bool) (e : RunEvent) → test e ≡ true → keep test (e ∷ []) ≡ e ∷ []
unfolding keep
keep-one test e h = rw h

keep-none : (test : RunEvent → Bool) (e : RunEvent) → test e ≡ false → keep test (e ∷ []) ≡ []
unfolding keep
keep-none test e h = rw h

-- The last number of a run counts its events.
max_sequence-count :
    (id : String) (past trail : List RunEvent)
    → Keeps id past trail
    → max_sequence id trail ≡ length (keep (λ e. e.run_id == id) past)
max_sequence-count id past trail known =
    let own = keep (λ x. x.run_id == id) past in
    sym (max_sequence-keep id trail)
    ∙ ap (max_sequence id) known
    ∙ max_sequence-numbered id own (
        All-map (λ x. (x.run_id ≡ x.run_id) × ((x.run_id == id) ≡ true))
          (λ x. (x.run_id == id) ≡ true) own (λ x both. both.1)
          (All-keep (λ x. x.run_id ≡ x.run_id) (λ x. x.run_id == id) past
            (All-of_each (λ x. x.run_id ≡ x.run_id) past (λ x. refl))))

append_event-Keeps :
    (id : String) (past trail : List RunEvent) (e : RunEvent)
    → Keeps id past trail
    → Keeps id (past ++ e ∷ []) (append_event e trail)
unfolding append_event
append_event-Keeps id past trail e known =
    let test : RunEvent → Bool = λ x. x.run_id == id in
    let new = kept (max_sequence e.run_id trail + 1) e in
    let own = keep test past in
    keep-append test trail (new ∷ []) ∙ elim (Bool-cases (test e)) [
      | inl same ↦
          let named : e.run_id ≡ id = (string_eq.equals_iff e.run_id id).0 same in
          let count : max_sequence e.run_id trail ≡ length own =
            ap (λ i. max_sequence i trail) named ∙ max_sequence-count id past trail known in
          let next : max_sequence e.run_id trail + 1 ≡ 1 + length own = omega (arith, count) in
          rw
            (
              keep-append test past (e ∷ []),
              keep-one test e same,
              keep-one test new same,
              known,
              numbered-snoc 1 own e,
            )
            (ap (λ k. numbered 1 own ++ kept k e ∷ []) next)
      | inr other ↦
          rw
            (
              keep-append test past (e ∷ []),
              keep-none test e other,
              keep-none test new other,
              append-nil own,
              append-nil (keep test trail),
            )
            known
    ]

append_each-Keeps :
    (id : String) (past trail events : List RunEvent)
    → Keeps id past trail
    → Keeps id (past ++ events) (append_each trail events)
unfolding append_each
append_each-Keeps id past trail [] known = rw (append-nil past) known
append_each-Keeps id past trail (e ∷ events) known =
    subst (λ past. Keeps id past (append_each (append_event e trail) events))
      (append_assoc past (e ∷ []) events)
      (append_each-Keeps id (past ++ e ∷ []) (append_event e trail) events
        (append_event-Keeps id past trail e known))

-- Of the events that several runs append in any order to an empty trail, `Events` reads back each run's
-- own, in the order of the calls, numbered from 1 without a gap, an empty level read as information.
pub events_of-append_each :
    (id : String) (events : List RunEvent)
    → events_of id (append_each [] events) ≡ numbered 1 (keep (λ e. e.run_id == id) events)
unfolding events_of
events_of-append_each id events =
    rw (append_each-Keeps id [] [] events (unfold keep in refl))
      (sort_by-numbered 1 (keep (λ e. e.run_id == id) events))
