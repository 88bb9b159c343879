-- ===== src/Planner/Choice.antt =====
-- `firstFit` of greedy.go: the destination that it picks for a pod.
use k8s_dencer.Base.{
  All, All-map, sort_by-All, String, ◌≡◌, inl, inr, false, ◌||◌, none, List, [], ◌∷◌, ◌==◌,
  string_eq, contains, Bool-cases, Option-cases, Float64,
}
use k8s_dencer.Model.Cluster.{Pod}
use k8s_dencer.Constraints.State.{Placement}
use k8s_dencer.Constraints.CanPlace.{can_place}
use k8s_dencer.Constraints.Coherence.Answers.{
  Remembers, Remembers-refl, Remembers-trans, can_place-Remembers,
}
use k8s_dencer.Planner.Greedy.{Candidate, options_from, fuller, first_name, best, first_fit}
use k8s_dencer.Planner.Forward.{Avoids}

-- Allowed, and accepted by `CanPlace` in the placement, whose index alone may have grown.
abbrev pub Suits : String → List String → Placement → Pod → String → Type 0
Suits source drained trial pod target =
    Avoids source drained target
    × (asked : Placement) × Remembers trial asked
    × ((can_place asked pod target).1 ≡ none)

module _ (fl : Float64) (source : String) (drained : List String) (pod : Pod) where
  abbrev Answer : Placement → Candidate fl → Type 0
  Answer trial c = Suits source drained trial pod c.name

  options_from-Suits :
      (trial : Placement) (names : List String)
      → All (Answer trial) (options_from fl trial pod source drained names).1
  unfolding options_from
  options_from-Suits trial [] = tt
  options_from-Suits trial (name ∷ names) =
      let asked = (can_place trial pod name).0 in
      let later =
        All-map (Answer asked) (Answer trial) (options_from fl asked pod source drained names).1
          (λ c (open_, q, m, accepted).
            (open_, q, Remembers-trans (can_place-Remembers trial pod name) m, accepted))
          (options_from-Suits asked names) in
      elim (Bool-cases (name == source || contains drained name)) [
        | inl e ↦ rw e (options_from-Suits trial names)
        | inr e ↦ elim (Option-cases (can_place trial pod name).1) [
          | inl accepted ↦ rw (e, accepted) ((e, trial, Remembers-refl trial, accepted), later)
          | inr (r, refused) ↦ rw (e, refused) later
        ]
      ]

  first_name-Suits :
      (trial : Placement) (sorted : List (Candidate fl))
      → All (Answer trial) sorted
      → (first_name fl sorted == "") ≡ false
      → Suits source drained trial pod (first_name fl sorted)
  first_name-Suits trial [] a chosen = absurd cc
  first_name-Suits trial (c ∷ _) a chosen = a.0

  -- A destination that `firstFit` picks is not the source, has not been drained, and accepts the pod by
  -- `CanPlace` in a placement that differs from the one asked at most in what its index remembers.
  pub first_fit-Suits :
      (trial : Placement)
      → ((first_fit fl trial pod source drained).1 == "") ≡ false
      → Suits source drained trial pod (first_fit fl trial pod source drained).1
  unfolding first_fit best
  first_fit-Suits trial chosen =
      first_name-Suits trial _
        (sort_by-All (fuller fl) (Answer trial) _ (options_from-Suits trial trial.node_order))
        chosen
