-- ===== src/Planner/Forward.antt =====
-- The direction of the moves that `Plan` of greedy.go prints: off the target, and never back onto a node
-- that the plan has drained.
use k8s_dencer.Base.{
  All, All-map, All-snoc, sort_by-All, String, ◌≡◌, refl, inl, inr, true, false, ◌||◌, some, List,
  [], ◌∷◌, ◌++◌, ◌==◌, string_eq, Bool-cases, Option-cases, contains, Float64,
}
use mathlib.Core.Path.{subst}
use text.Mathlib.TextPositions.{eq_refl}
use k8s_dencer.Model.Cluster.{Node, Pod, ClusterSnapshot}
use k8s_dencer.Model.Plan.{Move, PlanStep}
use k8s_dencer.Constraints.State.{Placement}
use k8s_dencer.Constraints.Placement.{is_vacant, place, remove}
use k8s_dencer.Constraints.CanPlace.{can_place}
use k8s_dencer.Planner.Policy.{Options, sort_pods_by_size_desc}
use k8s_dencer.Planner.Evacuate.{try_drain-cases}
use k8s_dencer.Planner.Greedy.{
  Verdicts, Candidate, options_from, fuller, first_name, best, first_fit, move_of, step_of,
  relocate, try_drain, Progress, visit, is_full, visit_all, start, drain_order, plan,
}

-- A destination that is neither of the node being drained nor of those drained before it.
abbrev pub Avoids : String → List String → String → Type 0
Avoids source drained target = (target == source || contains drained target) ≡ false

-- A move leaves its step's target for a node that the plan has not drained.
abbrev pub IsOutward : List String → String → Move → Type 0
IsOutward drained source m = (m.from_node ≡ source) × Avoids source drained m.to_node

-- The steps of a plan, none of whose moves returns to the target of its own step, to that of an earlier
-- one, or to one of the nodes in `gone`.
abbrev pub IsForward : List String → List PlanStep → Type 0
IsForward gone [] = Unit
IsForward gone (s ∷ steps) =
    All (IsOutward gone s.target_node) s.moves × IsForward (s.target_node ∷ gone) steps

module _ (fl : Float64) (source : String) (drained : List String) where
  abbrev Open : Candidate fl → Type 0
  Open c = Avoids source drained c.name

  options_from-Open :
      (trial : Placement) (pod : Pod) (names : List String)
      → All Open (options_from fl trial pod source drained names).1
  unfolding options_from
  options_from-Open trial pod [] = tt
  options_from-Open trial pod (name ∷ names) =
      elim (Bool-cases (name == source || contains drained name)) [
        | inl e ↦ rw e (options_from-Open trial pod names)
        | inr e ↦ elim (Option-cases (can_place trial pod name).1) [
          | inl r ↦ rw (e, r) (e, options_from-Open (can_place trial pod name).0 pod names)
          | inr (w, r) ↦ rw (e, r) (options_from-Open (can_place trial pod name).0 pod names)
        ]
      ]

  first_name-Open :
      (sorted : List (Candidate fl))
      → All Open sorted
      → (first_name fl sorted == "") ≡ false
      → Avoids source drained (first_name fl sorted)
  first_name-Open [] a chosen = absurd cc
  first_name-Open (c ∷ _) a chosen = a.0

  first_fit-Avoids :
      (trial : Placement) (pod : Pod)
      → ((first_fit fl trial pod source drained).1 == "") ≡ false
      → Avoids source drained (first_fit fl trial pod source drained).1
  unfolding first_fit best
  first_fit-Avoids trial pod chosen =
      first_name-Open _
        (sort_by-All (fuller fl) Open _ (options_from-Open trial pod trial.node_order)) chosen

  pub relocate-IsOutward :
      (trial : Placement) (pods : List Pod) (moves : List Move)
      → relocate fl trial source drained pods ≡ some moves
      → All (IsOutward drained source) moves
  unfolding relocate
  relocate-IsOutward trial [] [] e = tt
  relocate-IsOutward trial [] (m ∷ moves) e = absurd cc
  relocate-IsOutward trial (p ∷ ps) moves e =
      let trial' = (first_fit fl trial p source drained).0 in
      let target = (first_fit fl trial p source drained).1 in
      let next = place (remove trial' p) p target in
      elim (Bool-cases (target == "")) [
        | inl b ↦ absurd (let h = (rw (b, relocate) at e) in cc)
        | inr b ↦ elim (Option-cases (relocate fl next source drained ps)) [
          | inl r ↦ absurd (let h = (rw (b, r, relocate) at e) in cc)
          | inr (later, r) ↦
              let h = (rw (b, r, relocate) at e) in
              let shape : moves ≡ move_of fl p source target ∷ later = cc in
              rw shape ((refl, first_fit-Avoids trial p b), relocate-IsOutward next ps later r)
        ]
      ]

-- What is contained in a list, as a test.
abbrev IsWithin : List String → List String → Type 0
IsWithin gone drained = (x : String) → contains gone x ≡ true → contains drained x ≡ true

IsWithin-cons :
    (x : String) (gone drained : List String) → IsWithin gone drained → IsWithin gone (x ∷ drained)
unfolding contains
IsWithin-cons x gone drained within y h = elim (Bool-cases (x == y)) [
  | inl e ↦ rw e refl
  | inr e ↦ rw e (within y h)
]

IsWithin-grow :
    (x : String) (gone drained : List String)
    → contains drained x ≡ true
    → IsWithin gone drained
    → IsWithin (x ∷ gone) drained
unfolding contains
IsWithin-grow x gone drained has within y h = elim (Bool-cases (x == y)) [
  | inl e ↦
      let same : x ≡ y = (string_eq.equals_iff x y).0 e in
      subst (λ z. contains drained z ≡ true) same has
  | inr e ↦ let h' = (rw (e, contains) at h) in within y h'
]

-- The target of a step has been drained.
abbrev Reached : List String → PlanStep → Type 0
Reached drained s = contains drained s.target_node ≡ true

abbrev AreDrained : List String → List PlanStep → Type 0
AreDrained drained steps = All (Reached drained) steps

Reached-cons :
    (x : String) (drained : List String) (s : PlanStep)
    → Reached drained s
    → Reached (x ∷ drained) s
Reached-cons x drained s r = IsWithin-cons x drained drained (λ y h. h) s.target_node r

contains-head : (x : String) (drained : List String) → contains (x ∷ drained) x ≡ true
unfolding contains
contains-head x drained = rw (eq_refl x) refl

Avoids-IsWithin :
    (gone drained : List String) (source target : String)
    → IsWithin gone drained
    → Avoids source drained target
    → Avoids source gone target
Avoids-IsWithin gone drained source target within h = elim (Bool-cases (target == source)) [
  | inl e ↦ absurd (let h' = (rw e at h) in cc)
  | inr e ↦
      let h' = (rw e at h) in
      elim (Bool-cases (contains gone target)) [
        | inl c ↦ absurd (let f = within target c in cc)
        | inr c ↦ rw (e, c) refl
      ]
]

IsForward-snoc :
    (gone drained : List String) (steps : List PlanStep) (s : PlanStep)
    → IsWithin gone drained
    → AreDrained drained steps
    → All (IsOutward drained s.target_node) s.moves
    → IsForward gone steps
    → IsForward gone (steps ++ s ∷ [])
unfolding contains
IsForward-snoc gone drained [] s within reached outward forward = (
  All-map (IsOutward drained s.target_node) (IsOutward gone s.target_node) s.moves
      (λ m o. (o.0, Avoids-IsWithin gone drained s.target_node m.to_node within o.1)) outward,
  tt,
)
IsForward-snoc gone drained (t ∷ steps) s within reached outward forward = (
  forward.0,
  IsForward-snoc (t.target_node ∷ gone) drained steps s
      (IsWithin-grow t.target_node gone drained reached.0 within) reached.1 outward forward.1,
)

try_drain-IsOutward :
    (fl : Float64) (work : Placement) (node : Node) (drained : List String) (analysis : Verdicts)
    (opts : Options fl) (moves : List Move)
    → try_drain fl work node drained analysis opts ≡ some moves
    → All (IsOutward drained node.name) moves
try_drain-IsOutward fl work node drained analysis opts moves e =
    let (pods, _, r) = try_drain-cases fl work node drained analysis opts moves e in
    relocate-IsOutward fl node.name drained work (sort_pods_by_size_desc pods) moves r

module _ (fl : Float64) (snap : ClusterSnapshot) (analysis : Verdicts) (opts : Options fl) where
  abbrev IsOrderly : Progress fl → Type 0
  IsOrderly s = IsForward [] s.steps × AreDrained s.drained s.steps

  visit-IsOrderly :
      (node : Node) (s : Progress fl) → IsOrderly s → IsOrderly (visit fl snap analysis opts node s)
  unfolding visit
  visit-IsOrderly node s orderly = elim (Bool-cases (is_vacant s.work node.name)) [
    | inl v ↦ rw v (
      orderly.0,
      All-map (Reached s.drained) (Reached (node.name ∷ s.drained)) s.steps
          (λ t r. Reached-cons node.name s.drained t r) orderly.1,
    )
    | inr v ↦ elim (Option-cases (try_drain fl s.work node s.drained analysis opts)) [
      | inl t ↦ rw (v, t) orderly
      | inr (moves, t) ↦
          rw (v, t)
            (
              IsForward-snoc [] s.drained s.steps (step_of fl s node moves)
                  (λ x h. absurd (unfold contains in cc)) orderly.1
                  (try_drain-IsOutward fl s.work node s.drained analysis opts moves t) orderly.0,
              All-snoc (Reached (node.name ∷ s.drained)) s.steps (step_of fl s node moves)
                  (All-map (Reached s.drained) (Reached (node.name ∷ s.drained)) s.steps
                    (λ t r. Reached-cons node.name s.drained t r) orderly.1)
                  (contains-head node.name s.drained),
            )
    ]
  ]

  visit_all-IsOrderly :
      (nodes : List Node) (s : Progress fl)
      → IsOrderly s
      → IsOrderly (visit_all fl snap analysis opts nodes s)
  unfolding visit_all
  visit_all-IsOrderly [] s orderly = orderly
  visit_all-IsOrderly (node ∷ nodes) s orderly = elim (Bool-cases (is_full fl opts s)) [
    | inl e ↦ rw e orderly
    | inr e ↦ rw e (visit_all-IsOrderly nodes _ (visit-IsOrderly node s orderly))
  ]

  -- Every move of the plan is off its step's target, and onto a node that is neither that target nor the
  -- target of an earlier step.
  pub plan-IsForward : IsForward [] (plan fl snap analysis opts).steps
  unfolding plan
  plan-IsForward = (visit_all-IsOrderly (drain_order fl snap opts) (start fl snap opts) (tt, tt)).0
