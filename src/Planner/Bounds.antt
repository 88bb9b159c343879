-- ===== src/Planner/Bounds.antt =====
-- The counters of `Plan` in greedy.go: `MaxSteps` and the numbers of the steps.
use k8s_dencer.Base.{
  ℕ, suc, ◌+◌, ◌≤◌, ◌<◌, ◌^◌, ◌≡◌, refl, inl, inr, false, List, [], ◌∷◌, ◌++◌, arith, Bool-cases,
  Option-cases, length, length-append, lt64-eq-ltb, le64-eq-leb, Float64,
}
use k8s_dencer.Model.Cluster.{Node, ClusterSnapshot}
use k8s_dencer.Model.Plan.{PlanStep}
use k8s_dencer.Constraints.Placement.{is_vacant}
use k8s_dencer.Planner.Policy.{Options}
use k8s_dencer.Planner.Greedy.{
  Verdicts, try_drain, Progress, step_of, visit, is_full, visit_all, start, drain_order, plan,
}

-- The steps are numbered from the number given, one by one.
abbrev pub IsNumbered : ℕ → List PlanStep → Type 0
IsNumbered n [] = Unit
IsNumbered n (s ∷ steps) = (s.sequence_number ≡ n) × IsNumbered (suc n) steps

IsNumbered-snoc :
    (n : ℕ) (steps : List PlanStep) (s : PlanStep)
    → IsNumbered n steps
    → s.sequence_number ≡ n + length steps
    → IsNumbered n (steps ++ s ∷ [])
IsNumbered-snoc n [] s numbered e = (omega (arith, e), tt)
IsNumbered-snoc n (t ∷ steps) s numbered e =
    (numbered.0, IsNumbered-snoc (suc n) steps s numbered.1 (omega (arith, e)))

module _ (fl : Float64) (snap : ClusterSnapshot) (analysis : Verdicts) (opts : Options fl) where
  -- A candidate leaves the steps as they are or appends one.
  visit-steps :
      (node : Node) (s : Progress fl) (P : List PlanStep → Type 0)
      → P s.steps
      → ((t : PlanStep) → t.sequence_number ≡ length s.steps + 1 → P (s.steps ++ t ∷ []))
      → P (visit fl snap analysis opts node s).steps
  unfolding visit
  visit-steps node s P same grown = elim (Bool-cases (is_vacant s.work node.name)) [
    | inl v ↦ rw v same
    | inr v ↦ elim (Option-cases (try_drain fl s.work node s.drained analysis opts)) [
      | inl t ↦ rw (v, t) same
      | inr (moves, t) ↦ rw (v, t) (grown (step_of fl s node moves) refl)
    ]
  ]

  visit_all-IsNumbered :
      (nodes : List Node) (s : Progress fl)
      → IsNumbered 1 s.steps
      → IsNumbered 1 (visit_all fl snap analysis opts nodes s).steps
  unfolding visit_all
  visit_all-IsNumbered [] s numbered = numbered
  visit_all-IsNumbered (node ∷ nodes) s numbered = elim (Bool-cases (is_full fl opts s)) [
    | inl e ↦ rw e numbered
    | inr e ↦ rw e (
        visit_all-IsNumbered nodes _ (
          visit-steps node s (IsNumbered 1) numbered
            (λ t q. IsNumbered-snoc 1 s.steps t numbered (omega (arith, q)))))
  ]

  -- The steps of a plan are numbered 1, 2, 3 and so on.
  pub plan-IsNumbered : IsNumbered 1 (plan fl snap analysis opts).steps
  unfolding plan
  plan-IsNumbered = visit_all-IsNumbered (drain_order fl snap opts) (start fl snap opts) tt

  module _ (positive : 0 < opts.max_steps) (small : opts.max_steps < 2 ^ 63) where
    is_full-false :
        (s : Progress fl)
        → length s.steps ≤ opts.max_steps
        → is_full fl opts s ≡ false
        → length s.steps < opts.max_steps
    is_full-false s bound e = ground (
      arith,
      e,
      bound,
      positive,
      small,
      lt64-eq-ltb 0 opts.max_steps,
      le64-eq-leb opts.max_steps (length s.steps),
    )

    visit_all-length :
        (nodes : List Node) (s : Progress fl)
        → length s.steps ≤ opts.max_steps
        → length (visit_all fl snap analysis opts nodes s).steps ≤ opts.max_steps
    unfolding visit_all
    visit_all-length [] s bound = bound
    visit_all-length (node ∷ nodes) s bound = elim (Bool-cases (is_full fl opts s)) [
      | inl e ↦ rw e bound
      | inr e ↦ rw e (
          visit_all-length nodes _ (
            visit-steps node s (λ l. length l ≤ opts.max_steps) bound
              (λ t q. omega (arith, is_full-false s bound e, length-append s.steps (t ∷ [])))))
    ]

    -- Where `MaxSteps` is positive (below 2 ^ 63), a plan has at most that many steps.
    pub plan-steps-le : length (plan fl snap analysis opts).steps ≤ opts.max_steps
    unfolding plan
    plan-steps-le = visit_all-length (drain_order fl snap opts) (start fl snap opts) (omega arith)
