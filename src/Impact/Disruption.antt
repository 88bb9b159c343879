-- ===== src/Impact/Disruption.antt =====
-- internal/impact/impact.go: which steps are red, said without reasons.
use k8s_dencer.Base.{
  ◌≡◌, String, Bool, true, false, ◌&&◌, ◌||◌, Option, none, some, List, [], ◌∷◌, ◌++◌, map, inl,
  inr, Bool-cases, Option-cases, ◌==◌, string_eq, any, keep, length, le64, refl, ◌∙◌, arith,
}
use Prim.Native.String.{◌++◌ as str_append}
use k8s_dencer.Model.Cluster.{Pod, is_singleton, PodDisruptionBudget, blocks, ClusterSnapshot}
use k8s_dencer.Model.Plan.{impact_red, ImpactReason, Move, PlanStep}
use k8s_dencer.Constraints.Analyzer.{Constraint, PodConstraints, index_pdbs}
use k8s_dencer.Constraints.Analysis.{Analysis, for_pod}
use k8s_dencer.Safety.{covers}
use k8s_dencer.Impact.Known.{offered-IsKnown}
use k8s_dencer.Impact.Classifier.{
  Thresholds, severity, find_pod, reason, reason_if, stateful_workload, persistent_volume,
  required_anti_affinity, hard_topology_spread, blast_radius, is_anti_affinity, is_topology_spread,
  owner_reasons, budget_reasons, constraint_reasons, move_reasons, moves_reasons, size_reasons,
  offered, classify_step,
}
use k8s_dencer.Impact.Rating.{is_red, any-append, classify_step-red}

-- Evicting the pod of a move deletes it, takes a StatefulSet's ordinal away, or is refused by a budget.
unfoldable pub is_disruptive : ClusterSnapshot → Move → Bool
unfolding find_pod is_singleton any
is_disruptive snap move = elim (find_pod snap move.namespace move.pod) [
  | none ↦ false
  | some pod ↦ is_singleton pod || any (λ pdb. covers pdb pod && blocks pdb) snap.pdbs
]

or_false : (a : Bool) → (a || false) ≡ a
or_false true = refl
or_false false = refl

budget_reasons-red :
    (t : Thresholds) (pod : Pod) (pdbs : List PodDisruptionBudget)
    → any is_red (budget_reasons t pod (index_pdbs pdbs pod.namespace))
      ≡ any (λ pdb. covers pdb pod && blocks pdb) pdbs
unfolding budget_reasons index_pdbs keep any covers severity
budget_reasons-red t pod [] = refl
budget_reasons-red t pod (pdb ∷ pdbs) = ground (arith, budget_reasons-red t pod pdbs)

reason_if-red :
    (c : Bool) (kind subject : String)
    → any is_red (reason_if c kind subject) ≡ (c && severity kind == impact_red)
unfolding any
reason_if-red true kind subject = or_false (severity kind == impact_red)
reason_if-red false kind subject = refl

and_false : (a : Bool) → (a && false) ≡ false
and_false true = refl
and_false false = refl

any_join :
    (xs ys : List ImpactReason) (a b : Bool)
    → any is_red xs ≡ a
    → any is_red ys ≡ b
    → any is_red (xs ++ ys) ≡ (a || b)
any_join xs ys a b h k = any-append xs ys ∙ rw (h, k) refl

and_true : (a : Bool) → (a && true) ≡ a
and_true true = refl
and_true false = refl

owner_reasons-red :
    (pod : Pod) (key : String) → any is_red (owner_reasons pod key) ≡ is_singleton pod
unfolding owner_reasons is_singleton any severity
owner_reasons-red pod key = elim (Option-cases pod.owner) [
  | inl none_ ↦ rw (none_, owner_reasons, is_singleton) refl
  | inr (o, e) ↦
      rw (e, owner_reasons, is_singleton)
        (reason_if-red (o.kind == "StatefulSet") stateful_workload key
          ∙ and_true (o.kind == "StatefulSet"))
]

-- The constraints of the analysis force no red.
each_yellow :
    (kind subject : String) (cs : List Constraint)
    → (severity kind == impact_red) ≡ false
    → any is_red (map (λ _. reason kind subject) cs) ≡ false
unfolding any
each_yellow kind subject [] h = refl
each_yellow kind subject (c ∷ cs) h = rw h (each_yellow kind subject cs h)

constraint_reasons-red :
    (found : Option PodConstraints) (key : String)
    → any is_red (constraint_reasons found key) ≡ false
unfolding constraint_reasons any
constraint_reasons-red none key = refl
constraint_reasons-red (some pc) key =
    any_join (map (λ _. reason required_anti_affinity key) (keep is_anti_affinity pc.constraints))
      (map (λ _. reason hard_topology_spread key)
        (keep (λ c. c.hard) (keep is_topology_spread pc.constraints)))
      false false
      (each_yellow required_anti_affinity key (keep is_anti_affinity pc.constraints)
        (unfold severity in refl))
      (each_yellow hard_topology_spread key
        (keep (λ c. c.hard) (keep is_topology_spread pc.constraints)) (unfold severity in refl))

module _ (t : Thresholds) (snap : ClusterSnapshot) (analysis : Analysis) where
  move_reasons-red :
      (move : Move) → any is_red (move_reasons t snap analysis move) ≡ is_disruptive snap move
  unfolding move_reasons any is_disruptive
  move_reasons-red move = elim (Option-cases (find_pod snap move.namespace move.pod)) [
    | inl gone ↦ rw (gone, move_reasons, is_disruptive) refl
    | inr (pod, e) ↦
        let key = str_append move.namespace (str_append "/" move.pod) in
        let own = owner_reasons pod key in
        let budgets = budget_reasons t pod (index_pdbs snap.pdbs pod.namespace) in
        let refused = any (λ pdb. covers pdb pod && blocks pdb) snap.pdbs in
        let found = constraint_reasons (for_pod analysis key) key in
        let volume = reason_if pod.has_persistent_vol persistent_volume key in
        let no_volume : any is_red volume ≡ false =
          reason_if-red pod.has_persistent_vol persistent_volume key
          ∙ unfold severity in and_false pod.has_persistent_vol in
        rw (e, move_reasons, is_disruptive)
          (any_join (own ++ volume ++ budgets) found (is_singleton pod || refused) false
              (any_join (own ++ volume) budgets (is_singleton pod) refused
                (any_join own volume (is_singleton pod) false (owner_reasons-red pod key) no_volume
                  ∙ or_false (is_singleton pod))
                (budget_reasons-red t pod snap.pdbs))
              (constraint_reasons-red (for_pod analysis key) key)
            ∙ or_false (is_singleton pod || refused))
  ]

  moves_reasons-red :
      (moves : List Move)
      → any is_red (moves_reasons t snap analysis moves) ≡ any (is_disruptive snap) moves
  unfolding moves_reasons any
  moves_reasons-red [] = refl
  moves_reasons-red (move ∷ moves) =
      any_join (move_reasons t snap analysis move) (moves_reasons t snap analysis moves)
        (is_disruptive snap move) (any (is_disruptive snap) moves) (move_reasons-red move)
        (moves_reasons-red moves)

  size_reasons-red :
      (step : PlanStep)
      → any is_red (size_reasons t snap analysis step) ≡ le64 t.red_pods_moved (length step.moves)
  unfolding size_reasons any
  size_reasons-red step = elim (Bool-cases (le64 t.red_pods_moved (length step.moves))) [
    | inl e ↦ rw (e, size_reasons) (unfold severity in refl)
    | inr e ↦
        let c = le64 t.yellow_pods_moved (length step.moves) in
        rw (e, size_reasons)
          (reason_if-red c blast_radius step.target_node ∙ unfold severity in and_false c)
  ]

  -- A step is rated red exactly when a move of it evicts a pod that no controller brings back at once or
  -- that a budget holds, or when it moves at least as many pods as the red threshold says.
  pub classify_step-IsRed_iff :
      (step : PlanStep)
      → ((classify_step t snap analysis step).0 == impact_red)
        ≡ (any (is_disruptive snap) step.moves || le64 t.red_pods_moved (length step.moves))
  unfolding offered
  classify_step-IsRed_iff step =
      classify_step-red t snap analysis step (offered-IsKnown t snap analysis step)
      ∙ any_join (moves_reasons t snap analysis step.moves) (size_reasons t snap analysis step)
          (any (is_disruptive snap) step.moves) (le64 t.red_pods_moved (length step.moves))
          (moves_reasons-red step.moves) (size_reasons-red step)
