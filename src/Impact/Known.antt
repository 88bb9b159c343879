-- ===== src/Impact/Known.antt =====
-- internal/impact/impact.go: every reason that is offered is of a kind without a bar.
use k8s_dencer.Base.{
  String, Bool, true, false, not, ◌||◌, Option, none, some, List, [], ◌∷◌, ◌++◌, map, inl, inr,
  Bool-cases, Option-cases, ◌==◌, string_eq, keep, length, le32, le64, All, All-append, refl,
}
use Prim.Native.String.{◌++◌ as str_append}
use k8s_dencer.Model.Labels.{is_empty, matches}
use k8s_dencer.Model.Cluster.{Pod, PodDisruptionBudget, blocks, ClusterSnapshot}
use k8s_dencer.Model.Plan.{Move, PlanStep}
use k8s_dencer.Constraints.Analyzer.{Constraint, PodConstraints, index_pdbs}
use k8s_dencer.Constraints.Analysis.{Analysis, for_pod}
use k8s_dencer.Impact.Keys.{HasNoBar, before_bar}
use k8s_dencer.Impact.Classifier.{
  Thresholds, find_pod, reason, reason_if, stateful_workload, persistent_volume,
  required_anti_affinity, hard_topology_spread, blast_radius, is_anti_affinity, is_topology_spread,
  owner_reasons, budget_reasons, constraint_reasons, move_reasons, moves_reasons, size_reasons,
  offered,
}
use k8s_dencer.Impact.Rating.{IsKnown}

reason_if-IsKnown :
    (c : Bool) (kind subject : String) → HasNoBar kind → All IsKnown (reason_if c kind subject)
reason_if-IsKnown true kind subject h = (h, tt)
reason_if-IsKnown false kind subject h = tt

owner_reasons-IsKnown : (pod : Pod) (key : String) → All IsKnown (owner_reasons pod key)
unfolding owner_reasons before_bar
owner_reasons-IsKnown pod key = elim (Option-cases pod.owner) [
  | inl none_ ↦ rw (none_, owner_reasons) (refl, tt)
  | inr (o, e) ↦
      rw (e, owner_reasons) (reason_if-IsKnown (o.kind == "StatefulSet") stateful_workload key refl)
]

budget_reasons-IsKnown :
    (t : Thresholds) (pod : Pod) (pdbs : List PodDisruptionBudget)
    → All IsKnown (budget_reasons t pod pdbs)
unfolding budget_reasons before_bar
budget_reasons-IsKnown t pod [] = tt
budget_reasons-IsKnown t pod (pdb ∷ pdbs) =
    let rest = budget_reasons-IsKnown t pod pdbs in
    elim (Bool-cases (is_empty pdb.selector || not (matches pdb.selector pod.labels))) [
      | inl apart ↦ rw apart rest
      | inr about ↦ elim (Bool-cases (blocks pdb)) [
        | inl held ↦ rw (about, held) (refl, rest)
        | inr free ↦ elim (Bool-cases (le32 pdb.disruptions_allowed t.tight_pdb_headroom)) [
          | inl tight ↦ rw (about, free, tight) (refl, rest)
          | inr loose ↦ rw (about, free, loose) rest
        ]
      ]
    ]

each-IsKnown :
    (kind subject : String) (cs : List Constraint)
    → HasNoBar kind
    → All IsKnown (map (λ _. reason kind subject) cs)
each-IsKnown kind subject [] h = tt
each-IsKnown kind subject (c ∷ cs) h = (h, each-IsKnown kind subject cs h)

constraint_reasons-IsKnown :
    (found : Option PodConstraints) (key : String) → All IsKnown (constraint_reasons found key)
unfolding constraint_reasons before_bar
constraint_reasons-IsKnown none key = tt
constraint_reasons-IsKnown (some pc) key =
    let apart = keep is_anti_affinity pc.constraints in
    let spread = keep (λ c. c.hard) (keep is_topology_spread pc.constraints) in
    All-append IsKnown (map (λ _. reason required_anti_affinity key) apart)
      (map (λ _. reason hard_topology_spread key) spread)
      (each-IsKnown required_anti_affinity key apart refl)
      (each-IsKnown hard_topology_spread key spread refl)

module _ (t : Thresholds) (snap : ClusterSnapshot) (analysis : Analysis) where
  move_reasons-IsKnown : (move : Move) → All IsKnown (move_reasons t snap analysis move)
  unfolding move_reasons before_bar
  move_reasons-IsKnown move = elim (Option-cases (find_pod snap move.namespace move.pod)) [
    | inl gone ↦ rw (gone, move_reasons) tt
    | inr (pod, e) ↦
        let key = str_append move.namespace (str_append "/" move.pod) in
        let own = owner_reasons pod key in
        let budgets = budget_reasons t pod (index_pdbs snap.pdbs pod.namespace) in
        let found = constraint_reasons (for_pod analysis key) key in
        let volume = reason_if pod.has_persistent_vol persistent_volume key in
        rw (e, move_reasons)
          (All-append IsKnown (own ++ volume ++ budgets) found
            (All-append IsKnown (own ++ volume) budgets
              (All-append IsKnown own volume (owner_reasons-IsKnown pod key)
                (reason_if-IsKnown pod.has_persistent_vol persistent_volume key refl))
              (budget_reasons-IsKnown t pod (index_pdbs snap.pdbs pod.namespace)))
            (constraint_reasons-IsKnown (for_pod analysis key) key))
  ]

  moves_reasons-IsKnown : (moves : List Move) → All IsKnown (moves_reasons t snap analysis moves)
  unfolding moves_reasons
  moves_reasons-IsKnown [] = tt
  moves_reasons-IsKnown (move ∷ moves) =
      All-append IsKnown (move_reasons t snap analysis move) (moves_reasons t snap analysis moves)
        (move_reasons-IsKnown move) (moves_reasons-IsKnown moves)

  size_reasons-IsKnown : (step : PlanStep) → All IsKnown (size_reasons t snap analysis step)
  unfolding size_reasons before_bar
  size_reasons-IsKnown step = elim (Bool-cases (le64 t.red_pods_moved (length step.moves))) [
    | inl e ↦ rw (e, size_reasons) (refl, tt)
    | inr e ↦
        rw (e, size_reasons)
          (reason_if-IsKnown (le64 t.yellow_pods_moved (length step.moves)) blast_radius
            step.target_node refl)
  ]

  pub offered-IsKnown : (step : PlanStep) → All IsKnown (offered t snap analysis step)
  unfolding offered
  offered-IsKnown step =
      All-append IsKnown (moves_reasons t snap analysis step.moves)
        (size_reasons t snap analysis step) (moves_reasons-IsKnown step.moves)
        (size_reasons-IsKnown step)
