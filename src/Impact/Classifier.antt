-- ===== src/Impact/Classifier.antt =====
-- internal/impact/impact.go: thresholds, reasons and the rating. The texts for people, `Detail` and the
-- rationale, are left out: no rating depends on them.
use Prim.Native.String.{◌++◌ as str_append}
use k8s_dencer.Base.{
  ℕ, String, Bool, true, false, not, ◌&&◌, ◌||◌, Option, none, some, List, [], ◌∷◌, ◌++◌, map, ◌==◌,
  string_eq, nat_eq, if◌then◌else◌, ltb, length, keep, find, contains, sort_by, string_lt, le64,
  le32,
}
use k8s_dencer.Model.Labels.{matches, is_empty}
use k8s_dencer.Model.Cluster.{Pod, PodDisruptionBudget, blocks, ClusterSnapshot}
use k8s_dencer.Model.Plan.{impact_green, impact_yellow, impact_red, ImpactReason, Move, PlanStep}
use k8s_dencer.Constraints.Analyzer.{
  kind_pod_anti_affinity, kind_topology_spread, Constraint, PodConstraints, index_pdbs, pdb_key,
}
use k8s_dencer.Constraints.Analysis.{Analysis, for_pod}

abbrev pub pdb_zero_headroom : String
pdb_zero_headroom = "PDBZeroHeadroom"

abbrev pub pdb_tight_headroom : String
pdb_tight_headroom = "PDBTightHeadroom"

abbrev pub unmanaged_pod : String
unmanaged_pod = "UnmanagedPod"

abbrev pub stateful_workload : String
stateful_workload = "StatefulWorkload"

abbrev pub persistent_volume : String
persistent_volume = "PersistentVolume"

abbrev pub required_anti_affinity : String
required_anti_affinity = "RequiredAntiAffinity"

abbrev pub hard_topology_spread : String
hard_topology_spread = "HardTopologySpread"

abbrev pub blast_radius : String
blast_radius = "BlastRadius"

abbrev pub blast_radius_high : String
blast_radius_high = "BlastRadiusHigh"

pub record Thresholds : Type 0 where
  pub yellow_pods_moved : ℕ  -- int
  pub red_pods_moved : ℕ  -- int
  pub tight_pdb_headroom : ℕ  -- int32

-- `DefaultThresholds`
abbrev pub default_thresholds : Thresholds
default_thresholds = record { yellow_pods_moved = 5; red_pods_moved = 15; tight_pdb_headroom = 1 }

-- `New`: a `Classifier` is its thresholds.
unfoldable pub new_classifier : Thresholds → Thresholds
unfolding le64 le32
new_classifier t =
    let d = default_thresholds in
    record {
      yellow_pods_moved =
          if le64 t.yellow_pods_moved 0 then d.yellow_pods_moved else t.yellow_pods_moved;
      red_pods_moved = if le64 t.red_pods_moved 0 then d.red_pods_moved else t.red_pods_moved;
      tight_pdb_headroom =
          if le32 t.tight_pdb_headroom 0 then d.tight_pdb_headroom else t.tight_pdb_headroom;
    }

unfoldable pub severity : String → String
severity kind =
    if kind == pdb_zero_headroom
      || kind == unmanaged_pod
      || kind == stateful_workload
      || kind == blast_radius_high
    then impact_red
    else if kind == pdb_tight_headroom
        || kind == persistent_volume
        || kind == required_anti_affinity
        || kind == hard_topology_spread
        || kind == blast_radius
    then impact_yellow
    else impact_green

-- The loop of `ratingFor`, with the rating so far.
unfoldable pub rating_from : String → List ImpactReason → String
unfolding severity
rating_from rating [] = rating
rating_from rating (r ∷ reasons) =
    let raised = rating_from impact_yellow reasons in
    let unchanged = rating_from rating reasons in
    if severity r.kind == impact_red
    then impact_red
    else if severity r.kind == impact_yellow
    then raised
    else unchanged

unfoldable pub rating_for : List ImpactReason → String
unfolding rating_from
rating_for = rating_from impact_green

unfoldable pub severity_rank : String → ℕ
unfolding severity
severity_rank kind =
    if severity kind == impact_red then 2 else if severity kind == impact_yellow then 1 else 0

abbrev pub reason : String → String → ImpactReason
reason kind subject = record { kind = kind; subject = subject }

abbrev pub reason_if : Bool → String → String → List ImpactReason
reason_if c kind subject = if c then reason kind subject ∷ [] else []

unfoldable pub find_pod : ClusterSnapshot → String → String → Option Pod
unfolding find
find_pod snap namespace name = find (λ p. p.namespace == namespace && p.name == name) snap.pods

-- The branch on the owner.
unfoldable pub owner_reasons : Pod → String → List ImpactReason
owner_reasons pod key = elim pod.owner [
  | none ↦ reason unmanaged_pod key ∷ []
  | some o ↦ reason_if (o.kind == "StatefulSet") stateful_workload key
]

-- The loop over the budgets of the namespace.
unfoldable pub budget_reasons : Thresholds → Pod → List PodDisruptionBudget → List ImpactReason
unfolding le32
budget_reasons t pod [] = []
budget_reasons t pod (pdb ∷ pdbs) =
    let rest = budget_reasons t pod pdbs in
    if is_empty pdb.selector || not (matches pdb.selector pod.labels)
    then rest
    else if blocks pdb
    then reason pdb_zero_headroom (pdb_key pdb) ∷ rest
    else if le32 pdb.disruptions_allowed t.tight_pdb_headroom
    then reason pdb_tight_headroom (pdb_key pdb) ∷ rest
    else rest

-- `PodConstraints.Of(KindPodAntiAffinity)`
abbrev pub is_anti_affinity : Constraint → Bool
is_anti_affinity c = elim c.kind [ kind_pod_anti_affinity ↦ true | _ ↦ false ]

-- `PodConstraints.Of(KindTopologySpread)`
abbrev pub is_topology_spread : Constraint → Bool
is_topology_spread c = elim c.kind [ kind_topology_spread ↦ true | _ ↦ false ]

-- The two loops over the constraints of the pod.
unfoldable pub constraint_reasons : Option PodConstraints → String → List ImpactReason
unfolding keep
constraint_reasons none key = []
constraint_reasons (some pc) key =
    map (λ _. reason required_anti_affinity key) (keep is_anti_affinity pc.constraints)
    ++ map (λ _. reason hard_topology_spread key)
        (keep (λ c. c.hard) (keep is_topology_spread pc.constraints))

module _ (t : Thresholds) (snap : ClusterSnapshot) (analysis : Analysis) where
  -- What one move calls `add` with, in order.
  unfoldable pub move_reasons : Move → List ImpactReason
  unfolding find_pod owner_reasons budget_reasons constraint_reasons index_pdbs for_pod
  move_reasons move =
      let key = str_append move.namespace (str_append "/" move.pod) in
      elim (find_pod snap move.namespace move.pod) [
        | none ↦ []
        | some pod ↦
            owner_reasons pod key
            ++ reason_if pod.has_persistent_vol persistent_volume key
            ++ budget_reasons t pod (index_pdbs snap.pdbs pod.namespace)
            ++ constraint_reasons (for_pod analysis key) key
      ]

  unfoldable pub moves_reasons : List Move → List ImpactReason
  unfolding move_reasons
  moves_reasons [] = []
  moves_reasons (move ∷ moves) = move_reasons move ++ moves_reasons moves

  -- The last `if`: the number of moves is not negative.
  unfoldable pub size_reasons : PlanStep → List ImpactReason
  unfolding le64
  size_reasons step =
      let n = length step.moves in
      if le64 t.red_pods_moved n
      then reason blast_radius_high step.target_node ∷ []
      else reason_if (le64 t.yellow_pods_moved n) blast_radius step.target_node

  -- Every reason that is offered to `add`.
  unfoldable pub offered : PlanStep → List ImpactReason
  unfolding moves_reasons size_reasons
  offered step = moves_reasons step.moves ++ size_reasons step

-- `r.Kind + "|" + r.Subject`
abbrev pub reason_key : ImpactReason → String
reason_key r = str_append r.kind (str_append "|" r.subject)

-- The calls of `add`, one after another, with `seen` and `reasons`.
unfoldable pub add_each : List String → List ImpactReason → List ImpactReason → List ImpactReason
unfolding contains
add_each seen reasons [] = reasons
add_each seen reasons (r ∷ rest) =
    let dropped = add_each seen reasons rest in
    let added = add_each (reason_key r ∷ seen) (reasons ++ r ∷ []) rest in
    if contains seen (reason_key r) then dropped else added

-- The order of the list.
unfoldable pub weightier : ImpactReason → ImpactReason → Bool
unfolding severity_rank
weightier a b =
    if not (severity_rank a.kind == severity_rank b.kind)
    then ltb (severity_rank b.kind) (severity_rank a.kind)
    else if not (a.kind == b.kind)
    then string_lt a.kind b.kind
    else string_lt a.subject b.subject

unfoldable pub reasons_for : Thresholds → ClusterSnapshot → Analysis → PlanStep → List ImpactReason
unfolding offered add_each sort_by weightier
reasons_for t snap analysis step = sort_by weightier (add_each [] [] (offered t snap analysis step))

-- `ClassifyStep`
unfoldable pub classify_step :
    Thresholds → ClusterSnapshot → Analysis → PlanStep → String × List ImpactReason
unfolding reasons_for rating_for
classify_step t snap analysis step =
    let reasons = reasons_for t snap analysis step in (rating_for reasons, reasons)

abbrev pub rated : PlanStep → String × List ImpactReason → PlanStep
rated step answer = record step { impact = answer.0; reasons = answer.1 }

-- `ClassifyPlan`, on the steps of the plan.
unfoldable pub classify_plan :
    Thresholds → ClusterSnapshot → Analysis → List PlanStep → List PlanStep
unfolding classify_step
classify_plan t snap analysis steps =
    map (λ step. rated step (classify_step t snap analysis step)) steps
