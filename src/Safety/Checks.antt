-- ===== src/Safety/Checks.antt =====
-- internal/safety/safety.go: limits, refusals and the checks, in the order of the code.
use k8s_dencer.Base.{
  ℕ, ◌+◌, ◌-◌, String, Bool, true, false, not, ◌&&◌, Option, none, some, List, [], ◌∷◌, ◌==◌,
  string_eq, if◌then◌else◌, lt64, le64, find, Float64,
}
use k8s_dencer.Model.Labels.{matches, is_empty}
use k8s_dencer.Model.Cluster.{
  Node, Pod, is_movable, PodDisruptionBudget, blocks, ClusterSnapshot, node_by_name,
}
use k8s_dencer.Model.Plan.{PlanStep, requires_maintenance_window}
use k8s_dencer.Constraints.State.{Placement}
use k8s_dencer.Constraints.Placement.{new_placement, occupants_of, place, remove}
use k8s_dencer.Constraints.CanPlace.{can_place}

pub record Limits : Type 0 where
  pub max_nodes_per_run : ℕ  -- int
  pub min_ready_nodes : ℕ  -- int
  pub allow_red : Bool

-- `DefaultLimits`
abbrev pub default_limits : Limits
default_limits = record { max_nodes_per_run = 5; min_ready_nodes = 3; allow_red = false }

-- `Windows`: how windows are found is not the guard's business. Answers are a verdict and a reason.
abbrev pub Windows : Type 0
Windows = Node → Bool × String

pub record Guard : Type 0 where
  pub limits : Limits
  pub windows : Option Windows

pub data Rule : Type 0 where
  red_requires_window max_nodes_per_run min_ready_nodes step_freshness pdb_headroom node_not_found :
      Rule

pub data Blocked : Type 0 where
  too_many_drained : (drained : ℕ) → Blocked
  no_target : (sequence_number : ℕ) → Blocked
  node_gone : (target : String) → Blocked
  no_windows : (sequence_number : ℕ) (rationale : String) → Blocked
  red_refused : (sequence_number : ℕ) (why rationale : String) → Blocked
  below_floor : (target : String) (ready floor : ℕ) → Blocked
  nowhere_to_go : (namespace name target : String) → Blocked
  no_headroom : (pdb : PodDisruptionBudget) (namespace name : String) → Blocked

unfoldable pub rule_of : Blocked → Rule
rule_of (too_many_drained _) = Rule.max_nodes_per_run
rule_of (no_target _) = step_freshness
rule_of (node_gone _) = node_not_found
rule_of (no_windows _ _) = red_requires_window
rule_of (red_refused _ _ _) = red_requires_window
rule_of (below_floor _ _ _) = Rule.min_ready_nodes
rule_of (nowhere_to_go _ _ _) = step_freshness
rule_of (no_headroom _ _ _) = pdb_headroom

unfoldable pub check_red : Guard → PlanStep → Node → Option Blocked
unfolding requires_maintenance_window
check_red g step node =
    if not (requires_maintenance_window step.impact)
    then none
    else if g.limits.allow_red
    then none
    else elim g.windows [
      | none ↦ some (no_windows step.sequence_number step.rationale)
      | some allows_red_on ↦
          let (allowed, why) = allows_red_on node in
          if allowed then none else some (red_refused step.sequence_number why step.rationale)
    ]

abbrev pub schedulable : Node → Bool
schedulable n = n.ready && not n.unschedulable

-- The loop's counter is at most the number of nodes, so it is kept without a width.
unfoldable pub ready_count : List Node → ℕ
ready_count [] = 0
ready_count (n ∷ ns) = let rest = ready_count ns in if schedulable n then 1 + rest else rest

-- The count without the target: `ready--` happens only for a node that was counted.
unfoldable pub ready_without : Node → List Node → ℕ
unfolding ready_count
ready_without target nodes = if schedulable target then ready_count nodes - 1 else ready_count nodes

unfoldable pub check_node_floor : Guard → Node → ClusterSnapshot → Option Blocked
unfolding lt64 le64 ready_without
check_node_floor g target live =
    if le64 g.limits.min_ready_nodes 0
    then none
    else if lt64 (ready_without target live.nodes) g.limits.min_ready_nodes
    then some (below_floor target.name (ready_without target live.nodes) g.limits.min_ready_nodes)
    else none

-- `hasHome`: the first other node that accepts the pod receives it.
unfoldable pub home_from : Placement → Pod → String → List String → Placement × Bool
home_from p pod draining [] = (p, false)
home_from p pod draining (candidate ∷ rest) =
    let skipped = home_from p pod draining rest in
    let (p', refused) = can_place p pod candidate in
    let later = home_from p' pod draining rest in
    if candidate == draining
    then skipped
    else elim refused [ none ↦ (place p' pod candidate, true) | some _ ↦ later ]

unfoldable pub has_home : Placement → Pod → String → Placement × Bool
unfolding home_from
has_home p pod draining = home_from p pod draining p.node_order

-- `for _, pod := range occupants { placement.Remove(pod) }`
unfoldable pub remove_each : Placement → List Pod → Placement
remove_each p [] = p
remove_each p (pod ∷ pods) = remove_each (remove p pod) pods

-- The loop that finds each movable pod a home. The placement is returned for the proofs.
unfoldable pub rehome_each : Placement → List Pod → String → Placement × Option Blocked
unfolding has_home
rehome_each p [] target = (p, none)
rehome_each p (pod ∷ pods) target =
    let skipped = rehome_each p pods target in
    let (p', found) = has_home p pod target in
    let later = rehome_each p' pods target in
    if not (is_movable pod)
    then skipped
    else if found
    then later
    else (p', some (nowhere_to_go pod.namespace pod.name target))

module _ (fl : Float64) where
  unfoldable pub check_step_feasible : PlanStep → ClusterSnapshot → Option Blocked
  unfolding new_placement occupants_of remove_each rehome_each
  check_step_feasible step live =
      let placement = new_placement fl live in
      let occupants = occupants_of placement step.target_node in
      (rehome_each (remove_each placement occupants) occupants step.target_node).1

  -- `CheckStep`; `drained` is `run.NodesDrainedSoFar`.
  unfoldable pub check_step : Guard → PlanStep → ClusterSnapshot → ℕ → Option Blocked
  unfolding lt64 le64
  check_step g step live drained =
      if lt64 0 g.limits.max_nodes_per_run && le64 g.limits.max_nodes_per_run drained
      then some (too_many_drained drained)
      else if step.target_node == ""
      then some (no_target step.sequence_number)
      else elim (node_by_name live step.target_node) [
        | none ↦ some (node_gone step.target_node)
        | some node ↦ elim (check_red g step node) [
          | some b ↦ some b
          | none ↦ elim (check_node_floor g node live) [
            | some b ↦ some b
            | none ↦ check_step_feasible step live
          ]
        ]
      ]

-- Whether a budget speaks of a pod, as `CheckEviction` reads it.
unfoldable pub covers : PodDisruptionBudget → Pod → Bool
covers pdb pod =
    pdb.namespace == pod.namespace && not (is_empty pdb.selector) && matches pdb.selector pod.labels

unfoldable pub check_eviction : Pod → ClusterSnapshot → Option Blocked
unfolding find covers
check_eviction pod live = elim (find (λ pdb. covers pdb pod && blocks pdb) live.pdbs) [
  | none ↦ none
  | some pdb ↦ some (no_headroom pdb pod.namespace pod.name)
]
