-- ===== src/Constraints/CanPlace.antt =====
-- internal/constraints/placement.go: hard topology spread, `CanPlace` and `CandidateNodes`. They read
-- the spread index, which memoises, so they return the placement too.
use k8s_dencer.Base.{
  ℕ, String, Bool, not, ◌&&◌, ◌||◌, Option, none, some, List, [], ◌∷◌, ◌==◌, string_eq, nat_eq,
  if◌then◌else◌, lookup, any, sub64, lt64, lt32, to_int32, minus_one,
}
use k8s_dencer.Model.Labels.{TopologySpreadConstraint, matches, is_hard}
use k8s_dencer.Model.Cluster.{Pod}
use k8s_dencer.Constraints.State.{NodeState, Placement}
use k8s_dencer.Constraints.SpreadIndex.{spread_counts, bump, count_in}
use k8s_dencer.Constraints.Placement.{same_key}
use k8s_dencer.Constraints.Predicates.{
  Refusal, not_in_snapshot, cordoned, not_ready, domain_missing, skewed, fits_taints,
  fits_node_selector, fits_node_affinity, fits_resources, fits_pod_anti_affinity, fits_pod_affinity,
}

-- The occupants that the index counted for the pod itself.
counted_self : Pod → TopologySpreadConstraint → Pod → Bool
unfolding same_key
counted_self pod tsc occupant =
    same_key pod occupant
    && matches tsc.label_selector occupant.labels
    && occupant.namespace == pod.namespace

-- `counts[domain]--` if the pod is placed and the index counted it.
without_self : Placement → Pod → TopologySpreadConstraint → List (String × ℕ) → List (String × ℕ)
unfolding lookup bump any counted_self
without_self p pod tsc counts = elim (lookup pod.node_name p.nodes) [
  | none ↦ counts
  | some ns ↦ elim (lookup tsc.topology_key ns.node.labels) [
    | none ↦ counts
    | some domain ↦
        if any (counted_self pod tsc) ns.occupants then bump domain minus_one counts else counts
  ]
]

unfoldable pub domain_counts :
    Placement → Pod → TopologySpreadConstraint → Placement × List (String × ℕ)
unfolding spread_counts without_self
domain_counts p pod tsc =
    let (p', counts) = spread_counts p pod.namespace tsc in (p', without_self p' pod tsc counts)

-- The loop for the smallest count, from -1.
min_from : ℕ → List (String × ℕ) → ℕ
min_from m [] = m
min_from m ((d, c) ∷ counts) = min_from (if m == minus_one || lt64 c m then c else m) counts

unfoldable pub min_count : List (String × ℕ) → ℕ
unfolding min_from
min_count counts = let m = min_from minus_one counts in if lt64 m 0 then 0 else m

-- One hard constraint, with the tally as the caller copied it.
unfoldable pub check_skew : TopologySpreadConstraint → String → List (String × ℕ) → Option Refusal
unfolding bump count_in min_count
check_skew tsc domain tallied =
    let counts = bump domain 1 tallied in
    let skew = sub64 (count_in counts domain) (min_count counts) in
    if lt32 tsc.max_skew (to_int32 skew)
    then some (skewed tsc.topology_key skew domain tsc.max_skew)
    else none

-- One round of `fitsTopologySpread`.
unfoldable pub fits_spread_constraint :
    Placement → Pod → String → TopologySpreadConstraint → Placement × Option Refusal
unfolding is_hard lookup domain_counts check_skew
fits_spread_constraint p pod node_name tsc =
    if is_hard tsc
    then elim (lookup node_name p.nodes) [
      | none ↦ (p, none)
      | some target ↦ elim (lookup tsc.topology_key target.node.labels) [
        | none ↦ (p, some (domain_missing node_name tsc.topology_key))
        | some domain ↦
            let (p', tallied) = domain_counts p pod tsc in (p', check_skew tsc domain tallied)
      ]
    ]
    else (p, none)

unfoldable pub spread_from :
    Placement → Pod → String → List TopologySpreadConstraint → Placement × Option Refusal
unfolding fits_spread_constraint
spread_from p pod node_name [] = (p, none)
spread_from p pod node_name (tsc ∷ rest) =
    let (p', refused) = fits_spread_constraint p pod node_name tsc in
    let others = spread_from p' pod node_name rest in
    elim refused [ some r ↦ (p', some r) | none ↦ others ]

unfoldable pub fits_topology_spread : Placement → Pod → String → Placement × Option Refusal
unfolding spread_from
fits_topology_spread p pod node_name = spread_from p pod node_name pod.topology_spread

abbrev first_refusal : List (Option Refusal) → Option Refusal
first_refusal [] = none
first_refusal (some r ∷ rest) = some r
first_refusal (none ∷ rest) = first_refusal rest

-- The checks that do not touch the index, cheapest first.
unfoldable pub static_checks : Placement → Pod → String → NodeState → Option Refusal
static_checks p pod node_name ns =
    if ns.node.unschedulable
    then some (cordoned node_name)
    else if not ns.node.ready
    then some (not_ready node_name)
    else first_refusal (
        fits_taints pod ns.node
        ∷ fits_node_selector pod ns.node
        ∷ fits_node_affinity pod ns.node
        ∷ fits_resources pod ns
        ∷ fits_pod_anti_affinity p pod ns
        ∷ fits_pod_affinity p pod ns
        ∷ [])

-- `CanPlace`: `none` is `true, ""`.
unfoldable pub can_place : Placement → Pod → String → Placement × Option Refusal
unfolding lookup
can_place p pod node_name = elim (lookup node_name p.nodes) [
  | none ↦ (p, some (not_in_snapshot node_name))
  | some ns ↦ elim (static_checks p pod node_name ns) [
    | some r ↦ (p, some r)
    | none ↦ fits_topology_spread p pod node_name
  ]
]

-- The loop of `CandidateNodes`.
unfoldable pub candidates_from : Placement → Pod → List String → Placement × List String
unfolding can_place
candidates_from p pod [] = (p, [])
candidates_from p pod (name ∷ rest) =
    let skipped = candidates_from p pod rest in
    let (p', refused) = can_place p pod name in
    let (p'', out) = candidates_from p' pod rest in
    if name == pod.node_name
    then skipped
    else elim refused [ none ↦ (p'', name ∷ out) | some _ ↦ (p'', out) ]

unfoldable pub candidate_nodes : Placement → Pod → Placement × List String
unfolding candidates_from
candidate_nodes p pod = candidates_from p pod p.node_order
