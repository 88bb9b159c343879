-- ===== src/Constraints/Placement.antt =====
-- internal/constraints/placement.go: building a placement and moving pods in it. Values are
-- immutable here, so `Clone` is the identity; callers that iterate over `Occupants` while they remove
-- pods copy the slice first, which a list by value stands for.
use k8s_dencer.Base.{
  String, Bool, not, ◌&&◌, Option, none, some, List, [], ◌∷◌, ◌++◌, ◌==◌, string_eq, if◌then◌else◌,
  lookup, insert, any, Float64, minus_one,
}
use k8s_dencer.Model.Resources
use k8s_dencer.Model.Resources.{Resources, zero_resources, one_pod}
use k8s_dencer.Model.Cluster.{Node, Pod, is_movable, ClusterSnapshot}
use k8s_dencer.Constraints.State.{NodeState, Placement}
use k8s_dencer.Constraints.SpreadIndex.{adjust_spread}

-- What a pod takes of a node: its requests and one pod.
abbrev pub need : Pod → Resources
need pod = Resources.add pod.requests one_pod

-- A pod joins a node.
unfoldable pub admit : NodeState → Pod → NodeState
unfolding Resources.add Resources.sub
admit ns pod = record ns {
  free = Resources.sub ns.free (need pod);
  occupants = ns.occupants ++ pod ∷ [];
}

-- The second loop of `NewPlacementCeiling`.
unfoldable pub admit_all : List Pod → List (String × NodeState) → List (String × NodeState)
unfolding admit lookup insert
admit_all [] nodes = nodes
admit_all (pod ∷ pods) nodes = admit_all pods (
    if pod.node_name == "" then nodes else elim (lookup pod.node_name nodes) [
      | none ↦ nodes
      | some ns ↦ insert pod.node_name (admit ns pod) nodes
    ])

unfoldable pub names_of : List Node → List String
names_of [] = []
names_of (n ∷ ns) = n.name ∷ names_of ns

module _ (fl : Float64) where
  open fl use {F, of_int64, to_int64, mul, lt}

  -- A node's capacity under a ceiling: CPU and memory are scaled, the pod count stays whole.
  unfoldable pub capacity_basis : F → Node → Resources
  capacity_basis ceiling n =
      if lt (of_int64 0) ceiling && lt ceiling (of_int64 1)
      then record n.allocatable {
        milli_cpu = to_int64 (mul (of_int64 n.allocatable.milli_cpu) ceiling);
        memory_bytes = to_int64 (mul (of_int64 n.allocatable.memory_bytes) ceiling);
      }
      else n.allocatable

  abbrev fresh_node : F → Node → NodeState
  fresh_node ceiling n = record { node = n; free = capacity_basis ceiling n; occupants = [] }

  -- The first loop: later nodes of a name replace earlier ones in the map, not in the order.
  unfoldable pub add_nodes : F → List Node → List (String × NodeState) → List (String × NodeState)
  unfolding insert capacity_basis
  add_nodes ceiling [] nodes = nodes
  add_nodes ceiling (n ∷ ns) nodes =
      add_nodes ceiling ns (insert n.name (fresh_node ceiling n) nodes)

  unfoldable pub new_placement_ceiling : ClusterSnapshot → F → Placement
  unfolding add_nodes names_of admit_all
  new_placement_ceiling snap ceiling = record {
    nodes = admit_all snap.pods (add_nodes ceiling snap.nodes []);
    node_order = names_of snap.nodes;
    spread = [];
  }

  unfoldable pub new_placement : ClusterSnapshot → Placement
  unfolding new_placement_ceiling
  new_placement snap = new_placement_ceiling snap (of_int64 0)

unfoldable pub free_of : Placement → String → Resources
unfolding lookup
free_of p node_name = elim (lookup node_name p.nodes) [ some ns ↦ ns.free | none ↦ zero_resources ]

unfoldable pub occupants_of : Placement → String → List Pod
unfolding lookup
occupants_of p node_name = elim (lookup node_name p.nodes) [ some ns ↦ ns.occupants | none ↦ [] ]

-- `IsEmpty`: no movable occupant.
unfoldable pub is_vacant : Placement → String → Bool
unfolding occupants_of any
is_vacant p node_name = not (any is_movable (occupants_of p node_name))

unfoldable pub place : Placement → Pod → String → Placement
unfolding lookup insert admit adjust_spread
place p pod node_name = elim (lookup node_name p.nodes) [
  | none ↦ p
  | some ns ↦
      let pod' = record pod { node_name = node_name } in
      adjust_spread (record p { nodes = insert node_name (admit ns pod') p.nodes }) pod' node_name 1
]

unfoldable pub same_key : Pod → Pod → Bool
same_key a b = a.namespace == b.namespace && a.name == b.name

-- The first occupant with the pod's key, and the occupants without it.
unfoldable pub take_out : Pod → List Pod → Option (Pod × List Pod)
unfolding same_key
take_out pod [] = none
take_out pod (occupant ∷ rest) =
    if same_key occupant pod then some (occupant, rest) else elim (take_out pod rest) [
      | none ↦ none
      | some (found, left) ↦ some (found, occupant ∷ left)
    ]

-- The occupant leaves, and the caller's copy of its requests is given back.
unfoldable pub release : NodeState → Pod → List Pod → NodeState
unfolding Resources.add
release ns pod left = record ns {
  free = Resources.add (Resources.add ns.free pod.requests) one_pod;
  occupants = left;
}

unfoldable pub remove : Placement → Pod → Placement
unfolding lookup insert take_out release adjust_spread
remove p pod = elim (lookup pod.node_name p.nodes) [
  | none ↦ p
  | some ns ↦ elim (take_out pod ns.occupants) [
    | none ↦ p
    | some (occupant, left) ↦
        adjust_spread (record p { nodes = insert pod.node_name (release ns pod left) p.nodes })
          occupant pod.node_name minus_one
  ]
]
