-- ===== src/Planner/Policy.antt =====
-- internal/planner/planner.go: the options, the policy tests and the orders that the planner sorts by.
use k8s_dencer.Base.{
  ℕ, suc, ◌+◌, String, Bool, true, false, not, ◌&&◌, ◌||◌, none, some, List, [], ◌∷◌, ◌==◌,
  string_eq, nat_eq, if◌then◌else◌, ltb, lt64, le64, any, keep, lookup, contains, string_lt,
  sort_by, Float64,
}
use k8s_dencer.Model.Resources
use k8s_dencer.Model.Resources.{Resources}
use k8s_dencer.Model.Cluster.{
  Node, Pod, pod_key, do_not_disrupt, ClusterSnapshot, requested_on_node,
}
use k8s_dencer.Constraints.State.{Placement}
use k8s_dencer.Constraints.Placement.{free_of}

-- Whether a map has a key.
has_key : String → List (String × String) → Bool
unfolding lookup
has_key k labels = elim (lookup k labels) [ some _ ↦ true | none ↦ false ]

-- The loop of `occupiedInSnapshot`; the count is at most the number of nodes.
unfoldable pub occupied_in : ClusterSnapshot → List Node → ℕ
occupied_in snap [] = 0
occupied_in snap (n ∷ ns) =
    let rest = occupied_in snap ns in
    if Resources.is_zero (requested_on_node snap n.name) then rest else suc rest

unfoldable pub occupied_in_snapshot : ClusterSnapshot → ℕ
unfolding occupied_in
occupied_in_snapshot snap = occupied_in snap snap.nodes

-- Larger requests first, keys on a tie.
unfoldable pub larger : Pod → Pod → Bool
larger p q =
    let a = p.requests in
    let b = q.requests in
    if not (a.milli_cpu == b.milli_cpu)
    then lt64 b.milli_cpu a.milli_cpu
    else if not (a.memory_bytes == b.memory_bytes)
    then lt64 b.memory_bytes a.memory_bytes
    else string_lt (pod_key p) (pod_key q)

unfoldable pub sort_pods_by_size_desc : List Pod → List Pod
unfolding sort_by
sort_pods_by_size_desc = sort_by larger

module _ (fl : Float64) where
  open fl use {F, of_int64, div, lt, eq}

  pub record Options : Type 0 where
    pub max_steps : ℕ  -- int
    pub exclude_node_labels : List String
    pub exclude_namespaces : List String
    pub min_node_age : ℕ  -- int64 nanoseconds
    pub now : ℕ
    pub pack_ceiling : fl.F

  -- `now.Sub(created) < MinNodeAge`, said without the difference: the saturation of `Sub` changes no
  -- verdict, since the age that it is compared with is a duration too.
  unfoldable pub node_excluded : Options → Node → ℕ → Bool
  unfolding any has_key lt64
  node_excluded o n now =
      any (λ key. has_key key n.labels) o.exclude_node_labels
      || (lt64 0 o.min_node_age
          && not (n.created_at == 0)
          && ltb now (n.created_at + o.min_node_age))

  unfoldable pub namespace_excluded : Options → String → Bool
  unfolding contains
  namespace_excluded o ns = contains o.exclude_namespaces ns

  -- `ratio` and `DominantRatio` of model/resources.go.
  ratio : ℕ → ℕ → F
  unfolding le64
  ratio v capacity = if le64 capacity 0 then of_int64 0 else div (of_int64 v) (of_int64 capacity)

  abbrev larger_of : F → F → F
  larger_of m b = if lt m b then b else m

  unfoldable pub dominant_ratio : Resources → Resources → F
  unfolding ratio
  dominant_ratio r capacity =
      larger_of
        (larger_of (ratio r.milli_cpu capacity.milli_cpu)
          (ratio r.memory_bytes capacity.memory_bytes))
        (ratio r.pods capacity.pods)

  unfoldable pub requested_ratio : Node → Placement → F
  unfolding dominant_ratio free_of Resources.sub
  requested_ratio n p =
      dominant_ratio (Resources.sub n.allocatable (free_of p n.name)) n.allocatable

  -- Emptiest first, names on a tie.
  unfoldable pub emptier : Placement → Node → Node → Bool
  unfolding requested_ratio
  emptier p a b =
      let ri = requested_ratio a p in
      let rj = requested_ratio b p in if not (eq ri rj) then lt ri rj else string_lt a.name b.name

  unfoldable pub sort_nodes_for_draining : Placement → List Node → List Node
  unfolding sort_by emptier
  sort_nodes_for_draining p nodes = sort_by (emptier p) nodes

  -- `drainCandidates` of greedy.go.
  unfoldable pub drain_candidates : ClusterSnapshot → Options → ℕ → List Node
  unfolding keep node_excluded do_not_disrupt
  drain_candidates snap opts now =
      keep (λ n. n.ready && not (node_excluded opts n now) && not (do_not_disrupt n)) snap.nodes
