-- ===== src/Model/Cluster.antt =====
-- internal/model/cluster.go: nodes, pods, disruption budgets and the snapshot that holds them.
-- An instant is its nanoseconds since Go's zero time; 0 is `time.Time{}`.
use k8s_dencer.Base.{
  ℕ, String, Bool, true, false, not, ◌||◌, Option, none, some, List, [], ◌∷◌, ◌==◌, string_eq,
  if◌then◌else◌, find, keep, get, lookup, le32,
}
use k8s_dencer.Model.Resources
use k8s_dencer.Model.Resources.{Resources, zero_resources, one_pod}
use k8s_dencer.Model.Labels.{
  Taint, Toleration, LabelSelector, NodeAffinity, PodAffinity, TopologySpreadConstraint,
}
use Prim.Native.String.{◌++◌ as str_append}

abbrev pub label_hostname : String
label_hostname = "kubernetes.io/hostname"

abbrev pub label_zone : String
label_zone = "topology.kubernetes.io/zone"

pub record Node : Type 0 where
  pub name : String
  pub labels : List (String × String)
  pub annotations : List (String × String)
  pub taints : List Taint
  pub capacity : Resources
  pub allocatable : Resources
  pub unschedulable : Bool
  pub ready : Bool
  pub created_at : ℕ
  pub usage : Option Resources

pub record OwnerRef : Type 0 where
  pub kind : String
  pub name : String

abbrev pub pod_running : String
pod_running = "Running"

abbrev pub pod_succeeded : String
pod_succeeded = "Succeeded"

abbrev pub pod_failed : String
pod_failed = "Failed"

pub record Pod : Type 0 where
  pub namespace : String
  pub name : String
  pub node_name : String
  pub labels : List (String × String)
  pub phase : String
  pub created_at : ℕ
  pub requests : Resources
  pub node_selector : List (String × String)
  pub tolerations : List Toleration
  pub node_affinity : Option NodeAffinity
  pub pod_affinity : Option PodAffinity
  pub topology_spread : List TopologySpreadConstraint
  pub ready : Bool
  pub owner : Option OwnerRef
  pub priority_class : String
  pub priority : ℕ  -- int32
  pub terminating : Bool
  pub has_persistent_vol : Bool
  pub do_not_disrupt : Bool
  pub usage : Option Resources

unfoldable pub pod_key : Pod → String
pod_key p = str_append p.namespace (str_append "/" p.name)

unfoldable pub is_mirror_pod : Pod → Bool
is_mirror_pod p = elim p.owner [ none ↦ false | some o ↦ o.kind == "Node" ]

unfoldable pub pinned_to_node : Pod → Bool
pinned_to_node p = elim p.owner [
  | none ↦ false
  | some o ↦ o.kind == "DaemonSet" || o.kind == "Node"
]

unfoldable pub is_movable : Pod → Bool
unfolding pinned_to_node
is_movable p =
    if p.terminating || p.phase == pod_succeeded || p.phase == pod_failed
    then false
    else if pinned_to_node p
    then false
    else if p.do_not_disrupt
    then false
    else true

unfoldable pub is_singleton : Pod → Bool
is_singleton p = elim p.owner [ none ↦ true | some o ↦ o.kind == "StatefulSet" ]

-- `Node.DoNotDisrupt`
unfoldable pub do_not_disrupt : Node → Bool
unfolding get lookup
do_not_disrupt n = get n.annotations "karpenter.sh/do-not-disrupt" == "true"

pub record PodDisruptionBudget : Type 0 where
  pub namespace : String
  pub name : String
  pub selector : Option LabelSelector
  pub disruptions_allowed : ℕ  -- int32, like the next three
  pub current_healthy : ℕ
  pub desired_healthy : ℕ
  pub expected_pods : ℕ

-- `PodDisruptionBudget.Blocks`
unfoldable pub blocks : PodDisruptionBudget → Bool
unfolding le32
blocks p = le32 p.disruptions_allowed 0

pub record ClusterSnapshot : Type 0 where
  pub taken_at : ℕ
  pub nodes : List Node
  pub pods : List Pod
  pub pdbs : List PodDisruptionBudget
  pub has_usage_data : Bool

unfoldable pub node_by_name : ClusterSnapshot → String → Option Node
unfolding find
node_by_name s name = find (λ n. n.name == name) s.nodes

unfoldable pub pods_on_node : ClusterSnapshot → String → List Pod
unfolding keep
pods_on_node s node_name = keep (λ p. p.node_name == node_name) s.pods

-- The loop of `RequestedOnNode`, with its running total.
requested_from : Resources → List Pod → String → Resources
requested_from total [] node_name = total
requested_from total (p ∷ ps) node_name =
    requested_from
      (if not (p.node_name == node_name)
        then total
        else if p.phase == pod_succeeded || p.phase == pod_failed
        then total
        else Resources.add (Resources.add total p.requests) one_pod)
      ps node_name

unfoldable pub requested_on_node : ClusterSnapshot → String → Resources
unfolding requested_from Resources.add
requested_on_node s node_name = requested_from zero_resources s.pods node_name
