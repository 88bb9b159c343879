-- ===== src/Examples/Fleet.antt =====
-- Three nodes in two zones, three replicas that spread over the nodes, a pinned agent and a budget.
use k8s_dencer.Base.{
  All, ℕ, ◌*◌, String, true, false, some, none, List, [], ◌∷◌, ◌≡◌, refl, inl, inr, ◌==◌, string_eq,
  lookup, Bool-cases, arith, thousandths,
}
use k8s_dencer.Base.{le64, lt64, add64, max64, sub64, lt32, le32, to_int32, any, find, contains}
use k8s_dencer.Model.Resources
use k8s_dencer.Model.Labels.{matches}
use k8s_dencer.Model.Cluster.{is_movable}
use k8s_dencer.Constraints.SpreadIndex.{selector_fingerprint}
use k8s_dencer.Constraints.Placement.{names_of, place, remove}
use k8s_dencer.Constraints.Predicates.{
  fits_taints, fits_node_selector, fits_node_affinity, fits_resources, fits_pod_affinity,
  fits_pod_anti_affinity,
}
use k8s_dencer.Constraints.CanPlace.{can_place, static_checks, fits_topology_spread}
use k8s_dencer.Constraints.Coherence.Count.{Distinct}
use mathlib.Core.Path.{subst}
use k8s_dencer.Constraints.State.{NodeState}
use k8s_dencer.Constraints.Placement.{new_placement}
use k8s_dencer.Constraints.Capacity.Account.{IsSmall, IsBasis, IsWithin}
use k8s_dencer.Constraints.Capacity.Fit.{IsBudgeted}
use k8s_dencer.Safety.Feasible.{IsSane, fresh-IsBudgeted}
use k8s_dencer.Model.Resources.{Resources}
use k8s_dencer.Model.Labels.{LabelSelector, TopologySpreadConstraint}
use k8s_dencer.Model.Cluster.{
  Node, Pod, PodDisruptionBudget, ClusterSnapshot, label_hostname, label_zone,
}

abbrev pub sized : ℕ → Resources
sized cpu = record { milli_cpu = cpu; memory_bytes = 1000000 * cpu; pods = 0 }

abbrev pub node_of : String → String → Node
node_of name zone = record {
  name = name;
  labels = (label_hostname, name) ∷ (label_zone, zone) ∷ [];
  annotations = [];
  taints = [];
  capacity = record (sized 4000) { pods = 10 };
  allocatable = record (sized 4000) { pods = 10 };
  unschedulable = false;
  ready = true;
  created_at = 0;
  usage = none;
}

abbrev pub web_selector : LabelSelector
web_selector = record { match_labels = ("app", "web") ∷ []; match_expressions = [] }

abbrev pub by_zone : TopologySpreadConstraint
by_zone = record {
  max_skew = 2;
  topology_key = label_zone;
  when_unsatisfiable = "DoNotSchedule";
  label_selector = some web_selector;
  min_domains = none;
}

abbrev pub pod_of : String → String → String → ℕ → Pod
pod_of name kind node_name cpu = record {
  namespace = "shop";
  name = name;
  node_name = node_name;
  labels = ("app", "web") ∷ [];
  phase = "Running";
  created_at = 0;
  requests = sized cpu;
  node_selector = [];
  tolerations = [];
  node_affinity = none;
  pod_affinity = none;
  topology_spread = by_zone ∷ [];
  ready = true;
  owner = some (record { kind = kind; name = "web" });
  priority_class = "";
  priority = 0;
  terminating = false;
  has_persistent_vol = false;
  do_not_disrupt = false;
  usage = none;
}

abbrev pub web_1 : Pod
web_1 = pod_of "web-1" "ReplicaSet" "a" 500

abbrev pub web_2 : Pod
web_2 = pod_of "web-2" "ReplicaSet" "b" 1000

abbrev pub web_3 : Pod
web_3 = pod_of "web-3" "ReplicaSet" "c" 1500

abbrev pub agent : Pod
agent = record (pod_of "agent" "DaemonSet" "a" 100) { labels = []; topology_spread = [] }

abbrev pub budget_of : LabelSelector → ℕ → PodDisruptionBudget
budget_of selector allowed = record {
  namespace = "shop";
  name = "web";
  selector = some selector;
  disruptions_allowed = allowed;
  current_healthy = 3;
  desired_healthy = 2;
  expected_pods = 3;
}

abbrev pub fleet : ClusterSnapshot
fleet = record {
  taken_at = 1000;
  nodes = node_of "a" "z1" ∷ node_of "b" "z1" ∷ node_of "c" "z2" ∷ [];
  pods = web_1 ∷ agent ∷ web_2 ∷ web_3 ∷ [];
  pdbs = budget_of web_selector 1 ∷ [];
  has_usage_data = false;
}

-- An empty selector, which selects every pod.
abbrev pub empty_selector : LabelSelector
empty_selector = record { match_labels = []; match_expressions = [] }

-- The first node of a new placement.
abbrev pub on_a : NodeState
on_a = record {
  node = node_of "a" "z1";
  free = record (sized 3400) { pods = 8 };
  occupants = web_1 ∷ agent ∷ [];
}

pub distinct : Distinct (names_of fleet.nodes)
unfolding names_of contains
distinct = (refl, (refl, (refl, tt)))

-- Far below the bounds of the accounting.
pub small : All IsSmall fleet.pods
small = (
  record { cpu = omega arith; memory = omega arith; pods = omega arith },
  (
    record { cpu = omega arith; memory = omega arith; pods = omega arith },
    (
      record { cpu = omega arith; memory = omega arith; pods = omega arith },
      (record { cpu = omega arith; memory = omega arith; pods = omega arith }, tt),
    ),
  ),
)

pub bases : All (λ n. IsBasis n.allocatable) fleet.nodes
bases = (
  record { cpu = omega arith; memory = omega arith; pods = omega arith },
  (
    record { cpu = omega arith; memory = omega arith; pods = omega arith },
    (record { cpu = omega arith; memory = omega arith; pods = omega arith }, tt),
  ),
)

-- Everything that an answer of the placement evaluator computes with.
unfoldable pub evaluator : Unit {0}
unfolding le64 lt64 add64 max64 sub64 lt32 le32 to_int32 any find Resources.fits Resources.sub
    matches selector_fingerprint is_movable new_placement place remove can_place static_checks
    fits_topology_spread fits_taints fits_node_selector fits_node_affinity fits_resources
    fits_pod_affinity fits_pod_anti_affinity
evaluator = tt

-- What holds of every value of a map holds of what is looked up.
lookup-All {ℓ} :
    {A : Type 0} (P : A → Type ℓ) (m : List (String × A)) (k : String) (v : A)
    → All (λ e. P e.1) m
    → lookup k m ≡ some v
    → P v
unfolding lookup
lookup-All P [] k v a e = absurd cc
lookup-All P ((j, w) ∷ m) k v a e = elim (Bool-cases (j == k)) [
  | inl same ↦ let e' = (rw (same, lookup) at e) in let w_v : w ≡ v = cc in subst P w_v a.0
  | inr other ↦ lookup-All P m k v a.1 (rw (other, lookup) at e)
]

pub is_sane : IsSane thousandths fleet
unfolding new_placement
is_sane = record {
  sizes = bases;
  small = small;
  within = λ n ns e.
      lookup-All (λ (x : NodeState). IsWithin x.node.allocatable x.occupants)
        (new_placement thousandths fleet).nodes n ns
        (
          record { cpu = omega arith; memory = omega arith; pods = omega arith },
          (
            record { cpu = omega arith; memory = omega arith; pods = omega arith },
            (record { cpu = omega arith; memory = omega arith; pods = omega arith }, tt),
          ),
        )
        e;
}

pub fleet-IsBudgeted : IsBudgeted (λ n. n.allocatable) (new_placement thousandths fleet)
unfolding new_placement evaluator
fleet-IsBudgeted = fresh-IsBudgeted thousandths fleet is_sane
