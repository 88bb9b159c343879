-- ===== src/Constraints/Analyzer.antt =====
-- internal/constraints/analyzer.go and constraints.go: the constraints of every pod of a snapshot, whether
-- it may move, and where to. A subject is what the code prints it from; the explanations are left out.
use Prim.Native.String.{◌++◌ as str_append}
use k8s_dencer.Base.{
  String, Bool, true, false, not, ◌&&◌, ◌||◌, Option, none, some, List, [], ◌∷◌, ◌++◌, map, ◌==◌,
  string_eq, if◌then◌else◌, any, keep, contains, sort_strings,
}
use k8s_dencer.Model.Labels.{
  Taint, tolerates_taint, prefer_no_schedule, PodAffinityTerm, NodeSelectorTerm, labels_match,
  matches, is_empty, is_hard,
}
use k8s_dencer.Model.Cluster.{
  Node, Pod, OwnerRef, PodDisruptionBudget, ClusterSnapshot, is_movable, is_mirror_pod, blocks,
}
use k8s_dencer.Constraints.State.{Placement}
use k8s_dencer.Constraints.Predicates.{term_selector}
use k8s_dencer.Constraints.CanPlace.{candidate_nodes}

-- `Kind` is a Go string with these constants.
pub data Kind : Type 0 where
  kind_resources kind_node_selector kind_node_affinity kind_pod_affinity kind_pod_anti_affinity
        kind_topology_spread kind_pdb kind_taint kind_controller_pinned kind_do_not_disrupt
        kind_persistent_volume :
      Kind

-- What a `Subject` string is printed from.
pub data Subject : Type 0 where
  unnamed : Subject
  named : (name : String) → Subject
  owned_by : (owner : OwnerRef) → Subject
  by_labels : (wanted : List (String × String)) → Subject
  by_terms : (terms : List NodeSelectorTerm) → Subject
  by_taints : (taints : List String) → Subject

pub record Constraint : Type 0 where
  pub kind : Kind
  pub subject : Subject
  pub hard : Bool
  pub blocking : Bool

pub record PodConstraints : Type 0 where
  pub namespace : String
  pub name : String
  pub node_name : String
  pub movable : Bool
  pub constraints : List Constraint
  pub is_pinned : Bool
  pub candidates : List String

abbrev pub constraint_of : Kind → Subject → Bool → Bool → Constraint
constraint_of kind subject hard blocking = record {
  kind = kind;
  subject = subject;
  hard = hard;
  blocking = blocking;
}

-- `append` of one constraint under a condition.
abbrev pub only_if : Bool → Constraint → List Constraint
only_if true c = c ∷ []
only_if false c = []

abbrev is_daemon_set_pod : Pod → Bool
is_daemon_set_pod pod = elim pod.owner [ none ↦ false | some o ↦ o.kind == "DaemonSet" ]

abbrev owner_subject : Option OwnerRef → Subject
owner_subject none = unnamed
owner_subject (some o) = owned_by o

-- The constraints of the pod's own marks, in the order of `analyzePod`.
unfoldable pub own_constraints : Pod → List Constraint
unfolding is_mirror_pod
own_constraints pod =
    only_if pod.do_not_disrupt (constraint_of kind_do_not_disrupt unnamed true true)
    ++ only_if (is_daemon_set_pod pod)
        (constraint_of kind_controller_pinned (owner_subject pod.owner) true true)
    ++ only_if (is_mirror_pod pod)
        (constraint_of kind_controller_pinned (owner_subject pod.owner) true true)
    ++ only_if pod.terminating (constraint_of kind_controller_pinned unnamed true true)

-- `indexPDBs`, read at one namespace.
unfoldable pub index_pdbs : List PodDisruptionBudget → String → List PodDisruptionBudget
unfolding keep
index_pdbs pdbs namespace = keep (λ pdb. pdb.namespace == namespace) pdbs

unfoldable pub pdb_key : PodDisruptionBudget → String
pdb_key pdb = str_append pdb.namespace (str_append "/" pdb.name)

-- The loop of `pdbConstraints`.
unfoldable pub pdb_constraints : Pod → List PodDisruptionBudget → List Constraint
pdb_constraints pod [] = []
pdb_constraints pod (pdb ∷ pdbs) =
    let rest = pdb_constraints pod pdbs in
    if is_empty pdb.selector || not (matches pdb.selector pod.labels)
    then rest
    else constraint_of kind_pdb (named (pdb_key pdb)) true (blocks pdb) ∷ rest

-- `resourceConstraint`: the count of the nodes with room is for its explanation alone.
abbrev pub resource_constraint : Constraint
resource_constraint = constraint_of kind_resources unnamed true false

unfoldable pub node_selector_constraint : Pod → List Node → List Constraint
unfolding any labels_match
node_selector_constraint pod nodes = elim pod.node_selector [
  | [] ↦ []
  | _ ∷ _ ↦
      constraint_of kind_node_selector (by_labels pod.node_selector) true
        (not (any (λ n. labels_match pod.node_selector n.labels) nodes))
      ∷ []
]

unfoldable pub terms_admit : List NodeSelectorTerm → Node → Bool
unfolding any
terms_admit terms n = any (λ term. matches (term_selector term) n.labels) terms

unfoldable pub affinity_constraint : List NodeSelectorTerm → List Node → List Constraint
unfolding any terms_admit
affinity_constraint [] nodes = []
affinity_constraint (t ∷ ts) nodes =
    constraint_of kind_node_affinity (by_terms (t ∷ ts)) true
      (not (any (terms_admit (t ∷ ts)) nodes))
    ∷ []

unfoldable pub node_affinity_constraint : Pod → List Node → List Constraint
unfolding affinity_constraint
node_affinity_constraint pod nodes = elim pod.node_affinity [
  | none ↦ []
  | some a ↦ affinity_constraint a.required_terms nodes
]

abbrev pub apart_constraint : PodAffinityTerm → Constraint
apart_constraint term = constraint_of kind_pod_anti_affinity (named term.topology_key) true false

abbrev pub together_constraint : PodAffinityTerm → Constraint
together_constraint term = constraint_of kind_pod_affinity (named term.topology_key) true false

unfoldable pub pod_affinity_constraints : Pod → List Constraint
pod_affinity_constraints pod = elim pod.pod_affinity [
  | none ↦ []
  | some a ↦
      map apart_constraint a.required_anti_affinity ++ map together_constraint a.required_affinity
]

unfoldable pub topology_spread_constraints : Pod → List Constraint
unfolding is_hard
topology_spread_constraints pod =
    map (λ tsc. constraint_of kind_topology_spread (named tsc.topology_key) (is_hard tsc) false)
      pod.topology_spread

-- `valueSuffix` of placement.go.
abbrev value_suffix : String → String
value_suffix v = if v == "" then "" else str_append "=" v

-- The taints that the pod tolerates by name, each once.
unlock : Pod → List Taint → List String → List String
unfolding any contains
unlock pod [] unlocked = unlocked
unlock pod (taint ∷ taints) unlocked =
    let text = str_append taint.key (value_suffix taint.value) in
    let tolerated = any (λ tol. not (tol.key == "") && tolerates_taint tol taint) pod.tolerations in
    unlock pod taints (
      if not (taint.effect == prefer_no_schedule) && tolerated && not (contains unlocked text)
      then text ∷ unlocked
      else unlocked)

unlock_all : Pod → List Node → List String → List String
unfolding unlock
unlock_all pod [] unlocked = unlocked
unlock_all pod (n ∷ ns) unlocked = unlock_all pod ns (unlock pod n.taints unlocked)

unfoldable pub taint_tolerance_constraint : Pod → List Node → List Constraint
unfolding unlock_all sort_strings
taint_tolerance_constraint pod nodes = elim (unlock_all pod nodes []) [
  | [] ↦ []
  | k ∷ ks ↦ constraint_of kind_taint (by_taints (sort_strings (k ∷ ks))) false false ∷ []
]

-- All constraints of a pod, in the order in which they are appended.
unfoldable pub constraints_of : Pod → ClusterSnapshot → List Constraint
constraints_of pod snap =
    own_constraints pod
    ++ pdb_constraints pod (index_pdbs snap.pdbs pod.namespace)
    ++ resource_constraint ∷ []
    ++ node_selector_constraint pod snap.nodes
    ++ node_affinity_constraint pod snap.nodes
    ++ pod_affinity_constraints pod
    ++ topology_spread_constraints pod
    ++ taint_tolerance_constraint pod snap.nodes
    ++ only_if pod.has_persistent_vol (constraint_of kind_persistent_volume unnamed false false)

unfoldable pub may_move : Pod → List Constraint → Bool
unfolding any
may_move pod constraints = is_movable pod && not (any (λ c. c.blocking) constraints)

-- `analyzePod`, with the placement whose index `CandidateNodes` may extend.
unfoldable pub analyze_pod : Placement → ClusterSnapshot → Pod → Placement × PodConstraints
unfolding constraints_of may_move is_mirror_pod
analyze_pod p snap pod =
    let constraints = constraints_of pod snap in
    let movable = may_move pod constraints in
    let (p', candidates) = if movable then candidate_nodes p pod else (p, []) in
    (
      p',
      record {
        namespace = pod.namespace;
        name = pod.name;
        node_name = pod.node_name;
        movable = movable;
        constraints = constraints;
        is_pinned = is_daemon_set_pod pod || is_mirror_pod pod;
        candidates = candidates;
      },
    )

-- The loop of `Analyze` over the pods.
unfoldable pub analyze_all : Placement → ClusterSnapshot → List Pod → List PodConstraints
unfolding analyze_pod
analyze_all p snap [] = []
analyze_all p snap (pod ∷ pods) =
    let (p', pc) = analyze_pod p snap pod in pc ∷ analyze_all p' snap pods
