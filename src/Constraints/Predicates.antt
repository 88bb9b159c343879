-- ===== src/Constraints/Predicates.antt =====
-- internal/constraints/placement.go: `CanPlace` and the predicates it tries in order. A refusal is the
-- sentence that the code prints, as a value that holds the arguments of the sentence.
use k8s_dencer.Base.{
  ℕ, String, Bool, false, not, ◌&&◌, Option, none, some, List, [], ◌∷◌, ◌==◌, string_eq, nat_eq,
  if◌then◌else◌, lookup, get, any, contains, find,
}
use k8s_dencer.Model.Resources
use k8s_dencer.Model.Resources.{Resources}
use k8s_dencer.Model.Labels.{
  Taint, tolerates_taint, prefer_no_schedule, LabelSelector, NodeSelectorTerm, PodAffinityTerm,
  matches,
}
use k8s_dencer.Model.Cluster.{Node, Pod, pod_key, label_hostname}
use k8s_dencer.Constraints.State.{NodeState, Placement}
use k8s_dencer.Constraints.Placement.{need, same_key}

pub data Refusal : Type 0 where
  not_in_snapshot cordoned not_ready : (node_name : String) → Refusal
  untolerated : (node_name : String) (taint : Taint) → Refusal
  label_missing : (node_name key value : String) → Refusal
  affinity_unmet : (node_name : String) → Refusal
  no_room : (node_name : String) (free requests : Resources) → Refusal
  repelled : (topology_key occupant : String) → Refusal
  repelled_in_domain : (topology_key domain occupant : String) → Refusal
  companion_missing : (topology_key node_name : String) → Refusal
  domain_missing : (node_name topology_key : String) → Refusal
  skewed : (topology_key : String) (skew : ℕ) (domain : String) (max_skew : ℕ) → Refusal

-- `if ok, reason := f(); !ok { return false, reason }`, then the rest.
abbrev or_else : Option Refusal → Option Refusal → Option Refusal
or_else (some r) rest = some r
or_else none rest = rest

unfoldable pub repels : Pod → Taint → Bool
unfolding any
repels pod taint =
    not (taint.effect == prefer_no_schedule)
    && not (any (λ tol. tolerates_taint tol taint) pod.tolerations)

unfoldable pub fits_taints : Pod → Node → Option Refusal
unfolding find repels
fits_taints pod node = elim (find (repels pod) node.taints) [
  | none ↦ none
  | some taint ↦ some (untolerated node.name taint)
]

unfoldable pub fits_node_selector : Pod → Node → Option Refusal
unfolding find get
fits_node_selector pod node =
    elim (find (λ (k, v). not (get node.labels k == v)) pod.node_selector) [
      | none ↦ none
      | some (k, v) ↦ some (label_missing node.name k v)
    ]

-- `LabelSelector{MatchExpressions: term.MatchExpressions}`
abbrev pub term_selector : NodeSelectorTerm → Option LabelSelector
term_selector term = some (record { match_labels = []; match_expressions = term.match_expressions })

affinity_terms : List NodeSelectorTerm → Node → Option Refusal
unfolding any
affinity_terms [] node = none
affinity_terms (t ∷ ts) node =
    if any (λ term. matches (term_selector term) node.labels) (t ∷ ts)
    then none
    else some (affinity_unmet node.name)

unfoldable pub fits_node_affinity : Pod → Node → Option Refusal
unfolding affinity_terms
fits_node_affinity pod node = elim pod.node_affinity [
  | none ↦ none
  | some a ↦ affinity_terms a.required_terms node
]

unfoldable pub fits_resources : Pod → NodeState → Option Refusal
fits_resources pod ns =
    if Resources.fits (need pod) ns.free
    then none
    else some (no_room ns.node.name ns.free pod.requests)

abbrev scope_of : List String → String → List String
scope_of [] default_namespace = default_namespace ∷ []
scope_of (n ∷ ns) default_namespace = n ∷ ns

unfoldable pub term_matches_pod : PodAffinityTerm → Pod → String → Bool
unfolding contains
term_matches_pod term candidate default_namespace =
    contains (scope_of term.namespaces default_namespace) candidate.namespace
    && matches term.label_selector candidate.labels

same_label : Option String → Option String → Bool
same_label (some va) (some vb) = va == vb
same_label (some va) none = false
same_label none b = false

unfoldable pub in_same_topology_domain : Placement → String → String → String → Bool
unfolding lookup same_label
in_same_topology_domain p a b topology_key =
    if topology_key == label_hostname then a == b else elim (lookup a p.nodes) [
      | none ↦ false
      | some na ↦ elim (lookup b p.nodes) [
        | none ↦ false
        | some nb ↦
            same_label (lookup topology_key na.node.labels) (lookup topology_key nb.node.labels)
      ]
    ]

-- An occupant, other than the pod itself, that an affinity term speaks of.
abbrev pub hit_by : Pod → PodAffinityTerm → Pod → Bool
hit_by pod term occupant =
    not (same_key pod occupant) && term_matches_pod term occupant pod.namespace

-- Occupants of one sibling node; `get` is Go's read of a map without `ok`.
conflict_on : Pod → PodAffinityTerm → String → Option NodeState → Option Pod
unfolding get find
conflict_on pod term domain none = none
conflict_on pod term domain (some other) =
    if get other.node.labels term.topology_key == domain
    then find (hit_by pod term) other.occupants
    else none

first_conflict : Placement → Pod → String → PodAffinityTerm → String → List String → Option Pod
unfolding conflict_on lookup
first_conflict p pod own term domain [] = none
first_conflict p pod own term domain (name ∷ rest) =
    elim (if name == own then none else conflict_on pod term domain (lookup name p.nodes)) [
      | some occupant ↦ some occupant
      | none ↦ first_conflict p pod own term domain rest
    ]

unfoldable pub conflict_in_domain : Placement → Pod → Node → PodAffinityTerm → Option Refusal
unfolding first_conflict lookup
conflict_in_domain p pod node term = elim (lookup term.topology_key node.labels) [
  | none ↦ none
  | some domain ↦ elim (first_conflict p pod node.name term domain p.node_order) [
    | none ↦ none
    | some occupant ↦ some (repelled_in_domain term.topology_key domain (pod_key occupant))
  ]
]

unfoldable pub fits_anti_affinity_term :
    Placement → Pod → NodeState → PodAffinityTerm → Option Refusal
unfolding find in_same_topology_domain conflict_in_domain
fits_anti_affinity_term p pod ns term =
    let local =
      find
        (λ occupant.
          hit_by pod term occupant
          && in_same_topology_domain p ns.node.name occupant.node_name term.topology_key)
        ns.occupants in
    elim local [
      | some occupant ↦ some (repelled term.topology_key (pod_key occupant))
      | none ↦
          if term.topology_key == label_hostname
          then none
          else conflict_in_domain p pod ns.node term
    ]

-- A loop over terms that returns the first refusal.
unfoldable pub each_term :
    (PodAffinityTerm → Option Refusal) → List PodAffinityTerm → Option Refusal
each_term check [] = none
each_term check (term ∷ terms) = or_else (check term) (each_term check terms)

unfoldable pub fits_pod_anti_affinity : Placement → Pod → NodeState → Option Refusal
unfolding each_term fits_anti_affinity_term
fits_pod_anti_affinity p pod ns = elim pod.pod_affinity [
  | none ↦ none
  | some a ↦ each_term (fits_anti_affinity_term p pod ns) a.required_anti_affinity
]

-- Whether a node lies where the term's companion has to be.
in_reach : NodeState → PodAffinityTerm → String → NodeState → Bool
unfolding lookup get
in_reach ns term name other =
    if term.topology_key == label_hostname
    then name == ns.node.name
    else elim (lookup term.topology_key ns.node.labels) [
      | none ↦ false
      | some domain ↦ get other.node.labels term.topology_key == domain
    ]

companion_on : Pod → NodeState → PodAffinityTerm → String → Option NodeState → Bool
unfolding in_reach any
companion_on pod ns term name none = false
companion_on pod ns term name (some other) =
    in_reach ns term name other && any (hit_by pod term) other.occupants

unfoldable pub fits_affinity_term : Placement → Pod → NodeState → PodAffinityTerm → Option Refusal
unfolding any companion_on lookup
fits_affinity_term p pod ns term =
    if any (λ name. companion_on pod ns term name (lookup name p.nodes)) p.node_order
    then none
    else some (companion_missing term.topology_key ns.node.name)

unfoldable pub fits_pod_affinity : Placement → Pod → NodeState → Option Refusal
unfolding each_term fits_affinity_term
fits_pod_affinity p pod ns = elim pod.pod_affinity [
  | none ↦ none
  | some a ↦ each_term (fits_affinity_term p pod ns) a.required_affinity
]
