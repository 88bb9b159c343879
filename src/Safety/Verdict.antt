-- ===== src/Safety/Verdict.antt =====
-- `analyzePod` of analyzer.go against `CheckEviction` of safety.go: both read the same budgets.
use k8s_dencer.Base.{
  ◌≡◌, refl, ◌∙◌, sym, ◌↔◌, inl, inr, Bool, true, false, not, ◌&&◌, ◌||◌, Option, none, some, List,
  [], ◌∷◌, ◌++◌, map, string_eq, arith, Bool-cases, Option-cases, any, find, keep,
}
use k8s_dencer.Model.Labels.{NodeAffinity, NodeSelectorTerm, labels_match}
use k8s_dencer.Model.Cluster.{
  Node, Pod, PodDisruptionBudget, ClusterSnapshot, is_movable, is_mirror_pod, pinned_to_node,
  blocks,
}
use k8s_dencer.Constraints.State.{Placement}
use k8s_dencer.Constraints.Analyzer.{
  kind_persistent_volume, unnamed, constraint_of, only_if, Constraint, own_constraints, index_pdbs,
  pdb_constraints, node_selector_constraint, terms_admit, affinity_constraint,
  node_affinity_constraint, apart_constraint, together_constraint, pod_affinity_constraints,
  topology_spread_constraints, taint_tolerance_constraint, constraints_of, may_move, analyze_pod,
}
use k8s_dencer.Safety.Checks.{covers, check_eviction}

abbrev blocked : List Constraint → Bool
blocked cs = any (λ c. c.blocking) cs

blocked-append : (xs ys : List Constraint) → blocked (xs ++ ys) ≡ (blocked xs || blocked ys)
unfolding any
blocked-append [] ys = refl
blocked-append (x ∷ xs) ys = ground (arith, blocked-append xs ys)

-- Constraints of a kind that never blocks.
blocked-map :
    {A : Type 0} (f : A → Constraint) (xs : List A)
    → ((x : A) → (f x).blocking ≡ false)
    → blocked (map f xs) ≡ false
unfolding any
blocked-map f [] free = refl
blocked-map f (x ∷ xs) free = rw (free x) (blocked-map f xs free)

-- A movable pod carries none of the marks that block.
own_constraints-free : (pod : Pod) → is_movable pod ≡ true → blocked (own_constraints pod) ≡ false
unfolding any own_constraints is_movable pinned_to_node is_mirror_pod
own_constraints-free pod h = ground arith

abbrev is_found : Option PodDisruptionBudget → Bool
is_found none = false
is_found (some pdb) = true

pdb_constraints-find :
    (pod : Pod) (pdbs : List PodDisruptionBudget)
    → blocked (pdb_constraints pod (index_pdbs pdbs pod.namespace))
      ≡ is_found (find (λ pdb. covers pdb pod && blocks pdb) pdbs)
unfolding any find keep pdb_constraints index_pdbs covers
pdb_constraints-find pod [] = refl
pdb_constraints-find pod (pdb ∷ pdbs) = ground (arith, pdb_constraints-find pod pdbs)

abbrev is_nil {ℓ} : {A : Type ℓ} → List A → Bool
is_nil [] = true
is_nil (x ∷ xs) = false

-- Some node carries the labels that the pod selects, if it selects any.
abbrev pub selector_admits : Pod → List Node → Bool
selector_admits pod nodes =
    is_nil pod.node_selector || any (λ n. labels_match pod.node_selector n.labels) nodes

abbrev pub required_terms_of : Option NodeAffinity → List NodeSelectorTerm
required_terms_of none = []
required_terms_of (some a) = a.required_terms

-- Some node satisfies one of the required terms, if there are any.
abbrev pub affinity_admits : Pod → List Node → Bool
affinity_admits pod nodes =
    is_nil (required_terms_of pod.node_affinity)
    || any (terms_admit (required_terms_of pod.node_affinity)) nodes

node_selector_constraint_lem :
    (pod : Pod) (nodes : List Node)
    → blocked (node_selector_constraint pod nodes) ≡ not (selector_admits pod nodes)
unfolding any node_selector_constraint
node_selector_constraint_lem pod nodes = ground arith

affinity_constraint_lem :
    (terms : List NodeSelectorTerm) (nodes : List Node)
    → blocked (affinity_constraint terms nodes)
      ≡ not (is_nil terms || any (terms_admit terms) nodes)
unfolding any affinity_constraint
affinity_constraint_lem [] nodes = refl
affinity_constraint_lem (t ∷ ts) nodes = ground arith

node_affinity_constraint_lem :
    (pod : Pod) (nodes : List Node)
    → blocked (node_affinity_constraint pod nodes) ≡ not (affinity_admits pod nodes)
unfolding any node_affinity_constraint
node_affinity_constraint_lem pod nodes = elim (Option-cases pod.node_affinity) [
  | inl e ↦ rw e refl
  | inr (a, e) ↦ rw e (affinity_constraint_lem a.required_terms nodes)
]

pod_affinity_constraints-free : (pod : Pod) → blocked (pod_affinity_constraints pod) ≡ false
unfolding pod_affinity_constraints
pod_affinity_constraints-free pod = elim (Option-cases pod.pod_affinity) [
  | inl e ↦ rw e (unfold any in refl)
  | inr (a, e) ↦
      let both : pod_affinity_constraints pod
          ≡ map apart_constraint a.required_anti_affinity
            ++ map together_constraint a.required_affinity =
        simp (e, pod_affinity_constraints) in
      rw both (
        blocked-append (map apart_constraint a.required_anti_affinity)
          (map together_constraint a.required_affinity)
        ∙ rw (
          blocked-map apart_constraint a.required_anti_affinity (λ t. refl),
          blocked-map together_constraint a.required_affinity (λ t. refl),
        ))
]

topology_spread_constraints-free : (pod : Pod) → blocked (topology_spread_constraints pod) ≡ false
unfolding topology_spread_constraints
topology_spread_constraints-free pod = blocked-map _ pod.topology_spread (λ t. refl)

taint_tolerance_constraint-free :
    (pod : Pod) (nodes : List Node) → blocked (taint_tolerance_constraint pod nodes) ≡ false
unfolding taint_tolerance_constraint
taint_tolerance_constraint-free pod nodes = ground arith

tidy :
    (x y z v : Bool)
    → (x
        || false
        || y
        || z
        || false
        || false
        || false
        || blocked (only_if v (constraint_of kind_persistent_volume unnamed false false)))
      ≡ (x || y || z)
unfolding any
tidy x y z v = ground arith

-- Of a movable pod, only a budget, the node selector and the node affinity can block.
constraints_of-blocked :
    (pod : Pod) (snap : ClusterSnapshot)
    → is_movable pod ≡ true
    → blocked (constraints_of pod snap) ≡ (
        is_found (find (λ pdb. covers pdb pod && blocks pdb) snap.pdbs)
        || not (selector_admits pod snap.nodes)
        || not (affinity_admits pod snap.nodes))
unfolding constraints_of
constraints_of-blocked pod snap h =
    simp
      (
        blocked-append,
        own_constraints-free pod h,
        pdb_constraints-find pod snap.pdbs,
        node_selector_constraint_lem pod snap.nodes,
        node_affinity_constraint_lem pod snap.nodes,
        pod_affinity_constraints-free pod,
        topology_spread_constraints-free pod,
        taint_tolerance_constraint-free pod snap.nodes,
      )
      (unfold any in
        tidy (is_found (find (λ pdb. covers pdb pod && blocks pdb) snap.pdbs))
          (not (selector_admits pod snap.nodes)) (not (affinity_admits pod snap.nodes))
          pod.has_persistent_vol)

none_blocks_iff :
    (x y z : Bool) → (not (x || not y || not z) ≡ true) ↔ ((x ≡ false) × (y ≡ true) × (z ≡ true))
none_blocks_iff x y z = ground arith

consent_iff :
    (pod : Pod) (snap : ClusterSnapshot)
    → (check_eviction pod snap ≡ none)
      ↔ (is_found (find (λ pdb. covers pdb pod && blocks pdb) snap.pdbs) ≡ false)
unfolding check_eviction
consent_iff pod snap = elim (Option-cases (find (λ pdb. covers pdb pod && blocks pdb) snap.pdbs)) [
  | inl e ↦ rw (e, check_eviction) ((λ _. refl), (λ _. refl))
  | inr (pdb, e) ↦ rw (e, check_eviction) ((λ h. absurd cc), (λ h. absurd cc))
]

-- The analyzer calls a pod movable exactly if the pod is of a kind that can move, the guard would consent
-- to its eviction from the same snapshot, some node has the labels that it selects (if it selects any),
-- and some node, the same or another, satisfies one of its required affinity terms (if it has any).
pub movable_iff :
    (p : Placement) (snap : ClusterSnapshot) (pod : Pod)
    → ((analyze_pod p snap pod).1.movable ≡ true) ↔ (
        (is_movable pod ≡ true)
        × (check_eviction pod snap ≡ none)
        × (selector_admits pod snap.nodes ≡ true)
        × (affinity_admits pod snap.nodes ≡ true))
unfolding analyze_pod may_move
movable_iff p snap pod = elim (Bool-cases (is_movable pod)) [
  | inr no_ ↦ rw no_ ((λ h. absurd cc), (λ h. absurd (let m = h.0 in cc)))
  | inl yes_ ↦
      let (to, from) =
        none_blocks_iff found (selector_admits pod snap.nodes) (affinity_admits pod snap.nodes) in
      let (consents, stands) = consent_iff pod snap in
      let verdict : may_move pod (constraints_of pod snap)
          ≡ not (
              found
              || not (selector_admits pod snap.nodes)
              || not (affinity_admits pod snap.nodes)) =
        rw (yes_, constraints_of-blocked pod snap yes_) in
      (
        λ h. let (f, s, a) = to (sym verdict ∙ h) in (yes_, stands f, s, a),
        λ (_, c, s, a). verdict ∙ from (consents c, s, a),
      )
]
  where
    found : Bool
    found = is_found (find (λ pdb. covers pdb pod && blocks pdb) snap.pdbs)
