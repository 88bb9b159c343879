-- ===== src/Constraints/Coherence/Count.antt =====
-- What spreadindex.go promises to hold: for a namespace, a selector and a topology key, the number of
-- matching pods in each domain of a placement. Counted without memory and without a width.
use k8s_dencer.Base.{
  ℕ, suc, ◌+◌, ◌%◌, ◌^◌, String, ◌≡◌, false, Option, none, some, List, [], ◌∷◌, ◌++◌, ◌==◌,
  string_eq, if◌then◌else◌, lookup, contains, arith,
}
use k8s_dencer.Model.Labels.{LabelSelector}
use k8s_dencer.Model.Cluster.{Pod}
use k8s_dencer.Constraints.State.{NodeState}
use k8s_dencer.Constraints.SpreadIndex.{counts_for}

-- No name occurs twice.
abbrev pub Distinct : List String → Type 0
Distinct [] = Unit
Distinct (x ∷ xs) = (contains xs x ≡ false) × Distinct xs

-- Domains that occur, with numbers that add up.
abbrev pub combine : Option ℕ → Option ℕ → Option ℕ
combine none y = y
combine (some a) none = some a
combine (some a) (some b) = some (a + b)

-- A number of 64 bits, as the code's counters hold it.
abbrev pub wrapped : Option ℕ → Option ℕ
wrapped none = none
wrapped (some a) = some (a % 2 ^ 64)

module _ (namespace : String) (selector : Option LabelSelector) where
  unfoldable pub matching : List Pod → ℕ
  matching [] = 0
  matching (o ∷ os) =
      let rest = matching os in if counts_for namespace selector o then suc rest else rest

  pub matching-append : (xs ys : List Pod) → matching (xs ++ ys) ≡ matching xs + matching ys
  unfolding matching
  matching-append [] ys = omega arith
  matching-append (x ∷ xs) ys = ground (arith, matching-append xs ys)

  module _ (topology_key domain : String) where
    unfoldable pub node_share : Option NodeState → Option ℕ
    node_share none = none
    node_share (some ns) = elim (lookup topology_key ns.node.labels) [
      | none ↦ none
      | some d ↦ if d == domain then some (matching ns.occupants) else none
    ]

    unfoldable pub domain_total : List (String × NodeState) → List String → Option ℕ
    unfolding node_share
    domain_total nodes [] = none
    domain_total nodes (name ∷ rest) =
        combine (node_share (lookup name nodes)) (domain_total nodes rest)
