-- ===== src/Constraints/Coherence/Answers.antt =====
-- What spreadindex.go answers, in a placement whose index is exact; and that the questions of
-- `CanPlace` change nothing but the index.
use k8s_dencer.Base.{
  String, ◌≡◌, refl, ◌∙◌, inl, inr, none, some, List, [], ◌∷◌, ◌==◌, string_eq, lookup, insert,
  Bool-cases, Option-cases,
}
use mathlib.Core.Path.{subst₂}
use k8s_dencer.Model.Labels.{TopologySpreadConstraint, is_hard}
use k8s_dencer.Model.Cluster.{Pod}
use k8s_dencer.Constraints.State.{
  NodeState, SpreadKey, spread_key_eq, spread_key_beq_iff, SpreadEntry, Placement,
}
use k8s_dencer.Constraints.SpreadIndex.{recount, key_of, spread_counts}
use k8s_dencer.Constraints.CanPlace.{
  domain_counts, fits_spread_constraint, spread_from, fits_topology_spread, static_checks,
  can_place,
}
use k8s_dencer.Constraints.Coherence.Tally.{tally-Stands}
use k8s_dencer.Constraints.Coherence.Index.{IsExact, AllExact}
use k8s_dencer.Constraints.Coherence.Preserve.{IsCoherent}

module _ (nodes : List (String × NodeState)) (order : List String) where
  AllExact-insert :
      (key : SpreadKey) (e : SpreadEntry) (entries : List (SpreadKey × SpreadEntry))
      → IsExact nodes order key e
      → AllExact nodes order entries
      → AllExact nodes order (insert key e entries)
  unfolding insert
  AllExact-insert key e [] x all = (x, tt)
  AllExact-insert key e ((j, f) ∷ rest) x all = elim (Bool-cases (j == key)) [
    | inl same ↦ rw same (x, all.1)
    | inr other ↦ rw other (all.0, AllExact-insert key e rest x all.1)
  ]

  pub AllExact-lookup :
      (key : SpreadKey) (entries : List (SpreadKey × SpreadEntry)) {e : SpreadEntry}
      → lookup key entries ≡ some e
      → AllExact nodes order entries
      → IsExact nodes order key e
  unfolding lookup
  AllExact-lookup key [] h all = cc
  AllExact-lookup key ((j, f) ∷ rest) {e} h all = elim (Bool-cases (j == key)) [
    | inl same ↦
        let kept : some f ≡ some e = rw same at h in
        let f_e : f ≡ e = cc in
        subst₂ (IsExact nodes order) ((spread_key_beq_iff j key).0 same) f_e all.0
    | inr other ↦ AllExact-lookup key rest (rw other at h) all.1
  ]

pub recount-IsExact :
    (p : Placement) (namespace : String) (tsc : TopologySpreadConstraint)
    → IsExact p.nodes p.node_order (key_of namespace tsc) (record {
      counts = recount p (key_of namespace tsc) tsc.label_selector;
      selector = tsc.label_selector;
    })
recount-IsExact p namespace tsc = record {
  keyed = refl;
  exact =
      tally-Stands namespace tsc.label_selector tsc.topology_key p.nodes p.node_order [] (λ _. none)
        (λ _. unfold lookup in refl);
}

-- `p'` differs from `p` in its index at most, which stays exact.
pub record Remembers (p p' : Placement) : Type 0 where
  pub same_nodes : p'.nodes ≡ p.nodes
  pub same_order : p'.node_order ≡ p.node_order
  pub coherent : IsCoherent p → IsCoherent p'

pub Remembers-refl : (p : Placement) → Remembers p p
Remembers-refl p = record { same_nodes = refl; same_order = refl; coherent = λ c. c }

pub Remembers-trans : {p q r : Placement} → Remembers p q → Remembers q r → Remembers p r
Remembers-trans a b = record {
  same_nodes = b.same_nodes ∙ a.same_nodes;
  same_order = b.same_order ∙ a.same_order;
  coherent = λ c. b.coherent (a.coherent c);
}

spread_counts-Remembers :
    (p : Placement) (namespace : String) (tsc : TopologySpreadConstraint)
    → Remembers p (spread_counts p namespace tsc).0
unfolding spread_counts
spread_counts-Remembers p namespace tsc =
    elim (Option-cases (lookup (key_of namespace tsc) p.spread)) [
      | inl e ↦
          rw (e, spread_counts)
            (record {
              same_nodes = refl;
              same_order = refl;
              coherent = λ c. record {
                distinct = c.distinct;
                listed = c.listed;
                exact =
                    AllExact-insert p.nodes p.node_order _ _ p.spread
                      (recount-IsExact p namespace tsc) c.exact;
              };
            })
      | inr (x, e) ↦ rw (e, spread_counts) (Remembers-refl p)
    ]

domain_counts-Remembers :
    (p : Placement) (pod : Pod) (tsc : TopologySpreadConstraint)
    → Remembers p (domain_counts p pod tsc).0
unfolding domain_counts
domain_counts-Remembers p pod tsc = spread_counts-Remembers p pod.namespace tsc

fits_spread_constraint-Remembers :
    (p : Placement) (pod : Pod) (n : String) (tsc : TopologySpreadConstraint)
    → Remembers p (fits_spread_constraint p pod n tsc).0
unfolding fits_spread_constraint
fits_spread_constraint-Remembers p pod n tsc = elim (Bool-cases (is_hard tsc)) [
  | inr soft ↦ rw (soft, fits_spread_constraint) (Remembers-refl p)
  | inl hard ↦ elim (Option-cases (lookup n p.nodes)) [
    | inl e ↦ rw (hard, e, fits_spread_constraint) (Remembers-refl p)
    | inr (ns, e) ↦ elim (Option-cases (lookup tsc.topology_key ns.node.labels)) [
      | inl e' ↦ rw (hard, e, e', fits_spread_constraint) (Remembers-refl p)
      | inr (dom, e') ↦ rw (hard, e, e', fits_spread_constraint) (domain_counts-Remembers p pod tsc)
    ]
  ]
]

spread_from-Remembers :
    (p : Placement) (pod : Pod) (n : String) (tscs : List TopologySpreadConstraint)
    → Remembers p (spread_from p pod n tscs).0
unfolding spread_from
spread_from-Remembers p pod n [] = Remembers-refl p
spread_from-Remembers p pod n (tsc ∷ rest) =
    let first = fits_spread_constraint-Remembers p pod n tsc in
    let others = spread_from-Remembers (fits_spread_constraint p pod n tsc).0 pod n rest in
    elim (Option-cases (fits_spread_constraint p pod n tsc).1) [
      | inl e ↦ rw (e, spread_from) (Remembers-trans first others)
      | inr (r, e) ↦ rw (e, spread_from) first
    ]

pub can_place-Remembers :
    (p : Placement) (pod : Pod) (n : String) → Remembers p (can_place p pod n).0
unfolding can_place fits_topology_spread
can_place-Remembers p pod n = elim (Option-cases (lookup n p.nodes)) [
  | inl e ↦ rw (e, can_place) (Remembers-refl p)
  | inr (ns, e) ↦ elim (Option-cases (static_checks p pod n ns)) [
    | inl e' ↦
        rw (e, e', can_place, fits_topology_spread)
          (spread_from-Remembers p pod n pod.topology_spread)
    | inr (r, e') ↦ rw (e, e', can_place) (Remembers-refl p)
  ]
]
