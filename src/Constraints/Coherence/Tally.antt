-- ===== src/Constraints/Coherence/Tally.antt =====
-- The pass that spreadindex.go makes at the first use of a question, against `domain_total`.
use k8s_dencer.Base.{
  ℕ, ◌+◌, ◌%◌, ◌^◌, String, ◌≡◌, refl, inl, inr, Option, none, some, List, [], ◌∷◌, ◌==◌, string_eq,
  if◌then◌else◌, lookup, lookup-insert, add64, arith, Bool-cases, Option-cases, ap, ◌∙◌, sym,
}
use text.Mathlib.TextEquality.{eq_iff}
use text.Mathlib.TextPositions.{eq_refl}
use k8s_dencer.Model.Labels.{LabelSelector}
use k8s_dencer.Model.Cluster.{Pod}
use k8s_dencer.Constraints.State.{NodeState}
use k8s_dencer.Constraints.SpreadIndex.{
  counts_for, count_in, bump, tally_occupants, seed, tally_node, tally,
}
use k8s_dencer.Constraints.Coherence.Count.{combine, wrapped, matching, node_share, domain_total}

-- Counting one more keeps the reading of a counter.
pub add64-wrapped : (n k : ℕ) → add64 (n % 2 ^ 64) k ≡ (n + k) % 2 ^ 64
unfolding add64
add64-wrapped n k = omega arith

-- `counts[domain] += delta` on a counter that stands for `n`.
pub lookup-bump :
    (domain d : String) (delta n : ℕ) (counts : List (String × ℕ))
    → lookup domain counts ≡ some (n % 2 ^ 64)
    → lookup d (bump domain delta counts)
      ≡ (if domain == d then some ((n + delta) % 2 ^ 64) else lookup d counts)
unfolding bump count_in
lookup-bump domain d delta n counts h = ground (
  arith,
  lookup-insert domain d (add64 (count_in counts domain) delta) counts,
  add64-wrapped n delta,
)

lookup-bump_self :
    (domain : String) (delta n : ℕ) (counts : List (String × ℕ))
    → lookup domain counts ≡ some (n % 2 ^ 64)
    → lookup domain (bump domain delta counts) ≡ some ((n + delta) % 2 ^ 64)
lookup-bump_self domain delta n counts h =
    lookup-bump domain domain delta n counts h ∙ rw (eq_refl domain)

combine-none : (x : Option ℕ) → combine x none ≡ x
combine-none none = refl
combine-none (some a) = refl

combine_assoc : (x y z : Option ℕ) → combine (combine x y) z ≡ combine x (combine y z)
combine_assoc none y z = refl
combine_assoc (some a) none z = refl
combine_assoc (some a) (some b) none = refl
combine_assoc (some a) (some b) (some c) = ground arith

abbrev or_zero : Option ℕ → ℕ
or_zero none = 0
or_zero (some a) = a

-- Every counter stands for a number without a width.
abbrev pub Stands : List (String × ℕ) → (String → Option ℕ) → Type 0
Stands counts o = (j : String) → lookup j counts ≡ wrapped (o j)

lookup-seed :
    (dom j : String) (counts : List (String × ℕ)) (x : Option ℕ)
    → lookup dom counts ≡ wrapped x
    → lookup j (seed dom counts) ≡ (if dom == j then some (or_zero x % 2 ^ 64) else lookup j counts)
unfolding seed
lookup-seed dom j counts none h = rw (h, seed) (lookup-insert dom j 0 counts)
lookup-seed dom j counts (some a) h = ground (arith, eq_iff dom j)

module _ (namespace : String) (selector : Option LabelSelector) where
  -- The inner loop adds the matching occupants to the domain's counter, and touches no other.
  lookup-tally_occupants :
      (domain d : String) (os : List Pod) (counts : List (String × ℕ)) (n : ℕ)
      → lookup domain counts ≡ some (n % 2 ^ 64)
      → lookup d (tally_occupants namespace selector domain os counts) ≡ (
          if domain == d
          then some ((n + matching namespace selector os) % 2 ^ 64)
          else lookup d counts)
  unfolding tally_occupants matching
  lookup-tally_occupants domain d [] counts n h = ground (arith, eq_iff domain d)
  lookup-tally_occupants domain d (o ∷ os) counts n h =
      elim (Bool-cases (counts_for namespace selector o)) [
        | inl e ↦ rw e (
            ground (
              arith,
              lookup-bump_self domain 1 n counts h,
              lookup-bump domain d 1 n counts h,
              lookup-tally_occupants domain d os (bump domain 1 counts) (n + 1)
                  (lookup-bump_self domain 1 n counts h),
            ))
        | inr e ↦ rw e (lookup-tally_occupants domain d os counts n h)
      ]

  -- The outer loop: the counters stand for what they stood for, and the node's share.
  module _ (topology_key : String) where
    share_of : Option NodeState → String → Option ℕ
    share_of ns j = node_share namespace selector topology_key j ns

    tally_node-Stands :
        (ns : Option NodeState) (counts : List (String × ℕ)) (o : String → Option ℕ)
        → Stands counts o
        → Stands
            (tally_node namespace selector topology_key ns counts)
            (λ j. combine (o j) (share_of ns j))
    unfolding tally_node node_share share_of
    tally_node-Stands none counts o h j = h j ∙ ap wrapped (sym (combine-none (o j)))
    tally_node-Stands (some ns) counts o h j =
        elim (Option-cases (lookup topology_key ns.node.labels)) [
          | inl e ↦ rw (e, tally_node, node_share) (h j ∙ ap wrapped (sym (combine-none (o j))))
          | inr (dom, e) ↦
              rw (e, tally_node, node_share)
                (ground (
                  arith,
                  h j,
                  h dom,
                  eq_iff dom j,
                  lookup-seed dom dom counts (o dom) (h dom),
                  lookup-seed dom j counts (o dom) (h dom),
                  eq_refl dom,
                  lookup-tally_occupants dom j ns.occupants (seed dom counts) (or_zero (o dom)),
                ))
        ]

    pub tally-Stands :
        (nodes : List (String × NodeState)) (order : List String) (counts : List (String × ℕ))
        (o : String → Option ℕ)
        → Stands counts o
        → Stands
            (tally namespace selector topology_key nodes order counts)
            (λ j. combine (o j) (domain_total namespace selector topology_key j nodes order))
    unfolding tally domain_total share_of
    tally-Stands nodes [] counts o h j = h j ∙ ap wrapped (sym (combine-none (o j)))
    tally-Stands nodes (name ∷ rest) counts o h j =
        tally-Stands nodes rest
          (tally_node namespace selector topology_key (lookup name nodes) counts)
          (λ i. combine (o i) (share_of (lookup name nodes) i))
          (tally_node-Stands (lookup name nodes) counts o h) j
        ∙ ap wrapped (
            combine_assoc (o j) (share_of (lookup name nodes) j)
              (domain_total namespace selector topology_key j nodes rest))
