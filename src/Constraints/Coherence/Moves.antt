-- ===== src/Constraints/Coherence/Moves.antt =====
-- The effect of one node's change on every question of the index: a pod joins its occupants, or leaves
-- them, as in `Place` and `Remove` of placement.go.
use k8s_dencer.Base.{
  ℕ, ◌+◌, String, ◌≡◌, refl, sym, ap, ◌∙◌, inl, inr, true, false, Option, none, some, List, ◌==◌,
  string_eq, if◌then◌else◌, lookup, contains, arith, Bool-cases, Option-cases, minus_one,
}
use mathlib.Core.Path.{subst}
use text.Mathlib.TextPositions.{eq_refl}
use k8s_dencer.Model.Labels.{LabelSelector}
use k8s_dencer.Model.Cluster.{Pod}
use k8s_dencer.Constraints.State.{NodeState, SpreadKey, spread_key_eq}
use k8s_dencer.Constraints.SpreadIndex.{counts_for}
use k8s_dencer.Constraints.Coherence.Count.{Distinct, matching, node_share}
use k8s_dencer.Constraints.Coherence.Change.{Grown, domain_total-Grown}
use k8s_dencer.Constraints.Coherence.Index.{true_count, Effect, skips, outside, shifts}

Grown-zero : {x y : Option ℕ} → Grown x 0 y → x ≡ y
Grown-zero (inl (s, p, q)) = p ∙ sym (q ∙ ap some (omega arith))
Grown-zero (inr (p, q)) = p

Grown-one : {x y : Option ℕ} → Grown x 1 y → (s : ℕ) × (x ≡ some s) × (y ≡ some (s + 1))
Grown-one (inl w) = w
Grown-one (inr (p, q)) = absurd (omega arith)

-- What a pod counts for in the answers to a question.
abbrev pub weight : SpreadKey → Option LabelSelector → Pod → ℕ
weight key selector pod = if counts_for key.namespace selector pod then 1 else 0

-- What it counts for in the counter of domain `d`, on a node of a domain.
abbrev weight_in : ℕ → String → Option String → ℕ
weight_in w d none = 0
weight_in w d (some dom) = if dom == d then w else 0

module _ (key : SpreadKey) (selector : Option LabelSelector) (d : String) (ns : NodeState) where
  share : Option ℕ
  share = node_share key.namespace selector key.topology_key d (some ns)

  share_outside : lookup key.topology_key ns.node.labels ≡ none → share ≡ none
  unfolding node_share share
  share_outside e = rw (e, node_share)

  share_inside :
      {dom : String}
      → lookup key.topology_key ns.node.labels ≡ some dom
      → share ≡ (if dom == d then some (matching key.namespace selector ns.occupants) else none)
  unfolding node_share share
  share_inside e = rw (e, node_share)

silent :
    (key : SpreadKey) (selector : Option LabelSelector) (pod : Pod)
    → counts_for key.namespace selector pod ≡ false
    → (d : String) (dom : Option String) → weight_in (weight key selector pod) d dom ≡ 0
silent key selector pod off d none = refl
silent key selector pod off d (some dom) = rw off (ground arith)

-- Node `n` is `a` in `m₁` and `b` in `m₂`, and `b` holds one pod more.
module _ (n : String) (m₁ m₂ : List (String × NodeState)) (a b : NodeState) (pod : Pod)
    (others : (j : String) → (n == j) ≡ false → lookup j m₁ ≡ lookup j m₂)
    (at₁ : lookup n m₁ ≡ some a) (at₂ : lookup n m₂ ≡ some b)
    (labels : b.node.labels ≡ a.node.labels) where
  module _ (key : SpreadKey) (selector : Option LabelSelector) where
    module _
        (more : matching key.namespace selector b.occupants
          ≡ matching key.namespace selector a.occupants + weight key selector pod)
        (order : List String) (distinct : Distinct order) (listed : contains order n ≡ true) where
      share-Grown :
          (d : String)
          → Grown
              (share key selector d a)
              (weight_in (weight key selector pod) d (lookup key.topology_key a.node.labels))
              (share key selector d b)
      share-Grown d =
          let same = ap (lookup key.topology_key) labels in
          elim (Option-cases (lookup key.topology_key a.node.labels)) [
            | inl e ↦
                rw (share_outside key selector d a e, share_outside key selector d b (same ∙ e), e)
                  (inr (refl, refl))
            | inr (dom, e) ↦
                rw (share_inside key selector d a e, share_inside key selector d b (same ∙ e), e)
                  (inside dom d)
          ]
        where
          inside :
              (dom d : String)
              → Grown
                  (if dom == d then some (matching key.namespace selector a.occupants) else none)
                  (if dom == d then weight key selector pod else 0)
                  (if dom == d then some (matching key.namespace selector b.occupants) else none)
          inside dom d = elim (Bool-cases (dom == d)) [
            | inl e ↦ rw e (inl (matching key.namespace selector a.occupants, refl, ap some more))
            | inr e ↦ rw e (inr (refl, refl))
          ]

      total-Grown :
          (d : String)
          → Grown
              (true_count m₁ order key selector d)
              (weight_in (weight key selector pod) d (lookup key.topology_key a.node.labels))
              (true_count m₂ order key selector d)
      unfolding share
      total-Grown d =
          domain_total-Grown key.namespace selector key.topology_key d n m₁ m₂ others _ order
            distinct listed (rw (at₁, at₂) (share-Grown d))

      still :
          (d : String)
          → weight_in (weight key selector pod) d (lookup key.topology_key a.node.labels) ≡ 0
          → true_count m₁ order key selector d ≡ true_count m₂ order key selector d
      still d e = Grown-zero (rw e at (total-Grown d))

      -- The counter of the node's own domain.
      gained :
          {dom : String}
          → counts_for key.namespace selector pod ≡ true
          → lookup key.topology_key a.node.labels ≡ some dom
          → (s : ℕ) × (true_count m₁ order key selector dom ≡ some s)
            × (true_count m₂ order key selector dom ≡ some (s + 1))
      gained {dom} on e = Grown-one (
          subst
            (λ k.
              Grown (true_count m₁ order key selector dom) k (true_count m₂ order key selector dom))
            (rw (e, eq_refl dom, on)) (total-Grown dom))

      elsewhere :
          {dom : String}
          → lookup key.topology_key a.node.labels ≡ some dom
          → (d : String) → (dom == d) ≡ false
          → true_count m₁ order key selector d ≡ true_count m₂ order key selector d
      elsewhere e d other = still d (rw (e, other))

      pub join-Effect : Effect m₁ m₂ order pod b 1 key selector
      join-Effect = elim (Bool-cases (counts_for key.namespace selector pod)) [
        | inr off ↦
            skips off
              (λ d. still d (silent key selector pod off d (lookup key.topology_key a.node.labels)))
        | inl on ↦ elim (Option-cases (lookup key.topology_key a.node.labels)) [
          | inl e ↦ outside (ap (lookup key.topology_key) labels ∙ e) (λ d. still d (rw e))
          | inr (dom, e) ↦
              let (s, was, now) = gained on e in
              shifts dom s (s + 1) on (ap (lookup key.topology_key) labels ∙ e) was now refl
                (elsewhere e)
        ]
      ]

      pub leave-Effect : Effect m₂ m₁ order pod a minus_one key selector
      leave-Effect = elim (Bool-cases (counts_for key.namespace selector pod)) [
        | inr off ↦ skips off (λ d.
            sym (still d (silent key selector pod off d (lookup key.topology_key a.node.labels))))
        | inl on ↦ elim (Option-cases (lookup key.topology_key a.node.labels)) [
          | inl e ↦ outside e (λ d. sym (still d (rw e)))
          | inr (dom, e) ↦
              let (s, was, now) = gained on e in
              shifts dom (s + 1) s on e now was (omega arith) (λ d other. sym (elsewhere e d other))
        ]
      ]
