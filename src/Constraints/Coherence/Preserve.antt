-- ===== src/Constraints/Coherence/Preserve.antt =====
-- The whole index of spreadindex.go stays exact under `Place`, `Remove` and the questions that
-- `CanPlace` asks.
use k8s_dencer.Base.{
  ℕ, ◌+◌, String, ◌≡◌, refl, sym, ◌∙◌, inl, inr, true, false, Option, some, List, [], ◌∷◌, ◌==◌,
  string_eq, if◌then◌else◌, lookup, insert, lookup-insert, contains, arith, Bool-cases,
  Option-cases, minus_one,
}
use text.Mathlib.TextEquality.{eq_iff}
use text.Mathlib.TextPositions.{eq_refl}
use k8s_dencer.Model.Labels.{LabelSelector}
use k8s_dencer.Model.Cluster.{Pod}
use k8s_dencer.Constraints.State.{NodeState, SpreadKey, spread_key_eq, SpreadEntry, Placement}
use k8s_dencer.Constraints.SpreadIndex.{counts_for, adjust_entries, adjust_spread}
use k8s_dencer.Constraints.Placement.{admit, place, same_key, take_out, release, remove}
use k8s_dencer.Constraints.Coherence.Count.{Distinct, matching, matching-append}
use k8s_dencer.Constraints.Coherence.Index.{AllExact, Effect, adjust_entry-IsExact}
use k8s_dencer.Constraints.Coherence.Moves.{join-Effect, leave-Effect}

-- Names are distinct, every node is in the order, and every entry of the index is exact.
pub record IsCoherent (p : Placement) : Type 0 where
  pub distinct : Distinct p.node_order
  pub listed :
      (n : String) (ns : NodeState) → lookup n p.nodes ≡ some ns → contains p.node_order n ≡ true
  pub exact : AllExact p.nodes p.node_order p.spread

adjust_entries-AllExact :
    {m₁ m₂ : List (String × NodeState)} {order : List String} (pod : Pod) (ns : NodeState)
    (delta : ℕ)
    → ((key : SpreadKey) (selector : Option LabelSelector)
        → Effect m₁ m₂ order pod ns delta key selector)
    → (entries : List (SpreadKey × SpreadEntry)) → AllExact m₁ order entries
    → AllExact m₂ order (adjust_entries pod ns delta entries)
unfolding adjust_entries
adjust_entries-AllExact pod ns delta effect [] all = tt
adjust_entries-AllExact {m₁} {m₂} {order} pod ns delta effect ((key, e) ∷ rest) all = (
  adjust_entry-IsExact m₁ m₂ order pod ns delta key e (effect key e.selector) all.0,
  adjust_entries-AllExact pod ns delta effect rest all.1,
)

-- Replacing the state of a node that is there.
module _ (p : Placement) (n : String) (ns ns' : NodeState) (at : lookup n p.nodes ≡ some ns)
    (c : IsCoherent p) where
  others : (j : String) → (n == j) ≡ false → lookup j p.nodes ≡ lookup j (insert n ns' p.nodes)
  others j e = sym (lookup-insert n j ns' p.nodes ∙ rw e)

  at_after : lookup n (insert n ns' p.nodes) ≡ some ns'
  at_after = lookup-insert n n ns' p.nodes ∙ rw (eq_refl n)

  listed_after :
      (j : String) (x : NodeState)
      → lookup j (insert n ns' p.nodes) ≡ some x
      → contains p.node_order j ≡ true
  listed_after j x e = elim (Bool-cases (n == j)) [
    | inl same ↦ rw (← (eq_iff n j).0 same) (c.listed n ns at)
    | inr other ↦ c.listed j x (others j other ∙ e)
  ]

  -- A pod joins the node.
  joined :
      (pod : Pod)
      → ns'.node.labels ≡ ns.node.labels
      → ((namespace : String) (selector : Option LabelSelector)
          → matching namespace selector ns'.occupants
            ≡ matching namespace selector ns.occupants
              + (if counts_for namespace selector pod then 1 else 0))
      → IsCoherent (adjust_spread (record p { nodes = insert n ns' p.nodes }) pod n 1)
  unfolding adjust_spread
  joined pod labels more =
      rw (at_after, adjust_spread)
        (record {
          distinct = c.distinct;
          listed = listed_after;
          exact =
              adjust_entries-AllExact pod ns' 1
                (λ key selector.
                  join-Effect n p.nodes (insert n ns' p.nodes) ns ns' pod others at at_after labels
                    key selector (more key.namespace selector) p.node_order c.distinct
                    (c.listed n ns at))
                p.spread c.exact;
        })

  -- A pod leaves it.
  left_by :
      (pod : Pod)
      → ns.node.labels ≡ ns'.node.labels
      → ((namespace : String) (selector : Option LabelSelector)
          → matching namespace selector ns.occupants
            ≡ matching namespace selector ns'.occupants
              + (if counts_for namespace selector pod then 1 else 0))
      → IsCoherent (adjust_spread (record p { nodes = insert n ns' p.nodes }) pod n minus_one)
  unfolding adjust_spread
  left_by pod labels more =
      rw (at_after, adjust_spread)
        (record {
          distinct = c.distinct;
          listed = listed_after;
          exact =
              adjust_entries-AllExact pod ns' minus_one
                (λ key selector.
                  leave-Effect n (insert n ns' p.nodes) p.nodes ns' ns pod (λ j e. sym (others j e))
                    at_after at labels key selector (more key.namespace selector) p.node_order
                    c.distinct (c.listed n ns at))
                p.spread c.exact;
        })

take_out-matching :
    (namespace : String) (selector : Option LabelSelector) (pod : Pod) (os : List Pod) {found : Pod}
    {left : List Pod}
    → take_out pod os ≡ some (found, left)
    → matching namespace selector os
      ≡ matching namespace selector left + (if counts_for namespace selector found then 1 else 0)
unfolding take_out matching
take_out-matching namespace selector pod [] e = cc
take_out-matching namespace selector pod (o ∷ os) {found} {left} e =
    elim (Bool-cases (same_key o pod)) [
      | inl here ↦ ground arith
      | inr there ↦ elim (Option-cases (take_out pod os)) [
        | inl gone ↦ ground arith
        | inr ((found', left'), e') ↦ ground (arith, take_out-matching namespace selector pod os e')
      ]
    ]

admit-labels : (ns : NodeState) (pod : Pod) → (admit ns pod).node.labels ≡ ns.node.labels
unfolding admit
admit-labels ns pod = refl

admit-matching :
    (ns : NodeState) (pod : Pod) (namespace : String) (selector : Option LabelSelector)
    → matching namespace selector (admit ns pod).occupants
      ≡ matching namespace selector ns.occupants
        + (if counts_for namespace selector pod then 1 else 0)
unfolding admit matching
admit-matching ns pod namespace selector =
    matching-append namespace selector ns.occupants (pod ∷ [])

release-labels :
    (ns : NodeState) (pod : Pod) (left : List Pod)
    → ns.node.labels ≡ (release ns pod left).node.labels
unfolding release
release-labels ns pod left = refl

release-matching :
    (ns : NodeState) (pod : Pod) {found : Pod} {left : List Pod}
    → take_out pod ns.occupants ≡ some (found, left)
    → (namespace : String) (selector : Option LabelSelector)
    → matching namespace selector ns.occupants
      ≡ matching namespace selector (release ns pod left).occupants
        + (if counts_for namespace selector found then 1 else 0)
unfolding release
release-matching ns pod e namespace selector =
    take_out-matching namespace selector pod ns.occupants e

pub place-IsCoherent :
    (p : Placement) (pod : Pod) (n : String) → IsCoherent p → IsCoherent (place p pod n)
unfolding place
place-IsCoherent p pod n c = elim (Option-cases (lookup n p.nodes)) [
  | inl e ↦ rw (e, place) c
  | inr (ns, e) ↦
      let pod' = record pod { node_name = n } in
      rw (e, place)
        (joined p n ns (admit ns pod') e c pod' (admit-labels ns pod') (admit-matching ns pod'))
]

pub remove-IsCoherent : (p : Placement) (pod : Pod) → IsCoherent p → IsCoherent (remove p pod)
unfolding remove
remove-IsCoherent p pod c = elim (Option-cases (lookup pod.node_name p.nodes)) [
  | inl e ↦ rw (e, remove) c
  | inr (ns, e) ↦ elim (Option-cases (take_out pod ns.occupants)) [
    | inl e' ↦ rw (e, e', remove) c
    | inr ((found, left), e') ↦
        rw (e, e', remove)
          (left_by p pod.node_name ns (release ns pod left) e c found (release-labels ns pod left)
            (release-matching ns pod e'))
  ]
]
