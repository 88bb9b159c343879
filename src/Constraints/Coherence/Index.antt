-- ===== src/Constraints/Coherence/Index.antt =====
-- One entry of the index of spreadindex.go: what it has to hold, and that `adjustSpread` keeps it.
use k8s_dencer.Base.{
  ℕ, ◌+◌, ◌%◌, ◌^◌, String, ◌≡◌, ap, ◌∙◌, inl, inr, true, false, Option, none, some, List, [], ◌∷◌,
  ◌==◌, string_eq, if◌then◌else◌, lookup, arith, Bool-cases,
}
use text.Mathlib.TextEquality.{eq_iff}
use k8s_dencer.Model.Labels.{LabelSelector}
use k8s_dencer.Model.Cluster.{Pod}
use k8s_dencer.Constraints.State.{NodeState, SpreadKey, spread_key_eq, SpreadEntry}
use k8s_dencer.Constraints.SpreadIndex.{selector_fingerprint, counts_for, bump, adjust_entry}
use k8s_dencer.Constraints.Coherence.Count.{wrapped, domain_total}
use k8s_dencer.Constraints.Coherence.Tally.{Stands, lookup-bump}

-- The number that a counter of an entry has to stand for.
abbrev pub true_count :
    List (String × NodeState) → List String → SpreadKey → Option LabelSelector → String → Option ℕ
true_count nodes order key selector d =
    domain_total key.namespace selector key.topology_key d nodes order

-- An entry answers its question: its key is its selector's, and its counters are the true counts.
pub record IsExact (nodes : List (String × NodeState)) (order : List String) (key : SpreadKey)
    (e : SpreadEntry) : Type 0 where
  pub keyed : key.selector ≡ selector_fingerprint e.selector
  pub exact : Stands e.counts (true_count nodes order key e.selector)

abbrev pub AllExact :
    List (String × NodeState) → List String → List (SpreadKey × SpreadEntry) → Type 0
AllExact nodes order [] = Unit
AllExact nodes order ((key, e) ∷ rest) = IsExact nodes order key e × AllExact nodes order rest

-- What a move does to the true counts of one question, in step with a counter's change by `delta`.
pub data Effect (m₁ m₂ : List (String × NodeState)) (order : List String) (pod : Pod)
    (ns : NodeState) (delta : ℕ) (key : SpreadKey) (selector : Option LabelSelector) : Type 0 where
  skips :
      counts_for key.namespace selector pod ≡ false
      → ((d : String) → true_count m₁ order key selector d ≡ true_count m₂ order key selector d)
      → Effect m₁ m₂ order pod ns delta key selector
  outside :
      lookup key.topology_key ns.node.labels ≡ none
      → ((d : String) → true_count m₁ order key selector d ≡ true_count m₂ order key selector d)
      → Effect m₁ m₂ order pod ns delta key selector
  shifts :
      (dom : String) (a b : ℕ)
      → counts_for key.namespace selector pod ≡ true
      → lookup key.topology_key ns.node.labels ≡ some dom
      → true_count m₁ order key selector dom ≡ some a
      → true_count m₂ order key selector dom ≡ some b
      → (a + delta) % 2 ^ 64 ≡ b % 2 ^ 64
      → ((d : String)
          → (dom == d) ≡ false
          → true_count m₁ order key selector d ≡ true_count m₂ order key selector d)
      → Effect m₁ m₂ order pod ns delta key selector

adjust_entry_lem :
    (pod : Pod) (ns : NodeState) (delta : ℕ) (key : SpreadKey) (e : SpreadEntry)
    → adjust_entry pod ns delta key e ≡ (
        if counts_for key.namespace e.selector pod
        then elim (lookup key.topology_key ns.node.labels) [
          | none ↦ e
          | some dom ↦ record e { counts = bump dom delta e.counts }
        ]
        else e)
unfolding adjust_entry counts_for
adjust_entry_lem pod ns delta key e =
    ground (arith, eq_iff key.namespace pod.namespace, eq_iff pod.namespace key.namespace)

module _ (m₁ m₂ : List (String × NodeState)) (order : List String) (pod : Pod) (ns : NodeState)
    (delta : ℕ) (key : SpreadKey) where
  unmoved :
      (e : SpreadEntry)
      → ((d : String) → true_count m₁ order key e.selector d ≡ true_count m₂ order key e.selector d)
      → IsExact m₁ order key e
      → IsExact m₂ order key e
  unmoved e same x = record { keyed = x.keyed; exact = λ d. x.exact d ∙ ap wrapped (same d) }

  pub adjust_entry-IsExact :
      (e : SpreadEntry)
      → Effect m₁ m₂ order pod ns delta key e.selector
      → IsExact m₁ order key e
      → IsExact m₂ order key (adjust_entry pod ns delta key e)
  adjust_entry-IsExact e (skips off same) x =
      rw (adjust_entry_lem pod ns delta key e, off) (unmoved e same x)
  adjust_entry-IsExact e (outside off same) x =
      elim (Bool-cases (counts_for key.namespace e.selector pod)) [
        | inl on ↦ rw (adjust_entry_lem pod ns delta key e, on, off) (unmoved e same x)
        | inr no_ ↦ rw (adjust_entry_lem pod ns delta key e, no_) (unmoved e same x)
      ]
  adjust_entry-IsExact e (shifts dom a b on at was now step same) x =
      rw (adjust_entry_lem pod ns delta key e, on, at)
        (record {
          keyed = x.keyed;
          exact = λ d.
              lookup-bump dom d delta a e.counts (x.exact dom ∙ ap wrapped was)
              ∙ shifted d (x.exact d) (same d);
        })
    where
      shifted :
          (d : String)
          → lookup d e.counts ≡ wrapped (true_count m₁ order key e.selector d)
          → ((dom == d) ≡ false
              → true_count m₁ order key e.selector d ≡ true_count m₂ order key e.selector d)
          → (if dom == d then some ((a + delta) % 2 ^ 64) else lookup d e.counts)
            ≡ wrapped (true_count m₂ order key e.selector d)
      shifted d was_d same_d = elim (Bool-cases (dom == d)) [
        | inl e' ↦ rw (e', ← (eq_iff dom d).0 e', now, step)
        | inr e' ↦ rw e' (was_d ∙ ap wrapped (same_d e'))
      ]
