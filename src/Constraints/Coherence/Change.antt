-- ===== src/Constraints/Coherence/Change.antt =====
-- How `domain_total` changes when one node's occupants change, as `Place` and `Remove` of
-- placement.go change them.
use k8s_dencer.Base.{
  ℕ, ◌+◌, String, ◌≡◌, refl, ap, ◌⊎◌, inl, inr, true, false, Option, none, some, List, [], ◌∷◌,
  ◌==◌, string_eq, lookup, contains, arith, Bool-cases,
}
use text.Mathlib.TextEquality.{eq_iff}
use k8s_dencer.Model.Labels.{LabelSelector}
use k8s_dencer.Constraints.State.{NodeState}
use k8s_dencer.Constraints.Coherence.Count.{Distinct, combine, node_share, domain_total}

-- `y` is `x` with `k` more, and `k` is 0 where there is no domain to count in.
abbrev pub Grown : Option ℕ → ℕ → Option ℕ → Type 0
Grown x k y = ((s : ℕ) × (x ≡ some s) × (y ≡ some (s + k))) ⊎ ((x ≡ y) × (k ≡ 0))

Grown-combine_left :
    {x y : Option ℕ} {k : ℕ} (z : Option ℕ) → Grown x k y → Grown (combine x z) k (combine y z)
Grown-combine_left none (inl (s, p, q)) = inl (s, ground arith, ground arith)
Grown-combine_left (some c) (inl (s, p, q)) = inl (s + c, ground arith, ground arith)
Grown-combine_left z (inr (p, q)) = inr (ap (λ w. combine w z) p, q)

Grown-combine_right :
    {x y : Option ℕ} {k : ℕ} (z : Option ℕ) → Grown x k y → Grown (combine z x) k (combine z y)
Grown-combine_right none g = g
Grown-combine_right (some c) (inl (s, p, q)) = inl (c + s, ground arith, ground arith)
Grown-combine_right (some c) (inr (p, q)) = inr (ap (combine (some c)) p, q)

module _ (namespace : String) (selector : Option LabelSelector) (topology_key d : String)
    (n : String) (m₁ m₂ : List (String × NodeState))
    (others : (j : String) → (n == j) ≡ false → lookup j m₁ ≡ lookup j m₂) where
  -- A node that is not in the order does not count.
  total_absent :
      (order : List String)
      → contains order n ≡ false
      → domain_total namespace selector topology_key d m₁ order
        ≡ domain_total namespace selector topology_key d m₂ order
  unfolding domain_total contains
  total_absent [] h = refl
  total_absent (j ∷ order) h = ground (arith, eq_iff n j, eq_iff j n, others j, total_absent order)

  pub domain_total-Grown :
      (k : ℕ) (order : List String)
      → Distinct order
      → contains order n ≡ true
      → Grown
          (node_share namespace selector topology_key d (lookup n m₁))
          k
          (node_share namespace selector topology_key d (lookup n m₂))
      → Grown
          (domain_total namespace selector topology_key d m₁ order)
          k
          (domain_total namespace selector topology_key d m₂ order)
  unfolding domain_total contains
  domain_total-Grown k [] distinct listed g = cc
  domain_total-Grown k (j ∷ order) distinct listed g = elim (Bool-cases (j == n)) [
    | inl e ↦
        let name = (eq_iff j n).0 e in
        rw (name, total_absent order (rw name at distinct.0)) (Grown-combine_left _ g)
    | inr e ↦
        rw (others j (ground (arith, eq_iff n j, eq_iff j n)))
          (Grown-combine_right _ (domain_total-Grown k order distinct.1 (ground arith) g))
  ]
