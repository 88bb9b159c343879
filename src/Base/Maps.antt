-- ===== src/Base/Maps.antt =====
-- Go's maps as association lists: the first entry of a key counts, and a write replaces it.
use mathlib.Core.Path.{◌≡◌, refl, sym, ◌∙◌, subst₂}
use mathlib.Core.Logic.{inl, inr}
use mathlib.Core.Option.{Option, none, some}
use mathlib.Core.List.{List, [], ◌∷◌}
use Prim.Native.String.{String}
use native.Mathlib.Omega.{arith}
use k8s_dencer.Base.Every.{All}
use k8s_dencer.Base.Tests.{Comparable, string_eq, ◌==◌, if◌then◌else◌, Bool-cases}

abbrev pub Map {ℓ κ} : Type ℓ → Type κ → Type (ℓ ⊔ κ)
Map K V = List (K × V)

module _ {ℓ κ} {K : Type ℓ} {V : Type κ} ⦃e : Comparable K⦄ where
  unfoldable pub lookup : K → List (K × V) → Option V
  lookup key [] = none
  lookup key ((first, value) ∷ rest) = if first == key then some value else lookup key rest

  unfoldable pub insert : K → V → List (K × V) → List (K × V)
  insert key new [] = (key, new) ∷ []
  insert key new ((first, value) ∷ rest) =
      if first == key then (key, new) ∷ rest else (first, value) ∷ insert key new rest

  -- A read after a write.
  pub lookup-insert :
      (key other : K) (new : V) (entries : List (K × V))
      → lookup other (insert key new entries)
        ≡ (if key == other then some new else lookup other entries)
  unfolding lookup insert
  lookup-insert key other new [] = refl
  lookup-insert key other new ((first, _) ∷ rest) = ground (
    arith,
    lookup-insert key other new rest,
    e.equals_iff first key,
    e.equals_iff first other,
    e.equals_iff key other,
  )

module _ {ℓ κ μ} {K : Type ℓ} {V : Type κ} ⦃e : Comparable K⦄ (P : K → V → Type μ) where
  -- What holds of every entry and of the written one holds after the write.
  pub insert-all :
      (k : K) (v : V) (m : List (K × V))
      → P k v
      → ((j : K) (w : V) → lookup j m ≡ some w → P j w)
      → (j : K) (w : V) → lookup j (insert k v m) ≡ some w
      → P j w
  insert-all k v m p all j w h = elim (Bool-cases (k == j)) [
    | inl same ↦
        let written : some v ≡ some w = sym (lookup-insert k j v m ∙ rw same) ∙ h in
        let v_w : v ≡ w = cc in subst₂ P ((e.equals_iff k j).0 same) v_w p
    | inr other ↦ all j w (sym (lookup-insert k j v m ∙ rw other) ∙ h)
  ]

-- A read of a Go map of strings: a missing key gives "".
unfoldable pub get : List (String × String) → String → String
unfolding lookup
get m k = elim (lookup k m) [ some v ↦ v | none ↦ "" ]

module _ {ℓ κ μ} {K : Type ℓ} {V : Type κ} ⦃e : Comparable K⦄ (P : K × V → Type μ) where
  -- What holds of the entries and of the written one.
  pub All-insert : (k : K) (v : V) (m : List (K × V)) → P (k, v) → All P m → All P (insert k v m)
  unfolding insert
  All-insert k v [] p a = (p, tt)
  All-insert k v ((first, w) ∷ rest) p a = elim (Bool-cases (first == k)) [
    | inl same ↦ rw same (p, a.1)
    | inr other ↦ rw other (a.0, All-insert k v rest p a.1)
  ]

  -- What is read is an entry.
  pub All-lookup : (k : K) (v : V) (m : List (K × V)) → lookup k m ≡ some v → All P m → P (k, v)
  unfolding lookup
  All-lookup k v [] h a = absurd cc
  All-lookup k v ((first, w) ∷ rest) h a = elim (Bool-cases (first == k)) [
    | inl same ↦
        let read : w ≡ v = let h' = (rw same at h) in cc in
        let key : first ≡ k = (e.equals_iff first k).0 same in subst₂ (λ x y. P (x, y)) key read a.0
    | inr other ↦ All-lookup k v rest (rw other at h) a.1
  ]
