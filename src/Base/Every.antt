-- ===== src/Base/Every.antt =====
-- A predicate of every element of a list, and what keeps it.
use mathlib.Core.Path.{◌≡◌, subst}
use mathlib.Core.Logic.{◌≢◌, inl, inr}
use mathlib.Core.Option.{Option, none, some}
use mathlib.Core.Bool.{Bool, true}
use mathlib.Core.List.{List, [], ◌∷◌, ◌++◌}
use k8s_dencer.Base.Tests.{Bool-cases}
use k8s_dencer.Base.Lists.{keep}
use k8s_dencer.Base.Sort.{insert_sorted, sort_by}

abbrev pub head_of {ℓ} : {A : Type ℓ} → List A → Option A
head_of [] = none
head_of (x ∷ _) = some x

-- Of every element.
abbrev pub All {ℓ κ} : {A : Type ℓ} → (A → Type κ) → List A → Type κ
All P [] = Unit
All P (x ∷ xs) = P x × All P xs

pub All-map {ℓ κ μ} :
    {A : Type ℓ} (P : A → Type κ) (R : A → Type μ) (xs : List A)
    → ((x : A) → P x → R x)
    → All P xs
    → All R xs
All-map P R [] f a = tt
All-map P R (x ∷ xs) f a = (f x a.0, All-map P R xs f a.1)

pub All-of_each {ℓ κ} : {A : Type ℓ} (P : A → Type κ) (xs : List A) → ((x : A) → P x) → All P xs
All-of_each P [] f = tt
All-of_each P (x ∷ xs) f = (f x, All-of_each P xs f)

pub All-snoc {ℓ κ} :
    {A : Type ℓ} (P : A → Type κ) (xs : List A) (x : A) → All P xs → P x → All P (xs ++ x ∷ [])
All-snoc P [] x a p = (p, tt)
All-snoc P (y ∷ ys) x a p = (a.0, All-snoc P ys x a.1 p)

-- What is kept passes the test, and has what all had.
pub All-keep {ℓ κ} :
    {A : Type ℓ} (P : A → Type κ) (test : A → Bool) (xs : List A)
    → All P xs
    → All (λ x. P x × (test x ≡ true)) (keep test xs)
unfolding keep
All-keep P test [] a = tt
All-keep P test (x ∷ xs) a = elim (Bool-cases (test x)) [
  | inl e ↦ rw e ((a.0, e), All-keep P test xs a.1)
  | inr e ↦ rw e (All-keep P test xs a.1)
]

insert_sorted-All {ℓ κ} :
    {A : Type ℓ} (less : A → A → Bool) (P : A → Type κ) (x : A) (xs : List A)
    → P x
    → All P xs
    → All P (insert_sorted less x xs)
unfolding insert_sorted
insert_sorted-All less P x [] p a = (p, tt)
insert_sorted-All less P x (y ∷ ys) p a = elim (Bool-cases (less y x)) [
  | inl e ↦ rw e (a.0, insert_sorted-All less P x ys p a.1)
  | inr e ↦ rw e (p, a)
]

pub sort_by-All {ℓ κ} :
    {A : Type ℓ} (less : A → A → Bool) (P : A → Type κ) (xs : List A)
    → All P xs
    → All P (sort_by less xs)
unfolding sort_by
sort_by-All less P [] a = tt
sort_by-All less P (x ∷ xs) a =
    insert_sorted-All less P x (sort_by less xs) a.0 (sort_by-All less P xs a.1)

pub All-head {ℓ κ} :
    {A : Type ℓ} (P : A → Type κ) (xs : List A) (x : A) → All P xs → head_of xs ≡ some x → P x
All-head P [] x a h = absurd cc
All-head P (y ∷ ys) x a h = let same : y ≡ x = cc in subst P same a.0

-- No element twice.
abbrev pub Distinct {ℓ} : {A : Type ℓ} → List A → Type ℓ
Distinct [] = Unit
Distinct (x ∷ xs) = All (λ y. y ≢ x) xs × Distinct xs

pub All-append {ℓ κ} :
    {A : Type ℓ} (P : A → Type κ) (xs ys : List A) → All P xs → All P ys → All P (xs ++ ys)
All-append P [] ys a b = b
All-append P (x ∷ xs) ys a b = (a.0, All-append P xs ys a.1 b)

-- What all had, the kept ones have.
pub All-kept {ℓ κ} :
    {A : Type ℓ} (P : A → Type κ) (test : A → Bool) (xs : List A) → All P xs → All P (keep test xs)
All-kept P test xs a =
    All-map (λ x. P x × (test x ≡ true)) P (keep test xs) (λ _ both. both.0) (All-keep P test xs a)
