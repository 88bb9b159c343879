-- ===== src/Store/Keyed.antt =====
-- internal/store/sqlstore/execution.go: what the primary key of the table of runs gives.
use k8s_dencer.Base.{
  ◌≡◌, ◌≢◌, String, Bool, true, false, none, some, List, [], ◌∷◌, ◌++◌, map, inl, inr, Bool-cases,
  ◌==◌, string_eq, if◌then◌else◌, any, find, All, All-snoc, Distinct, refl, sym, ◌∙◌, ap,
}
use mathlib.Core.Path.{subst}
use k8s_dencer.Store.Runs.{Run}
use k8s_dencer.Store.Execution.{Row, set_where}

abbrev pub ids : List Row → List String
ids rows = map (λ r. r.run.id) rows

-- The primary key.
abbrev pub HasKey : List Row → Type 0
HasKey rows = Distinct (ids rows)

abbrev pub KeepsId : (Run → Run) → Type 0
KeepsId change = (run : Run) → (change run).id ≡ run.id

pub ids-set_where :
    (test : Run → Bool) (change : Run → Run) (rows : List Row)
    → KeepsId change
    → ids (set_where test change rows) ≡ ids rows
ids-set_where test change [] same = refl
ids-set_where test change (r ∷ rows) same = elim (Bool-cases (test r.run)) [
  | inl e ↦ rw (e, same r.run, ids-set_where test change rows same) refl
  | inr e ↦ rw (e, ids-set_where test change rows same) refl
]

abbrev pub changed : (Run → Bool) → (Run → Run) → Row → Row
changed test change r = if test r.run then record r { run = change r.run } else r

pub find-set_where :
    (test : Run → Bool) (change : Run → Run) (id : String) (rows : List Row)
    → KeepsId change
    → find (λ r. r.run.id == id) (set_where test change rows)
      ≡ (elim (find (λ r. r.run.id == id) rows) [
        | none ↦ none
        | some r ↦ some (changed test change r)
      ])
unfolding find
find-set_where test change id [] same = refl
find-set_where test change id (r ∷ rows) same = elim (Bool-cases (test r.run)) [
  | inl e ↦ elim (Bool-cases (r.run.id == id)) [
    | inl own ↦
        let own' = subst (λ i. (i == id) ≡ true) (sym (same r.run)) own in rw (e, own', own, e) refl
    | inr other ↦
        let other' = subst (λ i. (i == id) ≡ false) (sym (same r.run)) other in
        rw (e, other', other) (find-set_where test change id rows same)
  ]
  | inr e ↦ elim (Bool-cases (r.run.id == id)) [
    | inl own ↦ rw (e, own, e) refl
    | inr other ↦ rw (e, other) (find-set_where test change id rows same)
  ]
]

pub find-snoc :
    (id : String) (rows : List Row) (row : Row)
    → find (λ r. r.run.id == id) (rows ++ row ∷ []) ≡ (elim (find (λ r. r.run.id == id) rows) [
      | none ↦ if row.run.id == id then some row else none
      | some r ↦ some r
    ])
unfolding find
find-snoc id [] row = refl
find-snoc id (r ∷ rows) row = elim (Bool-cases (r.run.id == id)) [
  | inl own ↦ rw own refl
  | inr other ↦ rw other (find-snoc id rows row)
]

pub find-own :
    (id : String) (rows : List Row) (r : Row)
    → find (λ x. x.run.id == id) rows ≡ some r
    → r.run.id ≡ id
unfolding find
find-own id [] r h = absurd cc
find-own id (x ∷ rows) r h = elim (Bool-cases (x.run.id == id)) [
  | inl own ↦
      let h' = (rw own at h) in
      let same : x ≡ r = cc in
      ap (λ y. y.run.id) (sym same) ∙ (string_eq.equals_iff x.run.id id).0 own
  | inr other ↦ find-own id rows r (rw other at h)
]

others :
    (first : String) (rows : List Row) (id : String) (r : Row)
    → All (λ i. i ≢ first) (ids rows)
    → first ≡ id
    → All (λ x. x.run.id ≡ id → x ≡ r) rows
others first [] id r apart same = tt
others first (x ∷ rows) id r apart same =
    ((λ here. absurd (apart.0 (here ∙ sym same))), others first rows id r apart.1 same)

-- By the key, every row of the identifier is the one that is found.
pub find-only :
    (id : String) (rows : List Row) (r : Row)
    → HasKey rows
    → find (λ x. x.run.id == id) rows ≡ some r
    → All (λ x. x.run.id ≡ id → x ≡ r) rows
unfolding find
find-only id [] r key h = tt
find-only id (x ∷ rows) r key h = elim (Bool-cases (x.run.id == id)) [
  | inl own ↦
      let h' = (rw own at h) in
      let same : x ≡ r = cc in
      let here : x.run.id ≡ id = (string_eq.equals_iff x.run.id id).0 own in
      ((λ _. same), others x.run.id rows id r key.0 here)
  | inr other ↦ (
    (λ here. absurd (let e = (string_eq.equals_iff x.run.id id).1 here in cc)),
    find-only id rows r key.1 (rw other at h),
  )
]

pub ids-append :
    (rows : List Row) (row : Row) → ids (rows ++ row ∷ []) ≡ ids rows ++ row.run.id ∷ []
ids-append [] row = refl
ids-append (r ∷ rows) row = ap (λ is. r.run.id ∷ is) (ids-append rows row)

pub Distinct-snoc :
    (is : List String) (new : String)
    → All (λ i. i ≢ new) is
    → Distinct is
    → Distinct (is ++ new ∷ [])
Distinct-snoc [] new apart distinct = (tt, tt)
Distinct-snoc (i ∷ is) new apart distinct = (
  All-snoc (λ j. j ≢ i) is new distinct.0 (λ same. apart.0 (sym same)),
  Distinct-snoc is new apart.1 distinct.1,
)

pub any-All :
    (new : String) (rows : List Row)
    → any (λ r. r.run.id == new) rows ≡ false
    → All (λ i. i ≢ new) (ids rows)
unfolding any
any-All new [] h = tt
any-All new (r ∷ rows) h = elim (Bool-cases (r.run.id == new)) [
  | inl e ↦ absurd (let h' = (rw (e, any) at h) in cc)
  | inr e ↦ (
    (λ same. absurd (let e' = (string_eq.equals_iff r.run.id new).1 same in cc)),
    any-All new rows (rw e at h),
  )
]
