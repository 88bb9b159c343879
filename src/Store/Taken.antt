-- ===== src/Store/Taken.antt =====
-- internal/store/sqlstore/execution.go: a run that was claimed is never pending again.
use k8s_dencer.Base.{
  ◌+◌, ◌≡◌, ◌≢◌, String, Bool, true, false, some, List, [], ◌∷◌, ◌++◌, inl, inr, Bool-cases,
  Option-cases, ◌==◌, string_eq, any, keep, sort_by, All, All-map, All-snoc, All-keep, All-head,
  sort_by-All, ap, sym, refl, ◌∙◌, arith,
}
use mathlib.Core.Path.{subst, subst₂}
use k8s_dencer.Store.Runs.{Run, run_pending, terminal}
use k8s_dencer.Store.Execution.{
  Row, inserted, max_seq, with_defaults, enqueue, earlier, oldest_pending, set_where, claimed_by,
  claim, closed_as, finish_run,
}

-- A run that is in the table and is not pending.
abbrev pub Taken : List Row → String → Type 0
Taken rows id =
    (any (λ r. r.run.id == id) rows ≡ true)
    × All (λ r. r.run.id ≡ id → (r.run.status == run_pending) ≡ false) rows

-- An update that keeps the identifier and makes no run pending.
abbrev pub Settles : (Run → Run) → Type 0
Settles change =
    (run : Run)
    → ((change run).id ≡ run.id)
      × ((run.status == run_pending) ≡ false → ((change run).status == run_pending) ≡ false)

any-set_where :
    (test : Run → Bool) (change : Run → Run) (id : String) (rows : List Row)
    → Settles change
    → any (λ r. r.run.id == id) (set_where test change rows) ≡ any (λ r. r.run.id == id) rows
unfolding any
any-set_where test change id [] settles = refl
any-set_where test change id (r ∷ rows) settles = elim (Bool-cases (test r.run)) [
  | inl e ↦ rw (e, (settles r.run).0, any-set_where test change id rows settles)
  | inr e ↦ rw (e, any-set_where test change id rows settles)
]

set_where-All :
    (test : Run → Bool) (change : Run → Run) (id : String) (rows : List Row)
    → Settles change
    → All (λ r. r.run.id ≡ id → (r.run.status == run_pending) ≡ false) rows
    → All (λ r. r.run.id ≡ id → (r.run.status == run_pending) ≡ false) (set_where test change rows)
set_where-All test change id [] settles a = tt
set_where-All test change id (r ∷ rows) settles a = elim (Bool-cases (test r.run)) [
  | inl e ↦ rw e (
    λ same. (settles r.run).1 (a.0 (sym (settles r.run).0 ∙ same)),
    set_where-All test change id rows settles a.1,
  )
  | inr e ↦ rw e (a.0, set_where-All test change id rows settles a.1)
]

pub set_where-Taken :
    (test : Run → Bool) (change : Run → Run) (rows : List Row) (id : String)
    → Settles change
    → Taken rows id
    → Taken (set_where test change rows) id
set_where-Taken test change rows id settles taken = (
  any-set_where test change id rows settles ∙ taken.0,
  set_where-All test change id rows settles taken.1,
)

-- A new row of another run takes nothing back.
any-snoc :
    (id : String) (rows : List Row) (row : Row)
    → any (λ r. r.run.id == id) rows ≡ true
    → any (λ r. r.run.id == id) (rows ++ row ∷ []) ≡ true
unfolding any
any-snoc id [] row h = absurd cc
any-snoc id (r ∷ rows) row h = ground (arith, any-snoc id rows row)

pub enqueue-Taken :
    (fresh now : String) (run : Run) (rows rows' : List Row) (new id : String)
    → enqueue fresh now run rows ≡ some (new, rows')
    → Taken rows id
    → Taken rows' id
unfolding enqueue any
enqueue-Taken fresh now run rows rows' new id h taken =
    elim (Bool-cases (any (λ r. r.run.id == (with_defaults fresh now run).id) rows)) [
      | inl e ↦ absurd (let h' = (rw (e, enqueue) at h) in cc)
      | inr e ↦
          let run' = with_defaults fresh now run in
          let row : Row = record { run = inserted run'; seq = max_seq rows + 1 } in
          let stored : String × List Row = (run'.id, rows ++ row ∷ []) in
          let h' : some stored ≡ some (new, rows') = (rw e at h) in
          let grown : rows ++ row ∷ [] ≡ rows' = cc in
          subst (λ x. Taken x id) grown
            (
              any-snoc id rows row taken.0,
              All-snoc (λ r. r.run.id ≡ id → (r.run.status == run_pending) ≡ false) rows row taken.1
                  (λ same. absurd (
                    let twice : any (λ r. r.run.id == run'.id) rows ≡ true =
                      subst (λ i. any (λ r. r.run.id == i) rows ≡ true) (sym same) taken.0 in
                    cc)),
            )
    ]

-- The row that a claim picks is pending, and has what all rows have.
pub oldest_pending-All {ℓ} :
    (P : Row → Type ℓ) (rows : List Row) (r : Row)
    → All P rows
    → oldest_pending rows ≡ some r
    → P r × ((r.run.status == run_pending) ≡ true)
unfolding oldest_pending
oldest_pending-All P rows r a h =
    All-head (λ x. P x × ((x.run.status == run_pending) ≡ true))
      (sort_by earlier (keep (λ x. x.run.status == run_pending) rows)) r
      (sort_by-All earlier (λ x. P x × ((x.run.status == run_pending) ≡ true))
        (keep (λ x. x.run.status == run_pending) rows)
        (All-keep P (λ x. x.run.status == run_pending) rows a))
      h

claimed_by-Settles : (worker now : String) → Settles (claimed_by worker now)
claimed_by-Settles worker now run = (refl, λ _. refl)

not_pending : (status : String) → terminal status ≡ true → (status == run_pending) ≡ false
unfolding terminal
not_pending status h = elim (Bool-cases (status == run_pending)) [
  | inl e ↦ absurd (
      let pending : status ≡ run_pending = (string_eq.equals_iff status run_pending).0 e in
      let h' : terminal run_pending ≡ true = subst (λ s. terminal s ≡ true) pending h in cc)
  | inr e ↦ e
]

pub claim-Taken :
    (worker now : String) (run : Run) (rows rows' : List Row) (id : String)
    → claim worker now rows ≡ some (run, rows')
    → Taken rows id
    → Taken rows' id × (id ≢ run.id)
unfolding claim
claim-Taken worker now run rows rows' id h taken = elim (Option-cases (oldest_pending rows)) [
  | inl e ↦ absurd (let h' = (rw (e, claim) at h) in cc)
  | inr (r, e) ↦
      let after = set_where (λ x. x.id == r.run.id) (claimed_by worker now) rows in
      let result : Run × List Row = (claimed_by worker now r.run, after) in
      let h' : some result ≡ some (run, rows') = (rw (e, claim) at h) in
      let same_run : claimed_by worker now r.run ≡ run = cc in
      let same_id : r.run.id ≡ run.id = ap (λ x. x.id) same_run in
      let same_rows : after ≡ rows' = cc in
      let waited =
        oldest_pending-All (λ x. x.run.id ≡ id → (x.run.status == run_pending) ≡ false) rows r
          taken.1 e in
      (
        subst (λ x. Taken x id) same_rows
            (set_where-Taken (λ x. x.id == r.run.id) (claimed_by worker now) rows id
              (claimed_by-Settles worker now) taken),
        λ same. let waits = waited.0 (same_id ∙ sym same) in let pending = waited.1 in cc,
      )
]

any_self : (rows : List Row) → All (λ x. any (λ y. y.run.id == x.run.id) rows ≡ true) rows
unfolding any
any_self [] = tt
any_self (r ∷ rows) = (
  ground (arith, string_eq.equals_iff r.run.id r.run.id),
  All-map (λ x. any (λ y. y.run.id == x.run.id) rows ≡ true)
      (λ x. any (λ y. y.run.id == x.run.id) (r ∷ rows) ≡ true) rows (λ x h. ground arith)
      (any_self rows),
)

claimed-All :
    (worker now : String) (id : String) (rows : List Row)
    → All
        (λ r. r.run.id ≡ id → (r.run.status == run_pending) ≡ false)
        (set_where (λ x. x.id == id) (claimed_by worker now) rows)
claimed-All worker now id [] = tt
claimed-All worker now id (r ∷ rows) = elim (Bool-cases (r.run.id == id)) [
  | inl e ↦ rw e ((λ _. refl), claimed-All worker now id rows)
  | inr e ↦ rw e (
    (λ same. absurd (let e' = (string_eq.equals_iff r.run.id id).1 same in cc)),
    claimed-All worker now id rows,
  )
]

-- The claimed run is in the table, and is pending no longer.
pub claim-Taken_own :
    (worker now : String) (run : Run) (rows rows' : List Row)
    → claim worker now rows ≡ some (run, rows')
    → Taken rows' run.id
unfolding claim
claim-Taken_own worker now run rows rows' h = elim (Option-cases (oldest_pending rows)) [
  | inl e ↦ absurd (let h' = (rw (e, claim) at h) in cc)
  | inr (r, e) ↦
      let after = set_where (λ x. x.id == r.run.id) (claimed_by worker now) rows in
      let result : Run × List Row = (claimed_by worker now r.run, after) in
      let h' : some result ≡ some (run, rows') = (rw (e, claim) at h) in
      let same_run : claimed_by worker now r.run ≡ run = cc in
      let same_id : r.run.id ≡ run.id = ap (λ x. x.id) same_run in
      let same_rows : after ≡ rows' = cc in
      let there =
        oldest_pending-All (λ x. any (λ y. y.run.id == x.run.id) rows ≡ true) rows r (any_self rows)
          e in
      subst₂ Taken same_rows same_id (
        any-set_where (λ x. x.id == r.run.id) (claimed_by worker now) r.run.id rows
              (claimed_by-Settles worker now)
            ∙ there.0,
        claimed-All worker now r.run.id rows,
      )
]

pub finish_run-Taken :
    (id status now : String) (rows : List Row) (i : String)
    → Taken rows i
    → Taken (finish_run id status now rows).1 i
unfolding finish_run
finish_run-Taken id status now rows i taken = elim (Bool-cases (terminal status)) [
  | inr e ↦ rw (e, finish_run) taken
  | inl e ↦ elim (Bool-cases (any (λ r. r.run.id == id) rows)) [
    | inr gone ↦ rw (e, gone, finish_run) taken
    | inl there ↦
        rw (e, there, finish_run)
          (set_where-Taken (λ x. x.id == id) (closed_as status now) rows i
            (λ run. (refl, λ _. not_pending status e)) taken)
  ]
]
