-- ===== src/Store/Refines.antt =====
-- internal/store/sqlstore/execution.go: the table of runs implements the lifecycle of each run.
use k8s_dencer.Base.{
  ◌+◌, ◌≡◌, String, Bool, true, ◌&&◌, Option, none, some, List, [], ◌∷◌, ◌++◌, inl, inr, Bool-cases,
  Option-cases, ◌==◌, string_eq, if◌then◌else◌, any, find, Distinct, refl, sym, ◌∙◌, ap,
}
use mathlib.Core.Path.{subst, subst₂}
use k8s_dencer.Store.Runs.{Run, run_pending, run_running, terminal}
use k8s_dencer.Store.Execution.{
  Row, inserted, max_seq, with_defaults, enqueue, oldest_pending, set_where, run_by_id, claimed_by,
  claim, closed_as, finish_run, is_active, request_stop,
}
use k8s_dencer.Store.Keyed.{
  ids, HasKey, KeepsId, changed, ids-set_where, find-set_where, find-snoc, find-own, find-only,
  ids-append, Distinct-snoc, any-All,
}
use k8s_dencer.Store.Taken.{oldest_pending-All}

-- What a reader sees of a run: its status, where there is such a run.
unfoldable pub status_of : String → List Row → Option String
unfolding run_by_id
status_of id rows = elim (run_by_id id rows) [ none ↦ none | some run ↦ some run.status ]

-- The lifecycle: a run appears, starts when it was pending, and ends with a status that is terminal.
pub data Life : Option String → Option String → Type 0 where
  stays : {s : Option String} → Life s s
  appears : {s : String} → Life none (some s)
  starts : Life (some run_pending) (some run_running)
  ends : {s t : String} → terminal t ≡ true → Life (some s) (some t)

-- A statement on the table.
pub data Statement : List Row → List Row → Type 0 where
  enqueues :
      {rows rows' : List Row} (fresh now : String) (run : Run) (id : String)
      → enqueue fresh now run rows ≡ some (id, rows')
      → Statement rows rows'
  claims :
      {rows rows' : List Row} (worker now : String) (run : Run)
      → claim worker now rows ≡ some (run, rows')
      → Statement rows rows'
  finishes :
      {rows : List Row} (id status now : String) → Statement rows (finish_run id status now rows).1
  requests : {rows : List Row} (id by : String) → Statement rows (request_stop id by rows)

abbrev status_in : Option Row → Option String
status_in none = none
status_in (some r) = some r.run.status

status_of-find :
    (id : String) (rows : List Row)
    → status_of id rows ≡ status_in (find (λ r. r.run.id == id) rows)
unfolding status_of run_by_id
status_of-find id rows = elim (Option-cases (find (λ r. r.run.id == id) rows)) [
  | inl gone ↦ rw (gone, status_of, run_by_id) refl
  | inr (r, e) ↦ rw (e, status_of, run_by_id) refl
]

changed-Life :
    (test : Run → Bool) (change : Run → Run) (found : Option Row)
    → ((r : Row)
        → found ≡ some r
        → test r.run ≡ true
        → Life (some r.run.status) (some (change r.run).status))
    → Life
        (status_in found)
        (status_in (elim found [ none ↦ none | some r ↦ some (changed test change r) ]))
changed-Life test change none moves = stays
changed-Life test change (some r) moves = elim (Bool-cases (test r.run)) [
  | inl met ↦ rw met (moves r refl met)
  | inr missed ↦ rw missed stays
]

-- An update by identifier changes the status of the run that it finds, if it meets the test.
status_of-set_where :
    (test : Run → Bool) (change : Run → Run) (id : String) (rows : List Row)
    → KeepsId change
    → ((r : Row)
        → find (λ x. x.run.id == id) rows ≡ some r
        → test r.run ≡ true
        → Life (some r.run.status) (some (change r.run).status))
    → Life (status_of id rows) (status_of id (set_where test change rows))
status_of-set_where test change id rows same moves =
    subst₂ Life (sym (status_of-find id rows))
      (sym (
        status_of-find id (set_where test change rows)
        ∙ ap status_in (find-set_where test change id rows same)))
      (changed-Life test change (find (λ x. x.run.id == id) rows) moves)

found-Life :
    (id : String) (row : Row) (found : Option Row)
    → Life (status_in found) (
        status_in
          (elim found [ none ↦ if row.run.id == id then some row else none | some r ↦ some r ]))
found-Life id row (some r) = stays
found-Life id row none = elim (Bool-cases (row.run.id == id)) [
  | inl own ↦ rw own appears
  | inr other ↦ rw other stays
]

appended-Life :
    (id : String) (rows : List Row) (row : Row)
    → Life (status_of id rows) (status_of id (rows ++ row ∷ []))
appended-Life id rows row =
    subst₂ Life (sym (status_of-find id rows))
      (sym (status_of-find id (rows ++ row ∷ []) ∙ ap status_in (find-snoc id rows row)))
      (found-Life id row (find (λ r. r.run.id == id) rows))

enqueue-Life :
    (fresh now : String) (run : Run) (rows rows' : List Row) (new : String)
    → HasKey rows
    → enqueue fresh now run rows ≡ some (new, rows')
    → HasKey rows' × ((id : String) → Life (status_of id rows) (status_of id rows'))
unfolding enqueue
enqueue-Life fresh now run rows rows' new key h =
    let run' = with_defaults fresh now run in
    elim (Bool-cases (any (λ r. r.run.id == run'.id) rows)) [
      | inl e ↦ absurd (let h' = (rw (e, enqueue) at h) in cc)
      | inr e ↦
          let row : Row = record { run = inserted run'; seq = max_seq rows + 1 } in
          let stored : String × List Row = (run'.id, rows ++ row ∷ []) in
          let h' : some stored ≡ some (new, rows') = (rw e at h) in
          let grown : rows ++ row ∷ [] ≡ rows' = cc in
          (
            subst HasKey grown (
                subst (λ is. Distinct is) (sym (ids-append rows row))
                  (Distinct-snoc (ids rows) run'.id (any-All run'.id rows e) key)),
            λ id.
                subst (λ rs. Life (status_of id rows) (status_of id rs)) grown
                  (appended-Life id rows row),
          )
    ]

-- The row that a claim picks is the one that its identifier finds.
claim-Life :
    (worker now : String) (run : Run) (rows rows' : List Row)
    → HasKey rows
    → claim worker now rows ≡ some (run, rows')
    → HasKey rows' × ((id : String) → Life (status_of id rows) (status_of id rows'))
unfolding claim
claim-Life worker now run rows rows' key h = elim (Option-cases (oldest_pending rows)) [
  | inl e ↦ absurd (let h' = (rw (e, claim) at h) in cc)
  | inr (r, e) ↦
      let test : Run → Bool = λ x. x.id == r.run.id in
      let after = set_where test (claimed_by worker now) rows in
      let result : Run × List Row = (claimed_by worker now r.run, after) in
      let h' : some result ≡ some (run, rows') = (rw (e, claim) at h) in
      let same_rows : after ≡ rows' = cc in
      (
        subst HasKey same_rows (
            subst (λ is. Distinct is)
              (sym (ids-set_where test (claimed_by worker now) rows (λ _. refl))) key),
        λ id.
            subst (λ rs. Life (status_of id rows) (status_of id rs)) same_rows
              (status_of-set_where test (claimed_by worker now) id rows (λ _. refl)
                (λ found f met.
                  let own : found.run.id ≡ r.run.id =
                    (string_eq.equals_iff found.run.id r.run.id).0 met in
                  let named : found.run.id ≡ id = find-own id rows found f in
                  let picked =
                    oldest_pending-All (λ x. x.run.id ≡ id → x ≡ found) rows r
                      (find-only id rows found key f) e in
                  let same : r ≡ found = picked.0 (sym own ∙ named) in
                  let pending : r.run.status ≡ run_pending =
                    (string_eq.equals_iff r.run.status run_pending).0 picked.1 in
                  subst (λ s. Life (some s) (some run_running))
                    (sym pending ∙ ap (λ x. x.run.status) same) starts)),
      )
]

finish_run-Life :
    (i status now : String) (rows : List Row)
    → HasKey rows
    → HasKey (finish_run i status now rows).1
      × ((id : String) → Life (status_of id rows) (status_of id (finish_run i status now rows).1))
unfolding finish_run
finish_run-Life i status now rows key = elim (Bool-cases (terminal status)) [
  | inr e ↦ rw (e, finish_run) (key, λ id. stays)
  | inl e ↦ elim (Bool-cases (any (λ r. r.run.id == i) rows)) [
    | inr gone ↦ rw (e, gone, finish_run) (key, λ id. stays)
    | inl there ↦
        rw (e, there, finish_run)
          (
            subst (λ is. Distinct is)
                (sym (ids-set_where (λ x. x.id == i) (closed_as status now) rows (λ _. refl))) key,
            λ id.
                status_of-set_where (λ x. x.id == i) (closed_as status now) id rows (λ _. refl)
                  (λ _ _ _. ends e),
          )
  ]
]

-- On a table with its key, every statement keeps the key, and takes the status of each run by one step of
-- the lifecycle: it appears, starts from pending, ends with a terminal status, or stays.
pub Statement-Life :
    (rows rows' : List Row)
    → HasKey rows
    → Statement rows rows'
    → HasKey rows' × ((id : String) → Life (status_of id rows) (status_of id rows'))
unfolding request_stop
Statement-Life rows rows' key (enqueues fresh now run id h) =
    enqueue-Life fresh now run rows rows' id key h
Statement-Life rows rows' key (claims worker now run h) = claim-Life worker now run rows rows' key h
Statement-Life rows _ key (finishes id status now) = finish_run-Life id status now rows key
Statement-Life rows _ key (requests i by) =
    let change : Run → Run = λ x. record x { stop_requested = true; stop_requested_by = by } in
    let test : Run → Bool = λ x. x.id == i && is_active x in
    (
      subst (λ is. Distinct is) (sym (ids-set_where test change rows (λ _. refl))) key,
      λ id. status_of-set_where test change id rows (λ _. refl) (λ _ _ _. stays),
    )
