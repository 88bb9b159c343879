-- ===== src/Store/Lifecycle.antt =====
-- internal/store/sqlstore/execution.go: what a finish does to the table of runs.
use k8s_dencer.Base.{
  ◌≡◌, ◌≢◌, ◌↔◌, ◌⊎◌, inl, inr, refl, ap, String, true, Option, none, some, List, ◌==◌, string_eq,
  if◌then◌else◌, any, find, Bool-cases, Option-cases, arith,
}
use k8s_dencer.Store.Runs.{Run, run_succeeded, run_blocked, run_failed, terminal}
use k8s_dencer.Store.Execution.{Row, set_where, run_by_id, closed_as, finished, finish_run}
use k8s_dencer.Store.Keyed.{find-set_where, find-own}

terminal_iff :
    (status : String)
    → (terminal status ≡ true)
      ↔ ((status ≡ run_succeeded) ⊎ (status ≡ run_blocked) ⊎ (status ≡ run_failed))
unfolding terminal
terminal_iff status = ground (
  arith,
  string_eq.equals_iff status run_succeeded,
  string_eq.equals_iff status run_blocked,
  string_eq.equals_iff status run_failed,
)

-- What a reader of the identifier finds, once the run `id` is closed.
abbrev pub closed_in : String → String → String → String → Option Run → Option Run
closed_in id status now other none = none
closed_in id status now other (some run) =
    some (if other == id then closed_as status now run else run)

run_by_id-closed :
    (id status now other : String) (rows : List Row)
    → run_by_id other (set_where (λ x. x.id == id) (closed_as status now) rows)
      ≡ closed_in id status now other (run_by_id other rows)
unfolding run_by_id
run_by_id-closed id status now other rows =
    let after = find-set_where (λ x. x.id == id) (closed_as status now) other rows (λ _. refl) in
    elim (Option-cases (find (λ r. r.run.id == other) rows)) [
      | inl gone ↦ rw (run_by_id, after, gone) refl
      | inr (r, found) ↦
          let own : r.run.id ≡ other = find-own other rows r found in
          let test : (r.run.id == id) ≡ (other == id) = ap (λ i. i == id) own in
          elim (Bool-cases (other == id)) [
            | inl same ↦ rw (run_by_id, after, found, test, same) refl
            | inr apart ↦ rw (run_by_id, after, found, test, apart) refl
          ]
    ]

-- The run is in the table, and the status is one that closes it.
abbrev pub Closable : String → String → List Row → Type 0
Closable id status rows =
    (any (λ r. r.run.id == id) rows ≡ true)
    × ((status ≡ run_succeeded) ⊎ (status ≡ run_blocked) ⊎ (status ≡ run_failed))

-- A finish of a run that is in the table, with one of three statuses (`Stopped` is not among them),
-- succeeds, and afterwards every reader finds that run with the status and the time of the end, and every
-- other as before. Any other finish fails, and leaves the table as it was.
pub finish_run_cases :
    (id status now : String) (rows : List Row)
    → (Closable id status rows
        × ((finish_run id status now rows).0 ≡ finished)
        × ((other : String)
            → run_by_id other (finish_run id status now rows).1
              ≡ closed_in id status now other (run_by_id other rows)))
      ⊎ ((¬ Closable id status rows)
          × ((finish_run id status now rows).0 ≢ finished)
          × ((finish_run id status now rows).1 ≡ rows))
unfolding finish_run
finish_run_cases id status now rows = elim (Bool-cases (terminal status)) [
  | inr open_ ↦ inr (
    λ c. let h = (terminal_iff status).1 c.1 in cc,
    rw (finish_run, open_) (λ h. cc),
    rw (finish_run, open_) refl,
  )
  | inl final ↦ elim (Bool-cases (any (λ r. r.run.id == id) rows)) [
    | inl there ↦ inl (
      (there, (terminal_iff status).0 final),
      rw (finish_run, final, there) refl,
      λ other. rw (finish_run, final, there) (run_by_id-closed id status now other rows),
    )
    | inr missing ↦ inr (
      λ c. let h = c.0 in cc,
      rw (finish_run, final, missing) (λ h. cc),
      rw (finish_run, final, missing) refl,
    )
  ]
]
