-- ===== src/Store/Claims.antt =====
-- internal/store/sqlstore/execution.go: a run is handed out once, over every history of the table of runs.
use k8s_dencer.Base.{
  ◌≡◌, ◌≢◌, String, true, some, List, [], ◌∷◌, ◌&&◌, ◌==◌, string_eq, All, All-map, Distinct, refl,
}
use k8s_dencer.Store.Runs.{Run}
use k8s_dencer.Store.Execution.{Row, enqueue, claim, finish_run, is_active, request_stop}
use k8s_dencer.Store.Taken.{
  Taken, set_where-Taken, enqueue-Taken, claim-Taken, claim-Taken_own, finish_run-Taken,
}

-- A history: the identifiers that claims returned, newest first, and the table that is left.
pub data Reached : List String → List Row → Type 0 where
  created : Reached [] []
  enqueued :
      {claims : List String} {rows rows' : List Row} (fresh now : String) (run : Run) (id : String)
      → Reached claims rows
      → enqueue fresh now run rows ≡ some (id, rows')
      → Reached claims rows'
  claimed :
      {claims : List String} {rows rows' : List Row} (worker now : String) (run : Run)
      → Reached claims rows
      → claim worker now rows ≡ some (run, rows')
      → Reached (run.id ∷ claims) rows'
  closed :
      {claims : List String} {rows : List Row} (id status now : String)
      → Reached claims rows
      → Reached claims (finish_run id status now rows).1
  asked :
      {claims : List String} {rows : List Row} (id by : String)
      → Reached claims rows
      → Reached claims (request_stop id by rows)

Reached-Taken :
    (claims : List String) (rows : List Row)
    → Reached claims rows
    → All (Taken rows) claims × Distinct claims
unfolding request_stop
Reached-Taken claims rows created = (tt, tt)
Reached-Taken _ rows (enqueued {claims = claims} {rows = old} fresh now run id before h) =
    let known = Reached-Taken claims old before in
    (
      All-map (Taken old) (Taken rows) claims
          (λ i taken. enqueue-Taken fresh now run old rows id i h taken) known.0,
      known.1,
    )
Reached-Taken _ rows (claimed {claims = claims} {rows = old} worker now run before h) =
    let known = Reached-Taken claims old before in
    let kept =
      All-map (Taken old) (λ i. Taken rows i × (i ≢ run.id)) claims
        (λ i taken. claim-Taken worker now run old rows i h taken) known.0 in
    (
      (
        claim-Taken_own worker now run old rows h,
        All-map (λ i. Taken rows i × (i ≢ run.id)) (Taken rows) claims (λ i both. both.0) kept,
      ),
      (
        All-map (λ i. Taken rows i × (i ≢ run.id)) (λ i. i ≢ run.id) claims (λ i both. both.1) kept,
        known.1,
      ),
    )
Reached-Taken claims _ (closed {rows = old} id status now before) =
    let known = Reached-Taken claims old before in
    (
      All-map (Taken old) (Taken (finish_run id status now old).1) claims
          (λ i taken. finish_run-Taken id status now old i taken) known.0,
      known.1,
    )
Reached-Taken claims _ (asked {rows = old} id by before) =
    let known = Reached-Taken claims old before in
    (
      All-map (Taken old) (Taken (request_stop id by old)) claims
          (λ i taken.
            set_where-Taken (λ x. x.id == id && is_active x)
              (λ x. record x { stop_requested = true; stop_requested_by = by }) old i
              (λ run. (refl, λ waits. waits)) taken)
          known.0,
      known.1,
    )

-- In every history of enqueues, claims, finishes and requests to stop, from the empty table, no run is
-- claimed twice.
pub claims-Distinct :
    (claims : List String) (rows : List Row) → Reached claims rows → Distinct claims
claims-Distinct claims rows history = (Reached-Taken claims rows history).1
