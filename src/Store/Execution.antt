-- ===== src/Store/Execution.antt =====
-- internal/store/sqlstore/execution.go: what each statement does to the tables of runs and of events. A
-- statement that the database itself fails changes nothing, and is left to the caller.
use k8s_dencer.Base.{
  ℕ, ◌+◌, ◌-◌, String, Bool, true, false, ◌&&◌, ◌||◌, not, Option, none, some, List, [], ◌∷◌, ◌++◌,
  map, ◌==◌, nat_eq, string_eq, if◌then◌else◌, ltb, any, keep, find, sort_by, string_lt, le64,
  head_of,
}
use k8s_dencer.Store.Runs.{Run, RunEvent, run_pending, run_running, terminal, event_info}

-- A row of the table `runs`; the insertion order is the column `seq`.
pub record Row : Type 0 where
  pub run : Run
  pub seq : ℕ

-- `COALESCE(MAX(seq), 0)`
unfoldable pub max_seq : List Row → ℕ
max_seq [] = 0
max_seq (r ∷ rows) = let m = max_seq rows in if ltb m r.seq then r.seq else m

-- The defaults at the head of `Enqueue`; `id` is the fresh random one.
unfoldable pub with_defaults : String → String → Run → Run
with_defaults id now run = record run {
  id = if run.id == "" then id else run.id;
  status = if run.status == "" then run_pending else run.status;
  requested_at = if run.requested_at == "" then now else run.requested_at;
}

-- The columns that the INSERT does not name have their defaults.
abbrev pub inserted : Run → Run
inserted run = record run {
  stop_requested = false;
  stop_requested_by = "";
  started_at = none;
  finished_at = none;
  worker = "";
}

-- `Enqueue`; the primary key refuses an identifier that is there.
unfoldable pub enqueue : String → String → Run → List Row → Option (String × List Row)
unfolding with_defaults any max_seq
enqueue id now run rows =
    let run' = with_defaults id now run in
    if any (λ r. r.run.id == run'.id) rows
    then none
    else some (run'.id, rows ++ record { run = inserted run'; seq = max_seq rows + 1 } ∷ [])

-- `ORDER BY requested_at, seq`, on the texts.
unfoldable pub earlier : Row → Row → Bool
earlier a b =
    string_lt a.run.requested_at b.run.requested_at
    || a.run.requested_at == b.run.requested_at && ltb a.seq b.seq

-- `SELECT … WHERE status = ? ORDER BY requested_at, seq LIMIT 1`
unfoldable pub oldest_pending : List Row → Option Row
unfolding keep sort_by earlier
oldest_pending rows = head_of (sort_by earlier (keep (λ r. r.run.status == run_pending) rows))

abbrev pub set_where : (Run → Bool) → (Run → Run) → List Row → List Row
set_where test change rows =
    map (λ r. if test r.run then record r { run = change r.run } else r) rows

-- `RunByID`
unfoldable pub run_by_id : String → List Row → Option Run
unfolding find
run_by_id id rows = elim (find (λ r. r.run.id == id) rows) [ none ↦ none | some r ↦ some r.run ]

abbrev pub claimed_by : String → String → Run → Run
claimed_by worker now run = record run {
  status = run_running;
  worker = worker;
  started_at = some now;
}

-- `Claim`: one statement, which selects (and in Postgres locks) the row that it updates. That no other claim
-- comes between is the database's promise, and is taken for granted.
unfoldable pub claim : String → String → List Row → Option (Run × List Row)
unfolding oldest_pending
claim worker now rows = elim (oldest_pending rows) [
  | none ↦ none
  | some r ↦
      some (
        claimed_by worker now r.run,
        set_where (λ x. x.id == r.run.id) (claimed_by worker now) rows,
      )
]

pub data Finishing : Type 0 where
  finished not_terminal not_found : Finishing

abbrev pub closed_as : String → String → Run → Run
closed_as status now run = record run { status = status; finished_at = some now }

-- `Finish`
unfoldable pub finish_run : String → String → String → List Row → Finishing × List Row
unfolding terminal any
finish_run id status now rows =
    if not (terminal status)
    then (not_terminal, rows)
    else if any (λ r. r.run.id == id) rows
    then (finished, set_where (λ x. x.id == id) (closed_as status now) rows)
    else (not_found, rows)

abbrev pub is_active : Run → Bool
is_active run = run.status == run_pending || run.status == run_running

abbrev requested_before : Row → Row → Bool
requested_before a b = string_lt a.run.requested_at b.run.requested_at

-- `ActiveRun`
unfoldable pub active_run : List Row → Option Run
unfolding keep sort_by
active_run rows = elim (sort_by requested_before (keep (λ r. is_active r.run) rows)) [
  | [] ↦ none
  | r ∷ _ ↦ some r.run
]

-- `RequestStop`
unfoldable pub request_stop : String → String → List Row → List Row
request_stop id by rows =
    set_where (λ x. x.id == id && is_active x)
      (λ x. record x { stop_requested = true; stop_requested_by = by }) rows

abbrev later_first : Row → Row → Bool
later_first a b = earlier b a

abbrev take {ℓ} : {A : Type ℓ} → ℕ → List A → List A
take n [] = []
take n (x ∷ xs) = if n == 0 then [] else x ∷ take (n - 1) xs

-- `RecentRuns`
unfoldable pub recent_runs : ℕ → List Row → List Run
unfolding sort_by earlier le64
recent_runs limit rows =
    map (λ r. r.run) (take (if le64 limit 0 then 100 else limit) (sort_by later_first rows))

-- `RunsForPlan`
unfoldable pub runs_for_plan : String → ℕ → List Row → List Run
unfolding sort_by earlier keep le64
runs_for_plan plan_id limit rows =
    map (λ r. r.run)
      (take (if le64 limit 0 then 50 else limit)
        (sort_by later_first (keep (λ r. r.run.plan_id == plan_id) rows)))

-- `COALESCE(MAX(sequence), 0)` of a run's events.
unfoldable pub max_sequence : String → List RunEvent → ℕ
max_sequence id [] = 0
max_sequence id (e ∷ events) =
    let m = max_sequence id events in if e.run_id == id && ltb m e.sequence then e.sequence else m

-- `AppendEvent`
unfoldable pub append_event : RunEvent → List RunEvent → List RunEvent
unfolding max_sequence
append_event e events =
    events
    ++ record e {
      sequence = max_sequence e.run_id events + 1;
      level = if e.level == "" then event_info else e.level;
    }
      ∷ []

-- `Events`
unfoldable pub events_of : String → List RunEvent → List RunEvent
unfolding keep sort_by
events_of id events = sort_by (λ a b. ltb a.sequence b.sequence) (keep (λ e. e.run_id == id) events)
