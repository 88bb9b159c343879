-- ===== src/Examples/Store.antt =====
-- Two runs and their trail.
use k8s_dencer.Base.{
  some, ◌≡◌, ◌≢◌, ◌⊎◌, ℕ, String, false, none, List, [], ◌∷◌, string_eq, refl, any, keep, sort_by,
  insert_sorted, Distinct,
}
use k8s_dencer.Store.Runs.{Run, RunEvent, run_failed}
use k8s_dencer.Store.Execution.{
  Row, with_defaults, max_seq, enqueue, earlier, oldest_pending, claimed_by, claim, finished,
  finish_run, run_by_id, events_of,
}
use k8s_dencer.Store.Claims.{Reached, created, enqueued, claimed, claims-Distinct}
use k8s_dencer.Store.Trail.{append_each, numbered, events_of-append_each}
use k8s_dencer.Store.Lifecycle.{Closable, closed_in, finish_run_cases}
use k8s_dencer.Store.Refines.{status_of, Life, claims, Statement-Life}
use k8s_dencer.Store.Keyed.{HasKey}

abbrev pub request : Run
request = record {
  id = "";
  plan_id = "p";
  steps = 1 ∷ [];
  dry_run = false;
  status = "";
  stop_requested = false;
  stop_requested_by = "";
  mode = "";
  node = "";
  envelope = none;
  actor = "ada";
  actor_groups = [];
  requested_at = "";
  started_at = none;
  finished_at = none;
  worker = "";
}

abbrev pub row : String → String → ℕ → Row
row id now seq = record {
  run = record request { id = id; status = "Pending"; requested_at = now };
  seq = seq;
}

abbrev pub taken : String → String → ℕ → Row
taken id now seq = record { run = claimed_by "w" "t3" (row id now seq).run; seq = seq }

history : Reached ("r2" ∷ "r1" ∷ []) (taken "r1" "t1" 1 ∷ taken "r2" "t2" 2 ∷ [])
unfolding enqueue claim any max_seq with_defaults oldest_pending keep sort_by insert_sorted earlier
history =
    claimed {rows = taken "r1" "t1" 1 ∷ row "r2" "t2" 2 ∷ []} "w" "t3" (taken "r2" "t2" 2).run
      (claimed {rows = row "r1" "t1" 1 ∷ row "r2" "t2" 2 ∷ []} "w" "t3" (taken "r1" "t1" 1).run
        (enqueued {rows = row "r1" "t1" 1 ∷ []} "r2" "t2" request "r2"
          (enqueued {rows = []} "r1" "t1" request "r1" created refl) refl)
        refl)
      refl

claims-Distinct_example : Distinct {A = String} ("r2" ∷ "r1" ∷ [])
claims-Distinct_example =
    claims-Distinct ("r2" ∷ "r1" ∷ []) (taken "r1" "t1" 1 ∷ taken "r2" "t2" 2 ∷ []) history

abbrev entry : String → String → RunEvent
entry id action = record {
  run_id = id;
  sequence = 0;
  level = "";
  step = 0;
  node = "";
  pod = "";
  action = action;
  rule = "";
}

abbrev trail : List RunEvent
trail = entry "r1" "Claim" ∷ entry "r2" "Claim" ∷ entry "r1" "Cordon" ∷ []

events_of-append_each_example :
    events_of "r1" (append_each [] trail)
    ≡ numbered 1 (entry "r1" "Claim" ∷ entry "r1" "Cordon" ∷ [])
unfolding keep
events_of-append_each_example = events_of-append_each "r1" trail

abbrev two_taken : List Row
two_taken = taken "r1" "t1" 1 ∷ taken "r2" "t2" 2 ∷ []

finish_run_cases_example :
    (Closable "r1" run_failed two_taken
      × ((finish_run "r1" run_failed "t4" two_taken).0 ≡ finished)
      × ((other : String)
          → run_by_id other (finish_run "r1" run_failed "t4" two_taken).1
            ≡ closed_in "r1" run_failed "t4" other (run_by_id other two_taken)))
    ⊎ ((¬ Closable "r1" run_failed two_taken)
        × ((finish_run "r1" run_failed "t4" two_taken).0 ≢ finished)
        × ((finish_run "r1" run_failed "t4" two_taken).1 ≡ two_taken))
finish_run_cases_example = finish_run_cases "r1" run_failed "t4" two_taken

two_rows-HasKey : HasKey (row "r1" "t1" 1 ∷ row "r2" "t2" 2 ∷ [])
two_rows-HasKey =
    (((λ same. absurd (let e = (string_eq.equals_iff "r2" "r1").1 same in cc)), tt), (tt, tt))

first_claim :
    claim "w" "t3" (row "r1" "t1" 1 ∷ row "r2" "t2" 2 ∷ [])
    ≡ some ((taken "r1" "t1" 1).run, taken "r1" "t1" 1 ∷ row "r2" "t2" 2 ∷ [])
unfolding claim oldest_pending keep sort_by insert_sorted earlier
first_claim = refl

Statement-Life_example :
    HasKey (taken "r1" "t1" 1 ∷ row "r2" "t2" 2 ∷ [])
    × ((id : String)
        → Life
            (status_of id (row "r1" "t1" 1 ∷ row "r2" "t2" 2 ∷ []))
            (status_of id (taken "r1" "t1" 1 ∷ row "r2" "t2" 2 ∷ [])))
Statement-Life_example =
    Statement-Life (row "r1" "t1" 1 ∷ row "r2" "t2" 2 ∷ [])
      (taken "r1" "t1" 1 ∷ row "r2" "t2" 2 ∷ []) two_rows-HasKey
      (claims "w" "t3" (taken "r1" "t1" 1).run first_claim)
