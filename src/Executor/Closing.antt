-- ===== src/Executor/Closing.antt =====
-- internal/executor/executor.go and internal/store/sqlstore/execution.go: how a claimed run is closed.
use mathlib.Core.Path.{subst}
use Prim.Native.Nat.{suc}
use k8s_dencer.Base.{
  ℕ, ◌*◌, ◌<◌, ◌≡◌, ◌⊎◌, inl, inr, refl, sym, ap, String, true, List, [], ◌∷◌, ◌==◌, string_eq, any,
  Float64,
}
use k8s_dencer.Store.Runs.{Run, run_stopped, terminal}
use k8s_dencer.Store.Execution.{Row, run_by_id, finished, not_terminal, finish_run}
use k8s_dencer.Store.Lifecycle.{closed_in, Closable, finish_run_cases}
use k8s_dencer.Executor.Session.{Outside}
use k8s_dencer.Executor.Waiting.{Settings}
use k8s_dencer.Executor.Modes.{dispatch}
use k8s_dencer.Executor.Follows.{IsFinal, dispatch-Leads}
use k8s_dencer.Executor.Rails.{closings, fresh, open-Allows, open-Marks}
use k8s_dencer.Executor.Finishes.{Clock}
use k8s_dencer.Executor.Completes.{perform_step-IsDecided}

-- What comes of a request to close a run of the table: the store refuses `Stopped`, and the run stays as it is;
-- with any other status the run, and no other, is closed.
abbrev pub Outcome : String → String → String → List Row → Type 0
Outcome id status now rows =
    ((status ≡ run_stopped) × (finish_run id status now rows ≡ (not_terminal, rows)))
    ⊎ (Closable id status rows
        × ((finish_run id status now rows).0 ≡ finished)
        × ((other : String)
            → run_by_id other (finish_run id status now rows).1
              ≡ closed_in id status now other (run_by_id other rows)))

Closable-Outcome :
    (id status now : String) (rows : List Row)
    → Closable id status rows
    → Outcome id status now rows
Closable-Outcome id status now rows c = elim (finish_run_cases id status now rows) [
  | inl closes ↦ inr closes
  | inr refused ↦ absurd (refused.0 c)
]

stopped-Outcome : (id now : String) (rows : List Row) → Outcome id run_stopped now rows
unfolding finish_run terminal
stopped-Outcome id now rows = inl (refl, refl)

IsFinal-Outcome :
    (id status now : String) (rows : List Row)
    → any (λ r. r.run.id == id) rows ≡ true
    → IsFinal status
    → Outcome id status now rows
IsFinal-Outcome id status now rows there (inl e) =
    Closable-Outcome id status now rows (there, inl e)
IsFinal-Outcome id status now rows there (inr (inl e)) =
    Closable-Outcome id status now rows (there, inr (inl e))
IsFinal-Outcome id status now rows there (inr (inr (inl e))) =
    subst (λ s. Outcome id s now rows) (sym e) (stopped-Outcome id now rows)
IsFinal-Outcome id status now rows there (inr (inr (inr e))) =
    Closable-Outcome id status now rows (there, inr (inr e))

-- With a clock that does not go back and fuel for more than the settle timeout, counted in poll intervals,
-- the executor asks the store exactly once to close a claimed run, in every mode; of a table that has the run,
-- the store then closes this run and leaves every other, unless the status is `Stopped`: that one the store
-- refuses, and the run stays as it is.
pub dispatch_closes :
    (o : Outside) (c : Clock o) {fl : Float64} (x : Settings fl) (fuel : ℕ) (run : Run)
    (w : o.World) (now : String) (rows : List Row)
    → x.settle_timeout < fuel * x.poll_interval
    → any (λ r. r.run.id == run.id) rows ≡ true
    → (status : String) × (closings (dispatch o x (suc fuel) run (fresh o w)).1.calls ≡ status ∷ [])
      × Outcome run.id status now rows
dispatch_closes o c x fuel run w now rows enough there =
    dispatch-Leads o (λ cs. closings cs ≡ []) x (suc fuel) run (open-Allows run.dry_run)
      (open-Marks run.dry_run)
      (λ cs. (status : String) × (closings cs ≡ status ∷ []) × Outcome run.id status now rows)
      (λ status _ cs final h.
        (status, ap (λ past. status ∷ past) h, IsFinal-Outcome run.id status now rows there final))
      (inr (λ step drained s. perform_step-IsDecided o c x run step fuel enough drained s))
      (fresh o w) refl
