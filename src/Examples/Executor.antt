-- ===== src/Examples/Executor.antt =====
-- Runs against a cluster on which evictions succeed and the workloads stay whole.
use k8s_dencer.Base.{
  ◌≡◌, ◌≢◌, ◌≤◌, ◌+◌, ℕ, String, true, false, none, some, [], ◌∷◌, any, length, Distinct, refl,
  arith, thousandths,
}
use k8s_dencer.Model.Cluster.{ClusterSnapshot}
use k8s_dencer.Impact.Classifier.{default_thresholds}
use k8s_dencer.Store.Runs.{Run, run_mode_converge}
use k8s_dencer.Executor.Session.{Outside, evicted, nothing_pending, unfinished, err, Session}
use k8s_dencer.Executor.Waiting.{Settings}
use k8s_dencer.Executor.Steps.{perform_step}
use k8s_dencer.Executor.Modes.{dispatch, converge}
use k8s_dencer.Executor.Rails.{IsGuarded, is_mutation, closings, dispatch-IsGuarded, dispatch_dry}
use k8s_dencer.Executor.Restores.{IsSettled, perform_step-IsSettled}
use k8s_dencer.Executor.Finishes.{Clock}
use k8s_dencer.Executor.Completes.{perform_step-IsDecided}
use k8s_dencer.Executor.Targets.{targets}
use k8s_dencer.Executor.Rounds.{converge-IsBounded}
use k8s_dencer.Executor.Closing.{Outcome, dispatch_closes}
use k8s_dencer.Examples.Fleet.{fleet}
use k8s_dencer.Examples.Safety.{step_a, guard}
use k8s_dencer.Examples.Store.{request, taken}

-- The state is the cluster and the time.
abbrev calm : Outside
calm = record {
  World = ClusterSnapshot × ℕ;
  snapshot = λ w. (some w.0, w);
  cordon = λ _ w. (true, w);
  uncordon = λ _ w. (true, w);
  pod_present = λ _ _ w. (some false, w);
  evict = λ _ _ w. (evicted, w);
  now = λ w. (w.1, w);
  sleep = λ d w. (true, (w.0, w.1 + d));
  claim = λ _ w. (nothing_pending, w);
  run_by_id = λ _ w. (none, w);
  plan_by_id = λ _ w. (some (step_a ∷ []), w);
  append_event = λ _ w. w;
  finish = λ _ _ w. (true, w);
  record_drain = λ _ w. w;
  record_recovery = λ _ _ _ w. w;
}

calm_clock : Clock calm
calm_clock = record {
  now_later = λ w. omega arith;
  snapshot_later = λ w. omega arith;
  present_later = λ _ _ w. omega arith;
  sleep_later = λ d w _. omega arith;
}

abbrev settings : Settings thousandths
settings = record {
  worker = "executor";
  guard = guard;
  planner = record {
    max_steps = 0;
    exclude_node_labels = [];
    exclude_namespaces = [];
    min_node_age = 0;
    now = 0;
    pack_ceiling = 0;
  };
  classifier = default_thresholds;
  settle_timeout = 4;
  poll_interval = 2;
  readiness = "Ready";
  tracks_reclamations = true;
  remembers_recoveries = true;
}

abbrev calm_start : Session calm
calm_start = record { world = (fleet, 0); calls = [] }

abbrev rehearsal : Run
rehearsal = record request { id = "r1"; dry_run = true }

abbrev loop : Run
loop = record request {
  id = "r2";
  mode = run_mode_converge;
  envelope = some (record { max_nodes = 2; max_impact = "Yellow" });
}

dispatch-IsGuarded_example : IsGuarded (dispatch calm settings 4 request calm_start).1.calls
dispatch-IsGuarded_example = dispatch-IsGuarded calm settings 4 request (fleet, 0)

dispatch_dry_example :
    any is_mutation (dispatch calm settings 4 rehearsal calm_start).1.calls ≡ false
dispatch_dry_example = dispatch_dry calm settings 4 rehearsal (fleet, 0) refl

dispatch_closes_example :
    (status : String) × (closings (dispatch calm settings 4 request calm_start).1.calls
      ≡ status ∷ [])
    × Outcome "" status "t4" (taken "" "t1" 1 ∷ [])
unfolding any
dispatch_closes_example =
    dispatch_closes calm calm_clock settings 3 request (fleet, 0) "t4" (taken "" "t1" 1 ∷ [])
      (omega arith) refl

perform_step-IsSettled_example :
    IsSettled request step_a 0 []
      (perform_step calm settings 4 request step_a 0 calm_start).0
      (perform_step calm settings 4 request step_a 0 calm_start).1.calls
perform_step-IsSettled_example = perform_step-IsSettled calm settings 4 request step_a 0 calm_start

perform_step-IsDecided_example :
    (perform_step calm settings 4 request step_a 0 calm_start).0 ≢ err unfinished
perform_step-IsDecided_example =
    perform_step-IsDecided calm calm_clock settings request step_a 3 (omega arith) 0 calm_start

converge-IsBounded_example :
    Distinct (targets (converge calm settings 4 loop calm_start).1.calls)
    × (length (targets (converge calm settings 4 loop calm_start).1.calls) ≤ 2)
    × (length (targets (converge calm settings 4 loop calm_start).1.calls) ≤ 50)
converge-IsBounded_example =
    converge-IsBounded calm settings 4 loop (record { max_nodes = 2; max_impact = "Yellow" })
      (fleet, 0) (omega arith) refl
