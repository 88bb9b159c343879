-- ===== src/Executor/Waiting.antt =====
-- internal/executor/executor.go: the options, the audit events, and the two loops that wait for the
-- cluster. The summary, the messages and the metrics are left out; `Run`'s context has no counterpart.
use Prim.Native.String.{◌++◌ as str_append}
use Prim.Native.Nat.{zero, suc}
use k8s_dencer.Base.{
  ℕ, ◌+◌, ◌-◌, String, Bool, true, false, not, ◌&&◌, ◌||◌, Option, none, some, List, [], ◌∷◌, ◌++◌,
  ◌==◌, string_eq, if◌then◌else◌, ltb, any, lookup, insert, Float64,
}
use k8s_dencer.Model.Cluster.{Pod, pod_running, ClusterSnapshot}
use k8s_dencer.Model.Plan.{PlanStep}
use k8s_dencer.Safety.{Guard, Blocked, Rule, rule_of}
use k8s_dencer.Planner.{Options}
use k8s_dencer.Impact.Classifier.{Thresholds}
use k8s_dencer.Store.Runs.{Run, RunEvent, event_blocked}
use k8s_dencer.Executor.Session.{
  Outside, read, asked, logged, broken, unfinished, Result, ok, err, Action, pure, calling, running,
  telling, ◌>>=◌, ◌>>◌,
}

abbrev pub readiness_running : String
readiness_running = "Running"

-- `Options` of the executor with the guard that `New` builds; durations are nanoseconds. The stores of
-- reclamations and of recoveries are optional in the code.
pub record Settings (fl : Float64) : Type 1 where
  pub worker : String
  pub guard : Guard
  pub planner : Options fl
  pub classifier : Thresholds
  pub settle_timeout : ℕ
  pub poll_interval : ℕ
  pub readiness : String
  pub tracks_reclamations : Bool
  pub remembers_recoveries : Bool

-- `ownerKey`
unfoldable pub owner_key : Pod → String
owner_key pod = elim pod.owner [
  | none ↦ ""
  | some o ↦ str_append pod.namespace (str_append "/" (str_append o.kind (str_append "/" o.name)))
]

unfoldable pub healthy : Pod → String → Bool
healthy pod criterion =
    if pod.terminating || not (pod.phase == pod_running)
    then false
    else if criterion == readiness_running
    then true
    else pod.ready

-- A read of the map that `healthyByOwner` fills.
unfoldable pub healthy_count : String → List (String × ℕ) → ℕ
unfolding lookup
healthy_count owner counts = elim (lookup owner counts) [ none ↦ 0 | some n ↦ n ]

-- The loop of `healthyByOwner`, with the map so far.
unfoldable pub count_healthy : String → List (String × ℕ) → List Pod → List (String × ℕ)
unfolding owner_key healthy healthy_count insert
count_healthy criterion out [] = out
count_healthy criterion out (p ∷ pods) =
    let k = owner_key p in
    count_healthy criterion
      (if not (k == "") && healthy p criterion then insert k (healthy_count k out + 1) out else out)
      pods

unfoldable pub healthy_by_owner : ClusterSnapshot → String → List (String × ℕ)
unfolding count_healthy
healthy_by_owner snap criterion = count_healthy criterion [] snap.pods

unfoldable pub rule_text : Rule → String
rule_text Rule.red_requires_window = "RedRequiresWindow"
rule_text Rule.max_nodes_per_run = "MaxNodesPerRun"
rule_text Rule.min_ready_nodes = "MinReadyNodes"
rule_text Rule.step_freshness = "StepFreshness"
rule_text Rule.pdb_headroom = "PDBHeadroom"
rule_text Rule.node_not_found = "NodeNotFound"

-- An event of an action; the store numbers it, and `event` sets the run.
abbrev pub run_entry : String → RunEvent
run_entry action = record {
  run_id = "";
  sequence = 0;
  level = "";
  step = 0;
  node = "";
  pod = "";
  action = action;
  rule = "";
}

abbrev pub step_entry : PlanStep → String → RunEvent
step_entry step action = record (run_entry action) {
  step = step.sequence_number;
  node = step.target_node;
}

module _ (o : Outside) where
  -- `event`: an error of the store is only logged.
  unfoldable pub event : Run → RunEvent → Action o Unit
  event run ev =
      let own = record ev { run_id = run.id } in
      calling o (λ w. (tt, o.append_event own w)) (λ _. logged own)

  unfoldable pub snapshot : Action o (Option ClusterSnapshot)
  snapshot = calling o o.snapshot read

  abbrev pub clock : Action o ℕ
  clock = running o o.now

  -- `blocked`, on a refusal of the guard.
  unfoldable pub log_refusal : Run → PlanStep → Blocked → Action o Unit
  unfolding event rule_text rule_of
  log_refusal run step b =
      event run
        record (step_entry step "Guard") { level = event_blocked; rule = rule_text (rule_of b) }

  module _ {fl : Float64} (x : Settings fl) where
    -- The end of the body of both loops: past the deadline, or after a rest that fails, there is no
    -- next cycle.
    unfoldable pub again : ℕ → Action o (Result Unit) → Action o (Result Unit)
    again deadline next = do
      time ← clock
      elim (ltb deadline time) [
        | true ↦ pure o (err broken)
        | false ↦ do
          rested ← running o (o.sleep x.poll_interval)
          elim rested [ true ↦ next | false ↦ pure o (err broken) ]
      ]

    -- The loop of `waitGone`.
    unfoldable pub wait_gone_from : ℕ → ℕ → Pod → Action o (Result Unit)
    unfolding again
    wait_gone_from zero deadline pod = pure o (err unfinished)
    wait_gone_from (suc fuel) deadline pod = do
      answer ← calling o (o.pod_present pod.namespace pod.name) (λ _. asked pod.namespace pod.name)
      elim answer [
        | none ↦ pure o (err broken)
        | some false ↦ pure o (ok tt)
        | some true ↦ again deadline (wait_gone_from fuel deadline pod)
      ]

    unfoldable pub wait_gone : ℕ → Pod → Action o (Result Unit)
    unfolding wait_gone_from
    wait_gone fuel pod = do start ← clock; wait_gone_from fuel (start + x.settle_timeout) pod

    -- One pass over the affected workloads: the time of the first cycle in which each is whole again.
    unfoldable pub note_recovered :
        ℕ
        → List (String × ℕ)
        → List (String × ℕ)
        → List (String × ℕ)
        → List String
        → Action o (List (String × ℕ))
    unfolding healthy_count lookup
    note_recovered started now before recovered [] = pure o recovered
    note_recovered started now before recovered (owner ∷ affected) =
        elim (ltb (healthy_count owner now) (healthy_count owner before)) [
          | true ↦ note_recovered started now before recovered affected
          | false ↦ elim (lookup owner recovered) [
            | some _ ↦ note_recovered started now before recovered affected
            | none ↦ do
              time ← clock
              note_recovered started now before (recovered ++ (owner, time - started) ∷ []) affected
          ]
        ]

    -- Whether some affected workload has fewer healthy pods than before.
    unfoldable pub lags : List (String × ℕ) → List (String × ℕ) → List String → Bool
    unfolding any healthy_count
    lags now before affected =
        any (λ owner. ltb (healthy_count owner now) (healthy_count owner before)) affected

    -- The loop of `rememberRecovery`.
    unfoldable pub remember_each : ℕ → List (String × ℕ) → Action o Unit
    remember_each time [] = pure o tt
    remember_each time ((owner, took) ∷ rest) = do
      telling o (o.record_recovery owner time took)
      remember_each time rest

    unfoldable pub remember_recovery : List (String × ℕ) → Action o Unit
    unfolding remember_each
    remember_recovery [] = pure o tt
    remember_recovery (first ∷ rest) = elim x.remembers_recoveries [
      | false ↦ pure o tt
      | true ↦ do time ← clock; remember_each time (first ∷ rest)
    ]

    -- The loop of `verifyRecovered`.
    unfoldable pub verify_from :
        ℕ
        → Run
        → PlanStep
        → ℕ
        → ℕ
        → List (String × ℕ)
        → List String
        → List (String × ℕ)
        → Action o (Result Unit)
    unfolding again snapshot healthy_by_owner note_recovered lags event remember_recovery
    verify_from zero run step started deadline before affected recovered = pure o (err unfinished)
    verify_from (suc fuel) run step started deadline before affected recovered = do
      live ← snapshot
      elim live [
        | none ↦ pure o (err broken)
        | some snap ↦ do
          let now = healthy_by_owner snap x.readiness
          noted ← note_recovered started now before recovered affected
          elim (lags now before affected) [
            | true ↦
                again deadline (verify_from fuel run step started deadline before affected noted)
            | false ↦ do
              event run (step_entry step "Verify")
              remember_recovery noted
              pure o (ok tt)
          ]
      ]

    unfoldable pub verify_recovered :
        ℕ → Run → PlanStep → List (String × ℕ) → List String → Action o (Result Unit)
    unfolding verify_from
    verify_recovered fuel run step before [] = pure o (ok tt)
    verify_recovered fuel run step before (owner ∷ affected) = do
      started ← clock
      start ← clock
      verify_from fuel run step started (start + x.settle_timeout) before (owner ∷ affected) []
