-- ===== src/Executor/Modes.antt =====
-- internal/executor/executor.go, converge.go and drain_mode.go: a claimed run, in each of its modes.
use Prim.Native.Nat.{zero, suc}
use k8s_dencer.Base.{
  ℕ, ◌+◌, String, Bool, true, false, not, ◌&&◌, ◌||◌, Option, none, some, List, [], ◌∷◌, ◌==◌,
  string_eq, nat_eq, if◌then◌else◌, ltb, leb, length, map, find, contains, lt64, Float64,
}
use k8s_dencer.Model.Cluster.{Pod, is_movable, ClusterSnapshot, node_by_name}
use k8s_dencer.Model.Plan.{impact_green, impact_yellow, impact_red, Move, PlanStep}
use k8s_dencer.Constraints.Analysis.{analyze}
use k8s_dencer.Planner.{plan, verdicts_of}
use k8s_dencer.Impact.Classifier.{classify_plan}
use k8s_dencer.Store.Runs.{
  run_succeeded, run_blocked, run_stopped, run_failed, Envelope, run_mode_converge, run_mode_drain,
  Run, event_error,
}
use k8s_dencer.Executor.Session.{
  Outside, claimed, nothing_pending, not_claimed, closed, Failure, blocked, broken, unfinished, ok,
  err, Action, pure, calling, running, ◌>>=◌, ◌>>◌,
}
use k8s_dencer.Executor.Waiting.{Settings, run_entry, step_entry, event, snapshot}
use k8s_dencer.Executor.Steps.{movable_pods_on, perform_step}

-- `findStep`
unfoldable pub find_step : List PlanStep → ℕ → Option PlanStep
unfolding find
find_step steps seq = find (λ s. s.sequence_number == seq) steps

-- The loop of `occupiedNodes`, with the set so far.
unfoldable pub occupied_names : List String → List Pod → List String
unfolding contains is_movable
occupied_names occupied [] = occupied
occupied_names occupied (p ∷ pods) =
    occupied_names
      (if not (p.node_name == "") && is_movable p && not (contains occupied p.node_name)
        then p.node_name ∷ occupied
        else occupied)
      pods

unfoldable pub occupied_nodes : ClusterSnapshot → ℕ
unfolding occupied_names
occupied_nodes snap = length (occupied_names [] snap.pods)

abbrev rank : String → ℕ
rank r =
    if r == impact_green
    then 0
    else if r == impact_yellow
    then 1
    else if r == impact_red
    then 2
    else 3

unfoldable pub exceeds_ceiling : String → String → Bool
exceeds_ceiling rating ceiling = ltb (rank ceiling) (rank rating)

-- The moves that `drainNode` fills its step with.
abbrev pub leaving : String → Pod → Move
leaving node pod = record {
  namespace = pod.namespace;
  pod = pod.name;
  from_node = node;
  to_node = "";
  cpu_milli = pod.requests.milli_cpu;
  memory_bytes = pod.requests.memory_bytes;
}

abbrev pub max_converge_rounds : ℕ
max_converge_rounds = 50

-- Whether a converge run's envelope is valid.
unfoldable pub consents : Envelope → Bool
unfolding lt64
consents env =
    not (lt64 env.max_nodes 1)
    && (env.max_impact == impact_green || env.max_impact == impact_yellow)

abbrev pub rounds_of : Envelope → ℕ
rounds_of env =
    if lt64 max_converge_rounds env.max_nodes then max_converge_rounds else env.max_nodes

module _ (o : Outside) where
  -- `finish`: an error of the store is only written to the log.
  unfoldable pub finish : Run → String → Action o Unit
  finish run status = do calling o (o.finish run.id status) (closed status); pure o tt

  unfoldable pub fail : Run → Action o Unit
  unfolding event finish
  fail run = do event o run record (run_entry "Fail") { level = event_error }; finish run run_failed

  -- How a run that a step ends early with an error is closed. A wait whose fuel is used up is still waiting, so
  -- its run stays open.
  unfoldable pub end_with : Run → Failure → Action o Unit
  unfolding finish
  end_with run (blocked _) = finish run run_blocked
  end_with run broken = finish run run_failed
  end_with run unfinished = pure o tt

  -- `stopRequested`: a failed read is read as "not asked".
  unfoldable pub stop_requested : String → Action o Bool
  stop_requested id = do
    current ← running o (o.run_by_id id)
    pure o (elim current [ none ↦ false | some run ↦ run.stop_requested ])

  module _ {fl : Float64} (x : Settings fl) (fuel : ℕ) (run : Run) where
    -- The loop of `perform` over the steps that are asked for.
    unfoldable pub perform_each : List PlanStep → ℕ → List ℕ → Action o Unit
    unfolding stop_requested finish end_with fail find_step perform_step
    perform_each steps drained [] = finish run run_succeeded
    perform_each steps drained (seq ∷ rest) = do
      stopped ← stop_requested run.id
      elim stopped [
        | true ↦ finish run run_stopped
        | false ↦ elim (find_step steps seq) [
          | none ↦ fail run
          | some step ↦ do
            done ← perform_step o x fuel run step drained
            elim done [ err e ↦ end_with run e | ok drained' ↦ perform_each steps drained' rest ]
        ]
      ]

    unfoldable pub perform : Action o Unit
    unfolding event perform_each
    perform = do
      event o run (run_entry "Claim")
      loaded ← running o (o.plan_by_id run.plan_id)
      elim loaded [ none ↦ fail run | some steps ↦ perform_each steps 0 run.steps ]

    -- `planOneStep`: the planner model has no error.
    unfoldable pub plan_one_step : ClusterSnapshot → List String → Option PlanStep
    unfolding analyze plan verdicts_of classify_plan find contains
    plan_one_step live skip =
        let analysis = analyze fl live in
        let proposed = plan fl live (verdicts_of analysis) x.planner in
        find (λ step. not (contains skip step.target_node))
          (classify_plan x.classifier live analysis proposed.steps)

    -- The loop of `converge`: the rounds that are left, the round, the nodes that were drained and
    -- `NodesDrainedSoFar`.
    unfoldable pub converge_rounds : Envelope → ℕ → ℕ → List String → ℕ → Action o Unit
    unfolding stop_requested snapshot fail plan_one_step finish end_with exceeds_ceiling event
        perform_step occupied_nodes
    converge_rounds env zero round drained count = finish run run_succeeded
    converge_rounds env (suc left) round drained count = do
      stopped ← stop_requested run.id
      elim stopped [
        | true ↦ finish run run_stopped
        | false ↦ do
          live ← snapshot o
          elim live [
            | none ↦ fail run
            | some snap ↦ elim (plan_one_step snap drained) [
              | none ↦ finish run run_succeeded
              | some step ↦ elim (exceeds_ceiling step.impact env.max_impact) [
                | true ↦ finish run run_succeeded
                | false ↦ do
                  event o run record (step_entry step "Plan") { step = round }
                  done ← perform_step o x fuel run step count
                  elim done [
                    | err e ↦ end_with run e
                    | ok count' ↦ elim run.dry_run [
                      | true ↦ finish run run_succeeded
                      | false ↦ do
                        after ← snapshot o
                        elim after [
                          | none ↦ fail run
                          | some later ↦ elim (leb (occupied_nodes snap) (occupied_nodes later)) [
                            | true ↦ finish run run_succeeded
                            | false ↦
                                converge_rounds env left (round + 1) (step.target_node ∷ drained)
                                  count'
                          ]
                        ]
                    ]
                  ]
              ]
            ]
          ]
      ]

    unfoldable pub converge : Action o Unit
    unfolding fail event converge_rounds consents lt64
    converge = elim run.envelope [
      | none ↦ fail run
      | some env ↦ elim (consents env) [
        | false ↦ fail run
        | true ↦ do event o run (run_entry "Claim"); converge_rounds env (rounds_of env) 1 [] 0
      ]
    ]

    -- The step that `drainNode` makes up, before it is rated.
    abbrev pub named_step : ClusterSnapshot → PlanStep
    named_step live = record {
      sequence_number = 1;
      target_node = run.node;
      moves = map (leaving run.node) (movable_pods_on live run.node);
      impact = "";
      rationale = "";
      reasons = [];
    }

    -- `drainNode`, from the rated step.
    unfoldable pub drain_rated : List PlanStep → Action o Unit
    unfolding event perform_step finish end_with
    drain_rated [] = pure o tt
    drain_rated (step ∷ _) = do
      event o run record (run_entry "Plan") { step = 1; node = run.node }
      done ← perform_step o x fuel run step 0
      elim done [ err e ↦ end_with run e | ok _ ↦ finish run run_succeeded ]

    unfoldable pub drain_node : Action o Unit
    unfolding fail event snapshot node_by_name movable_pods_on analyze classify_plan drain_rated
    drain_node = elim (run.node == "") [
      | true ↦ fail run
      | false ↦ do
        event o run record (run_entry "Claim") { node = run.node }
        live ← snapshot o
        elim live [
          | none ↦ fail run
          | some snap ↦ elim (node_by_name snap run.node) [
            | none ↦ fail run
            | some _ ↦
                drain_rated
                  (classify_plan x.classifier snap (analyze fl snap) (named_step snap ∷ []))
          ]
        ]
    ]

  -- The `switch` of `Poll`.
  unfoldable pub dispatch : {fl : Float64} → Settings fl → ℕ → Run → Action o Unit
  unfolding converge drain_node perform
  dispatch x fuel run = elim (run.mode == run_mode_converge) [
    | true ↦ converge x fuel run
    | false ↦ elim (run.mode == run_mode_drain) [
      | true ↦ drain_node x fuel run
      | false ↦ perform x fuel run
    ]
  ]

  -- `Poll`: whether it did any work, or no value for the store's error.
  unfoldable pub poll : {fl : Float64} → Settings fl → ℕ → Action o (Option Bool)
  unfolding dispatch
  poll x fuel = do
    answer ← running o (o.claim x.worker)
    elim answer [
      | not_claimed ↦ pure o none
      | nothing_pending ↦ pure o (some false)
      | claimed run ↦ do dispatch x fuel run; pure o (some true)
    ]
