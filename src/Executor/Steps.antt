-- ===== src/Executor/Steps.antt =====
-- internal/executor/executor.go: one step, from the guard's verdict to the drained or restored node.
use k8s_dencer.Base.{
  ℕ, suc, String, true, false, not, ◌&&◌, ◌||◌, Option, none, some, List, [], ◌∷◌, ◌++◌, ◌==◌,
  string_eq, if◌then◌else◌, keep, find, contains, Float64,
}
use k8s_dencer.Model.Cluster.{Node, Pod, pod_key, is_movable, ClusterSnapshot, node_by_name}
use k8s_dencer.Model.Figures.{instance_type, capacity_type}
use k8s_dencer.Model.Plan.{PlanStep}
use k8s_dencer.Safety.{check_step, check_eviction}
use k8s_dencer.Store.Runs.{Run, event_error}
use k8s_dencer.Executor.Session.{
  Outside, evicted, refused, not_evicted, cordoned, uncordoned, tried, blocked, broken, Result, ok,
  err, Action, pure, calling, telling, ◌>>=◌, ◌>>◌,
}
use k8s_dencer.Executor.Waiting.{
  Settings, owner_key, healthy_by_owner, step_entry, event, snapshot, log_refusal, wait_gone,
  verify_recovered,
}

unfoldable pub find_pod : ClusterSnapshot → String → String → Option Pod
unfolding find
find_pod snap namespace name = find (λ p. p.namespace == namespace && p.name == name) snap.pods

-- `movablePodsOn`
unfoldable pub movable_pods_on : ClusterSnapshot → String → List Pod
unfolding keep is_movable
movable_pods_on snap node = keep (λ p. p.node_name == node && is_movable p) snap.pods

-- `affected[k] = true` for a key that is not empty.
unfoldable pub also_affected : List String → Pod → List String
unfolding contains owner_key
also_affected affected pod =
    let k = owner_key pod in if k == "" || contains affected k then affected else affected ++ k ∷ []

module _ (o : Outside) {fl : Float64} (x : Settings fl) where
  module _ (fuel : ℕ) (run : Run) (step : PlanStep) where
    -- The loop of `drain`, with the map `affected`.
    unfoldable pub evict_each : List String → List Pod → Action o (Result (List String))
    unfolding snapshot find_pod check_eviction log_refusal event wait_gone also_affected pod_key
    evict_each affected [] = pure o (ok affected)
    evict_each affected (pod ∷ pods) = do
      live ← snapshot o
      elim live [
        | none ↦ pure o (err broken)
        | some snap ↦ elim (find_pod snap pod.namespace pod.name) [
          | none ↦ evict_each affected pods
          | some current ↦ elim (check_eviction current snap) [
            | some b ↦ do log_refusal o run step b; pure o (err (blocked b))
            | none ↦ do
              answer ← calling o (o.evict pod.namespace pod.name) (tried pod.namespace pod.name)
              elim answer [
                | refused b ↦ do log_refusal o run step b; pure o (err (blocked b))
                | not_evicted ↦ pure o (err broken)
                | evicted ↦ do
                  event o run record (step_entry step "Evict") { pod = pod_key pod }
                  gone ← wait_gone o x fuel pod
                  elim gone [
                    | err e ↦ pure o (err e)
                    | ok _ ↦ evict_each (also_affected affected pod) pods
                  ]
              ]
          ]
        ]
      ]

    -- `recordDrain`
    unfoldable pub record_drain : Action o Unit
    unfolding snapshot node_by_name instance_type capacity_type
    record_drain = elim (not x.tracks_reclamations || step.target_node == "") [
      | true ↦ pure o tt
      | false ↦ do
        live ← snapshot o
        let found : Option Node = elim live [
          | none ↦ none
          | some snap ↦ node_by_name snap step.target_node
        ]
        telling o (
            o.record_drain record {
              node = step.target_node;
              run_id = run.id;
              plan_id = run.plan_id;
              step = step.sequence_number;
              cpu_milli = elim found [ none ↦ 0 | some n ↦ n.allocatable.milli_cpu ];
              mem_bytes = elim found [ none ↦ 0 | some n ↦ n.allocatable.memory_bytes ];
              instance_type = elim found [ none ↦ "" | some n ↦ instance_type n ];
              capacity_type = elim found [ none ↦ "" | some n ↦ capacity_type n ];
            })
    ]

    unfoldable pub drain : Action o (Result Unit)
    unfolding snapshot healthy_by_owner movable_pods_on evict_each verify_recovered record_drain
    drain = do
      live ← snapshot o
      elim live [
        | none ↦ pure o (err broken)
        | some snap ↦ do
          let before = healthy_by_owner snap x.readiness
          moved ← evict_each [] (movable_pods_on snap step.target_node)
          elim moved [
            | err e ↦ pure o (err e)
            | ok affected ↦ do
              back ← verify_recovered o x fuel run step before affected
              elim back [ err e ↦ pure o (err e) | ok _ ↦ do record_drain; pure o (ok tt) ]
          ]
      ]

    -- The loop of `rehearse`.
    unfoldable pub rehearse_each : ClusterSnapshot → List Pod → Action o (Result Unit)
    unfolding check_eviction log_refusal event pod_key
    rehearse_each live [] = pure o (ok tt)
    rehearse_each live (pod ∷ pods) = elim (check_eviction pod live) [
      | some b ↦ do log_refusal o run step b; pure o (err (blocked b))
      | none ↦ do
        event o run record (step_entry step "Evict") { pod = pod_key pod }
        rehearse_each live pods
    ]

    -- `rehearse`; the answer is `NodesDrainedSoFar` after it.
    unfoldable pub rehearse : ClusterSnapshot → ℕ → Action o (Result ℕ)
    unfolding event movable_pods_on rehearse_each
    rehearse live drained = do
      event o run (step_entry step "Cordon")
      done ← rehearse_each live (movable_pods_on live step.target_node)
      elim done [
        | err e ↦ pure o (err e)
        | ok _ ↦ do event o run (step_entry step "Drained"); pure o (ok (suc drained))
      ]

    unfoldable pub abort : Action o Unit
    unfolding event
    abort = do
      restored ← calling o (o.uncordon step.target_node) (uncordoned step.target_node)
      event o run
          record (step_entry step "Uncordon") { level = if restored then "" else event_error }

    -- `performStep`; the answer is `NodesDrainedSoFar` after it.
    unfoldable pub perform_step : ℕ → Action o (Result ℕ)
    unfolding snapshot check_step log_refusal rehearse event drain abort
    perform_step drained = do
      live ← snapshot o
      elim live [
        | none ↦ pure o (err broken)
        | some snap ↦ elim (check_step fl x.guard step snap drained) [
          | some b ↦ do log_refusal o run step b; pure o (err (blocked b))
          | none ↦ elim run.dry_run [
            | true ↦ rehearse snap drained
            | false ↦ do
              marked ← calling o (o.cordon step.target_node) (cordoned step.target_node)
              elim marked [
                | false ↦ pure o (err broken)
                | true ↦ do
                  event o run (step_entry step "Cordon")
                  done ← drain
                  elim done [
                    | err e ↦ do abort; pure o (err e)
                    | ok _ ↦ do event o run (step_entry step "Drained"); pure o (ok (suc drained))
                  ]
              ]
          ]
        ]
      ]
