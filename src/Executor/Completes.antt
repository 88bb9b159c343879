-- ===== src/Executor/Completes.antt =====
-- internal/executor/executor.go: a step ends, given a clock that does not go back and enough fuel.
use Prim.Native.Nat.{zero, suc}
use native.Mathlib.Nat.{suc-mul}
use k8s_dencer.Base.{
  ℕ, ◌+◌, ◌*◌, ◌<◌, ◌≤◌, ◌≡◌, ◌≢◌, String, false, List, [], ◌∷◌, ltb, lt→ltb, arith, Float64,
}
use k8s_dencer.Model.Cluster.{Pod, pod_key, ClusterSnapshot}
use k8s_dencer.Model.Plan.{PlanStep}
use k8s_dencer.Safety.{check_step, check_eviction}
use k8s_dencer.Store.Runs.{Run}
use k8s_dencer.Executor.Session.{Outside, tried, cordoned, read, unfinished, err, Session}
use k8s_dencer.Executor.Waiting.{
  Settings, snapshot, event, step_entry, wait_gone, note_recovered, lags, verify_from,
  verify_recovered, healthy_by_owner,
}
use k8s_dencer.Executor.Steps.{
  movable_pods_on, find_pod, also_affected, evict_each, drain, rehearse_each, rehearse,
  perform_step,
}
use k8s_dencer.Executor.Finishes.{
  time, Clock, EndsAt, Decided-split, Decided-option, Decided-result, Decided-eviction,
  ok-IsDecided, broken-IsDecided, blocked-IsDecided, err-IsDecided, again-IsDecided,
  wait_gone-IsDecided, note_recovered-later,
}

module _ (o : Outside) (c : Clock o) {fl : Float64} (x : Settings fl) (run : Run)
    (step : PlanStep) where
  module _ (started deadline : ℕ) (before : List (String × ℕ)) (affected : List String) where
    -- A cycle of the loop of `verifyRecovered`.
    verify-cycle :
        (fuel : ℕ) (recovered : List (String × ℕ)) (s : Session o)
        → ((noted : List (String × ℕ)) (s1 s' : Session o)
            → time o s.world ≤ time o s1.world
            → ltb deadline (time o s1.world) ≡ false
            → time o s.world + x.poll_interval ≤ time o s'.world
            → EndsAt s' (verify_from o x fuel run step started deadline before affected noted))
        → EndsAt s (verify_from o x (suc fuel) run step started deadline before affected recovered)
    unfolding verify_from snapshot
    verify-cycle fuel recovered s h =
        let answer = o.snapshot s.world in
        let s1 : Session o = record { world = answer.1; calls = read answer.0 ∷ s.calls } in
        Decided-option _ _ answer.0 s1 broken-IsDecided (λ snap.
          let now = healthy_by_owner snap x.readiness in
          let (noted, s2) = note_recovered o x started now before recovered affected s1 in
          let read_later = c.snapshot_later s.world in
          let note_later = note_recovered-later o c x started now before recovered affected s1 in
          Decided-split _ _ (lags o x now before affected) s2
            (λ _.
              again-IsDecided o c x deadline (time o s.world) _ s2 (omega arith)
                (λ s'. h noted s2 s' (omega arith)))
            (λ _. ok-IsDecided tt))

    verify_from-IsDecided :
        (fuel : ℕ) (recovered : List (String × ℕ)) (s : Session o)
        → deadline < time o s.world + fuel * x.poll_interval
        → EndsAt s (verify_from o x (suc fuel) run step started deadline before affected recovered)
    verify_from-IsDecided zero recovered s enough =
        verify-cycle zero recovered s (λ noted s1 s' later early _.
          let late = lt→ltb deadline (time o s1.world) (omega arith) in absurd cc)
    verify_from-IsDecided (suc fuel) recovered s enough =
        verify-cycle (suc fuel) recovered s (λ noted s1 s' _ _ later.
          let more = suc-mul fuel x.poll_interval in
          verify_from-IsDecided fuel noted s' (omega arith))

  module _ (fuel : ℕ) (enough : x.settle_timeout < fuel * x.poll_interval) where
    verify_recovered-IsDecided :
        (before : List (String × ℕ)) (affected : List String) (s : Session o)
        → EndsAt s (verify_recovered o x (suc fuel) run step before affected)
    unfolding verify_recovered
    verify_recovered-IsDecided before [] s = ok-IsDecided tt
    verify_recovered-IsDecided before (owner ∷ affected) s =
        let w = (o.now s.world).1 in
        let later = c.now_later w in
        verify_from-IsDecided (time o s.world) (time o w + x.settle_timeout) before
          (owner ∷ affected) fuel [] record s { world = (o.now w).1 } (omega arith)

    evict_each-IsDecided :
        (affected : List String) (pods : List Pod) (s : Session o)
        → EndsAt s (evict_each o x (suc fuel) run step affected pods)
    unfolding evict_each snapshot
    evict_each-IsDecided affected [] s = ok-IsDecided affected
    evict_each-IsDecided affected (pod ∷ pods) s =
        let answer = o.snapshot s.world in
        let s1 : Session o = record { world = answer.1; calls = read answer.0 ∷ s.calls } in
        Decided-option _ _ answer.0 s1 broken-IsDecided (λ snap.
          Decided-option _ _ (find_pod snap pod.namespace pod.name) s1
            (evict_each-IsDecided affected pods s1)
            (λ current.
              Decided-option _ _ (check_eviction current snap) s1
                (let tried_ = o.evict pod.namespace pod.name s1.world in
                  let s2 : Session o = record {
                    world = tried_.1;
                    calls = tried pod.namespace pod.name tried_.0 ∷ s1.calls;
                  } in
                  Decided-eviction _ _ _ tried_.0 s2
                    (let (_, s3) =
                        event o run record (step_entry step "Evict") { pod = pod_key pod } s2 in
                      let (gone, s4) = wait_gone o x (suc fuel) pod s3 in
                      Decided-result _ _ gone s4 (wait_gone-IsDecided o c x fuel pod s3 enough)
                        (λ e. err-IsDecided e)
                        (λ _. evict_each-IsDecided (also_affected affected pod) pods s4))
                    blocked-IsDecided broken-IsDecided)
                blocked-IsDecided))

    drain-IsDecided : (s : Session o) → EndsAt s (drain o x (suc fuel) run step)
    unfolding drain snapshot
    drain-IsDecided s =
        let answer = o.snapshot s.world in
        let s1 : Session o = record { world = answer.1; calls = read answer.0 ∷ s.calls } in
        Decided-option _ _ answer.0 s1 broken-IsDecided (λ snap.
          let before = healthy_by_owner snap x.readiness in
          let pods = movable_pods_on snap step.target_node in
          let (moved, s2) = evict_each o x (suc fuel) run step [] pods s1 in
          Decided-result _ _ moved s2 (evict_each-IsDecided [] pods s1) (λ e. err-IsDecided e)
            (λ affected.
              let (back, s3) = verify_recovered o x (suc fuel) run step before affected s2 in
              Decided-result _ _ back s3 (verify_recovered-IsDecided before affected s2)
                (λ e. err-IsDecided e) (λ _. ok-IsDecided tt)))

    rehearse_each-IsDecided :
        (live : ClusterSnapshot) (pods : List Pod) (s : Session o)
        → EndsAt s (rehearse_each o x (suc fuel) run step live pods)
    unfolding rehearse_each
    rehearse_each-IsDecided live [] s = ok-IsDecided tt
    rehearse_each-IsDecided live (pod ∷ pods) s =
        Decided-option _ _ (check_eviction pod live) s
          (rehearse_each-IsDecided live pods
            (event o run record (step_entry step "Evict") { pod = pod_key pod } s).1)
          blocked-IsDecided

    rehearse-IsDecided :
        (live : ClusterSnapshot) (drained : ℕ) (s : Session o)
        → EndsAt s (rehearse o x (suc fuel) run step live drained)
    unfolding rehearse
    rehearse-IsDecided live drained s =
        let (_, s1) = event o run (step_entry step "Cordon") s in
        let pods = movable_pods_on live step.target_node in
        let (done, s2) = rehearse_each o x (suc fuel) run step live pods s1 in
        Decided-result _ _ done s2 (rehearse_each-IsDecided live pods s1) (λ e. err-IsDecided e)
          (λ _. ok-IsDecided (suc drained))

    -- With a clock that does not go back and fuel for more than the settle timeout, counted in poll
    -- intervals, a step comes to a result of its own: neither of its loops runs out of fuel.
    pub perform_step-IsDecided :
        (drained : ℕ) (s : Session o)
        → (perform_step o x (suc fuel) run step drained s).0 ≢ err unfinished
    unfolding perform_step snapshot
    perform_step-IsDecided drained s =
        let answer = o.snapshot s.world in
        let s1 : Session o = record { world = answer.1; calls = read answer.0 ∷ s.calls } in
        Decided-option _ _ answer.0 s1 broken-IsDecided (λ snap.
          Decided-option _ _ (check_step fl x.guard step snap drained) s1
            (Decided-split _ _ run.dry_run s1 (λ _. rehearse-IsDecided snap drained s1)
              (λ _.
                let marked = o.cordon step.target_node s1.world in
                let s2 : Session o = record {
                  world = marked.1;
                  calls = cordoned step.target_node marked.0 ∷ s1.calls;
                } in
                Decided-split _ _ marked.0 s2
                  (λ _.
                    let (_, s3) = event o run (step_entry step "Cordon") s2 in
                    let (done, s4) = drain o x (suc fuel) run step s3 in
                    Decided-result _ _ done s4 (drain-IsDecided s3) (λ e. err-IsDecided e)
                      (λ _. ok-IsDecided (suc drained)))
                  (λ _. broken-IsDecided)))
            blocked-IsDecided)
