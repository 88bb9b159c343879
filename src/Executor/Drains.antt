-- ===== src/Executor/Drains.antt =====
-- internal/executor/executor.go: what the waits and a drain do to the calls.
use Prim.Native.Nat.{zero, suc}
use k8s_dencer.Base.{
  ℕ, ◌≡◌, String, Bool, false, not, ◌||◌, ◌==◌, Option, none, some, List, [], ◌∷◌, ◌++◌, ◌-◌, ltb,
  string_eq, lookup, refl, sym, ◌∙◌, ap, Float64,
}
use mathlib.Core.Path.{subst}
use k8s_dencer.Model.Cluster.{Pod, pod_key, ClusterSnapshot}
use k8s_dencer.Model.Plan.{PlanStep}
use k8s_dencer.Safety.{Blocked, check_eviction}
use k8s_dencer.Store.Runs.{Run, RunEvent}
use k8s_dencer.Executor.Session.{Outside, Eviction, Call, read, tried, Result, Action}
use k8s_dencer.Executor.Waiting.{
  Settings, event, snapshot, log_refusal, again, wait_gone_from, wait_gone, note_recovered, lags,
  remember_each, remember_recovery, verify_from, verify_recovered, healthy_count, healthy_by_owner,
  step_entry,
}
use k8s_dencer.Executor.Steps.{
  movable_pods_on, find_pod, evict_each, record_drain, drain, also_affected,
}
use k8s_dencer.Executor.Leads.{Keeps, Allows, Leads-if, Leads-option, Leads-try, Leads-eviction}

-- The last call was a read with this answer, and before it `P` held too.
abbrev Fresh : (List Call → Type 0) → Option ClusterSnapshot → List Call → Type 0
Fresh P v calls = P calls × ((cs : List Call) × (calls ≡ read v ∷ cs) × P cs)

module _ (o : Outside) (P : List Call → Type 0) (dry : Bool) (allows : Allows P dry) where
  open allows use {on_read, on_asked, on_logged, on_tried}

  tried-fresh :
      (snap : ClusterSnapshot) (namespace name : String) (current : Pod) (answer : Eviction)
      (v : Option ClusterSnapshot) (calls : List Call)
      → dry ≡ false
      → v ≡ some snap
      → find_pod snap namespace name ≡ some current
      → check_eviction current snap ≡ none
      → Fresh P v calls
      → P (tried namespace name answer ∷ calls)
  tried-fresh snap namespace name current answer v calls real e found clear
        (_, (cs, same, before)) =
      subst (λ past. P (tried namespace name answer ∷ past)) (sym (same ∙ ap (λ r. read r ∷ cs) e))
        (on_tried snap namespace name current answer cs real found clear before)

  pub event-Keeps : (run : Run) (ev : RunEvent) → Keeps o P (event o run ev)
  unfolding event
  event-Keeps run ev s p = on_logged record ev { run_id = run.id } s.calls p

  pub log_refusal-Keeps :
      (run : Run) (step : PlanStep) (b : Blocked) → Keeps o P (log_refusal o run step b)
  unfolding log_refusal event
  log_refusal-Keeps run step b s p = on_logged _ s.calls p

  module _ {fl : Float64} (x : Settings fl) where
    again-Keeps :
        (deadline : ℕ) (next : Action o (Result Unit))
        → Keeps o P next
        → Keeps o P (again o x deadline next)
    unfolding again
    again-Keeps deadline next h s p =
        Leads-if o P P _ _ (ltb deadline (o.now s.world).0) (λ _ q. q)
          (λ s' q. Leads-if o P P _ _ (o.sleep x.poll_interval s'.world).0 h (λ _ r. r) _ q) _ p

    wait_gone_from-Keeps :
        (fuel deadline : ℕ) (pod : Pod) → Keeps o P (wait_gone_from o x fuel deadline pod)
    unfolding wait_gone_from
    wait_gone_from-Keeps zero deadline pod s p = p
    wait_gone_from-Keeps (suc fuel) deadline pod s p =
        Leads-option o P P _ _ (o.pod_present pod.namespace pod.name s.world).0 (λ _ _ q. q)
          (λ here _.
            Leads-if o P P _ _ here
              (again-Keeps deadline (wait_gone_from o x fuel deadline pod)
                (wait_gone_from-Keeps fuel deadline pod))
              (λ _ q. q))
          _ (on_asked pod.namespace pod.name s.calls p)

    wait_gone-Keeps : (fuel : ℕ) (pod : Pod) → Keeps o P (wait_gone o x fuel pod)
    unfolding wait_gone
    wait_gone-Keeps fuel pod s p = wait_gone_from-Keeps fuel _ pod _ p

    note_recovered-Keeps :
        (started : ℕ) (now before recovered : List (String × ℕ)) (affected : List String)
        → Keeps o P (note_recovered o x started now before recovered affected)
    unfolding note_recovered
    note_recovered-Keeps started now before recovered [] s p = p
    note_recovered-Keeps started now before recovered (owner ∷ affected) s p =
        Leads-if o P P _ _ (ltb (healthy_count owner now) (healthy_count owner before))
          (note_recovered-Keeps started now before recovered affected)
          (λ s' q.
            Leads-option o P P _ _ (lookup owner recovered)
              (λ _ s'' r.
                note_recovered-Keeps started now before
                  (recovered ++ (owner, (o.now s''.world).0 - started) ∷ []) affected _ r)
              (λ _ _. note_recovered-Keeps started now before recovered affected) _ q)
          _ p

    remember_each-Keeps :
        (time : ℕ) (took : List (String × ℕ)) → Keeps o P (remember_each o x time took)
    unfolding remember_each
    remember_each-Keeps time [] s p = p
    remember_each-Keeps time (_ ∷ rest) s p = remember_each-Keeps time rest _ p

    remember_recovery-Keeps : (took : List (String × ℕ)) → Keeps o P (remember_recovery o x took)
    unfolding remember_recovery
    remember_recovery-Keeps [] s p = p
    remember_recovery-Keeps (first ∷ rest) s p =
        Leads-if o P P _ _ x.remembers_recoveries (λ s' q. remember_each-Keeps _ (first ∷ rest) _ q)
          (λ _ q. q) _ p

    verify_from-Keeps :
        (fuel : ℕ) (run : Run) (step : PlanStep) (started deadline : ℕ) (before : List (String × ℕ))
        (affected : List String) (recovered : List (String × ℕ))
        → Keeps o P (verify_from o x fuel run step started deadline before affected recovered)
    unfolding verify_from snapshot
    verify_from-Keeps zero run step started deadline before affected recovered s p = p
    verify_from-Keeps (suc fuel) run step started deadline before affected recovered s p =
        Leads-option o P P _ _ (o.snapshot s.world).0 (λ _ _ q. q)
          (λ snap _ s' q.
            let now = healthy_by_owner snap x.readiness in
            let noted = note_recovered-Keeps started now before recovered affected s' q in
            Leads-if o P P _ _ (lags o x now before affected)
              (again-Keeps deadline _
                (verify_from-Keeps fuel run step started deadline before affected _))
              (λ s'' r.
                remember_recovery-Keeps _ _ (event-Keeps run (step_entry step "Verify") s'' r))
              _ noted)
          _ (on_read (o.snapshot s.world).0 s.calls p)

    verify_recovered-Keeps :
        (fuel : ℕ) (run : Run) (step : PlanStep) (before : List (String × ℕ))
        (affected : List String)
        → Keeps o P (verify_recovered o x fuel run step before affected)
    unfolding verify_recovered
    verify_recovered-Keeps fuel run step before [] s p = p
    verify_recovered-Keeps fuel run step before (owner ∷ affected) s p =
        verify_from-Keeps fuel run step _ _ before (owner ∷ affected) [] _ p

    module _ (fuel : ℕ) (run : Run) (step : PlanStep) (real : dry ≡ false) where
      evict_each-Keeps :
          (affected : List String) (pods : List Pod)
          → Keeps o P (evict_each o x fuel run step affected pods)
      unfolding evict_each snapshot
      evict_each-Keeps affected [] s p = p
      evict_each-Keeps affected (pod ∷ pods) s p =
          let v = (o.snapshot s.world).0 in
          let R = Fresh P v in
          Leads-option o R P _ _ v (λ _ _ q. q.0)
            (λ snap e.
              Leads-option o R P _ _ (find_pod snap pod.namespace pod.name)
                (λ _ s' q. evict_each-Keeps affected pods s' q.0)
                (λ current found.
                  Leads-option o R P _ _ (check_eviction current snap)
                    (λ clear s' q.
                      let answer = (o.evict pod.namespace pod.name s'.world).0 in
                      Leads-eviction o P P _ _ _ answer
                        (λ s2 r.
                          Leads-try o P P (wait_gone o x fuel pod) _ _ (wait_gone-Keeps fuel pod)
                            (λ _ _ t. t) (λ _. evict_each-Keeps (also_affected affected pod) pods) _
                            (event-Keeps run record (step_entry step "Evict") { pod = pod_key pod }
                              s2 r))
                        (λ b. log_refusal-Keeps run step b) (λ _ r. r) _
                        (tried-fresh snap pod.namespace pod.name current answer v s'.calls real e
                          found clear q))
                    (λ b _ s' q. log_refusal-Keeps run step b s' q.0)))
            _ (on_read v s.calls p, (s.calls, refl, p))

      record_drain-Keeps : Keeps o P (record_drain o x fuel run step)
      unfolding record_drain snapshot
      record_drain-Keeps s p =
          Leads-if o P P _ _ (not x.tracks_reclamations || step.target_node == "") (λ _ q. q)
            (λ s' q. on_read (o.snapshot s'.world).0 s'.calls q) _ p

      pub drain-Keeps : Keeps o P (drain o x fuel run step)
      unfolding drain snapshot
      drain-Keeps s p =
          Leads-option o P P _ _ (o.snapshot s.world).0 (λ _ _ q. q)
            (λ snap _.
              Leads-try o P P
                (evict_each o x fuel run step [] (movable_pods_on snap step.target_node)) _ _
                (evict_each-Keeps [] (movable_pods_on snap step.target_node)) (λ _ _ r. r)
                (λ affected.
                  let before = healthy_by_owner snap x.readiness in
                  Leads-try o P P (verify_recovered o x fuel run step before affected) _ _
                    (verify_recovered-Keeps fuel run step before affected) (λ _ _ t. t)
                    (λ _ s3 t. record_drain-Keeps s3 t)))
            _ (on_read (o.snapshot s.world).0 s.calls p)
