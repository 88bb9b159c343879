-- ===== src/Executor/Follows.antt =====
-- internal/executor: what a whole run does to the calls, in each of its modes.
use Prim.Native.Nat.{zero, suc}
use k8s_dencer.Base.{
  ℕ, ◌+◌, ◌≡◌, ◌≢◌, ◌∙◌, ap, ◌⊎◌, String, Bool, true, false, ◌==◌, string_eq, none, some, List, [],
  ◌∷◌, inl, inr, leb, if◌then◌else◌, refl, Float64,
}
use k8s_dencer.Model.Cluster.{Pod, pod_key, ClusterSnapshot, node_by_name}
use k8s_dencer.Model.Plan.{PlanStep}
use k8s_dencer.Safety.{Blocked, check_step, check_eviction}
use k8s_dencer.Impact.Classifier.{classify_plan}
use k8s_dencer.Store.Runs.{
  run_succeeded, run_blocked, run_stopped, run_failed, Envelope, run_mode_converge, run_mode_drain,
  Run, event_error,
}
use k8s_dencer.Executor.Session.{
  Outside, Call, cordoned, uncordoned, closed, Failure, blocked, broken, unfinished, ok, err,
  Session, Action, ◌>>=◌,
}
use k8s_dencer.Executor.Waiting.{Settings, event, snapshot, log_refusal, step_entry, run_entry}
use k8s_dencer.Executor.Steps.{movable_pods_on, rehearse_each, rehearse, drain, abort, perform_step}
use k8s_dencer.Executor.Modes.{
  find_step, finish, fail, end_with, stop_requested, perform_each, perform, plan_one_step,
  exceeds_ceiling, occupied_nodes, converge_rounds, converge, consents, rounds_of, drain_rated,
  drain_node, dispatch,
}
use k8s_dencer.Executor.Leads.{
  Leads, Keeps, Allows, Leads-if, Leads-split, Leads-option, Leads-try, Leads-answer, Leads-then,
}
use k8s_dencer.Executor.Drains.{event-Keeps, log_refusal-Keeps, drain-Keeps}

-- Marking a node, which only a real run does.
pub record Marks (P : List Call → Type 0) (dry : Bool) : Type 0 where
  pub on_cordoned :
      (node : String) (answer : Bool) (cs : List Call)
      → dry ≡ false
      → P cs
      → P (cordoned node answer ∷ cs)
  pub on_uncordoned :
      (node : String) (answer : Bool) (cs : List Call)
      → dry ≡ false
      → P cs
      → P (uncordoned node answer ∷ cs)

-- The statuses that a run is closed with.
abbrev pub IsFinal : String → Type 0
IsFinal s = (s ≡ run_succeeded) ⊎ ((s ≡ run_blocked) ⊎ ((s ≡ run_stopped) ⊎ (s ≡ run_failed)))

module _ (o : Outside) (P : List Call → Type 0) {fl : Float64} (x : Settings fl) (fuel : ℕ)
    (run : Run) (allows : Allows P run.dry_run) where
  logs : (ev : _) → Keeps o P (event o run ev)
  logs = event-Keeps o P run.dry_run allows run

  module _ (Q : List Call → Type 0)
      (on_closed : (status : String) (answer : Bool) (cs : List Call)
        → IsFinal status
        → P cs
        → Q (closed status answer ∷ cs)) where
    finish-Leads : (status : String) → IsFinal status → Leads o P Q (finish o run status)
    unfolding finish
    finish-Leads status final s p =
        on_closed status (o.finish run.id status s.world).0 s.calls final p

    pub succeeds : Leads o P Q (finish o run run_succeeded)
    succeeds = finish-Leads run_succeeded (inl refl)

    pub stops : Leads o P Q (finish o run run_stopped)
    stops = finish-Leads run_stopped (inr (inr (inl refl)))

    pub fail-Leads : Leads o P Q (fail o run)
    unfolding fail
    fail-Leads =
        let ev = record (run_entry "Fail") { level = event_error } in
        Leads-then o P Q (event o run ev) (finish o run run_failed) (logs ev)
          (finish-Leads run_failed (inr (inr (inr refl))))

    -- Where a step has ended the run, or its fuel is used up.
    pub ends :
        (e : Failure)
        → (e ≡ unfinished → (cs : List Call) → P cs → Q cs)
        → Leads o P Q (end_with o run e)
    unfolding end_with
    ends (blocked b) h = finish-Leads run_blocked (inr (inl refl))
    ends broken h = finish-Leads run_failed (inr (inr (inr refl)))
    ends unfinished h = λ s p. h refl s.calls p

    -- A stop that was asked for closes the run.
    pub unless_stopped :
        (m : Action o Unit)
        → Leads o P Q m
        → Leads o P Q (
            stop_requested o run.id >>= λ stopped. elim stopped [
              | true ↦ finish o run run_stopped
              | false ↦ m
            ])
    unfolding stop_requested
    unless_stopped m h s p = Leads-if o P Q _ _ _ stops h _ p

    -- A read that fails fails the run.
    pub unless_unread :
        (f : ClusterSnapshot → Action o Unit)
        → ((snap : ClusterSnapshot) → Leads o P Q (f snap))
        → Leads o P Q (snapshot o >>= λ live. elim live [ none ↦ fail o run | some snap ↦ f snap ])
    unfolding snapshot
    unless_unread f h s p =
        Leads-option o P Q _ _ (o.snapshot s.world).0 (λ _. fail-Leads) (λ snap _. h snap) _
          (allows.on_read (o.snapshot s.world).0 s.calls p)

  module _ (marks : Marks P run.dry_run) (step : PlanStep) where
    refuses : (b : Blocked) → Keeps o P (log_refusal o run step b)
    refuses = log_refusal-Keeps o P run.dry_run allows run step

    pub rehearse_each-Keeps :
        (live : ClusterSnapshot) (pods : List Pod)
        → Keeps o P (rehearse_each o x fuel run step live pods)
    unfolding rehearse_each
    rehearse_each-Keeps live [] s p = p
    rehearse_each-Keeps live (pod ∷ pods) s p =
        Leads-option o P P _ _ (check_eviction pod live)
          (λ _ s' q.
            rehearse_each-Keeps live pods _
              (logs record (step_entry step "Evict") { pod = pod_key pod } s' q))
          (λ b _. refuses b) _ p

    rehearse-Keeps :
        (live : ClusterSnapshot) (drained : ℕ) → Keeps o P (rehearse o x fuel run step live drained)
    unfolding rehearse
    rehearse-Keeps live drained s p =
        let pods = movable_pods_on live step.target_node in
        Leads-try o P P (rehearse_each o x fuel run step live pods) _ _
          (rehearse_each-Keeps live pods) (λ _ _ q. q) (λ _. logs (step_entry step "Drained")) _
          (logs (step_entry step "Cordon") s p)

    abort-Keeps : run.dry_run ≡ false → Keeps o P (abort o x fuel run step)
    unfolding abort
    abort-Keeps real s p =
        let answer = (o.uncordon step.target_node s.world).0 in
        logs record (step_entry step "Uncordon") { level = if answer then "" else event_error }
          record {
            world = (o.uncordon step.target_node s.world).1;
            calls = uncordoned step.target_node answer ∷ s.calls;
          }
          (marks.on_uncordoned step.target_node answer s.calls real p)

    perform_step-Keeps : (drained : ℕ) → Keeps o P (perform_step o x fuel run step drained)
    unfolding perform_step snapshot
    perform_step-Keeps drained s p =
        Leads-option o P P _ _ (o.snapshot s.world).0 (λ _ _ q. q)
          (λ snap _.
            Leads-option o P P _ _ (check_step fl x.guard step snap drained)
              (λ _.
                Leads-split o P P _ _ run.dry_run (λ _. rehearse-Keeps snap drained)
                  (λ real s' q.
                    let marked = (o.cordon step.target_node s'.world).0 in
                    Leads-if o P P _ _ marked
                      (λ s2 r.
                        Leads-try o P P (drain o x fuel run step) _ _
                          (drain-Keeps o P run.dry_run allows x fuel run step real)
                          (λ _. abort-Keeps real) (λ _. logs (step_entry step "Drained")) _
                          (logs (step_entry step "Cordon") s2 r))
                      (λ _ r. r) _ (marks.on_cordoned step.target_node marked s'.calls real q)))
              (λ b _. refuses b))
          _ (allows.on_read (o.snapshot s.world).0 s.calls p)

  module _ (marks : Marks P run.dry_run) (Q : List Call → Type 0)
      (on_closed : (status : String) (answer : Bool) (cs : List Call)
        → IsFinal status
        → P cs
        → Q (closed status answer ∷ cs))
      (cut : ((cs : List Call) → P cs → Q cs)
        ⊎ ((step : PlanStep) (drained : ℕ) (s : Session o)
            → (perform_step o x fuel run step drained s).0 ≢ err unfinished)) where
    -- A step of the run, and what the run makes of its answer.
    step-Leads :
        (step : PlanStep) (drained : ℕ) (f : ℕ → Action o Unit)
        → ((drained' : ℕ) → Leads o P Q (f drained'))
        → Leads o P Q (
            perform_step o x fuel run step drained >>= λ done. elim done [
              | err e ↦ end_with o run e
              | ok drained' ↦ f drained'
            ])
    step-Leads step drained f h = elim cut [
      | inl open_ ↦
          Leads-try o P Q (perform_step o x fuel run step drained) _ f
            (perform_step-Keeps marks step drained) (λ e. ends Q on_closed e (λ _. open_)) h
      | inr decided ↦
          Leads-answer o P Q (perform_step o x fuel run step drained) _ f
            (perform_step-Keeps marks step drained)
            (λ e s answer p.
              ends Q on_closed e (λ same. absurd (decided step drained s (answer ∙ ap err same)))
                (perform_step o x fuel run step drained s).1 p)
            h
    ]

    perform_each-Leads :
        (steps : List PlanStep) (drained : ℕ) (wanted : List ℕ)
        → Leads o P Q (perform_each o x fuel run steps drained wanted)
    unfolding perform_each
    perform_each-Leads steps drained [] = (succeeds Q on_closed)
    perform_each-Leads steps drained (seq ∷ rest) = unless_stopped Q on_closed _ (
        Leads-option o P Q _ _ (find_step steps seq) (λ _. (fail-Leads Q on_closed))
          (λ step _.
            step-Leads step drained _ (λ drained'. perform_each-Leads steps drained' rest)))

    perform-Leads : Leads o P Q (perform o x fuel run)
    unfolding perform
    perform-Leads s p =
        let (_, s') = event o run (run_entry "Claim") s in
        Leads-option o P Q (fail o run) (λ steps. perform_each o x fuel run steps 0 run.steps)
          (o.plan_by_id run.plan_id s'.world).0 (λ _. (fail-Leads Q on_closed))
          (λ steps _. perform_each-Leads steps 0 run.steps)
          record s' { world = (o.plan_by_id run.plan_id s'.world).1 } (logs (run_entry "Claim") s p)

    converge_rounds-Leads :
        (env : Envelope) (left round : ℕ) (drained : List String) (count : ℕ)
        → Leads o P Q (converge_rounds o x fuel run env left round drained count)
    unfolding converge_rounds
    converge_rounds-Leads env zero round drained count = (succeeds Q on_closed)
    converge_rounds-Leads env (suc left) round drained count = unless_stopped Q on_closed _ (
        unless_unread Q on_closed _ (λ snap.
          Leads-option o P Q _ _ (plan_one_step o x fuel run snap drained)
            (λ _. (succeeds Q on_closed))
            (λ step _.
              Leads-if o P Q _ _ (exceeds_ceiling step.impact env.max_impact) (succeeds Q on_closed)
                (λ s p.
                  let ev = record (step_entry step "Plan") { step = round } in
                  step-Leads step count _
                    (λ count'. Leads-if o P Q _ _ run.dry_run (succeeds Q on_closed) (
                      unless_unread Q on_closed _ (λ later.
                        Leads-if o P Q _ _ (leb (occupied_nodes snap) (occupied_nodes later))
                          (succeeds Q on_closed)
                          (converge_rounds-Leads env left (round + 1) (step.target_node ∷ drained)
                            count'))))
                    (event o run ev s).1 (logs ev s p)))))

    converge-Leads : Leads o P Q (converge o x fuel run)
    unfolding converge
    converge-Leads =
        Leads-option o P Q _ _ run.envelope (λ _. (fail-Leads Q on_closed))
          (λ env _.
            Leads-if o P Q _ _ (consents env)
              (λ s p.
                converge_rounds-Leads env (rounds_of env) 1 [] 0
                  (event o run (run_entry "Claim") s).1 (logs (run_entry "Claim") s p))
              (fail-Leads Q on_closed))

    drain_node-Leads : Leads o P Q (drain_node o x fuel run)
    unfolding drain_node drain_rated classify_plan
    drain_node-Leads = Leads-if o P Q _ _ (run.node == "") (fail-Leads Q on_closed) (λ s p.
        let ev = record (run_entry "Claim") { node = run.node } in
        unless_unread Q on_closed _
          (λ snap.
            Leads-option o P Q _ _ (node_by_name snap run.node) (λ _. (fail-Leads Q on_closed))
              (λ _ _ s' q.
                let ev' = record (run_entry "Plan") { step = 1; node = run.node } in
                step-Leads _ 0 _ (λ _. (succeeds Q on_closed)) (event o run ev' s').1
                  (logs ev' s' q)))
          (event o run ev s).1 (logs ev s p))

    pub dispatch-Leads : Leads o P Q (dispatch o x fuel run)
    unfolding dispatch
    dispatch-Leads =
        Leads-if o P Q _ _ (run.mode == run_mode_converge) converge-Leads
          (Leads-if o P Q _ _ (run.mode == run_mode_drain) drain_node-Leads perform-Leads)
