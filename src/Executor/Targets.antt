-- ===== src/Executor/Targets.antt =====
-- internal/executor/executor.go: which nodes a step cordons.
use k8s_dencer.Base.{
  ℕ, suc, ◌≡◌, ◌⊎◌, String, Bool, true, false, List, [], ◌∷◌, inl, inr, if◌then◌else◌, sym, ◌∙◌, ap,
  Float64,
}
use mathlib.Core.Path.{subst}
use k8s_dencer.Model.Cluster.{ClusterSnapshot}
use k8s_dencer.Model.Plan.{PlanStep}
use k8s_dencer.Safety.{check_step}
use k8s_dencer.Store.Runs.{Run}
use k8s_dencer.Executor.Session.{
  Outside, Call, cordoned, Failure, Result, ok, err, pure, ◌>>=◌, ◌>>◌,
}
use k8s_dencer.Executor.Waiting.{Settings, event, snapshot, step_entry}
use k8s_dencer.Executor.Steps.{movable_pods_on, rehearse_each, rehearse, drain, abort, perform_step}
use k8s_dencer.Executor.Leads.{Allows}
use k8s_dencer.Executor.Drains.{event-Keeps, log_refusal-Keeps, drain-Keeps}
use k8s_dencer.Executor.Follows.{Marks, rehearse_each-Keeps}
use k8s_dencer.Executor.Gives.{Gives, Gives-split, Gives-option, Gives-try}

-- The nodes that were asked to be cordoned, latest first.
abbrev pub targets : List Call → List String
targets [] = []
targets (c ∷ cs) = elim c [ cordoned node _ ↦ node ∷ targets cs | _ ↦ targets cs ]

-- Of the targets.
abbrev pub Targets : (List String → Type 0) → List Call → Type 0
Targets S cs = S (targets cs)

pub targets-Allows : (S : List String → Type 0) (dry : Bool) → Allows (Targets S) dry
targets-Allows S dry = record {
  on_read = λ _ _ h. h;
  on_asked = λ _ _ _ h. h;
  on_logged = λ _ _ h. h;
  on_tried = λ _ _ _ _ _ _ _ _ _ h. h;
}

targets-Marks : (S : List String → Type 0) → Marks (Targets S) true
targets-Marks S = record {
  on_cordoned = λ _ _ _ real _. absurd cc;
  on_uncordoned = λ _ _ _ real _. absurd cc;
}

-- What a step adds to them: when it goes well its own target, unless it was a rehearsal; when it does not,
-- its own target at most.
abbrev pub Adds : Run → PlanStep → List String → Result ℕ → List Call → Type 0
Adds run step before (err _) after =
    (targets after ≡ before) ⊎ (targets after ≡ step.target_node ∷ before)
Adds run step before (ok _) after =
    targets after ≡ (if run.dry_run then before else step.target_node ∷ before)

module _ (o : Outside) {fl : Float64} (x : Settings fl) (fuel : ℕ) (run : Run) (step : PlanStep)
    (drained : ℕ) (nodes : List String) where
  abbrev Same : List Call → Type 0
  Same = Targets (λ ns. ns ≡ nodes)

  abbrev Marked : List Call → Type 0
  Marked = Targets (λ ns. ns ≡ step.target_node ∷ nodes)

  rehearse-Adds :
      (snap : ClusterSnapshot)
      → run.dry_run ≡ true
      → Gives o Same (Adds run step nodes) (rehearse o x fuel run step snap drained)
  unfolding rehearse
  rehearse-Adds snap dry s p =
      let pods = movable_pods_on snap step.target_node in
      let allows = targets-Allows (λ ns. ns ≡ nodes) run.dry_run in
      let logs = event-Keeps o Same run.dry_run allows run in
      Gives-try o Same (Adds run step nodes) (rehearse_each o x fuel run step snap pods) _ _
        (rehearse_each-Keeps o Same x fuel run allows
          (subst (Marks Same) (sym dry) (targets-Marks (λ ns. ns ≡ nodes))) step snap pods)
        (λ _ _ q. inl q)
        (λ _ s' q.
          logs (step_entry step "Drained") s' q
          ∙ sym (ap (λ d. if d then nodes else step.target_node ∷ nodes) dry))
        (event o run (step_entry step "Cordon") s).1 (logs (step_entry step "Cordon") s p)

  abort-Adds :
      (e : Failure)
      → Gives o Marked (Adds run step nodes) (abort o x fuel run step >> pure o (err e))
  unfolding abort event
  abort-Adds e s p = inr p

  drain-Adds :
      run.dry_run ≡ false
      → Gives o Marked (Adds run step nodes) (
          drain o x fuel run step >>= λ done. elim done [
            | err e ↦ abort o x fuel run step >> pure o (err e)
            | ok _ ↦ event o run (step_entry step "Drained") >> pure o (ok (suc drained))
          ])
  drain-Adds real =
      let allows = targets-Allows (λ ns. ns ≡ step.target_node ∷ nodes) run.dry_run in
      Gives-try o Marked (Adds run step nodes) (drain o x fuel run step) _ _
        (drain-Keeps o Marked run.dry_run allows x fuel run step real) abort-Adds
        (λ _ s q.
          event-Keeps o Marked run.dry_run allows run (step_entry step "Drained") s q
          ∙ sym (ap (λ d. if d then nodes else step.target_node ∷ nodes) real))

  pub perform_step-Adds :
      Gives o Same (Adds run step nodes) (perform_step o x fuel run step drained)
  unfolding perform_step snapshot
  perform_step-Adds s p =
      let target = step.target_node in
      let allows = targets-Allows (λ ns. ns ≡ nodes) run.dry_run in
      let R = Adds run step nodes in
      Gives-option o Same R _ _ (o.snapshot s.world).0 (λ _ q. inl q)
        (λ snap.
          Gives-option o Same R _ _ (check_step fl x.guard step snap drained)
            (Gives-split o Same R _ _ run.dry_run (rehearse-Adds snap) (λ real s' q.
              Gives-split o Marked R _ _ (o.cordon target s'.world).0
                (λ _ s2 r. drain-Adds real (event o run (step_entry step "Cordon") s2).1 (
                  event-Keeps o Marked run.dry_run
                    (targets-Allows (λ ns. ns ≡ target ∷ nodes) run.dry_run) run
                    (step_entry step "Cordon") s2 r))
                (λ _ _ r. inr r) _ (ap (λ ns. target ∷ ns) q)))
            (λ b s' q. inl (log_refusal-Keeps o Same run.dry_run allows run step b s' q)))
        _ p
