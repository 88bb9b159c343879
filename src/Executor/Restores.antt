-- ===== src/Executor/Restores.antt =====
-- internal/executor/executor.go: what a step leaves of the node that it cordons.
use k8s_dencer.Base.{
  ℕ, suc, ◌≡◌, String, Bool, true, false, List, [], ◌∷◌, ◌==◌, string_eq, if◌then◌else◌, refl, sym,
  ◌∙◌, ap, Float64,
}
use mathlib.Core.Path.{subst}
use text.Mathlib.TextPositions.{eq_refl}
use k8s_dencer.Model.Cluster.{ClusterSnapshot}
use k8s_dencer.Model.Plan.{PlanStep}
use k8s_dencer.Safety.{check_step}
use k8s_dencer.Store.Runs.{Run}
use k8s_dencer.Executor.Session.{
  Outside, Call, cordoned, uncordoned, Failure, Result, ok, err, Session, pure, ◌>>=◌, ◌>>◌,
}
use k8s_dencer.Executor.Waiting.{Settings, event, snapshot, step_entry}
use k8s_dencer.Executor.Steps.{movable_pods_on, rehearse_each, rehearse, drain, abort, perform_step}
use k8s_dencer.Executor.Leads.{Allows}
use k8s_dencer.Executor.Drains.{event-Keeps, log_refusal-Keeps, drain-Keeps}
use k8s_dencer.Executor.Follows.{Marks, rehearse_each-Keeps}
use k8s_dencer.Executor.Gives.{Gives, Gives-split, Gives-option, Gives-try}

-- The nodes that were cordoned and, as far as a stack tells, not asked to be uncordoned since.
abbrev pub held : List Call → List String
held [] = []
held (c ∷ cs) = elim c [
  | cordoned node true ↦ node ∷ held cs
  | uncordoned node _ ↦ elim (held cs) [
    | [] ↦ []
    | top ∷ rest ↦ if top == node then rest else top ∷ rest
  ]
  | _ ↦ held cs
]

-- The nodes that are held stay the same.
abbrev Holds : List String → List Call → Type 0
Holds nodes calls = held calls ≡ nodes

Holds-Allows : (nodes : List String) (dry : Bool) → Allows (Holds nodes) dry
Holds-Allows nodes dry = record {
  on_read = λ _ _ h. h;
  on_asked = λ _ _ _ h. h;
  on_logged = λ _ _ h. h;
  on_tried = λ _ _ _ _ _ _ _ _ _ h. h;
}

Holds-Marks : (nodes : List String) → Marks (Holds nodes) true
Holds-Marks nodes = record {
  on_cordoned = λ _ _ _ real _. absurd cc;
  on_uncordoned = λ _ _ _ real _. absurd cc;
}

held-cordoned :
    (node : String) (answer : Bool) (cs : List Call)
    → held (cordoned node answer ∷ cs) ≡ (if answer then node ∷ held cs else held cs)
held-cordoned node true cs = refl
held-cordoned node false cs = refl

held-uncordoned :
    (node : String) (answer : Bool) (cs : List Call) (rest : List String)
    → held cs ≡ node ∷ rest
    → held (uncordoned node answer ∷ cs) ≡ rest
held-uncordoned node answer cs rest h = rw (h, eq_refl node) refl

-- A step that failed leaves no node cordoned that was not before, or has asked for it to be uncordoned; one
-- that went well counts one node more and leaves its target cordoned, unless it was a rehearsal.
abbrev pub IsSettled : Run → PlanStep → ℕ → List String → Result ℕ → List Call → Type 0
IsSettled run step drained before (err _) after = held after ≡ before
IsSettled run step drained before (ok count) after =
    (count ≡ suc drained)
    × (held after ≡ (if run.dry_run then before else step.target_node ∷ before))

module _ (o : Outside) {fl : Float64} (x : Settings fl) (fuel : ℕ) (run : Run) (step : PlanStep)
    (drained : ℕ) (nodes : List String) where
  abbrev R : Result ℕ → List Call → Type 0
  R = IsSettled run step drained nodes

  rehearse-IsSettled :
      (snap : ClusterSnapshot)
      → run.dry_run ≡ true
      → Gives o (Holds nodes) R (rehearse o x fuel run step snap drained)
  unfolding rehearse
  rehearse-IsSettled snap dry s p =
      let pods = movable_pods_on snap step.target_node in
      let logs = event-Keeps o (Holds nodes) run.dry_run (Holds-Allows nodes run.dry_run) run in
      Gives-try o (Holds nodes) R (rehearse_each o x fuel run step snap pods) _ _
        (rehearse_each-Keeps o (Holds nodes) x fuel run (Holds-Allows nodes run.dry_run)
          (subst (Marks (Holds nodes)) (sym dry) (Holds-Marks nodes)) step snap pods)
        (λ _ _ q. q)
        (λ _ s' q. (
          refl,
          logs (step_entry step "Drained") s' q
              ∙ sym (ap (λ d. if d then nodes else step.target_node ∷ nodes) dry),
        ))
        (event o run (step_entry step "Cordon") s).1 (logs (step_entry step "Cordon") s p)

  abort-IsSettled :
      (e : Failure)
      → Gives o (Holds (step.target_node ∷ nodes)) R (abort o x fuel run step >> pure o (err e))
  unfolding abort event
  abort-IsSettled e s p =
      held-uncordoned step.target_node (o.uncordon step.target_node s.world).0 s.calls nodes p

  drain-IsSettled :
      run.dry_run ≡ false
      → Gives o (Holds (step.target_node ∷ nodes)) R (
          drain o x fuel run step >>= λ done. elim done [
            | err e ↦ abort o x fuel run step >> pure o (err e)
            | ok _ ↦ event o run (step_entry step "Drained") >> pure o (ok (suc drained))
          ])
  drain-IsSettled real =
      let marked = step.target_node ∷ nodes in
      let allows = Holds-Allows marked run.dry_run in
      Gives-try o (Holds marked) R (drain o x fuel run step) _ _
        (drain-Keeps o (Holds marked) run.dry_run allows x fuel run step real) abort-IsSettled
        (λ _ s q. (
          refl,
          event-Keeps o (Holds marked) run.dry_run allows run (step_entry step "Drained") s q
              ∙ sym (ap (λ d. if d then nodes else step.target_node ∷ nodes) real),
        ))

  perform_step-Gives : Gives o (Holds nodes) R (perform_step o x fuel run step drained)
  unfolding perform_step snapshot
  perform_step-Gives s p =
      let target = step.target_node in
      let allows = Holds-Allows nodes run.dry_run in
      Gives-option o (Holds nodes) R _ _ (o.snapshot s.world).0 (λ _ q. q)
        (λ snap.
          Gives-option o (Holds nodes) R _ _ (check_step fl x.guard step snap drained)
            (Gives-split o (Holds nodes) R _ _ run.dry_run (rehearse-IsSettled snap) (λ real s' q.
              let answer = (o.cordon target s'.world).0 in
              let P : List Call → Type 0 =
                λ cs. held cs ≡ (if answer then target ∷ nodes else nodes) in
              Gives-split o P R _ _ answer
                (λ yes_ s2 r. drain-IsSettled real (event o run (step_entry step "Cordon") s2).1 (
                  event-Keeps o (Holds (target ∷ nodes)) run.dry_run
                    (Holds-Allows (target ∷ nodes) run.dry_run) run (step_entry step "Cordon") s2
                    (r ∙ ap (λ b. if b then target ∷ nodes else nodes) yes_)))
                (λ no_ _ r. r ∙ ap (λ b. if b then target ∷ nodes else nodes) no_) _
                (held-cordoned target answer s'.calls
                  ∙ ap (λ ns. if answer then target ∷ ns else ns) q)))
            (λ b. log_refusal-Keeps o (Holds nodes) run.dry_run allows run step b))
        _ p

-- A step fails with the nodes held as they were before, its own cordon answered by a request to uncordon;
-- it succeeds with one node more counted, and held unless the run is a dry run.
pub perform_step-IsSettled :
    (o : Outside) {fl : Float64} (x : Settings fl) (fuel : ℕ) (run : Run) (step : PlanStep)
    (drained : ℕ) (s : Session o)
    → IsSettled run step drained
        (held s.calls)
        (perform_step o x fuel run step drained s).0
        (perform_step o x fuel run step drained s).1.calls
perform_step-IsSettled o x fuel run step drained s =
    perform_step-Gives o x fuel run step drained (held s.calls) s refl
