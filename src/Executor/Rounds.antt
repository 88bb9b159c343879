-- ===== src/Executor/Rounds.antt =====
-- internal/executor/converge.go: a converge run visits no node twice and stays in its envelope.
use Prim.Native.Nat.{zero, suc}
use k8s_dencer.Base.{
  ℕ, ◌+◌, ◌^◌, ◌≤◌, ◌<◌, ◌≡◌, ◌≢◌, ◌⊎◌, String, Bool, true, false, not, ◌==◌, string_eq, none, some,
  List, [], ◌∷◌, inl, inr, Bool-cases, if◌then◌else◌, leb, length, find, contains, lt64, All,
  Distinct, refl, sym, ◌∙◌, ap, arith, Float64,
}
use mathlib.Core.Path.{subst}
use k8s_dencer.Model.Cluster.{ClusterSnapshot}
use k8s_dencer.Model.Plan.{PlanStep}
use k8s_dencer.Store.Runs.{run_succeeded, Envelope, Run}
use k8s_dencer.Executor.Session.{Outside, Call, closed, ok, err, Session, Action, ◌>>=◌}
use k8s_dencer.Executor.Waiting.{Settings, event, snapshot, step_entry, run_entry}
use k8s_dencer.Executor.Steps.{perform_step}
use k8s_dencer.Executor.Modes.{
  plan_one_step, exceeds_ceiling, occupied_nodes, max_converge_rounds, consents, rounds_of,
  converge_rounds, converge, finish, fail, end_with,
}
use k8s_dencer.Executor.Leads.{Leads, Allows, Leads-if, Leads-split, Leads-option}
use k8s_dencer.Executor.Drains.{event-Keeps}
use k8s_dencer.Executor.Follows.{IsFinal, succeeds, ends, fail-Leads, unless_stopped, unless_unread}
use k8s_dencer.Executor.Gives.{Leads-after}
use k8s_dencer.Executor.Targets.{targets, Targets, targets-Allows, Adds, perform_step-Adds}

-- No node twice, and no more nodes than this.
abbrev pub Fits : ℕ → List String → Type 0
Fits most nodes = Distinct nodes × (length nodes ≤ most)

find_holds :
    (test : PlanStep → Bool) (steps : List PlanStep) (step : PlanStep)
    → find test steps ≡ some step
    → test step ≡ true
unfolding find
find_holds test [] step h = absurd cc
find_holds test (first ∷ steps) step h = elim (Bool-cases (test first)) [
  | inl e ↦
      let same : first ≡ step = (let h' = (rw e at h) in cc) in subst (λ s. test s ≡ true) same e
  | inr e ↦ find_holds test steps step (rw e at h)
]

not-contains-All :
    (nodes : List String) (node : String) → contains nodes node ≡ false → All (λ n. n ≢ node) nodes
unfolding contains
not-contains-All [] node h = tt
not-contains-All (first ∷ nodes) node h = elim (Bool-cases (first == node)) [
  | inl e ↦ absurd (let h' = (rw (e, contains) at h) in cc)
  | inr e ↦ (
    λ same. absurd (let e' = (string_eq.equals_iff first node).1 same in cc),
    not-contains-All nodes node (rw e at h),
  )
]

module _ (o : Outside) {fl : Float64} (x : Settings fl) (fuel : ℕ) (run : Run) where
  plan_one_step-IsNew :
      (snap : ClusterSnapshot) (skip : List String) (step : PlanStep)
      → plan_one_step o x fuel run snap skip ≡ some step
      → contains skip step.target_node ≡ false
  unfolding plan_one_step
  plan_one_step-IsNew snap skip step h =
      let new = find_holds (λ step. not (contains skip step.target_node)) _ step h in ground arith

  either :
      (P : List String → Type 0) (a b : List String) (c : Bool) → P a → P b → P (if c then a else b)
  either P a b true p q = p
  either P a b false p q = q

  abbrev Allowed : (S : List String → Type 0) → Allows (Targets S) run.dry_run
  Allowed S = targets-Allows S run.dry_run

  module _ (most : ℕ) (S : List String → Type 0)
      (fits : (ns : List String) → S ns → Fits most ns) where
    on_closed :
        (status : String) (answer : Bool) (cs : List Call)
        → IsFinal status
        → Targets S cs
        → Targets (Fits most) (closed status answer ∷ cs)
    on_closed status answer cs final h = fits (targets cs) h

  Fits-weaken : (less most : ℕ) (ns : List String) → less ≤ most → Fits less ns → Fits most ns
  Fits-weaken less most ns h f = let short = f.1 in (f.0, omega arith)

  -- The end of a round, from the call of `performStep`, given the rounds after it.
  performed-Fits :
      (most : ℕ) (drained : List String) (count : ℕ) (step : PlanStep) (snap : ClusterSnapshot)
      (rounds : ℕ → Action o Unit)
      → Fits most drained
      → Fits most (step.target_node ∷ drained)
      → ((count' : ℕ)
          → Leads o
              (Targets (λ ns. ns ≡ step.target_node ∷ drained))
              (Targets (Fits most))
              (rounds count'))
      → Leads o (Targets (λ ns. ns ≡ drained)) (Targets (Fits most)) (
          perform_step o x fuel run step count >>= λ done. elim done [
            | err e ↦ end_with o run e
            | ok count' ↦ elim run.dry_run [
              | true ↦ finish o run run_succeeded
              | false ↦ snapshot o >>= λ after. elim after [
                | none ↦ fail o run
                | some later ↦ elim (leb (occupied_nodes snap) (occupied_nodes later)) [
                  | true ↦ finish o run run_succeeded
                  | false ↦ rounds count'
                ]
              ]
            ]
          ])
  performed-Fits most drained count step snap rounds before after later =
      let target = step.target_node in
      let Q = Targets (Fits most) in
      let Failed : List String → Type 0 = λ ns. (ns ≡ drained) ⊎ (ns ≡ target ∷ drained) in
      let Done : List String → Type 0 =
        λ ns. ns ≡ (if run.dry_run then drained else target ∷ drained) in
      let New : List String → Type 0 = λ ns. ns ≡ target ∷ drained in
      let failed : (ns : List String) → Failed ns → Fits most ns = λ ns e. elim e [
        | inl same ↦ subst (Fits most) (sym same) before
        | inr more ↦ subst (Fits most) (sym more) after
      ] in
      let done : (ns : List String) → Done ns → Fits most ns = λ ns e.
        subst (Fits most) (sym e)
          (either (Fits most) drained (target ∷ drained) run.dry_run before after) in
      let added : (ns : List String) → New ns → Fits most ns =
        λ ns e. subst (Fits most) (sym e) after in
      Leads-after o (Targets (λ ns. ns ≡ drained)) Q (Adds run step drained)
        (perform_step o x fuel run step count) _ _
        (perform_step-Adds o x fuel run step count drained)
        (λ e.
          ends o (Targets Failed) x fuel run (Allowed Failed) Q (on_closed most Failed failed) e
            (λ _ cs h. failed (targets cs) h))
        (λ count'.
          Leads-split o (Targets Done) Q _ _ run.dry_run
            (λ _. succeeds o (Targets Done) x fuel run (Allowed Done) Q (on_closed most Done done))
            (λ real s p.
              unless_unread o (Targets New) x fuel run (Allowed New) Q (on_closed most New added) _
                (λ next.
                  Leads-if o (Targets New) Q _ _ (leb (occupied_nodes snap) (occupied_nodes next))
                    (succeeds o (Targets New) x fuel run (Allowed New) Q (on_closed most New added))
                    (later count'))
                s (p ∙ ap (λ d. if d then drained else target ∷ drained) real)))

  -- From a round on, with the nodes that were drained.
  converge_rounds-Fits :
      (env : Envelope) (left round : ℕ) (drained : List String) (count : ℕ)
      → Distinct drained
      → Leads o
          (Targets (λ ns. ns ≡ drained))
          (Targets (Fits (left + length drained)))
          (converge_rounds o x fuel run env left round drained count)
  unfolding converge_rounds
  converge_rounds-Fits env zero round drained count distinct =
      let same : (ns : List String) → ns ≡ drained → Fits (length drained) ns =
        λ ns e. subst (Fits (length drained)) (sym e) (distinct, omega arith) in
      λ s p. Fits-weaken (length drained) (zero + length drained) _ (omega arith) (
        succeeds o (Targets (λ ns. ns ≡ drained)) x fuel run (Allowed (λ ns. ns ≡ drained))
          (Targets (Fits (length drained))) (on_closed (length drained) (λ ns. ns ≡ drained) same) s
          p)
  converge_rounds-Fits env (suc left) round drained count distinct =
      let most = suc left + length drained in
      let S : List String → Type 0 = λ ns. ns ≡ drained in
      let same : (ns : List String) → S ns → Fits most ns =
        λ ns e. subst (Fits most) (sym e) (distinct, omega arith) in
      let Q = Targets (Fits most) in
      let closes = on_closed most S same in
      unless_stopped o (Targets S) x fuel run (Allowed S) Q closes _ (
        unless_unread o (Targets S) x fuel run (Allowed S) Q closes _ (λ snap.
          Leads-option o (Targets S) Q _ _ (plan_one_step o x fuel run snap drained)
            (λ _. succeeds o (Targets S) x fuel run (Allowed S) Q closes)
            (λ step found.
              let new =
                not-contains-All drained step.target_node
                  (plan_one_step-IsNew snap drained step found) in
              Leads-if o (Targets S) Q _ _ (exceeds_ceiling step.impact env.max_impact)
                (succeeds o (Targets S) x fuel run (Allowed S) Q closes)
                (λ s p.
                  let ev = record (step_entry step "Plan") { step = round } in
                  performed-Fits most drained count step snap
                    (λ count'.
                      converge_rounds o x fuel run env left (round + 1) (step.target_node ∷ drained)
                        count')
                    (distinct, omega arith) ((new, distinct), omega arith)
                    (λ count' s' q.
                      Fits-weaken (left + length (step.target_node ∷ drained)) most _ (omega arith)
                        (converge_rounds-Fits env left (round + 1) (step.target_node ∷ drained)
                          count' (new, distinct) s' q))
                    (event o run ev s).1
                    (event-Keeps o (Targets S) run.dry_run (Allowed S) run ev s p)))))

  rounds_of-le :
      (env : Envelope)
      → env.max_nodes < 2 ^ 64
      → consents env ≡ true
      → (rounds_of env ≤ env.max_nodes) × (rounds_of env ≤ max_converge_rounds)
  unfolding consents lt64
  rounds_of-le env small h = ground arith

  converge-Fits :
      (env : Envelope) (bound : ℕ)
      → run.envelope ≡ some env
      → (consents env ≡ true → rounds_of env ≤ bound)
      → Leads o (Targets (λ ns. ns ≡ [])) (Targets (Fits bound)) (converge o x fuel run)
  unfolding converge
  converge-Fits env bound e small =
      let S : List String → Type 0 = λ ns. ns ≡ [] in
      let none_ : (ns : List String) → S ns → Fits bound ns =
        λ ns same. subst (Fits bound) (sym same) (tt, omega arith) in
      let fails =
        fail-Leads o (Targets S) x fuel run (Allowed S) (Targets (Fits bound))
          (on_closed bound S none_) in
      Leads-option o (Targets S) (Targets (Fits bound)) _ _ run.envelope (λ _. fails)
        (λ env' e'.
          let same : env ≡ env' = cc in
          Leads-split o (Targets S) (Targets (Fits bound)) _ _ (consents env')
            (λ valid s p.
              let few : rounds_of env' ≤ bound =
                subst (λ v. consents v ≡ true → rounds_of v ≤ bound) same small valid in
              Fits-weaken (rounds_of env' + 0) bound _ (omega arith) (
                converge_rounds-Fits env' (rounds_of env') 1 [] 0 tt
                  (event o run (run_entry "Claim") s).1
                  (event-Keeps o (Targets S) run.dry_run (Allowed S) run (run_entry "Claim") s p)))
            (λ _. fails))

  -- A converge run whose envelope's number of nodes is a 64-bit integer asks to cordon no node twice, and no
  -- more nodes than the envelope says and than 50, whatever it plans and whatever the outside answers.
  pub converge-IsBounded :
      (env : Envelope) (w : o.World)
      → env.max_nodes < 2 ^ 64
      → run.envelope ≡ some env
      → Distinct (targets (converge o x fuel run record { world = w; calls = [] }).1.calls)
        × (length (targets (converge o x fuel run record { world = w; calls = [] }).1.calls)
            ≤ env.max_nodes)
        × (length (targets (converge o x fuel run record { world = w; calls = [] }).1.calls) ≤ 50)
  converge-IsBounded env w small e =
      let start : Session o = record { world = w; calls = [] } in
      let asked_for =
        converge-Fits env env.max_nodes e (λ v. (rounds_of-le env small v).0) start refl in
      let bound =
        converge-Fits env max_converge_rounds e (λ v. (rounds_of-le env small v).1) start refl in
      (asked_for.0, asked_for.1, bound.1)
