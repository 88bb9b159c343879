-- ===== src/Constraints/Summary.antt =====
-- `Summarize` of constraints.go: the counts over an analysis. A count is at most the number of pods or of
-- constraints, so it is kept without a width.
use k8s_dencer.Base.{
  ℕ, ◌+◌, ◌≡◌, ◌∙◌, refl, String, Bool, true, false, not, ◌&&◌, List, [], ◌∷◌, if◌then◌else◌, arith,
  length,
}
use k8s_dencer.Constraints.Analyzer.{
  kind_pdb, kind_pod_anti_affinity, kind_topology_spread, kind_controller_pinned, Constraint,
  PodConstraints,
}
use k8s_dencer.Constraints.Analysis.{Analysis}

pub record Summary : Type 0 where
  pub pods : ℕ
  pub movable : ℕ
  pub blocked : ℕ
  pub stuck : ℕ
  pub pdb_blocked : ℕ
  pub anti_affinity : ℕ
  pub spread_bound : ℕ
  pub controller_pin : ℕ

abbrev pub no_pods : Summary
no_pods = record {
  pods = 0;
  movable = 0;
  blocked = 0;
  stuck = 0;
  pdb_blocked = 0;
  anti_affinity = 0;
  spread_bound = 0;
  controller_pin = 0;
}

-- The `switch` over one constraint's kind.
unfoldable pub count_constraint : Summary → Constraint → Summary
count_constraint s c = elim c.kind [
  | kind_pdb ↦ if c.blocking then record s { pdb_blocked = s.pdb_blocked + 1 } else s
  | kind_pod_anti_affinity ↦ record s { anti_affinity = s.anti_affinity + 1 }
  | kind_topology_spread ↦ if c.hard then record s { spread_bound = s.spread_bound + 1 } else s
  | kind_controller_pinned ↦ record s { controller_pin = s.controller_pin + 1 }
  | _ ↦ s
]

unfoldable pub count_constraints : Summary → List Constraint → Summary
unfolding count_constraint
count_constraints s [] = s
count_constraints s (c ∷ cs) = count_constraints (count_constraint s c) cs

abbrev is_nil {ℓ} : {A : Type ℓ} → List A → Bool
is_nil [] = true
is_nil (x ∷ xs) = false

abbrev one_if_nil {ℓ} : {A : Type ℓ} → List A → ℕ
one_if_nil [] = 1
one_if_nil (x ∷ xs) = 0

-- The verdict on one pod.
unfoldable pub count_verdict : Summary → PodConstraints → Summary
count_verdict s pc =
    if pc.movable
    then record s {
      pods = s.pods + 1;
      movable = s.movable + 1;
      stuck = s.stuck + one_if_nil pc.candidates;
    }
    else record s { pods = s.pods + 1; blocked = s.blocked + 1 }

unfoldable pub summarize_from : Summary → List PodConstraints → Summary
unfolding count_verdict count_constraints
summarize_from s [] = s
summarize_from s (pc ∷ pods) =
    summarize_from (count_constraints (count_verdict s pc) pc.constraints) pods

unfoldable pub summarize : Analysis → Summary
unfolding summarize_from
summarize a = summarize_from no_pods a.pods

-- How many elements pass a test.
abbrev pub how_many {ℓ} : {A : Type ℓ} → (A → Bool) → List A → ℕ
how_many test [] = 0
how_many test (x ∷ xs) = (if test x then 1 else 0) + how_many test xs

-- How many constraints of the pods pass a test.
abbrev pub how_many_in : (Constraint → Bool) → List PodConstraints → ℕ
how_many_in test [] = 0
how_many_in test (pc ∷ pods) = how_many test pc.constraints + how_many_in test pods

abbrev pub is_pdb_block : Constraint → Bool
is_pdb_block c = elim c.kind [ kind_pdb ↦ c.blocking | _ ↦ false ]

abbrev pub is_anti_affinity : Constraint → Bool
is_anti_affinity c = elim c.kind [ kind_pod_anti_affinity ↦ true | _ ↦ false ]

abbrev pub is_spread_bound : Constraint → Bool
is_spread_bound c = elim c.kind [ kind_topology_spread ↦ c.hard | _ ↦ false ]

abbrev pub is_controller_pin : Constraint → Bool
is_controller_pin c = elim c.kind [ kind_controller_pinned ↦ true | _ ↦ false ]

abbrev pub is_stuck : PodConstraints → Bool
is_stuck pc = pc.movable && is_nil pc.candidates

-- `s'` has on top of `s` what the pods have.
pub record Adds (s s' : Summary) (pods : List PodConstraints) : Type 0 where
  pub all_pods : s'.pods ≡ s.pods + length pods
  pub movable_pods : s'.movable ≡ s.movable + how_many (λ pc. pc.movable) pods
  pub blocked_pods : s'.blocked ≡ s.blocked + how_many (λ pc. not pc.movable) pods
  pub stuck_pods : s'.stuck ≡ s.stuck + how_many is_stuck pods
  pub budgets : s'.pdb_blocked ≡ s.pdb_blocked + how_many_in is_pdb_block pods
  pub anti : s'.anti_affinity ≡ s.anti_affinity + how_many_in is_anti_affinity pods
  pub spreads : s'.spread_bound ≡ s.spread_bound + how_many_in is_spread_bound pods
  pub pins : s'.controller_pin ≡ s.controller_pin + how_many_in is_controller_pin pods

-- What the loop over one pod's constraints leaves and adds.
record Tallies (s s' : Summary) (cs : List Constraint) : Type 0 where
  pods : s'.pods ≡ s.pods
  movable : s'.movable ≡ s.movable
  blocked : s'.blocked ≡ s.blocked
  stuck : s'.stuck ≡ s.stuck
  budgets : s'.pdb_blocked ≡ s.pdb_blocked + how_many is_pdb_block cs
  anti : s'.anti_affinity ≡ s.anti_affinity + how_many is_anti_affinity cs
  spreads : s'.spread_bound ≡ s.spread_bound + how_many is_spread_bound cs
  pins : s'.controller_pin ≡ s.controller_pin + how_many is_controller_pin cs

count_constraint-Tallies :
    (s : Summary) (c : Constraint) → Tallies s (count_constraint s c) (c ∷ [])
unfolding count_constraint
count_constraint-Tallies s c = record {
  pods = ground arith;
  movable = ground arith;
  blocked = ground arith;
  stuck = ground arith;
  budgets = ground arith;
  anti = ground arith;
  spreads = ground arith;
  pins = ground arith;
}

count_constraints-Tallies :
    (s : Summary) (cs : List Constraint) → Tallies s (count_constraints s cs) cs
unfolding count_constraints
count_constraints-Tallies s [] = record {
  pods = refl;
  movable = refl;
  blocked = refl;
  stuck = refl;
  budgets = omega arith;
  anti = omega arith;
  spreads = omega arith;
  pins = omega arith;
}
count_constraints-Tallies s (c ∷ cs) =
    let first = count_constraint-Tallies s c in
    let rest = count_constraints-Tallies (count_constraint s c) cs in
    record {
      pods = rest.pods ∙ first.pods;
      movable = rest.movable ∙ first.movable;
      blocked = rest.blocked ∙ first.blocked;
      stuck = rest.stuck ∙ first.stuck;
      budgets = omega (arith, rest.budgets, first.budgets);
      anti = omega (arith, rest.anti, first.anti);
      spreads = omega (arith, rest.spreads, first.spreads);
      pins = omega (arith, rest.pins, first.pins);
    }

-- One pod's verdict.
record Judges (s s' : Summary) (pc : PodConstraints) : Type 0 where
  pods : s'.pods ≡ s.pods + 1
  movable : s'.movable ≡ s.movable + (if pc.movable then 1 else 0)
  blocked : s'.blocked ≡ s.blocked + (if not pc.movable then 1 else 0)
  stuck : s'.stuck ≡ s.stuck + (if is_stuck pc then 1 else 0)
  budgets : s'.pdb_blocked ≡ s.pdb_blocked
  anti : s'.anti_affinity ≡ s.anti_affinity
  spreads : s'.spread_bound ≡ s.spread_bound
  pins : s'.controller_pin ≡ s.controller_pin

one_if_nil-is_nil : (xs : List String) → one_if_nil xs ≡ (if is_nil xs then 1 else 0)
one_if_nil-is_nil [] = refl
one_if_nil-is_nil (x ∷ xs) = refl

count_verdict-Judges : (s : Summary) (pc : PodConstraints) → Judges s (count_verdict s pc) pc
unfolding count_verdict
count_verdict-Judges s pc =
    let none_left = one_if_nil-is_nil pc.candidates in
    record {
      pods = ground arith;
      movable = ground arith;
      blocked = ground arith;
      stuck = ground (arith, none_left);
      budgets = ground arith;
      anti = ground arith;
      spreads = ground arith;
      pins = ground arith;
    }

summarize_from-Adds :
    (s : Summary) (pods : List PodConstraints) → Adds s (summarize_from s pods) pods
unfolding summarize_from
summarize_from-Adds s [] = record {
  all_pods = omega arith;
  movable_pods = omega arith;
  blocked_pods = omega arith;
  stuck_pods = omega arith;
  budgets = omega arith;
  anti = omega arith;
  spreads = omega arith;
  pins = omega arith;
}
summarize_from-Adds s (pc ∷ pods) =
    let own = count_verdict-Judges s pc in
    let its = count_constraints-Tallies (count_verdict s pc) pc.constraints in
    let rest = summarize_from-Adds (count_constraints (count_verdict s pc) pc.constraints) pods in
    record {
      all_pods = omega (arith, rest.all_pods, its.pods, own.pods);
      movable_pods = omega (arith, rest.movable_pods, its.movable, own.movable);
      blocked_pods = omega (arith, rest.blocked_pods, its.blocked, own.blocked);
      stuck_pods = omega (arith, rest.stuck_pods, its.stuck, own.stuck);
      budgets = omega (arith, rest.budgets, its.budgets, own.budgets);
      anti = omega (arith, rest.anti, its.anti, own.anti);
      spreads = omega (arith, rest.spreads, its.spreads, own.spreads);
      pins = omega (arith, rest.pins, its.pins, own.pins);
    }

-- Every figure of the summary is the number of what it is named for: of the pods of the analysis, of the
-- movable ones, of the others, of the movable ones without a candidate node, and of the blocking budgets, the
-- anti-affinity terms, the hard spread constraints and the controller pins among all their constraints.
pub summarize-Adds : (a : Analysis) → Adds no_pods (summarize a) a.pods
unfolding summarize
summarize-Adds a = summarize_from-Adds no_pods a.pods
