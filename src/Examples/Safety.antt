-- ===== src/Examples/Safety.antt =====
-- The guard on the example cluster.
use k8s_dencer.Base.{
  All, lt64, le64, ◌≡◌, refl, ◌↔◌, true, false, some, none, [], ◌∷◌, string_eq, arith, thousandths,
}
use k8s_dencer.Model.Cluster.{Node, ClusterSnapshot, node_by_name}
use k8s_dencer.Model.Plan.{PlanStep, impact_red}
use k8s_dencer.Safety.{
  too_many_drained, Guard, check_red, check_node_floor, check_step, check_step_feasible,
  check_eviction,
}
use k8s_dencer.Safety.Feasible.{Relocation, check_step_feasible_sound}
use k8s_dencer.Safety.Refusal.{IsTrue, check_step-IsTrue}
use k8s_dencer.Safety.Clear.{IsClear, check_step-IsClear}
use k8s_dencer.Safety.Eviction.{Permits, asking, check_eviction_iff, check_eviction-asking}
use k8s_dencer.Examples.Fleet.{
  distinct, evaluator, fleet, web_1, budget_of, web_selector, empty_selector, is_sane, on_a,
}

abbrev pub step_a : PlanStep
step_a = record {
  sequence_number = 1;
  target_node = "a";
  moves = [];
  impact = impact_red;
  rationale = "";
  reasons = [];
}

abbrev pub guard : Guard
guard = record {
  limits = record { max_nodes_per_run = 5; min_ready_nodes = 2; allow_red = false };
  windows = some (λ node. (true, "open"));
}

feasible : check_step_feasible thousandths step_a fleet ≡ none
unfolding check_step_feasible evaluator
feasible = refl

check_step_feasible_sound_example : Relocation thousandths fleet "a"
unfolding evaluator
check_step_feasible_sound_example =
    check_step_feasible_sound thousandths fleet is_sane step_a on_a refl feasible

consent : check_step thousandths guard step_a fleet 2 ≡ none
unfolding check_step evaluator node_by_name check_red check_node_floor check_step_feasible
consent = refl

check_step-IsClear_example : (node : Node) × IsClear thousandths guard step_a fleet 2 node
check_step-IsClear_example =
    check_step-IsClear thousandths guard step_a fleet 2
      (record { max = omega arith; min = omega arith; run = omega arith; fleet = omega arith })
      distinct consent

check_eviction_iff_example : (check_eviction web_1 fleet ≡ none) ↔ All (Permits web_1) fleet.pdbs
check_eviction_iff_example = check_eviction_iff web_1 fleet (omega arith, tt)

-- The second budget allows no disruption, and its selector is empty.
abbrev two_budgets : ClusterSnapshot
two_budgets = record fleet { pdbs = budget_of web_selector 1 ∷ budget_of empty_selector 0 ∷ [] }

check_eviction-asking_example :
    check_eviction web_1 two_budgets
    ≡ check_eviction web_1 (record two_budgets { pdbs = asking two_budgets.pdbs })
check_eviction-asking_example = check_eviction-asking web_1 two_budgets

refusal : check_step thousandths guard step_a fleet 5 ≡ some (too_many_drained 5)
unfolding check_step lt64 le64
refusal = refl

check_step-IsTrue_example : IsTrue thousandths guard step_a fleet 5 (too_many_drained 5)
check_step-IsTrue_example =
    check_step-IsTrue thousandths guard step_a fleet 5 (too_many_drained 5) refusal
