-- ===== src/Examples/Planner.antt =====
-- The planner on the example cluster.
use k8s_dencer.Base.{
  All, ◌==◌, string_eq, false, ◌≤◌, ◌≡◌, refl, some, none, [], ◌∷◌, map, keep, length, arith,
  thousandths,
}
use mathlib.Core.List.{Perm}
use k8s_dencer.Constraints.State.{Placement}
use k8s_dencer.Model.Cluster.{Pod, ClusterSnapshot, is_movable}
use k8s_dencer.Model.Plan.{Move}
use k8s_dencer.Constraints.Placement.{new_placement_ceiling, occupants_of}
use k8s_dencer.Planner.{Verdicts, Options, namespace_excluded, first_fit, try_drain, plan}
use k8s_dencer.Planner.Evacuate.{MayGo, moved, named, try_drain-IsComplete}
use k8s_dencer.Planner.Choice.{Suits, first_fit-Suits}
use k8s_dencer.Planner.Forward.{IsForward, plan-IsForward}
use k8s_dencer.Planner.Bounds.{IsNumbered, plan-IsNumbered, plan-steps-le}
use k8s_dencer.Examples.Fleet.{evaluator, fleet, web_1, node_of}

-- Nothing is known against any pod.
analysis : Verdicts
analysis key = none

options : Options thousandths
options = record {
  max_steps = 1;
  exclude_node_labels = [];
  exclude_namespaces = "kube-system" ∷ [];
  min_node_age = 0;
  now = 0;
  pack_ceiling = thousandths.of_int64 0;
}

-- A pod without constraints on the first of two nodes.
pair : ClusterSnapshot
pair = record fleet {
  nodes = node_of "a" "z1" ∷ node_of "b" "z1" ∷ [];
  pods = record web_1 { topology_spread = [] } ∷ [];
}

work : Placement
work = new_placement_ceiling thousandths pair (thousandths.of_int64 0)

a_to_b : Move
a_to_b = record {
  namespace = "shop";
  pod = "web-1";
  from_node = "a";
  to_node = "b";
  cpu_milli = 500;
  memory_bytes = 500000000;
}

drained : try_drain thousandths work (node_of "a" "z1") [] analysis options ≡ some (a_to_b ∷ [])
unfolding try_drain work pair analysis options a_to_b evaluator
drained = refl

try_drain-IsComplete_example :
    Perm (map moved (a_to_b ∷ [])) (map named (keep is_movable (occupants_of work "a")))
    × All (MayGo (namespace_excluded thousandths) options analysis) (occupants_of work "a")
try_drain-IsComplete_example =
    try_drain-IsComplete thousandths work (node_of "a" "z1") [] analysis options (a_to_b ∷ [])
      drained

plan-IsForward_example : IsForward [] (plan thousandths fleet analysis options).steps
plan-IsForward_example = plan-IsForward thousandths fleet analysis options

plan-IsNumbered_example : IsNumbered 1 (plan thousandths fleet analysis options).steps
plan-IsNumbered_example = plan-IsNumbered thousandths fleet analysis options

plan-steps-le_example : length (plan thousandths fleet analysis options).steps ≤ 1
unfolding options
plan-steps-le_example = plan-steps-le thousandths fleet analysis options (omega arith) (omega arith)

loose : Pod
loose = record web_1 { topology_spread = [] }

chosen : ((first_fit thousandths work loose "a" []).1 == "") ≡ false
unfolding first_fit work pair loose evaluator
chosen = refl

first_fit-Suits_example : Suits "a" [] work loose (first_fit thousandths work loose "a" []).1
first_fit-Suits_example = first_fit-Suits thousandths "a" [] loose work chosen
