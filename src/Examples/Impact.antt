-- ===== src/Examples/Impact.antt =====
-- A step of the example cluster that moves one pod of a StatefulSet.
use k8s_dencer.Base.{◌≡◌, ◌||◌, ◌==◌, string_eq, [], ◌∷◌, any, length, le64, thousandths}
use k8s_dencer.Model.Cluster.{ClusterSnapshot}
use k8s_dencer.Model.Plan.{impact_red, PlanStep}
use k8s_dencer.Constraints.Analysis.{analyze}
use k8s_dencer.Planner.{move_of}
use k8s_dencer.Impact.Classifier.{default_thresholds, classify_step}
use k8s_dencer.Impact.Disruption.{is_disruptive, classify_step-IsRed_iff}
use k8s_dencer.Examples.Fleet.{fleet, pod_of}
use k8s_dencer.Examples.Safety.{step_a}

abbrev with_database : ClusterSnapshot
with_database = record fleet { pods = pod_of "db-0" "StatefulSet" "a" 200 ∷ fleet.pods }

abbrev step_db : PlanStep
step_db = record step_a {
  moves = move_of thousandths (pod_of "db-0" "StatefulSet" "a" 200) "a" "c" ∷ [];
}

classify_step-IsRed_iff_example :
    ((classify_step default_thresholds with_database (analyze thousandths with_database) step_db).0
      == impact_red)
    ≡ (any (is_disruptive with_database) step_db.moves || le64 15 (length step_db.moves))
classify_step-IsRed_iff_example =
    classify_step-IsRed_iff default_thresholds with_database (analyze thousandths with_database)
      step_db
