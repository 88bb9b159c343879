-- ===== src/Examples/Analysis.antt =====
-- The analyzer on the example cluster, and the figures of a plan.
use k8s_dencer.Base.{
  String, lookup, string_eq, All, length, ◌≡◌, refl, ◌↔◌, true, none, List, [], ◌∷◌, thousandths,
}
use k8s_dencer.Model.Cluster.{is_movable}
use k8s_dencer.Model.Plan.{PlanStep, impact_green, impact_red}
use k8s_dencer.Model.Figures.{sum_of, count_of, rated, count_by_rating, count_by_rating-length}
use k8s_dencer.Constraints.Placement.{new_placement}
use k8s_dencer.Constraints.CanPlace.{candidate_nodes}
use k8s_dencer.Constraints.Analyzer.{analyze_pod}
use k8s_dencer.Constraints.Analysis.{analyze, for_node, node_drainable}
use k8s_dencer.Constraints.Summary.{Adds, no_pods, summarize, summarize-Adds}
use k8s_dencer.Constraints.Drainable.{Leaves, node_drainable_iff, Accepts, candidate_nodes-Accepts}
use k8s_dencer.Safety.{check_eviction}
use k8s_dencer.Safety.Verdict.{selector_admits, affinity_admits, movable_iff}
use k8s_dencer.Examples.Fleet.{evaluator, fleet, web_1}

can_go : (candidate_nodes (new_placement thousandths fleet) web_1).1 ≡ "b" ∷ "c" ∷ []
unfolding candidate_nodes evaluator
can_go = refl

candidate_nodes-Accepts_example :
    All
      (Accepts (new_placement thousandths fleet) web_1)
      (candidate_nodes (new_placement thousandths fleet) web_1).1
candidate_nodes-Accepts_example = candidate_nodes-Accepts (new_placement thousandths fleet) web_1

movable_iff_example :
    ((analyze_pod (new_placement thousandths fleet) fleet web_1).1.movable ≡ true) ↔ (
      (is_movable web_1 ≡ true)
      × (check_eviction web_1 fleet ≡ none)
      × (selector_admits web_1 fleet.nodes ≡ true)
      × (affinity_admits web_1 fleet.nodes ≡ true))
movable_iff_example = movable_iff (new_placement thousandths fleet) fleet web_1

node_drainable_iff_example :
    ((node_drainable (analyze thousandths fleet) "a").0 ≡ true)
    ↔ All Leaves (for_node (analyze thousandths fleet) "a")
node_drainable_iff_example = node_drainable_iff (analyze thousandths fleet) "a"

two_steps : List PlanStep
two_steps =
    record {
      sequence_number = 1;
      target_node = "a";
      moves = [];
      impact = impact_green;
      rationale = "";
      reasons = [];
    }
    ∷ record {
      sequence_number = 2;
      target_node = "b";
      moves = [];
      impact = impact_red;
      rationale = "";
      reasons = [];
    }
    ∷ []

count_by_rating-length_example :
    ((rating : String)
      → count_of (lookup rating (count_by_rating two_steps)) ≡ length (rated rating two_steps))
    × (sum_of (count_by_rating two_steps) ≡ 2)
unfolding two_steps
count_by_rating-length_example = count_by_rating-length two_steps

summarize-Adds_example :
    Adds no_pods (summarize (analyze thousandths fleet)) (analyze thousandths fleet).pods
summarize-Adds_example = summarize-Adds (analyze thousandths fleet)
