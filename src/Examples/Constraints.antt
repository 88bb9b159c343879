-- ===== src/Examples/Constraints.antt =====
-- The placement evaluator on the example cluster.
use k8s_dencer.Base.{
  String, ◌≡◌, refl, some, none, List, [], ◌∷◌, lookup, string_eq, le64, add64, max64, sub64, lt32,
  to_int32, thousandths,
}
use k8s_dencer.Model.Labels.{matches}
use k8s_dencer.Model.Resources
use k8s_dencer.Constraints.State.{Placement}
use k8s_dencer.Constraints.SpreadIndex.{selector_fingerprint, key_of, spread_counts}
use k8s_dencer.Constraints.Placement.{capacity_basis, place, new_placement, new_placement_ceiling}
use k8s_dencer.Constraints.CanPlace.{can_place, static_checks, fits_topology_spread}
use k8s_dencer.Constraints.Predicates.{
  fits_taints, fits_node_selector, fits_node_affinity, fits_resources, fits_pod_affinity,
  fits_pod_anti_affinity,
}
use k8s_dencer.Constraints.Coherence.Count.{wrapped}
use k8s_dencer.Constraints.Coherence.Index.{true_count}
use k8s_dencer.Constraints.Coherence.Runs.{Act, place_pod, remove_pod, ask, perform_all}
use k8s_dencer.Constraints.Coherence.Apart.{
  one_label, OneLabel, OneLabel-ToldApart, fingerprint_inj,
}
use k8s_dencer.Constraints.Coherence.Asked.{asked_exact}
use k8s_dencer.Model.Cluster.{Pod}
use k8s_dencer.Constraints.Capacity.Fit.{IsBudgeted}
use k8s_dencer.Constraints.Capacity.Fresh.{IsSound, new_placement_ceiling-IsSound}
use k8s_dencer.Safety.Rehome.{accepted-IsBudgeted}
use k8s_dencer.Examples.Fleet.{
  distinct, small, bases, on_a, evaluator, fleet-IsBudgeted, fleet, by_zone, web_1, web_2,
  web_selector,
}

-- A pod that asks about another workload of the same domains.
abbrev db_1 : Pod
db_1 = record web_2 {
  name = "db-1";
  topology_spread = record by_zone { label_selector = one_label "app" "db" } ∷ [];
}

abbrev acts : List Act
acts = ask db_1 "b" ∷ ask web_1 "c" ∷ remove_pod web_1 ∷ place_pod web_1 "c" ∷ ask web_2 "a" ∷ []

ran : Placement
unfolding perform_all new_placement_ceiling can_place static_checks fits_topology_spread fits_taints
    fits_node_selector fits_node_affinity fits_resources fits_pod_affinity fits_pod_anti_affinity
ran = perform_all (new_placement_ceiling thousandths fleet (thousandths.of_int64 0)) acts

-- Two pods in the second zone and one in the first, after the move.
ran_counts : (spread_counts ran "shop" by_zone).1 ≡ ("z1", 1) ∷ ("z2", 2) ∷ []
unfolding ran spread_counts Resources.fits le64 add64 max64 sub64 lt32 to_int32 matches
    selector_fingerprint
ran_counts = refl

abbrev the_value : String
the_value = "web"

asked_exact_example :
    lookup "z2" (spread_counts ran "shop" by_zone).1
    ≡ wrapped (true_count ran.nodes ran.node_order (key_of "shop" by_zone) (some web_selector) "z2")
unfolding ran
asked_exact_example =
    asked_exact (OneLabel "app") thousandths fleet (thousandths.of_int64 0) acts "shop" by_zone
      distinct (OneLabel-ToldApart "app")
      ((("db", refl), tt), ((("web", refl), tt), (tt, (tt, ((("web", refl), tt), tt)))))
      ("web", refl) "z2"

fingerprint_inj_example : the_value ≡ "web"
fingerprint_inj_example = fingerprint_inj "app" the_value "web" refl

new_placement_ceiling-IsSound_example : IsSound thousandths (thousandths.of_int64 0) on_a
unfolding new_placement_ceiling capacity_basis evaluator
new_placement_ceiling-IsSound_example =
    new_placement_ceiling-IsSound thousandths (thousandths.of_int64 0) fleet bases small "a" on_a
      refl

accepted : (can_place (new_placement thousandths fleet) web_1 "c").1 ≡ none
unfolding evaluator
accepted = refl

accepted-IsBudgeted_example :
    IsBudgeted
      (λ n. n.allocatable)
      (place (can_place (new_placement thousandths fleet) web_1 "c").0 web_1 "c")
accepted-IsBudgeted_example =
    accepted-IsBudgeted (λ n. n.allocatable) (new_placement thousandths fleet) web_1 "c" small.0
      fleet-IsBudgeted accepted
