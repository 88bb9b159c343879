-- ===== src/Safety/Feasible.antt =====
-- `checkStepFeasible` of safety.go: what its consent means.
use k8s_dencer.Base.{
  All, All-map, All-of_each, String, ◌≡◌, refl, sym, none, some, [], string_eq, lookup, Float64,
}
use mathlib.Core.Path.{subst}
use k8s_dencer.Model.Cluster.{ClusterSnapshot}
use k8s_dencer.Model.Plan.{PlanStep}
use k8s_dencer.Constraints.State.{NodeState, Placement}
use k8s_dencer.Constraints.Placement.{
  capacity_basis, new_placement, new_placement_ceiling, occupants_of,
}
use k8s_dencer.Constraints.Capacity.Account.{IsSmall, IsBasis, IsAccounted, IsWithin}
use k8s_dencer.Constraints.Capacity.Fresh.{
  IsSound, new_placement_ceiling-IsSound, capacity_basis-zero,
}
use k8s_dencer.Constraints.Capacity.Housed.{new_placement_ceiling-Housed}
use k8s_dencer.Constraints.Capacity.Fit.{IsBudgeted}
use k8s_dencer.Safety.Checks.{remove_each, rehome_each, check_step_feasible}
use k8s_dencer.Safety.Rehome.{Rehomed, rehome_each-Rehomed, Rehomed-IsBudgeted}
use k8s_dencer.Safety.Vacate.{OnTarget, remove_each-Holds, remove_each-IsBudgeted}

-- Amounts are in range, and no node of the snapshot is overcommitted.
pub record IsSane (fl : Float64) (live : ClusterSnapshot) : Type 0 where
  pub sizes : All (λ n. IsBasis n.allocatable) live.nodes
  pub small : All IsSmall live.pods
  pub within :
      (n : String) (ns : NodeState)
      → lookup n (new_placement fl live).nodes ≡ some ns
      → IsWithin ns.node.allocatable ns.occupants

-- A relocation of the target's pods: from the placement without them to an end where every node still
-- holds no more than it can.
pub record Relocation (fl : Float64) (live : ClusterSnapshot) (target : String) : Type 0 where
  pub end : Placement
  pub vacated :
      occupants_of
        (remove_each (new_placement fl live) (occupants_of (new_placement fl live) target))
        target
      ≡ []
  pub rehomed :
      Rehomed target
        (remove_each (new_placement fl live) (occupants_of (new_placement fl live) target))
        (occupants_of (new_placement fl live) target)
        end
  pub budgeted : IsBudgeted (λ n. n.allocatable) end

module _ (fl : Float64) (live : ClusterSnapshot) (sane : IsSane fl live) where
  pub fresh-IsBudgeted : IsBudgeted (λ n. n.allocatable) (new_placement fl live)
  unfolding new_placement
  fresh-IsBudgeted = record {
    sized = λ n ns e. subst IsBasis (capacity_basis-zero fl ns.node) (sound n ns e).sized;
    accounted = λ n ns e.
        subst (λ b. IsAccounted b ns) (capacity_basis-zero fl ns.node) (sound n ns e).accounted;
    within = sane.within;
  }
    where
      sound :
          (n : String) (ns : NodeState)
          → lookup n (new_placement_ceiling fl live (fl.of_int64 0)).nodes ≡ some ns
          → IsSound fl (fl.of_int64 0) ns
      sound =
          new_placement_ceiling-IsSound fl (fl.of_int64 0) live
            (All-map (λ n. IsBasis n.allocatable)
              (λ n. IsBasis (capacity_basis fl (fl.of_int64 0) n)) live.nodes
              (λ n. subst IsBasis (sym (capacity_basis-zero fl n))) sane.sizes)
            sane.small

  -- The target's occupants stand on it, and their amounts are in range.
  module _ (target : String) (ns : NodeState)
      (e : lookup target (new_placement fl live).nodes ≡ some ns) where
    occupants_lem : occupants_of (new_placement fl live) target ≡ ns.occupants
    unfolding occupants_of
    occupants_lem = rw (e, occupants_of)

    on_target : All (OnTarget target) ns.occupants
    unfolding new_placement
    on_target =
        new_placement_ceiling-Housed (λ n pod. pod.node_name ≡ n) fl (fl.of_int64 0) live
          (All-of_each (λ pod. pod.node_name ≡ pod.node_name) live.pods (λ pod. refl)) target ns e

    IsSmall-occupants : All IsSmall ns.occupants
    unfolding new_placement
    IsSmall-occupants =
        new_placement_ceiling-Housed (λ n pod. IsSmall pod) fl (fl.of_int64 0) live sane.small
          target ns e

  -- If the guard finds a step on an existing node feasible, in a cluster whose amounts are in range and of which
  -- no node is overcommitted, then
  -- removing the node's pods leaves it empty, and every movable one of them can be placed, one after
  -- another, on another node that accepts it at that time (`CanPlace`), such that at the end no node
  -- holds more requests than its allocatable capacity.
  pub check_step_feasible_sound :
      (step : PlanStep) (ns : NodeState)
      → lookup step.target_node (new_placement fl live).nodes ≡ some ns
      → check_step_feasible fl step live ≡ none
      → Relocation fl live step.target_node
  unfolding check_step_feasible occupants_of
  check_step_feasible_sound step ns e h =
      let p = new_placement fl live in
      let target = step.target_node in
      let os = occupants_of p target in
      let own : os ≡ ns.occupants = occupants_lem target ns e in
      let (ns', e', none_left) =
        remove_each-Holds target p os (rw own (on_target target ns e)) (ns, e, sym own) in
      let rehomed = rehome_each-Rehomed (remove_each p os) os target h in
      record {
        end = (rehome_each (remove_each p os) os target).0;
        vacated = rw (e', occupants_of) none_left;
        rehomed = rehomed;
        budgeted = Rehomed-IsBudgeted rehomed (rw own (IsSmall-occupants target ns e)) (
            remove_each-IsBudgeted target (λ n. n.allocatable) p os (rw own (on_target target ns e))
              (rw own (IsSmall-occupants target ns e)) (ns, e, sym own) fresh-IsBudgeted);
      }
