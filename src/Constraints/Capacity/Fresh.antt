-- ===== src/Constraints/Capacity/Fresh.antt =====
-- A placement as `NewPlacementCeiling` of placement.go builds it: what is free on each node.
use k8s_dencer.Base.{
  All, String, ◌≡◌, inl, inr, List, [], ◌∷◌, arith, some, Bool-cases, Option-cases, ◌==◌, string_eq,
  lookup, insert-all, Float64,
}
use k8s_dencer.Model.Resources.{Resources}
use k8s_dencer.Model.Cluster.{Node, Pod, ClusterSnapshot}
use k8s_dencer.Constraints.State.{NodeState}
use k8s_dencer.Constraints.Placement.{
  admit, admit_all, capacity_basis, add_nodes, new_placement_ceiling,
}
use k8s_dencer.Constraints.Capacity.Account.{IsSmall, IsBasis, IsAccounted, admit-IsAccounted}

module _ (fl : Float64) (ceiling : fl.F) where
  basis : Node → Resources
  basis = capacity_basis fl ceiling

  -- Sized and accounted for.
  pub record IsSound (ns : NodeState) : Type 0 where
    pub sized : IsBasis (capacity_basis fl ceiling ns.node)
    pub accounted : IsAccounted (capacity_basis fl ceiling ns.node) ns

  abbrev AllSound : List (String × NodeState) → Type 0
  AllSound nodes = (n : String) (ns : NodeState) → lookup n nodes ≡ some ns → IsSound ns

  AllSound-add_nodes :
      (ns : List Node) (nodes : List (String × NodeState))
      → All (λ n. IsBasis (capacity_basis fl ceiling n)) ns
      → AllSound nodes
      → AllSound (add_nodes fl ceiling ns nodes)
  unfolding add_nodes
  AllSound-add_nodes [] nodes sizes all = all
  AllSound-add_nodes (n ∷ ns) nodes sizes all = AllSound-add_nodes ns _ sizes.1 (
      insert-all (λ _ x. IsSound x) n.name _ nodes
        (record {
          sized = sizes.0;
          accounted = record { cpu = omega arith; memory = omega arith; pods = omega arith };
        })
        all)

  AllSound-admit_all :
      (pods : List Pod) (nodes : List (String × NodeState))
      → All IsSmall pods
      → AllSound nodes
      → AllSound (admit_all pods nodes)
  unfolding admit_all
  AllSound-admit_all [] nodes small all = all
  AllSound-admit_all (pod ∷ pods) nodes small all = elim (Bool-cases (pod.node_name == "")) [
    | inl e ↦ rw e (AllSound-admit_all pods nodes small.1 all)
    | inr e ↦ elim (Option-cases (lookup pod.node_name nodes)) [
      | inl e' ↦ rw (e, e') (AllSound-admit_all pods nodes small.1 all)
      | inr (ns, e') ↦
          rw (e, e')
            (AllSound-admit_all pods _ small.1 (
              insert-all (λ _ x. IsSound x) pod.node_name (admit ns pod) nodes
                (admit-IsSound ns pod small.0 (all pod.node_name ns e')) all))
    ]
  ]
    where
      admit-IsSound :
          (ns : NodeState) (pod : Pod) → IsSmall pod → IsSound ns → IsSound (admit ns pod)
      admit-IsSound ns pod s x =
          unfold admit in
          record { sized = x.sized; accounted = admit-IsAccounted _ ns pod x.sized s x.accounted }

  -- In a snapshot of amounts in range, the free capacity of every node of a new placement is the ceiling's
  -- share of the allocatable capacity less the requests of its occupants, and 0 where they exceed it: `Sub`
  -- stops at 0, so that free is not negative on a node above its ceiling.
  pub new_placement_ceiling-IsSound :
      (snap : ClusterSnapshot)
      → All (λ n. IsBasis (capacity_basis fl ceiling n)) snap.nodes
      → All IsSmall snap.pods
      → (n : String) (ns : NodeState)
      → lookup n (new_placement_ceiling fl snap ceiling).nodes ≡ some ns
      → IsSound ns
  unfolding new_placement_ceiling
  new_placement_ceiling-IsSound snap sizes small =
      AllSound-admit_all snap.pods _ small
        (AllSound-add_nodes snap.nodes [] sizes (λ n ns e. absurd (unfold lookup in cc)))

-- Without a ceiling the basis is the allocatable capacity.
pub capacity_basis-zero :
    (fl : Float64) (n : Node) → capacity_basis fl (fl.of_int64 0) n ≡ n.allocatable
unfolding capacity_basis
capacity_basis-zero fl n = rw (fl.lt_irrefl (fl.of_int64 0))
