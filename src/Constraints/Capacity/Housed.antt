-- ===== src/Constraints/Capacity/Housed.antt =====
-- What holds of every pod of a snapshot holds of every occupant of the placement that
-- `NewPlacementCeiling` of placement.go builds, with the node that it stands on.
use k8s_dencer.Base.{
  All, All-snoc, String, ◌≡◌, inl, inr, List, [], ◌∷◌, some, Bool-cases, Option-cases, ◌==◌,
  string_eq, lookup, insert-all, Float64,
}
use k8s_dencer.Model.Cluster.{Node, Pod, ClusterSnapshot}
use k8s_dencer.Constraints.State.{NodeState}
use k8s_dencer.Constraints.Placement.{admit, admit_all, add_nodes, new_placement_ceiling}

module _ (Q : String → Pod → Type 0) where
  abbrev Housed : List (String × NodeState) → Type 0
  Housed nodes = (n : String) (ns : NodeState) → lookup n nodes ≡ some ns → All (Q n) ns.occupants

  Housed-add_nodes :
      (fl : Float64) (ceiling : fl.F) (ns : List Node) (nodes : List (String × NodeState))
      → Housed nodes
      → Housed (add_nodes fl ceiling ns nodes)
  unfolding add_nodes
  Housed-add_nodes fl ceiling [] nodes all = all
  Housed-add_nodes fl ceiling (n ∷ ns) nodes all =
      Housed-add_nodes fl ceiling ns _
        (insert-all (λ k x. All (Q k) x.occupants) n.name _ nodes tt all)

  Housed-admit_all :
      (pods : List Pod) (nodes : List (String × NodeState))
      → All (λ pod. Q pod.node_name pod) pods
      → Housed nodes
      → Housed (admit_all pods nodes)
  unfolding admit_all admit
  Housed-admit_all [] nodes q all = all
  Housed-admit_all (pod ∷ pods) nodes q all = elim (Bool-cases (pod.node_name == "")) [
    | inl e ↦ rw e (Housed-admit_all pods nodes q.1 all)
    | inr e ↦ elim (Option-cases (lookup pod.node_name nodes)) [
      | inl e' ↦ rw (e, e') (Housed-admit_all pods nodes q.1 all)
      | inr (ns, e') ↦
          rw (e, e')
            (Housed-admit_all pods _ q.1 (
              insert-all (λ k x. All (Q k) x.occupants) pod.node_name (admit ns pod) nodes
                (All-snoc (Q pod.node_name) ns.occupants pod (all pod.node_name ns e') q.0) all))
    ]
  ]

  pub new_placement_ceiling-Housed :
      (fl : Float64) (ceiling : fl.F) (snap : ClusterSnapshot)
      → All (λ pod. Q pod.node_name pod) snap.pods
      → (n : String) (ns : NodeState)
      → lookup n (new_placement_ceiling fl snap ceiling).nodes ≡ some ns
      → All (Q n) ns.occupants
  unfolding new_placement_ceiling
  new_placement_ceiling-Housed fl ceiling snap q =
      Housed-admit_all snap.pods _ q
        (Housed-add_nodes fl ceiling snap.nodes [] (λ n ns e. absurd (unfold lookup in cc)))
