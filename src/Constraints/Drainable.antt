-- ===== src/Constraints/Drainable.antt =====
-- `NodeDrainable` and `CandidateNodes`: what their answers mean.
use k8s_dencer.Base.{
  All, All-map, String, ◌≡◌, refl, ◌↔◌, inl, inr, true, false, none, List, [], ◌∷◌, ◌==◌, string_eq,
  arith, Bool-cases, Option-cases,
}
use k8s_dencer.Model.Cluster.{Pod}
use k8s_dencer.Constraints.State.{Placement}
use k8s_dencer.Constraints.CanPlace.{can_place, candidates_from, candidate_nodes}
use k8s_dencer.Constraints.Coherence.Answers.{
  Remembers, Remembers-refl, Remembers-trans, can_place-Remembers,
}
use k8s_dencer.Constraints.Analyzer.{PodConstraints}
use k8s_dencer.Constraints.Analysis.{Analysis, for_node, in_the_way, drainable_from, node_drainable}

abbrev pub IsFilled : List String → Type 0
IsFilled [] = ⊥
IsFilled (x ∷ xs) = Unit

-- The pod stays with the node by design, or it may move and some other node accepts it.
abbrev pub Leaves : PodConstraints → Type 0
Leaves pc = pc.is_pinned ≡ false → (pc.movable ≡ true) × IsFilled pc.candidates

in_the_way-Leaves : (pc : PodConstraints) → ((in_the_way pc).0 ≡ false) ↔ Leaves pc
unfolding in_the_way
in_the_way-Leaves pc = ground arith

drainable_from_iff :
    (pods : List PodConstraints) → ((drainable_from pods).0 ≡ true) ↔ All Leaves pods
unfolding drainable_from
drainable_from_iff [] = ((λ _. tt), (λ _. refl))
drainable_from_iff (pc ∷ pods) =
    let (to, from) = in_the_way-Leaves pc in
    let (to_all, from_all) = drainable_from_iff pods in
    elim (Bool-cases (in_the_way pc).0) [
      | inl b ↦ rw b ((λ h. absurd cc), (λ all. absurd (let f = from all.0 in cc)))
      | inr b ↦ rw b ((λ h. (to b, to_all h)), (λ all. from_all all.1))
    ]

-- A node is drainable exactly if every pod of the analysis that stands on it is pinned to it, or is movable
-- and has a candidate node.
pub node_drainable_iff :
    (a : Analysis) (node_name : String)
    → ((node_drainable a node_name).0 ≡ true) ↔ All Leaves (for_node a node_name)
unfolding node_drainable
node_drainable_iff a node_name = drainable_from_iff (for_node a node_name)

-- The node is another one, and accepts the pod in the placement, whose index alone may have grown.
abbrev pub Accepts : Placement → Pod → String → Type 0
Accepts p pod name =
    ((name == pod.node_name) ≡ false)
    × (asked : Placement) × Remembers p asked
    × ((can_place asked pod name).1 ≡ none)

candidates_from-Accepts :
    (p : Placement) (pod : Pod) (names : List String)
    → All (Accepts p pod) (candidates_from p pod names).1
unfolding candidates_from
candidates_from-Accepts p pod [] = tt
candidates_from-Accepts p pod (name ∷ names) =
    let later =
      All-map (Accepts (can_place p pod name).0 pod) (Accepts p pod)
        (candidates_from (can_place p pod name).0 pod names).1
        (λ n (other, asked, m, accepted).
          (other, asked, Remembers-trans (can_place-Remembers p pod name) m, accepted))
        (candidates_from-Accepts (can_place p pod name).0 pod names) in
    elim (Bool-cases (name == pod.node_name)) [
      | inl same ↦ rw same (candidates_from-Accepts p pod names)
      | inr other ↦ elim (Option-cases (can_place p pod name).1) [
        | inl accepted ↦ rw (other, accepted) ((other, p, Remembers-refl p, accepted), later)
        | inr (r, refused) ↦ rw (other, refused) later
      ]
    ]

-- Every candidate node of a pod is another node than its own, and `CanPlace` accepts the pod there in a
-- placement that differs from the one asked at most in what its index remembers.
pub candidate_nodes-Accepts :
    (p : Placement) (pod : Pod) → All (Accepts p pod) (candidate_nodes p pod).1
unfolding candidate_nodes
candidate_nodes-Accepts p pod = candidates_from-Accepts p pod p.node_order
