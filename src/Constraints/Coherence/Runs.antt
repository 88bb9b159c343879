-- ===== src/Constraints/Coherence/Runs.antt =====
-- Any sequence of `Place`, `Remove` and `CanPlace` of placement.go on a new placement.
use k8s_dencer.Base.{
  String, ◌≡◌, sym, ◌∙◌, inl, inr, true, some, List, [], ◌∷◌, ◌==◌, string_eq, lookup, insert,
  lookup-insert, contains, arith, Bool-cases, Option-cases, Float64,
}
use text.Mathlib.TextEquality.{eq_iff}
use k8s_dencer.Model.Cluster.{Node, Pod, ClusterSnapshot}
use k8s_dencer.Constraints.State.{NodeState, Placement}
use k8s_dencer.Constraints.Placement.{
  admit, admit_all, add_nodes, names_of, new_placement_ceiling, place, remove,
}
use k8s_dencer.Constraints.CanPlace.{can_place}
use k8s_dencer.Constraints.Coherence.Count.{Distinct}
use k8s_dencer.Constraints.Coherence.Preserve.{IsCoherent, place-IsCoherent, remove-IsCoherent}
use k8s_dencer.Constraints.Coherence.Answers.{can_place-Remembers}

-- The names that have a node are among `order`.
abbrev Listed : List String → List (String × NodeState) → Type 0
Listed order nodes =
    (n : String) (ns : NodeState) → lookup n nodes ≡ some ns → contains order n ≡ true

Listed-insert :
    (order : List String) (n : String) (ns : NodeState) (nodes : List (String × NodeState))
    → contains order n ≡ true
    → Listed order nodes
    → Listed order (insert n ns nodes)
Listed-insert order n ns nodes named all j x e = elim (Bool-cases (n == j)) [
  | inl same ↦ rw (← (eq_iff n j).0 same) named
  | inr other ↦ all j x (sym (lookup-insert n j ns nodes ∙ rw other) ∙ e)
]

Listed-admit_all :
    (order : List String) (pods : List Pod) (nodes : List (String × NodeState))
    → Listed order nodes
    → Listed order (admit_all pods nodes)
unfolding admit_all
Listed-admit_all order [] nodes all = all
Listed-admit_all order (pod ∷ pods) nodes all = elim (Bool-cases (pod.node_name == "")) [
  | inl e ↦ rw e (Listed-admit_all order pods nodes all)
  | inr e ↦ elim (Option-cases (lookup pod.node_name nodes)) [
    | inl e' ↦ rw (e, e') (Listed-admit_all order pods nodes all)
    | inr (ns, e') ↦
        rw (e, e')
          (Listed-admit_all order pods _
            (Listed-insert order pod.node_name (admit ns pod) nodes (all pod.node_name ns e') all))
  ]
]

-- The names of `done` and `rest` make up the order.
Listed-add_nodes :
    (fl : Float64) (ceiling : fl.F) (order : List String) (ns : List Node)
    (nodes : List (String × NodeState))
    → ((n : String) → contains (names_of ns) n ≡ true → contains order n ≡ true)
    → Listed order nodes
    → Listed order (add_nodes fl ceiling ns nodes)
unfolding add_nodes names_of contains
Listed-add_nodes fl ceiling order [] nodes sub all = all
Listed-add_nodes fl ceiling order (n ∷ ns) nodes sub all =
    Listed-add_nodes fl ceiling order ns _ (λ j h. sub j (ground (arith)))
      (Listed-insert order n.name _ nodes (sub n.name (ground (arith, eq_iff n.name n.name))) all)

-- A new placement, with or without a ceiling, has an empty index.
pub new_placement_ceiling-IsCoherent :
    (fl : Float64) (snap : ClusterSnapshot) (ceiling : fl.F)
    → Distinct (names_of snap.nodes)
    → IsCoherent (new_placement_ceiling fl snap ceiling)
unfolding new_placement_ceiling
new_placement_ceiling-IsCoherent fl snap ceiling distinct = record {
  distinct = distinct;
  listed = Listed-admit_all _ snap.pods _ (
      Listed-add_nodes fl ceiling (names_of snap.nodes) snap.nodes [] (λ n h. h)
        (λ n ns e. absurd (unfold lookup in cc)));
  exact = tt;
}

-- What a planner does to a placement.
pub data Act : Type 0 where
  place_pod : Pod → String → Act
  remove_pod : Pod → Act
  ask : Pod → String → Act

unfoldable pub perform : Placement → Act → Placement
unfolding place remove can_place
perform p (place_pod pod n) = place p pod n
perform p (remove_pod pod) = remove p pod
perform p (ask pod n) = (can_place p pod n).0

unfoldable pub perform_all : Placement → List Act → Placement
unfolding perform
perform_all p [] = p
perform_all p (a ∷ acts) = perform_all (perform p a) acts

perform-IsCoherent : (p : Placement) (a : Act) → IsCoherent p → IsCoherent (perform p a)
perform-IsCoherent p (place_pod pod n) c = unfold perform in place-IsCoherent p pod n c
perform-IsCoherent p (remove_pod pod) c = unfold perform in remove-IsCoherent p pod c
perform-IsCoherent p (ask pod n) c = unfold perform in (can_place-Remembers p pod n).coherent c

pub perform_all-IsCoherent :
    (p : Placement) (acts : List Act) → IsCoherent p → IsCoherent (perform_all p acts)
unfolding perform_all
perform_all-IsCoherent p [] c = c
perform_all-IsCoherent p (a ∷ acts) c =
    perform_all-IsCoherent (perform p a) acts (perform-IsCoherent p a c)
