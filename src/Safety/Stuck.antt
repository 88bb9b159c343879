-- ===== src/Safety/Stuck.antt =====
-- `checkNodeFloor` and `checkStepFeasible` of safety.go: the count of the floor, and the pod without a home.
use k8s_dencer.Base.{
  ◌-◌, String, ◌≡◌, ◌≢◌, ◌⊎◌, refl, sym, ap, ◌∙◌, arith, if◌then◌else◌, ◌++◌, length, keep, All,
  All-map, inl, inr, true, false, none, some, List, [], ◌∷◌, ◌==◌, string_eq, Bool-cases,
  Option-cases,
}
use mathlib.Core.Path.{subst}
use k8s_dencer.Model.Cluster.{Node, Pod, is_movable}
use k8s_dencer.Constraints.State.{Placement}
use k8s_dencer.Constraints.CanPlace.{can_place}
use k8s_dencer.Constraints.Coherence.Answers.{
  Remembers, Remembers-refl, Remembers-trans, can_place-Remembers,
}
use k8s_dencer.Safety.Checks.{
  home_from, has_home, rehome_each, schedulable, ready_count, Blocked, nowhere_to_go, ready_without,
}

ready_count_lem : (nodes : List Node) → ready_count nodes ≡ length (keep schedulable nodes)
unfolding ready_count keep
ready_count_lem [] = refl
ready_count_lem (n ∷ nodes) = elim (Bool-cases (schedulable n)) [
  | inl e ↦ rw e (omega (arith, ready_count_lem nodes))
  | inr e ↦ rw e (ready_count_lem nodes)
]

pub ready_without_lem :
    (node : Node) (nodes : List Node)
    → ready_without node nodes
      ≡ length (keep schedulable nodes) - (if schedulable node then 1 else 0)
unfolding ready_without
ready_without_lem node nodes = elim (Bool-cases (schedulable node)) [
  | inl e ↦ rw (ready_without, e) (omega (arith, ready_count_lem nodes))
  | inr e ↦ rw (ready_without, e) (omega (arith, ready_count_lem nodes))
]

-- Every node but `draining` refuses the pod, in a placement that differs from `p` at most in what the
-- spread index remembers.
abbrev pub RefusedBy : Placement → Pod → String → List String → Type 0
RefusedBy p pod draining names =
    All
      (λ name.
        (name ≡ draining)
        ⊎ ((p' : Placement) × Remembers p p' × ((can_place p' pod name).1 ≢ none)))
      names

RefusedBy-later :
    (p q : Placement) (pod : Pod) (draining : String) (names : List String)
    → Remembers p q
    → RefusedBy q pod draining names
    → RefusedBy p pod draining names
RefusedBy-later p q pod draining names r all =
    All-map _ _ names
      (λ name by. elim by [
        | inl same ↦ inl same
        | inr (p', later, refused) ↦ inr (p', Remembers-trans r later, refused)
      ])
      all

home_from-false :
    (p : Placement) (pod : Pod) (draining : String) (names : List String)
    → (home_from p pod draining names).1 ≡ false
    → RefusedBy p pod draining names
unfolding home_from
home_from-false p pod draining [] h = tt
home_from-false p pod draining (name ∷ names) h = elim (Bool-cases (name == draining)) [
  | inl same ↦ (
    inl ((string_eq.equals_iff name draining).0 same),
    home_from-false p pod draining names (rw (home_from, same) at h),
  )
  | inr other ↦ elim (Option-cases (can_place p pod name).1) [
    | inl accepted ↦ absurd (let h' = (rw (home_from, other, accepted) at h) in cc)
    | inr (why, refused) ↦ (
      inr (p, Remembers-refl p, λ accepted. cc),
      RefusedBy-later p (can_place p pod name).0 pod draining names (can_place-Remembers p pod name)
          (home_from-false (can_place p pod name).0 pod draining names
            (rw (home_from, other, refused) at h)),
    )
  ]
]

-- One of the pods that leave has no place: the movable ones before it are rehomed, and then every node but the
-- target refuses it.
pub record StuckPod (p : Placement) (pods : List Pod) (target namespace name : String)
    : Type 0 where
  pub pod : Pod
  pub before : List Pod
  pub after : List Pod
  pub split : pods ≡ before ++ (pod ∷ after)
  pub movable : is_movable pod ≡ true
  pub same_namespace : namespace ≡ pod.namespace
  pub same_name : name ≡ pod.name
  pub housed : (rehome_each p before target).1 ≡ none
  pub refused :
      RefusedBy
        (rehome_each p before target).0
        pod
        target
        (rehome_each p before target).0.node_order

-- A pod ahead that finds a home, or needs none.
StuckPod-later :
    (first : Pod) (p q : Placement) (pods : List Pod) (target namespace name : String)
    → ((before : List Pod) → rehome_each p (first ∷ before) target ≡ rehome_each q before target)
    → StuckPod q pods target namespace name
    → StuckPod p (first ∷ pods) target namespace name
StuckPod-later first p q pods target namespace name same s = record {
  pod = s.pod;
  before = first ∷ s.before;
  after = s.after;
  split = ap (λ rest. first ∷ rest) s.split;
  movable = s.movable;
  same_namespace = s.same_namespace;
  same_name = s.same_name;
  housed = ap (λ r. r.1) (same s.before) ∙ s.housed;
  refused =
      subst (λ r. RefusedBy (r.0) s.pod target (r.0).node_order) (sym (same s.before)) s.refused;
}

pub rehome_each-some :
    (target : String) (p : Placement) (pods : List Pod) (b : Blocked)
    → (rehome_each p pods target).1 ≡ some b
    → (pod : Pod) × StuckPod p pods target pod.namespace pod.name
      × (b ≡ nowhere_to_go pod.namespace pod.name target)
unfolding rehome_each has_home
rehome_each-some target p [] b h = absurd cc
rehome_each-some target p (first ∷ pods) b h = elim (Bool-cases (is_movable first)) [
  | inr pinned ↦
      let (pod, stuck, same) = rehome_each-some target p pods b (rw (pinned, rehome_each) at h) in
      (
        pod,
        StuckPod-later first p p pods target pod.namespace pod.name
            (λ before. rw (pinned, rehome_each) refl) stuck,
        same,
      )
  | inl movable ↦ elim (Bool-cases (has_home p first target).1) [
    | inl found ↦
        let q : Placement = (has_home p first target).0 in
        let (pod, stuck, same) =
          rehome_each-some target q pods b (rw (movable, found, rehome_each) at h) in
        (
          pod,
          StuckPod-later first p q pods target pod.namespace pod.name
              (λ before. rw (movable, found, rehome_each) refl) stuck,
          same,
        )
    | inr lost ↦
        let h' = (rw (movable, lost, rehome_each) at h) in
        let same : nowhere_to_go first.namespace first.name target ≡ b = cc in
        (
          first,
          record {
            pod = first;
            before = [];
            after = pods;
            split = refl;
            movable = movable;
            same_namespace = refl;
            same_name = refl;
            housed = refl;
            refused = home_from-false p first target p.node_order lost;
          },
          sym same,
        )
  ]
]
