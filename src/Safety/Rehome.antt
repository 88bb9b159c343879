-- ===== src/Safety/Rehome.antt =====
-- The relocation that `checkStepFeasible` of safety.go finds, as a derivation: one accepted placement
-- after another, none of them on the draining node.
use k8s_dencer.Base.{
  All, String, ◌≡◌, refl, ◌∙◌, sym, inl, inr, true, false, none, some, List, [], ◌∷◌, ◌==◌,
  string_eq, Bool-cases, Option-cases,
}
use mathlib.Core.Path.{subst}
use k8s_dencer.Model.Resources
use k8s_dencer.Model.Resources.{Resources}
use k8s_dencer.Model.Cluster.{Node, Pod, is_movable}
use k8s_dencer.Constraints.State.{NodeState, Placement}
use k8s_dencer.Constraints.Placement.{need, place}
use k8s_dencer.Constraints.CanPlace.{can_place}
use k8s_dencer.Constraints.Coherence.Answers.{
  Remembers, Remembers-refl, Remembers-trans, can_place-Remembers,
}
use k8s_dencer.Constraints.Capacity.Account.{IsSmall}
use k8s_dencer.Constraints.Capacity.Fit.{IsBudgeted, can_place-fits, place-IsBudgeted}
use k8s_dencer.Safety.Checks.{home_from, has_home, rehome_each}

-- Every movable pod of the list is put, in turn, on a node other than `target` that accepts it in the
-- placement as it then is.
pub data Rehomed (target : String) : Placement → List Pod → Placement → Type 0 where
  done : (p : Placement) → Rehomed target p [] p
  stays :
      {p q : Placement} {pods : List Pod} (pod : Pod)
      → is_movable pod ≡ false
      → Rehomed target p pods q
      → Rehomed target p (pod ∷ pods) q
  moves :
      {p q : Placement} {pods : List Pod} (pod : Pod) (asked : Placement) (candidate : String)
      → Remembers p asked
      → (candidate == target) ≡ false
      → (can_place asked pod candidate).1 ≡ none
      → Rehomed target (place (can_place asked pod candidate).0 pod candidate) pods q
      → Rehomed target p (pod ∷ pods) q

-- What `hasHome` found: the questions before it, and the node that accepted.
record Home (target : String) (p : Placement) (pod : Pod) (q : Placement) : Type 0 where
  asked : Placement
  candidate : String
  remembers : Remembers p asked
  elsewhere : (candidate == target) ≡ false
  accepted : (can_place asked pod candidate).1 ≡ none
  placed : q ≡ place (can_place asked pod candidate).0 pod candidate

home_from-Home :
    (p : Placement) (pod : Pod) (target : String) (names : List String)
    → (home_from p pod target names).1 ≡ true
    → Home target p pod (home_from p pod target names).0
unfolding home_from
home_from-Home p pod target [] h = cc
home_from-Home p pod target (name ∷ names) h = elim (Bool-cases (name == target)) [
  | inl same ↦ rw (same, home_from) (home_from-Home p pod target names (rw (same, home_from) at h))
  | inr other ↦ elim (Option-cases (can_place p pod name).1) [
    | inl accepted ↦
        rw (other, accepted, home_from)
          (record {
            asked = p;
            candidate = name;
            remembers = Remembers-refl p;
            elsewhere = other;
            accepted = accepted;
            placed = refl;
          })
    | inr (r, refused) ↦
        rw (other, refused, home_from)
          (later (can_place-Remembers p pod name) (
            home_from-Home (can_place p pod name).0 pod target names
              (rw (other, refused, home_from) at h)))
  ]
]
  where
    later : {p' q : Placement} → Remembers p p' → Home target p' pod q → Home target p pod q
    later m x = record {
      asked = x.asked;
      candidate = x.candidate;
      remembers = Remembers-trans m x.remembers;
      elsewhere = x.elsewhere;
      accepted = x.accepted;
      placed = x.placed;
    }

pub rehome_each-Rehomed :
    (p : Placement) (pods : List Pod) (target : String)
    → (rehome_each p pods target).1 ≡ none
    → Rehomed target p pods (rehome_each p pods target).0
unfolding rehome_each has_home
rehome_each-Rehomed p [] target h = done p
rehome_each-Rehomed p (pod ∷ pods) target h = elim (Bool-cases (is_movable pod)) [
  | inr pinned ↦
      rw (pinned, rehome_each)
        (stays pod pinned (rehome_each-Rehomed p pods target (rw (pinned, rehome_each) at h)))
  | inl movable ↦ elim (Bool-cases (home_from p pod target p.node_order).1) [
    | inl found ↦
        rw (movable, found, rehome_each)
          (step (home_from-Home p pod target p.node_order found) (
            rehome_each-Rehomed (home_from p pod target p.node_order).0 pods target
              (rw (movable, found, rehome_each) at h)))
    | inr lost ↦ let h' = (rw (movable, lost, rehome_each) at h) in cc
  ]
]
  where
    step :
        {p p' q : Placement} {pod : Pod} {pods : List Pod} {target : String}
        → Home target p pod p'
        → Rehomed target p' pods q
        → Rehomed target p (pod ∷ pods) q
    step {q = q} {pod = pod} {pods} {target} x r =
        moves pod x.asked x.candidate x.remembers x.elsewhere x.accepted
          (subst (λ s. Rehomed target s pods q) x.placed r)

-- Questions to the index change no budget.
pub Remembers-IsBudgeted :
    {basis : Node → Resources} {p q : Placement}
    → Remembers p q
    → IsBudgeted basis p
    → IsBudgeted basis q
Remembers-IsBudgeted m b = record {
  sized = λ n ns e. b.sized n ns (rw m.same_nodes at e);
  accounted = λ n ns e. b.accounted n ns (rw m.same_nodes at e);
  within = λ n ns e. b.within n ns (rw m.same_nodes at e);
}

-- Where every node's requests are within its budget and its free capacity is the rest, placing a pod of
-- amounts in range on a node that `CanPlace` accepts it for keeps that so.
pub accepted-IsBudgeted :
    (basis : Node → Resources) (p : Placement) (pod : Pod) (n : String)
    → IsSmall pod
    → IsBudgeted basis p
    → (can_place p pod n).1 ≡ none
    → IsBudgeted basis (place (can_place p pod n).0 pod n)
accepted-IsBudgeted basis p pod n s b accepted =
    let m = can_place-Remembers p pod n in
    let (ns, there, fits) = can_place-fits p pod n accepted in
    place-IsBudgeted basis (can_place p pod n).0 (Remembers-IsBudgeted m b) pod s n λ ns' e.
      let same : some ns ≡ some ns' = sym there ∙ rw m.same_nodes at e in
      let ns_ns' : ns ≡ ns' = cc in
      subst (λ (x : NodeState). Resources.fits (need pod) x.free ≡ true) ns_ns' fits

-- The budget holds all along the relocation of pods of amounts in range.
pub Rehomed-IsBudgeted :
    {basis : Node → Resources} {target : String} {p q : Placement} {pods : List Pod}
    → Rehomed target p pods q
    → All IsSmall pods
    → IsBudgeted basis p
    → IsBudgeted basis q
Rehomed-IsBudgeted (done p) s b = b
Rehomed-IsBudgeted (stays pod pinned r) s b = Rehomed-IsBudgeted r s.1 b
Rehomed-IsBudgeted {basis} (moves pod asked candidate m other accepted r) s b =
    Rehomed-IsBudgeted r s.1
      (accepted-IsBudgeted basis asked pod candidate s.0 (Remembers-IsBudgeted m b) accepted)
