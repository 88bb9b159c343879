-- ===== src/Safety/Vacate.antt =====
-- The first half of `checkStepFeasible` of safety.go: the target's own occupants are removed one by one,
-- which leaves the target with none and gives their capacity back.
use k8s_dencer.Base.{
  All, String, ◌≡◌, refl, ◌∙◌, sym, ap, Option, some, List, [], ◌∷◌, string_eq, lookup,
  lookup-insert, minus_one,
}
use text.Mathlib.TextPositions.{eq_refl}
use k8s_dencer.Model.Resources.{Resources}
use k8s_dencer.Model.Cluster.{Node, Pod}
use k8s_dencer.Constraints.State.{NodeState, Placement}
use k8s_dencer.Constraints.Placement.{same_key, take_out, release, remove}
use k8s_dencer.Constraints.Capacity.Account.{IsSmall}
use k8s_dencer.Constraints.Capacity.Fit.{IsBudgeted, remove-IsBudgeted, adjust_spread-nodes}
use k8s_dencer.Safety.Checks.{remove_each}

-- The first occupant is found first.
take_out-head : (pod : Pod) (rest : List Pod) → take_out pod (pod ∷ rest) ≡ some (pod, rest)
unfolding take_out same_key
take_out-head pod rest = rw (eq_refl pod.namespace, eq_refl pod.name)

-- Removing the first occupant of a node leaves the others.
remove-head :
    (p : Placement) (pod : Pod) (rest : List Pod) (ns : NodeState)
    → lookup pod.node_name p.nodes ≡ some ns
    → ns.occupants ≡ pod ∷ rest
    → (ns' : NodeState) × (lookup pod.node_name (remove p pod).nodes ≡ some ns')
      × (ns'.occupants ≡ rest)
unfolding remove release
remove-head p pod rest ns e os =
    let found : take_out pod ns.occupants ≡ some (pod, rest) = rw os (take_out-head pod rest) in
    rw (e, found, remove)
      (
        release ns pod rest,
        ap (lookup pod.node_name) (adjust_spread-nodes _ pod pod.node_name minus_one)
            ∙ lookup-insert pod.node_name pod.node_name (release ns pod rest) p.nodes
            ∙ rw (eq_refl pod.node_name),
        refl,
      )

module _ (target : String) where
  -- The pods, all of the target, are its occupants in this order.
  abbrev Holds : Placement → List Pod → Type 0
  Holds p os = (ns : NodeState) × (lookup target p.nodes ≡ some ns) × (ns.occupants ≡ os)

  abbrev pub OnTarget : Pod → Type 0
  OnTarget pod = pod.node_name ≡ target

  remove-Holds :
      (p : Placement) (pod : Pod) (rest : List Pod)
      → OnTarget pod
      → Holds p (pod ∷ rest)
      → Holds (remove p pod) rest
  remove-Holds p pod rest at (ns, e, os) =
      let (ns', e', os') = remove-head p pod rest ns (ap (λ t. lookup t p.nodes) at ∙ e) os in
      (ns', ap (λ t. lookup t (remove p pod).nodes) (sym at) ∙ e', os')

  pub remove_each-Holds :
      (p : Placement) (os : List Pod) → All OnTarget os → Holds p os → Holds (remove_each p os) []
  unfolding remove_each
  remove_each-Holds p [] at h = h
  remove_each-Holds p (pod ∷ os) at h =
      remove_each-Holds (remove p pod) os at.1 (remove-Holds p pod os at.0 h)

  pub remove_each-IsBudgeted :
      (basis : Node → Resources) (p : Placement) (os : List Pod)
      → All OnTarget os
      → All IsSmall os
      → Holds p os
      → IsBudgeted basis p
      → IsBudgeted basis (remove_each p os)
  unfolding remove_each
  remove_each-IsBudgeted basis p [] at small h b = b
  remove_each-IsBudgeted basis p (pod ∷ os) at small h b =
      remove_each-IsBudgeted basis (remove p pod) os at.1 small.1 (remove-Holds p pod os at.0 h)
        (remove-IsBudgeted basis p b pod small.0 same)
    where
      same :
          (ns : NodeState) (found : Pod) (left : List Pod)
          → lookup pod.node_name p.nodes ≡ some ns
          → take_out pod ns.occupants ≡ some (found, left)
          → found.requests ≡ pod.requests
      same ns found left e e' =
          let one : some ns ≡ some h.0 = sym e ∙ ap (λ t. lookup t p.nodes) at.0 ∙ h.1 in
          let ns_h : ns ≡ h.0 = cc in
          let mine : ◌≡◌ {A = Option (Pod × List Pod)} (some (found, left)) (some (pod, os)) =
            sym e'
            ∙ ap (λ (x : NodeState). take_out pod x.occupants) ns_h
            ∙ ap (take_out pod) h.2
            ∙ take_out-head pod os in
          let found_pod : found ≡ pod = cc in ap (λ (x : Pod). x.requests) found_pod
