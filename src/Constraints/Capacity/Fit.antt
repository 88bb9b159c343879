-- ===== src/Constraints/Capacity/Fit.antt =====
-- Whole placements: a pod that `CanPlace` of placement.go accepts and `Place` puts down stays inside
-- the capacity basis of its node.
use k8s_dencer.Base.{
  ℕ, ◌+◌, ◌-◌, ◌≤◌, ◌<◌, ◌^◌, String, ◌≡◌, ◌∙◌, sym, inl, inr, Bool, true, ◌&&◌, List, [], ◌∷◌,
  ◌++◌, arith, none, some, le64, leb→le, le64-eq-leb, Option-cases, string_eq, lookup, insert,
  insert-all, minus_one,
}
use k8s_dencer.Model.Resources
use k8s_dencer.Model.Resources.{Resources}
use k8s_dencer.Model.Cluster.{Node, Pod}
use k8s_dencer.Constraints.State.{NodeState, Placement}
use k8s_dencer.Constraints.SpreadIndex.{adjust_spread}
use k8s_dencer.Constraints.Placement.{need, admit, place, release, take_out, remove}
use k8s_dencer.Constraints.Predicates.{fits_resources}
use k8s_dencer.Constraints.CanPlace.{static_checks, can_place}
use k8s_dencer.Constraints.Capacity.Account.{
  cpu_of, memory_of, pods_of, load, load-append, load-take_out, IsSmall, IsBasis, IsAccounted,
  IsWithin, need_lem, admit-IsAccounted, release-IsAccounted,
}

static_checks-fits :
    (p : Placement) (pod : Pod) (n : String) (ns : NodeState)
    → static_checks p pod n ns ≡ none
    → Resources.fits (need pod) ns.free ≡ true
unfolding static_checks fits_resources
static_checks-fits p pod n ns e = ground arith

-- A node that accepts a pod is there, and has room for it.
pub can_place-fits :
    (p : Placement) (pod : Pod) (n : String)
    → (can_place p pod n).1 ≡ none
    → (ns : NodeState) × (lookup n p.nodes ≡ some ns) × (Resources.fits (need pod) ns.free ≡ true)
unfolding can_place
can_place-fits p pod n e = elim (Option-cases (lookup n p.nodes)) [
  | inl gone ↦ absurd (let e' = (rw (gone, can_place) at e) in cc)
  | inr (ns, there) ↦ elim (Option-cases (static_checks p pod n ns)) [
    | inl passed ↦ (ns, there, static_checks-fits p pod n ns passed)
    | inr (r, refused) ↦ absurd (let e' = (rw (there, refused, can_place) at e) in cc)
  ]
]

-- One resource: what fits into the free capacity fits beside the load.
fits_beside :
    (x r free b l : ℕ)
    → le64 x free ≡ true
    → x ≡ r
    → r < 2 ^ 62
    → free ≡ b - l
    → b < 2 ^ 63
    → l ≤ b
    → l + r ≤ b
fits_beside x r free b l h ex hr e hb hl =
    omega (arith, leb→le x free ((sym (le64-eq-leb x free (omega arith) (omega arith))) ∙ h))

all_three : {x y z : Bool} → (x && y && z) ≡ true → (x ≡ true) × (y ≡ true) × (z ≡ true)
all_three {x} {y} {z} h = ground arith

IsWithin-beside :
    (b : Resources) (ns : NodeState) (pod : Pod)
    → Resources.fits (need pod) ns.free ≡ true
    → IsBasis b
    → IsSmall pod
    → IsAccounted b ns
    → IsWithin b ns.occupants
    → IsWithin b (ns.occupants ++ pod ∷ [])
unfolding Resources.fits
IsWithin-beside b ns pod h basis s a w =
    let (n_cpu, n_memory, n_pods) = need_lem pod s in
    let (h_cpu, h_memory, h_pods) =
      all_three {x = le64 (need pod).milli_cpu ns.free.milli_cpu}
        {y = le64 (need pod).memory_bytes ns.free.memory_bytes}
        {z = le64 (need pod).pods ns.free.pods} h in
    record {
      cpu = omega (
        arith,
        load-append cpu_of ns.occupants (pod ∷ []),
        fits_beside _ (cpu_of pod) _ b.milli_cpu (load cpu_of ns.occupants) h_cpu n_cpu s.cpu a.cpu
            basis.cpu w.cpu,
      );
      memory = omega (
        arith,
        load-append memory_of ns.occupants (pod ∷ []),
        fits_beside _ (memory_of pod) _ b.memory_bytes (load memory_of ns.occupants) h_memory
            n_memory s.memory a.memory basis.memory w.memory,
      );
      pods = omega (
        arith,
        load-append pods_of ns.occupants (pod ∷ []),
        fits_beside _ (pods_of pod) _ b.pods (load pods_of ns.occupants) h_pods n_pods s.pods a.pods
            basis.pods w.pods,
      );
    }

IsWithin-without :
    (b : Resources) (ns : NodeState) (pod : Pod) {found : Pod} {left : List Pod}
    → take_out pod ns.occupants ≡ some (found, left)
    → IsWithin b ns.occupants
    → IsWithin b left
IsWithin-without b ns pod e w = record {
  cpu = omega (arith, load-take_out cpu_of pod ns.occupants e, w.cpu);
  memory = omega (arith, load-take_out memory_of pod ns.occupants e, w.memory);
  pods = omega (arith, load-take_out pods_of pod ns.occupants e, w.pods);
}

-- Every node's free capacity is accounted for, and its occupants fit in its basis.
pub record IsBudgeted (basis : Node → Resources) (p : Placement) : Type 0 where
  pub sized : (n : String) (ns : NodeState) → lookup n p.nodes ≡ some ns → IsBasis (basis ns.node)
  pub accounted :
      (n : String) (ns : NodeState) → lookup n p.nodes ≡ some ns → IsAccounted (basis ns.node) ns
  pub within :
      (n : String) (ns : NodeState)
      → lookup n p.nodes ≡ some ns
      → IsWithin (basis ns.node) ns.occupants

pub adjust_spread-nodes :
    (p : Placement) (pod : Pod) (n : String) (delta : ℕ)
    → (adjust_spread p pod n delta).nodes ≡ p.nodes
unfolding adjust_spread
adjust_spread-nodes p pod n delta = ground arith

module _ (basis : Node → Resources) (p : Placement) (b : IsBudgeted basis p) where
  -- Writing one node that keeps the accounts.
  IsBudgeted-insert :
      (n : String) (ns : NodeState) (q : Placement)
      → q.nodes ≡ insert n ns p.nodes
      → IsBasis (basis ns.node)
      → IsAccounted (basis ns.node) ns
      → IsWithin (basis ns.node) ns.occupants
      → IsBudgeted basis q
  IsBudgeted-insert n ns q e z a w = record {
    sized =
        λ j x h. insert-all (λ k y. IsBasis (basis y.node)) n ns p.nodes z b.sized j x (rw e at h);
    accounted = λ j x h.
        insert-all (λ k y. IsAccounted (basis y.node) y) n ns p.nodes a b.accounted j x (rw e at h);
    within = λ j x h.
        insert-all (λ k y. IsWithin (basis y.node) y.occupants) n ns p.nodes w b.within j x
          (rw e at h);
  }

  module _ (pod : Pod) (s : IsSmall pod) where
    pub place-IsBudgeted :
        (n : String)
        → ((ns : NodeState) → lookup n p.nodes ≡ some ns → Resources.fits (need pod) ns.free ≡ true)
        → IsBudgeted basis (place p pod n)
    unfolding place admit
    place-IsBudgeted n room = elim (Option-cases (lookup n p.nodes)) [
      | inl e ↦ rw (e, place) b
      | inr (ns, e) ↦
          let pod' = record pod { node_name = n } in
          let s' : IsSmall pod' = record { cpu = s.cpu; memory = s.memory; pods = s.pods } in
          rw (e, place)
            (IsBudgeted-insert n (admit ns pod') _ (adjust_spread-nodes _ pod' n 1) (b.sized n ns e)
              (admit-IsAccounted (basis ns.node) ns pod' (b.sized n ns e) s' (b.accounted n ns e))
              (IsWithin-beside (basis ns.node) ns pod' (room ns e) (b.sized n ns e) s'
                (b.accounted n ns e) (b.within n ns e)))
    ]

    -- The caller's copy asks for what the occupant asks for.
    pub remove-IsBudgeted :
        ((ns : NodeState) (found : Pod) (left : List Pod)
          → lookup pod.node_name p.nodes ≡ some ns
          → take_out pod ns.occupants ≡ some (found, left)
          → found.requests ≡ pod.requests)
        → IsBudgeted basis (remove p pod)
    unfolding remove release
    remove-IsBudgeted same = elim (Option-cases (lookup pod.node_name p.nodes)) [
      | inl e ↦ rw (e, remove) b
      | inr (ns, e) ↦ elim (Option-cases (take_out pod ns.occupants)) [
        | inl e' ↦ rw (e, e', remove) b
        | inr ((found, left), e') ↦
            rw (e, e', remove)
              (IsBudgeted-insert pod.node_name (release ns pod left) _
                (adjust_spread-nodes _ found pod.node_name minus_one) (b.sized pod.node_name ns e)
                (release-IsAccounted (basis ns.node) ns pod e' (same ns found left e e')
                  (b.sized pod.node_name ns e) (b.within pod.node_name ns e)
                  (b.accounted pod.node_name ns e))
                (IsWithin-without (basis ns.node) ns pod e' (b.within pod.node_name ns e)))
      ]
    ]
