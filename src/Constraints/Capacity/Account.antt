-- ===== src/Constraints/Capacity/Account.antt =====
-- Free capacity in placement.go: what `admit` and `release` leave of a node's capacity basis.
use k8s_dencer.Base.{
  ℕ, ◌+◌, ◌-◌, ◌≤◌, ◌<◌, ◌^◌, ◌≡◌, ◌∙◌, ap, sym, inl, inr, List, [], ◌∷◌, ◌++◌, arith, some, add64,
  sub64, max64, add64-eq_add, max64-sub64, Bool-cases, Option-cases,
}
use k8s_dencer.Model.Resources
use k8s_dencer.Model.Resources.{Resources}
use k8s_dencer.Model.Cluster.{Pod}
use k8s_dencer.Constraints.State.{NodeState}
use k8s_dencer.Constraints.Placement.{need, admit, release, same_key, take_out}

-- The sum of one resource over the occupants, without a width. A pod counts for itself.
abbrev pub cpu_of : Pod → ℕ
cpu_of pod = pod.requests.milli_cpu

abbrev pub memory_of : Pod → ℕ
memory_of pod = pod.requests.memory_bytes

abbrev pub pods_of : Pod → ℕ
pods_of pod = pod.requests.pods + 1

abbrev pub load : (Pod → ℕ) → List Pod → ℕ
load f [] = 0
load f (o ∷ os) = f o + load f os

-- Amounts that no cluster reaches: below 2 ^ 62 for one pod, 2 ^ 63 for one node.
pub record IsSmall (pod : Pod) : Type 0 where
  pub cpu : cpu_of pod < 2 ^ 62
  pub memory : memory_of pod < 2 ^ 62
  pub pods : pods_of pod < 2 ^ 62

pub record IsBasis (b : Resources) : Type 0 where
  pub cpu : b.milli_cpu < 2 ^ 63
  pub memory : b.memory_bytes < 2 ^ 63
  pub pods : b.pods < 2 ^ 63

-- Free is what the occupants leave of the basis, and 0 where they leave nothing.
pub record IsAccounted (b : Resources) (ns : NodeState) : Type 0 where
  pub cpu : ns.free.milli_cpu ≡ b.milli_cpu - load cpu_of ns.occupants
  pub memory : ns.free.memory_bytes ≡ b.memory_bytes - load memory_of ns.occupants
  pub pods : ns.free.pods ≡ b.pods - load pods_of ns.occupants

pub load-append : (f : Pod → ℕ) (xs ys : List Pod) → load f (xs ++ ys) ≡ load f xs + load f ys
load-append f [] ys = omega arith
load-append f (x ∷ xs) ys = omega (arith, load-append f xs ys)

load-snoc : (f : Pod → ℕ) (xs : List Pod) (x : Pod) → load f (xs ++ x ∷ []) ≡ load f xs + f x
load-snoc f xs x = omega (arith, load-append f xs (x ∷ []))

pub load-take_out :
    (f : Pod → ℕ) (pod : Pod) (os : List Pod) {found : Pod} {left : List Pod}
    → take_out pod os ≡ some (found, left)
    → load f os ≡ f found + load f left
unfolding take_out
load-take_out f pod [] e = cc
load-take_out f pod (o ∷ os) {found} {left} e = elim (Bool-cases (same_key o pod)) [
  | inl here ↦ ground arith
  | inr there ↦ elim (Option-cases (take_out pod os)) [
    | inl gone ↦ ground arith
    | inr ((found', left'), e') ↦ ground (arith, load-take_out f pod os e')
  ]
]

pub need_lem :
    (pod : Pod)
    → IsSmall pod
    → ((need pod).milli_cpu ≡ cpu_of pod)
      × ((need pod).memory_bytes ≡ memory_of pod)
      × ((need pod).pods ≡ pods_of pod)
unfolding Resources.add
need_lem pod s = (
  add64-eq_add (cpu_of pod) 0 (omega arith) ∙ omega arith,
  add64-eq_add (memory_of pod) 0 (omega arith) ∙ omega arith,
  add64-eq_add pod.requests.pods 1 (omega arith),
)

-- One resource, as a pod joins: the clamped difference follows the truncated one.
take_away :
    (free b l r x : ℕ)
    → free ≡ b - l
    → b < 2 ^ 63
    → x ≡ r
    → r < 2 ^ 62
    → max64 (sub64 free x) 0 ≡ b - (l + r)
take_away free b l r x e hb ex hr = omega (arith, max64-sub64 free x (omega arith) (omega arith))

-- A pod that joins is taken off, down to 0.
pub admit-IsAccounted :
    (b : Resources) (ns : NodeState) (pod : Pod)
    → IsBasis b
    → IsSmall pod
    → IsAccounted b ns
    → IsAccounted b (admit ns pod)
unfolding admit Resources.sub
admit-IsAccounted b ns pod basis s a =
    let (n_cpu, n_memory, n_pods) = need_lem pod s in
    record {
      cpu =
          take_away ns.free.milli_cpu b.milli_cpu (load cpu_of ns.occupants) (cpu_of pod) _ a.cpu
            basis.cpu n_cpu s.cpu
          ∙ ap (λ l. b.milli_cpu - l) (sym (load-snoc cpu_of ns.occupants pod));
      memory =
          take_away ns.free.memory_bytes b.memory_bytes (load memory_of ns.occupants)
            (memory_of pod) _ a.memory basis.memory n_memory s.memory
          ∙ ap (λ l. b.memory_bytes - l) (sym (load-snoc memory_of ns.occupants pod));
      pods =
          take_away ns.free.pods b.pods (load pods_of ns.occupants) (pods_of pod) _ a.pods
            basis.pods n_pods s.pods
          ∙ ap (λ l. b.pods - l) (sym (load-snoc pods_of ns.occupants pod));
    }

-- The occupants fit in the basis.
pub record IsWithin (b : Resources) (os : List Pod) : Type 0 where
  pub cpu : load cpu_of os ≤ b.milli_cpu
  pub memory : load memory_of os ≤ b.memory_bytes
  pub pods : load pods_of os ≤ b.pods

-- One resource, as a pod leaves; `r` comes back in two steps.
give_back :
    (free b l l' r k : ℕ)
    → free ≡ b - l
    → l ≤ b
    → b < 2 ^ 63
    → l ≡ (r + k) + l'
    → add64 (add64 free r) k ≡ b - l'
give_back free b l l' r k e fits hb el =
    ap (λ x. add64 x k) (add64-eq_add free r (omega arith))
    ∙ add64-eq_add (free + r) k (omega arith)
    ∙ omega arith

-- A pod that leaves is given back, if the node was within its basis.
pub release-IsAccounted :
    (b : Resources) (ns : NodeState) (pod : Pod) {found : Pod} {left : List Pod}
    → take_out pod ns.occupants ≡ some (found, left)
    → found.requests ≡ pod.requests
    → IsBasis b
    → IsWithin b ns.occupants
    → IsAccounted b ns
    → IsAccounted b (release ns pod left)
unfolding release Resources.add
release-IsAccounted b ns pod {found} {left} e same basis within a =
    let own = λ (f : Pod → ℕ). load-take_out f pod ns.occupants e in
    record {
      cpu =
          give_back _ b.milli_cpu (load cpu_of ns.occupants) _ (cpu_of pod) 0 a.cpu within.cpu
            basis.cpu (omega (arith, own cpu_of, ap (λ (r : Resources). r.milli_cpu) same));
      memory =
          give_back _ b.memory_bytes (load memory_of ns.occupants) _ (memory_of pod) 0 a.memory
            within.memory basis.memory
            (omega (arith, own memory_of, ap (λ (r : Resources). r.memory_bytes) same));
      pods =
          give_back _ b.pods (load pods_of ns.occupants) _ pod.requests.pods 1 a.pods within.pods
            basis.pods (omega (arith, own pods_of, ap (λ (r : Resources). r.pods) same));
    }
