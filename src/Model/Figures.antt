-- ===== src/Model/Figures.antt =====
-- internal/model: what is read off labels (cluster.go), and the sums over a snapshot and a plan
-- (cluster.go, plan.go).
use k8s_dencer.Base.{
  ℕ, suc, ◌+◌, String, ◌≡◌, ap, keep, lookup-insert, inl, inr, not, ◌||◌, Option, none, some, List,
  [], ◌∷◌, ◌==◌, string_eq, if◌then◌else◌, arith, Bool-cases, lookup, insert, get, length, add64,
  sub64, le64,
}
use k8s_dencer.Model.Resources
use k8s_dencer.Model.Resources.{Resources, zero_resources}
use k8s_dencer.Model.Cluster.{Node, ClusterSnapshot, requested_on_node, label_zone}
use k8s_dencer.Model.Plan.{PlanStep, impact_green, impact_yellow, impact_red}

unfoldable pub zone : Node → String
unfolding get lookup
zone n = get n.labels label_zone

unfoldable pub instance_type : Node → String
unfolding get lookup
instance_type n = get n.labels "node.kubernetes.io/instance-type"

abbrev pub pool_labels : List String
pool_labels =
    "cloud.google.com/gke-nodepool" ∷ "eks.amazonaws.com/nodegroup" ∷ "karpenter.sh/nodepool"
    ∷ "karpenter.sh/provisioner-name" ∷ "kubernetes.azure.com/agentpool" ∷ "agentpool"
    ∷ "node.kubernetes.io/instancegroup" ∷ []

-- The loop of `Pool`.
unfoldable pub first_label : List String → List (String × String) → String
unfolding get lookup
first_label [] labels = ""
first_label (k ∷ keys) labels =
    if not (get labels k == "") then get labels k else first_label keys labels

unfoldable pub pool : Node → String
unfolding first_label
pool n = first_label pool_labels n.labels

unfoldable pub capacity_type : Node → String
unfolding get lookup instance_type
capacity_type n =
    if get n.labels "karpenter.sh/capacity-type" == "spot"
      || get n.labels "cloud.google.com/gke-spot" == "true"
      || get n.labels "cloud.google.com/gke-preemptible" == "true"
      || get n.labels "eks.amazonaws.com/capacityType" == "SPOT"
      || get n.labels "kubernetes.azure.com/scalesetpriority" == "spot"
    then "spot"
    else if not (get n.labels "karpenter.sh/capacity-type" == "")
        || not (get n.labels "eks.amazonaws.com/capacityType" == "")
    then "on-demand"
    else if not (instance_type n == "")
    then "on-demand"
    else ""

-- The two loops of `Totals`, each with its running total.
allocatable_from : Resources → List Node → Resources
unfolding Resources.add
allocatable_from total [] = total
allocatable_from total (n ∷ ns) = allocatable_from (Resources.add total n.allocatable) ns

requested_over : ClusterSnapshot → Resources → List Node → Resources
unfolding Resources.add
requested_over s total [] = total
requested_over s total (n ∷ ns) =
    requested_over s (Resources.add total (requested_on_node s n.name)) ns

unfoldable pub totals : ClusterSnapshot → Resources × Resources
unfolding allocatable_from requested_over
totals s = (allocatable_from zero_resources s.nodes, requested_over s zero_resources s.nodes)

-- `ReclaimedNodes`, of the plan's two counts.
unfoldable pub reclaimed_nodes : ℕ → ℕ → ℕ
unfolding le64 sub64
reclaimed_nodes nodes_before nodes_after =
    if le64 nodes_before nodes_after then 0 else sub64 nodes_before nodes_after

abbrev pub count_of : Option ℕ → ℕ
count_of none = 0
count_of (some c) = c

-- `out[key]++`; a count is at most the number of steps.
unfoldable pub tick : String → List (String × ℕ) → List (String × ℕ)
unfolding lookup insert
tick key counts = insert key (suc (count_of (lookup key counts))) counts

count_steps : List (String × ℕ) → List PlanStep → List (String × ℕ)
unfolding tick
count_steps counts [] = counts
count_steps counts (s ∷ steps) = count_steps (tick s.impact counts) steps

abbrev no_ratings : List (String × ℕ)
no_ratings = (impact_green, 0) ∷ (impact_yellow, 0) ∷ (impact_red, 0) ∷ []

unfoldable pub count_by_rating : List PlanStep → List (String × ℕ)
unfolding count_steps
count_by_rating steps = count_steps no_ratings steps

-- `byName`: the last node of a name stays.
last_named : String → List Node → Option Node
last_named name [] = none
last_named name (n ∷ ns) = elim (last_named name ns) [
  | some later ↦ some later
  | none ↦ if n.name == name then some n else none
]

reclaimable_from : ℕ → ℕ → List PlanStep → List Node → ℕ × ℕ
unfolding last_named add64
reclaimable_from cpu memory [] nodes = (cpu, memory)
reclaimable_from cpu memory (s ∷ steps) nodes = elim (last_named s.target_node nodes) [
  | none ↦ reclaimable_from cpu memory steps nodes
  | some n ↦
      reclaimable_from (add64 cpu n.allocatable.milli_cpu) (add64 memory n.allocatable.memory_bytes)
        steps nodes
]

-- CPU and memory.
unfoldable pub reclaimable_capacity : List PlanStep → ClusterSnapshot → ℕ × ℕ
unfolding reclaimable_from
reclaimable_capacity steps snap = reclaimable_from 0 0 steps snap.nodes

abbrev pub sum_of : List (String × ℕ) → ℕ
sum_of [] = 0
sum_of ((_, c) ∷ counts) = c + sum_of counts

sum_of-insert :
    (key : String) (new : ℕ) (counts : List (String × ℕ))
    → sum_of (insert key new counts) + count_of (lookup key counts) ≡ sum_of counts + new
unfolding insert lookup
sum_of-insert key new [] = omega arith
sum_of-insert key new ((k, c) ∷ counts) = elim (Bool-cases (k == key)) [
  | inl same ↦ rw same (omega arith)
  | inr other ↦ rw other (omega (arith, sum_of-insert key new counts))
]

sum_of-count_steps :
    (counts : List (String × ℕ)) (steps : List PlanStep)
    → sum_of (count_steps counts steps) ≡ sum_of counts + length steps
unfolding count_steps tick
sum_of-count_steps counts [] = omega arith
sum_of-count_steps counts (s ∷ steps) = omega (
  arith,
  sum_of-count_steps (tick s.impact counts) steps,
  sum_of-insert s.impact (suc (count_of (lookup s.impact counts))) counts,
)

-- The steps of a rating.
abbrev pub rated : String → List PlanStep → List PlanStep
rated rating steps = keep (λ s. s.impact == rating) steps

lookup-count_steps :
    (rating : String) (counts : List (String × ℕ)) (steps : List PlanStep)
    → count_of (lookup rating (count_steps counts steps))
      ≡ count_of (lookup rating counts) + length (rated rating steps)
unfolding count_steps tick keep
lookup-count_steps rating counts [] = omega arith
lookup-count_steps rating counts (s ∷ steps) =
    let new : ℕ = suc (count_of (lookup s.impact counts)) in
    let later = lookup-count_steps rating (tick s.impact counts) steps in
    elim (Bool-cases (s.impact == rating)) [
      | inl own ↦
          let same : s.impact ≡ rating = (string_eq.equals_iff s.impact rating).0 own in
          let more : count_of (lookup rating (insert s.impact new counts)) ≡ new =
            ap count_of (let read = lookup-insert s.impact rating new counts in (rw own at read)) in
          let was : count_of (lookup s.impact counts) ≡ count_of (lookup rating counts) =
            ap (λ r. count_of (lookup r counts)) same in
          rw own (omega (arith, later, more, was))
      | inr other ↦
          let kept : count_of (lookup rating (insert s.impact new counts))
              ≡ count_of (lookup rating counts) =
            ap count_of
              (let read = lookup-insert s.impact rating new counts in (rw other at read)) in
          rw other (omega (arith, later, kept))
    ]

no_steps : (rating : String) → count_of (lookup rating no_ratings) ≡ 0
unfolding lookup
no_steps rating = ground arith

-- The tally of every rating is the number of the steps of that rating, and the tallies add up to the number
-- of steps.
pub count_by_rating-length :
    (steps : List PlanStep)
    → ((rating : String)
        → count_of (lookup rating (count_by_rating steps)) ≡ length (rated rating steps))
      × (sum_of (count_by_rating steps) ≡ length steps)
unfolding count_by_rating
count_by_rating-length steps = (
  λ rating. omega (arith, lookup-count_steps rating no_ratings steps, no_steps rating),
  omega (arith, sum_of-count_steps no_ratings steps),
)
