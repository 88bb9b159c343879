-- ===== src/Safety/Clear.antt =====
-- `CheckStep` of safety.go: what consent guarantees, and what each refusal says.
use k8s_dencer.Base.{
  ℕ, suc, ◌≤◌, ◌<◌, ◌^◌, String, ◌≡◌, ◌≢◌, refl, ◌⊎◌, inl, inr, true, false, not, ◌&&◌, none, some,
  List, [], ◌∷◌, ◌==◌, string_eq, if◌then◌else◌, arith, Bool-cases, Option-cases, lt64, le64,
  lt64-eq-ltb, le64-eq-leb, find, length, contains, Float64,
}
use mathlib.Core.Path.{subst}
use text.Mathlib.TextEquality.{eq_iff}
use k8s_dencer.Model.Cluster.{Node, ClusterSnapshot, node_by_name}
use k8s_dencer.Model.Plan.{PlanStep, impact_red, requires_maintenance_window}
use k8s_dencer.Constraints.Placement.{names_of}
use k8s_dencer.Constraints.Coherence.Count.{Distinct}
use k8s_dencer.Safety.Checks.{
  Windows, Guard, schedulable, ready_count, ready_without, check_red, check_node_floor,
  check_step_feasible, check_step,
}

-- The schedulable nodes other than the target.
unfoldable pub schedulable_others : String → List Node → ℕ
schedulable_others target [] = 0
schedulable_others target (n ∷ ns) =
    let rest = schedulable_others target ns in
    if not (n.name == target) && schedulable n then suc rest else rest

-- Where the target's name does not occur, every schedulable node is another one.
others_absent :
    (target : String) (nodes : List Node)
    → contains (names_of nodes) target ≡ false
    → schedulable_others target nodes ≡ ready_count nodes
unfolding schedulable_others ready_count contains names_of
others_absent target [] h = refl
others_absent target (n ∷ ns) h = ground (arith, others_absent target ns)

-- A schedulable node that is found was counted.
found_counted :
    (target : String) (nodes : List Node) (node : Node)
    → find (λ n. n.name == target) nodes ≡ some node
    → schedulable node ≡ true
    → 0 < ready_count nodes
unfolding ready_count find
found_counted target [] node h s = cc
found_counted target (n ∷ ns) node h s = elim (Bool-cases (n.name == target)) [
  | inl same ↦ ground arith
  | inr other ↦ ground (arith, found_counted target ns node (rw other at h))
]

-- In a cluster of distinct names the guard's count is the number of schedulable other nodes.
ready_without-others :
    (target : String) (nodes : List Node) (node : Node)
    → Distinct (names_of nodes)
    → find (λ n. n.name == target) nodes ≡ some node
    → ready_without node nodes ≡ schedulable_others target nodes
unfolding ready_without schedulable_others ready_count find names_of contains
ready_without-others target [] node d h = cc
ready_without-others target (n ∷ ns) node d h = elim (Bool-cases (n.name == target)) [
  | inl same ↦
      let absent =
        others_absent target ns
          (subst (λ t. contains (names_of ns) t ≡ false) ((eq_iff n.name target).0 same) d.0) in
      ground (arith, absent)
  | inr other ↦
      let h' : find (λ x. x.name == target) ns ≡ some node = rw other at h in
      ground (arith, ready_without-others target ns node d.1 h', found_counted target ns node h')
]

ready_count-le : (nodes : List Node) → ready_count nodes ≤ length nodes
unfolding ready_count
ready_count-le [] = omega arith
ready_count-le (n ∷ ns) = ground (arith, ready_count-le ns)

ready_without-le : (node : Node) (nodes : List Node) → ready_without node nodes ≤ length nodes
unfolding ready_without
ready_without-le node nodes = ground (arith, ready_count-le nodes)

under_cap :
    (max drained : ℕ)
    → max < 2 ^ 63
    → drained < 2 ^ 63
    → (lt64 0 max && le64 max drained) ≡ false
    → (max ≡ 0) ⊎ (drained < max)
under_cap max drained hm hd h =
    ground (arith, lt64-eq-ltb 0 max (omega arith) hm, le64-eq-leb max drained hm hd)

-- The rails of one check, said of the step, the live snapshot and the run.
module _ (fl : Float64) (g : Guard) (step : PlanStep) (live : ClusterSnapshot) (drained : ℕ) where
  -- The limits are not negative and the counts do not overflow an `int`.
  pub record InRange : Type 0 where
    pub max : g.limits.max_nodes_per_run < 2 ^ 63
    pub min : g.limits.min_ready_nodes < 2 ^ 63
    pub run : drained < 2 ^ 63
    pub fleet : length live.nodes < 2 ^ 63

  -- A Red step has an override or an open window that allows it on the node.
  abbrev pub RedAllowed : Node → Type 0
  RedAllowed node =
      (step.impact ≢ impact_red)
      ⊎ (g.limits.allow_red ≡ true)
      ⊎ ((w : Windows) × (g.windows ≡ some w) × ((w node).0 ≡ true))

  pub record IsClear (node : Node) : Type 0 where
    pub found : node_by_name live step.target_node ≡ some node
    pub named : step.target_node ≢ ""
    pub capped : (g.limits.max_nodes_per_run ≡ 0) ⊎ (drained < g.limits.max_nodes_per_run)
    pub red : RedAllowed node
    pub floor : g.limits.min_ready_nodes ≤ schedulable_others step.target_node live.nodes
    pub feasible : check_step_feasible fl step live ≡ none

  check_red-none : (node : Node) → check_red g step node ≡ none → RedAllowed node
  unfolding check_red requires_maintenance_window
  check_red-none node h = elim (Bool-cases (step.impact == impact_red)) [
    | inr other ↦ inl (λ e. let e' = (eq_iff step.impact impact_red).1 e in cc)
    | inl red ↦ elim (Bool-cases g.limits.allow_red) [
      | inl override ↦ inr (inl override)
      | inr strict ↦ elim (Option-cases g.windows) [
        | inl closed ↦ absurd (let h' = (rw (red, strict, closed, check_red) at h) in cc)
        | inr (w, open_) ↦ elim (Bool-cases (w node).0) [
          | inl allowed ↦ inr (inr (w, open_, allowed))
          | inr refused ↦ absurd (let h' = (rw (red, strict, open_, refused, check_red) at h) in cc)
        ]
      ]
    ]
  ]

  check_node_floor-none :
      (node : Node)
      → InRange
      → Distinct (names_of live.nodes)
      → node_by_name live step.target_node ≡ some node
      → check_node_floor g node live ≡ none
      → g.limits.min_ready_nodes ≤ schedulable_others step.target_node live.nodes
  unfolding check_node_floor node_by_name
  check_node_floor-none node r d e h = ground (
    arith,
    le64-eq-leb g.limits.min_ready_nodes 0 r.min (omega arith),
    lt64-eq-ltb (ready_without node live.nodes) g.limits.min_ready_nodes
        (omega (arith, ready_without-le node live.nodes, r.fleet)) r.min,
    ready_without-others step.target_node live.nodes node d e,
  )

  -- If the guard consents to a step, in a cluster of distinct node names, then the run has not reached
  -- its cap, the target exists, a Red step has the override or an open window that allows it on the
  -- target, as many schedulable nodes as the floor asks for remain besides the target, and the
  -- relocation of the target's pods is feasible.
  pub check_step-IsClear :
      InRange
      → Distinct (names_of live.nodes)
      → check_step fl g step live drained ≡ none
      → (node : Node) × IsClear node
  unfolding check_step
  check_step-IsClear r d h =
      elim (Bool-cases
        (lt64 0 g.limits.max_nodes_per_run && le64 g.limits.max_nodes_per_run drained)) [
          | inl over ↦ absurd (let h' = (rw (over, check_step) at h) in cc)
          | inr under ↦ elim (Bool-cases (step.target_node == "")) [
            | inl unnamed ↦ absurd (let h' = (rw (under, unnamed, check_step) at h) in cc)
            | inr named ↦ elim (Option-cases (node_by_name live step.target_node)) [
              | inl gone ↦ absurd (let h' = (rw (under, named, gone, check_step) at h) in cc)
              | inr (node, found) ↦ elim (Option-cases (check_red g step node)) [
                | inr (b, red) ↦
                    absurd (let h' = (rw (under, named, found, red, check_step) at h) in cc)
                | inl red ↦ elim (Option-cases (check_node_floor g node live)) [
                  | inr (b, floor) ↦
                      absurd
                        (let h' = (rw (under, named, found, red, floor, check_step) at h) in cc)
                  | inl floor ↦ (
                    node,
                    record {
                      found = found;
                      named = λ e. let e' = (eq_iff step.target_node "").1 e in cc;
                      capped = under_cap g.limits.max_nodes_per_run drained r.max r.run under;
                      red = check_red-none node red;
                      floor = check_node_floor-none node r d found floor;
                      feasible = rw (under, named, found, red, floor, check_step) at h;
                    },
                  )
                ]
              ]
            ]
          ]
        ]
