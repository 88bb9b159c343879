-- ===== src/Safety/Refusal.antt =====
-- `CheckStep` of safety.go: what each refusal says is so.
use k8s_dencer.Base.{
  ℕ, ◌-◌, ◌≡◌, refl, sym, if◌then◌else◌, length, keep, inl, inr, true, false, ◌&&◌, none, some,
  List, ◌==◌, string_eq, Bool-cases, Option-cases, lt64, le64, Float64,
}
use mathlib.Core.Path.{subst}
use k8s_dencer.Model.Cluster.{Node, Pod, ClusterSnapshot, node_by_name}
use k8s_dencer.Model.Plan.{PlanStep, requires_maintenance_window}
use k8s_dencer.Constraints.State.{Placement}
use k8s_dencer.Constraints.Placement.{new_placement, occupants_of}
use k8s_dencer.Safety.Checks.{
  remove_each, schedulable, Windows, Guard, Blocked, too_many_drained, no_target, node_gone,
  no_windows, red_refused, below_floor, nowhere_to_go, no_headroom, ready_without, check_red,
  check_node_floor, check_step_feasible, check_step,
}
use k8s_dencer.Safety.Stuck.{ready_without_lem, StuckPod, rehome_each-some}

module _ (fl : Float64) (g : Guard) (step : PlanStep) (live : ClusterSnapshot) (drained : ℕ) where
  -- The pods that leave, and the placement without them.
  abbrev pub leavers : List Pod
  leavers = occupants_of (new_placement fl live) step.target_node

  abbrev pub vacated : Placement
  vacated = remove_each (new_placement fl live) leavers

  -- A Red step without an override.
  abbrev pub IsRestricted : Type 0
  IsRestricted = (requires_maintenance_window step.impact ≡ true) × (g.limits.allow_red ≡ false)

  -- What a refusal says, by the sentence. An eviction's refusal never comes of a step.
  abbrev pub IsTrue : Blocked → Type 0
  IsTrue (too_many_drained n) =
      (n ≡ drained)
      × ((lt64 0 g.limits.max_nodes_per_run && le64 g.limits.max_nodes_per_run drained) ≡ true)
  IsTrue (no_target n) = (n ≡ step.sequence_number) × (step.target_node ≡ "")
  IsTrue (node_gone target) =
      (target ≡ step.target_node) × (node_by_name live step.target_node ≡ none)
  IsTrue (no_windows n rationale) =
      (n ≡ step.sequence_number) × (rationale ≡ step.rationale) × IsRestricted × (g.windows ≡ none)
  IsTrue (red_refused n why rationale) =
      (n ≡ step.sequence_number)
      × (rationale ≡ step.rationale)
      × IsRestricted
      × (node : Node) × (node_by_name live step.target_node ≡ some node)
      × (w : Windows) × (g.windows ≡ some w)
      × ((w node).0 ≡ false)
      × (why ≡ (w node).1)
  IsTrue (below_floor target ready floor) =
      (node : Node) × (node_by_name live step.target_node ≡ some node)
      × (target ≡ node.name)
      × (floor ≡ g.limits.min_ready_nodes)
      × (ready ≡ length (keep schedulable live.nodes) - (if schedulable node then 1 else 0))
      × (lt64 ready floor ≡ true)
  IsTrue (nowhere_to_go namespace name target) =
      (target ≡ step.target_node) × StuckPod vacated leavers step.target_node namespace name
  IsTrue (no_headroom pdb namespace name) = ⊥

  check_red-IsTrue :
      (node : Node) (b : Blocked)
      → node_by_name live step.target_node ≡ some node
      → check_red g step node ≡ some b
      → IsTrue b
  unfolding check_red
  check_red-IsTrue node b found h = elim (Bool-cases (requires_maintenance_window step.impact)) [
    | inr green ↦ absurd (let h' = (rw (green, check_red) at h) in cc)
    | inl red ↦ elim (Bool-cases g.limits.allow_red) [
      | inl override ↦ absurd (let h' = (rw (red, override, check_red) at h) in cc)
      | inr strict ↦ elim (Option-cases g.windows) [
        | inl closed ↦
            let h' = (rw (red, strict, closed, check_red) at h) in
            let same : no_windows step.sequence_number step.rationale ≡ b = cc in
            subst IsTrue same (refl, refl, (red, strict), closed)
        | inr (w, windows) ↦ elim (Bool-cases (w node).0) [
          | inl allowed ↦
              absurd (let h' = (rw (red, strict, windows, allowed, check_red) at h) in cc)
          | inr refused ↦
              let h' = (rw (red, strict, windows, refused, check_red) at h) in
              let same : red_refused step.sequence_number (w node).1 step.rationale ≡ b = cc in
              subst IsTrue same (refl, refl, (red, strict), node, found, w, windows, refused, refl)
        ]
      ]
    ]
  ]

  check_node_floor-IsTrue :
      (node : Node) (b : Blocked)
      → node_by_name live step.target_node ≡ some node
      → check_node_floor g node live ≡ some b
      → IsTrue b
  unfolding check_node_floor
  check_node_floor-IsTrue node b found h = elim (Bool-cases (le64 g.limits.min_ready_nodes 0)) [
    | inl off ↦ absurd (let h' = (rw (off, check_node_floor) at h) in cc)
    | inr on ↦ elim (Bool-cases (lt64 (ready_without node live.nodes) g.limits.min_ready_nodes)) [
      | inr enough ↦ absurd (let h' = (rw (on, enough, check_node_floor) at h) in cc)
      | inl few ↦
          let h' = (rw (on, few, check_node_floor) at h) in
          let same : below_floor node.name (ready_without node live.nodes) g.limits.min_ready_nodes
              ≡ b =
            cc in
          subst IsTrue same (node, found, refl, refl, ready_without_lem node live.nodes, few)
    ]
  ]

  check_step_feasible-IsTrue : (b : Blocked) → check_step_feasible fl step live ≡ some b → IsTrue b
  unfolding check_step_feasible
  check_step_feasible-IsTrue b h =
      let (pod, stuck, same) = rehome_each-some step.target_node vacated leavers b h in
      subst IsTrue (sym same) (refl, stuck)

  -- Every refusal of a step is one that `CheckStep` can give, and its arguments and what they say are so: the
  -- cap is reached, the step has no target, the target is not in the cluster, the step is Red without an
  -- override and without a window that allows it on the target, the schedulable nodes without the target are
  -- the number it says and fewer than the floor, or a movable pod of the target, once those before it are
  -- rehomed, is refused by every other node.
  pub check_step-IsTrue : (b : Blocked) → check_step fl g step live drained ≡ some b → IsTrue b
  unfolding check_step
  check_step-IsTrue b h =
      elim (Bool-cases
        (lt64 0 g.limits.max_nodes_per_run && le64 g.limits.max_nodes_per_run drained)) [
          | inl over ↦
              let h' = (rw (over, check_step) at h) in
              let same : too_many_drained drained ≡ b = cc in subst IsTrue same (refl, over)
          | inr under ↦ elim (Bool-cases (step.target_node == "")) [
            | inl unnamed ↦
                let h' = (rw (under, unnamed, check_step) at h) in
                let same : no_target step.sequence_number ≡ b = cc in
                subst IsTrue same (refl, (string_eq.equals_iff step.target_node "").0 unnamed)
            | inr targeted ↦ elim (Option-cases (node_by_name live step.target_node)) [
              | inl gone ↦
                  let h' = (rw (under, targeted, gone, check_step) at h) in
                  let same : node_gone step.target_node ≡ b = cc in subst IsTrue same (refl, gone)
              | inr (node, found) ↦ elim (Option-cases (check_red g step node)) [
                | inr (c, red) ↦
                    let h' = (rw (under, targeted, found, red, check_step) at h) in
                    let same : c ≡ b = cc in subst IsTrue same (check_red-IsTrue node c found red)
                | inl red ↦ elim (Option-cases (check_node_floor g node live)) [
                  | inr (c, floor) ↦
                      let h' = (rw (under, targeted, found, red, floor, check_step) at h) in
                      let same : c ≡ b = cc in
                      subst IsTrue same (check_node_floor-IsTrue node c found floor)
                  | inl floor ↦
                      check_step_feasible-IsTrue b
                        (rw (under, targeted, found, red, floor, check_step) at h)
                ]
              ]
            ]
          ]
        ]
