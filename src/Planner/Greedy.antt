-- ===== src/Planner/Greedy.antt =====
-- internal/planner/greedy.go: first-fit-decreasing packing, one node after another. Identifiers of plans
-- and steps are hashes of what is modelled here, and are left out.
use k8s_dencer.Base.{
  ℕ, suc, ◌+◌, String, Bool, false, not, ◌&&◌, ◌||◌, Option, none, some, List, [], ◌∷◌, ◌++◌, ◌==◌,
  string_eq, nat_eq, if◌then◌else◌, lt64, le64, sub64, find, length, contains, string_lt, sort_by,
  Float64,
}
use k8s_dencer.Model.Resources
use k8s_dencer.Model.Resources.{Resources, zero_resources, one_pod}
use k8s_dencer.Model.Cluster.{Node, Pod, is_movable, pod_key, ClusterSnapshot, requested_on_node}
use k8s_dencer.Model.Plan.{Move, PlanStep}
use k8s_dencer.Constraints.State.{Placement}
use k8s_dencer.Constraints.Placement.{
  new_placement_ceiling, free_of, occupants_of, is_vacant, place, remove,
}
use k8s_dencer.Constraints.CanPlace.{can_place}
use k8s_dencer.Constraints.Analysis.{Analysis, for_pod}
use k8s_dencer.Planner.Policy.{
  Options, namespace_excluded, dominant_ratio, drain_candidates, sort_nodes_for_draining,
  sort_pods_by_size_desc, occupied_in_snapshot,
}

-- What the planner reads of an analysis: for a pod's key, whether the pod is movable, if it is known.
abbrev pub Verdicts : Type 0
Verdicts = String → Option Bool

unfoldable pub verdicts_of : Analysis → Verdicts
unfolding for_pod
verdicts_of analysis key = elim (for_pod analysis key) [ none ↦ none | some pc ↦ some pc.movable ]

unfoldable pub find_pod : Placement → String → String → String → Option Pod
unfolding find occupants_of
find_pod p node_name namespace name =
    find (λ o. o.namespace == namespace && o.name == name) (occupants_of p node_name)

used_from : Resources → List Pod → Resources
unfolding Resources.add
used_from used [] = used
used_from used (p ∷ ps) = used_from (Resources.add (Resources.add used p.requests) one_pod) ps

unfoldable pub free_basis : Placement → String → Resources
unfolding used_from free_of occupants_of Resources.add
free_basis trial name =
    Resources.add (free_of trial name) (used_from zero_resources (occupants_of trial name))

-- The commit loop of `Plan`.
unfoldable pub commit : Placement → List Move → Placement
unfolding find_pod place remove
commit work [] = work
commit work (m ∷ moves) =
    commit
      (elim (find_pod work m.from_node m.namespace m.pod) [
        | none ↦ work
        | some pod ↦ place (remove work pod) pod m.to_node
      ])
      moves

-- The first loop of `tryDrain`: the pods to relocate, or `none` if one of them may not move.
unfoldable pub collect :
    {O : Type 0} → (O → String → Bool) → O → Verdicts → List Pod → Option (List Pod)
collect excluded opts analysis [] = some []
collect excluded opts analysis (p ∷ ps) =
    let others = collect excluded opts analysis ps in
    if not (is_movable p)
    then others
    else if excluded opts p.namespace
    then none
    else elim (analysis (pod_key p)) [
      | some false ↦ none
      | _ ↦ elim others [ none ↦ none | some pods ↦ some (p ∷ pods) ]
    ]

module _ (fl : Float64) where
  open fl use {F, of_int64, sub, lt, eq}

  -- A destination and how full it is.
  pub record Candidate : Type 0 where
    pub name : String
    pub used : fl.F

  -- The loop of `firstFit`.
  unfoldable pub options_from :
      Placement → Pod → String → List String → List String → Placement × List Candidate
  unfolding contains dominant_ratio free_of free_basis
  options_from trial pod source drained [] = (trial, [])
  options_from trial pod source drained (name ∷ rest) =
      let skipped = options_from trial pod source drained rest in
      let (trial', refused) = can_place trial pod name in
      let (trial'', others) = options_from trial' pod source drained rest in
      if name == source || contains drained name then skipped else elim refused [
        | some _ ↦ (trial'', others)
        | none ↦ (
          trial'',
          record {
            name = name;
            used =
                sub (of_int64 1) (dominant_ratio fl (free_of trial' name) (free_basis trial' name));
          }
              ∷ others,
        )
      ]

  unfoldable pub fuller : Candidate → Candidate → Bool
  fuller a b = if not (eq a.used b.used) then lt b.used a.used else string_lt a.name b.name

  abbrev pub first_name : List Candidate → String
  first_name [] = ""
  first_name (c ∷ _) = c.name

  -- The name of the best option, "" if there is none.
  unfoldable pub best : List Candidate → String
  unfolding sort_by fuller
  best options = first_name (sort_by fuller options)

  unfoldable pub first_fit : Placement → Pod → String → List String → Placement × String
  unfolding options_from best
  first_fit trial pod source drained =
      let (trial', options) = options_from trial pod source drained trial.node_order in
      (trial', best options)

  abbrev pub move_of : Pod → String → String → Move
  move_of p source target = record {
    namespace = p.namespace;
    pod = p.name;
    from_node = source;
    to_node = target;
    cpu_milli = p.requests.milli_cpu;
    memory_bytes = p.requests.memory_bytes;
  }

  -- The second loop of `tryDrain`.
  unfoldable pub relocate : Placement → String → List String → List Pod → Option (List Move)
  unfolding first_fit place remove
  relocate trial source drained [] = some []
  relocate trial source drained (p ∷ ps) =
      let (trial', target) = first_fit trial p source drained in
      let later = relocate (place (remove trial' p) p target) source drained ps in
      if target == ""
      then none
      else elim later [ none ↦ none | some moves ↦ some (move_of p source target ∷ moves) ]

  unfoldable pub try_drain :
      Placement → Node → List String → Verdicts → Options fl → Option (List Move)
  unfolding collect namespace_excluded sort_pods_by_size_desc relocate occupants_of
  try_drain work node drained analysis opts =
      elim (collect (namespace_excluded fl) opts analysis (occupants_of work node.name)) [
        | none ↦ none
        | some [] ↦ none
        | some (p ∷ ps) ↦ relocate work node.name drained (sort_pods_by_size_desc (p ∷ ps))
      ]

  -- The variables of the loop of `Plan`.
  pub record Progress : Type 0 where
    pub work : Placement
    pub drained : List String
    pub steps : List PlanStep
    pub already_reclaimable : ℕ

  abbrev pub step_of : Progress → Node → List Move → PlanStep
  step_of s node moves = record {
    sequence_number = length s.steps + 1;
    target_node = node.name;
    moves = moves;
    impact = "";
    rationale = "";
    reasons = [];
  }

  -- One candidate.
  unfoldable pub visit : ClusterSnapshot → Verdicts → Options fl → Node → Progress → Progress
  unfolding is_vacant try_drain commit
  visit snap analysis opts node s =
      if is_vacant s.work node.name
      then record s {
        drained = node.name ∷ s.drained;
        already_reclaimable =
            if Resources.is_zero (requested_on_node snap node.name)
            then s.already_reclaimable
            else suc s.already_reclaimable;
      }
      else elim (try_drain s.work node s.drained analysis opts) [
        | none ↦ s
        | some moves ↦ record {
          work = commit s.work moves;
          drained = node.name ∷ s.drained;
          steps = s.steps ++ step_of s node moves ∷ [];
          already_reclaimable = s.already_reclaimable;
        }
      ]

  abbrev pub is_full : Options fl → Progress → Bool
  is_full opts s = lt64 0 opts.max_steps && le64 opts.max_steps (length s.steps)

  unfoldable pub visit_all :
      ClusterSnapshot → Verdicts → Options fl → List Node → Progress → Progress
  unfolding visit
  visit_all snap analysis opts [] s = s
  visit_all snap analysis opts (node ∷ nodes) s =
      let later = visit_all snap analysis opts nodes (visit snap analysis opts node s) in
      if is_full opts s then s else later

  pub record Plan : Type 0 where
    pub snapshot_taken_at : ℕ
    pub steps : List PlanStep
    pub nodes_before : ℕ
    pub nodes_after : ℕ
    pub already_reclaimable : ℕ
    pub pack_ceiling : fl.F

  abbrev pub reference_time : ClusterSnapshot → Options fl → ℕ
  reference_time snap opts = if opts.now == 0 then snap.taken_at else opts.now

  abbrev pub start : ClusterSnapshot → Options fl → Progress
  start snap opts = record {
    work = new_placement_ceiling fl snap opts.pack_ceiling;
    drained = [];
    steps = [];
    already_reclaimable = 0;
  }

  -- The candidates in the order in which they are visited.
  unfoldable pub drain_order : ClusterSnapshot → Options fl → List Node
  unfolding drain_candidates sort_nodes_for_draining
  drain_order snap opts =
      sort_nodes_for_draining fl (new_placement_ceiling fl snap opts.pack_ceiling)
        (drain_candidates fl snap opts (reference_time snap opts))

  unfoldable pub plan : ClusterSnapshot → Verdicts → Options fl → Plan
  unfolding drain_order visit_all occupied_in_snapshot sub64
  plan snap analysis opts =
      let s = visit_all snap analysis opts (drain_order snap opts) (start snap opts) in
      let nodes_before = occupied_in_snapshot snap in
      record {
        snapshot_taken_at = snap.taken_at;
        steps = s.steps;
        nodes_before = nodes_before;
        nodes_after = sub64 (sub64 nodes_before (length s.steps)) s.already_reclaimable;
        already_reclaimable = s.already_reclaimable;
        pack_ceiling = opts.pack_ceiling;
      }
