-- ===== src/Constraints/Analysis.antt =====
-- internal/constraints/constraints.go: the analysis of a whole snapshot and the questions that are asked
-- of it; `Analyze` itself stands in analyzer.go.
use Prim.Native.String.{◌++◌ as str_append}
use k8s_dencer.Base.{
  ℕ, String, Bool, true, false, not, Option, none, some, List, [], ◌∷◌, ◌++◌, ◌==◌, string_eq,
  if◌then◌else◌, keep, find, sort_by, string_lt, Float64,
}
use k8s_dencer.Model.Cluster.{ClusterSnapshot}
use k8s_dencer.Constraints.Placement.{new_placement}
use k8s_dencer.Constraints.Analyzer.{named, kind_resources, Constraint, PodConstraints, analyze_all}

-- `PodConstraints.Key`
unfoldable pub constraints_key : PodConstraints → String
constraints_key pc = str_append pc.namespace (str_append "/" pc.name)

-- `Blockers`
unfoldable pub blockers : PodConstraints → List Constraint
unfolding keep
blockers pc = keep (λ c. c.blocking) pc.constraints

-- `index` is there on an analysis that was computed, and not on one that was read back.
pub record Analysis : Type 0 where
  pub taken_at : ℕ
  pub pods : List PodConstraints
  pub indexed : Bool

unfoldable pub analyze : Float64 → ClusterSnapshot → Analysis
unfolding new_placement analyze_all sort_by constraints_key
analyze fl snap = record {
  taken_at = snap.taken_at;
  pods =
      sort_by (λ a b. string_lt (constraints_key a) (constraints_key b))
        (analyze_all (new_placement fl snap) snap snap.pods);
  indexed = true;
}

-- What the index leads to: it is filled from first to last, so that the last pod of a key stays.
last_of : String → List PodConstraints → Option PodConstraints
unfolding constraints_key
last_of key [] = none
last_of key (pc ∷ pods) = elim (last_of key pods) [
  | some later ↦ some later
  | none ↦ if constraints_key pc == key then some pc else none
]

unfoldable pub for_pod : Analysis → String → Option PodConstraints
unfolding last_of find constraints_key
for_pod a key =
    if a.indexed then last_of key a.pods else find (λ pc. constraints_key pc == key) a.pods

unfoldable pub for_node : Analysis → String → List PodConstraints
unfolding keep
for_node a node_name = keep (λ pc. pc.node_name == node_name) a.pods

abbrev nowhere : PodConstraints → Constraint
nowhere pc = record {
  kind = kind_resources;
  subject = named (constraints_key pc);
  hard = true;
  blocking = true;
}

-- The body of the loop of `NodeDrainable`: whether the pod stands in the way, and with what.
unfoldable pub in_the_way : PodConstraints → Bool × List Constraint
unfolding blockers
in_the_way pc =
    if pc.is_pinned
    then (false, [])
    else if not pc.movable
    then (true, blockers pc)
    else elim pc.candidates [ [] ↦ (true, nowhere pc ∷ []) | _ ∷ _ ↦ (false, []) ]

unfoldable pub drainable_from : List PodConstraints → Bool × List Constraint
unfolding in_the_way
drainable_from [] = (true, [])
drainable_from (pc ∷ pods) =
    let (blocked, found) = in_the_way pc in
    let (drainable, others) = drainable_from pods in
    (if blocked then false else drainable, found ++ others)

unfoldable pub node_drainable : Analysis → String → Bool × List Constraint
unfolding drainable_from for_node
node_drainable a node_name = drainable_from (for_node a node_name)
