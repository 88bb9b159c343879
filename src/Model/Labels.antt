-- ===== src/Model/Labels.antt =====
-- internal/model/constraints.go: taints and tolerations, label selectors, affinity and spread terms.
-- A Go string type with constants is a `String` with constants, since other values occur ("").
use k8s_dencer.Base.{
  ℕ, String, Bool, true, false, not, ◌&&◌, ◌||◌, Option, none, some, List, [], ◌∷◌, ◌==◌, string_eq,
  if◌then◌else◌, all, contains, lookup, get,
}

abbrev pub no_schedule : String
no_schedule = "NoSchedule"

abbrev pub prefer_no_schedule : String
prefer_no_schedule = "PreferNoSchedule"

abbrev pub no_execute : String
no_execute = "NoExecute"

pub record Taint : Type 0 where
  pub key : String
  pub value : String
  pub effect : String

pub record Toleration : Type 0 where
  pub key : String
  pub operator : String
  pub value : String
  pub effect : String

-- The `switch t.Operator` at the end of `ToleratesTaint`.
operator_tolerates : Toleration → Taint → Bool
operator_tolerates t taint =
    if t.operator == "Exists"
    then true
    else if t.operator == "Equal" || t.operator == ""
    then t.value == taint.value
    else false

unfoldable pub tolerates_taint : Toleration → Taint → Bool
unfolding operator_tolerates
tolerates_taint t taint =
    if not (t.effect == "") && not (t.effect == taint.effect)
    then false
    else if t.key == ""
    then t.operator == "Exists"
    else if not (t.key == taint.key)
    then false
    else operator_tolerates t taint

pub record SelectorRequirement : Type 0 where
  pub key : String
  pub operator : String
  pub values : List String

pub record LabelSelector : Type 0 where
  pub match_labels : List (String × String)
  pub match_expressions : List SelectorRequirement

abbrev pub is_nil {ℓ} : {A : Type ℓ} → List A → Bool
is_nil [] = true
is_nil (x ∷ xs) = false

-- The methods have pointer receivers: `none` is the nil selector.
unfoldable pub is_empty : Option LabelSelector → Bool
is_empty none = true
is_empty (some s) = is_nil s.match_labels && is_nil s.match_expressions

abbrev is_some {ℓ} : {A : Type ℓ} → Option A → Bool
is_some none = false
is_some (some a) = true

-- `SelectorRequirement.matches`
unfoldable pub requirement_matches : SelectorRequirement → List (String × String) → Bool
unfolding contains get lookup
requirement_matches r labels =
    let v = get labels r.key in
    let present = is_some (lookup r.key labels) in
    if r.operator == "Exists"
    then present
    else if r.operator == "DoesNotExist"
    then not present
    else if r.operator == "In"
    then present && contains r.values v
    else if r.operator == "NotIn"
    then not present || not (contains r.values v)
    else false

-- The loop over `MatchLabels`; nodes' selectors and windows' selectors are read by the same loop.
unfoldable pub labels_match : List (String × String) → List (String × String) → Bool
unfolding all get lookup
labels_match wanted labels = all (λ (k, v). get labels k == v) wanted

-- `LabelSelector.Matches`
unfoldable pub matches : Option LabelSelector → List (String × String) → Bool
unfolding labels_match requirement_matches all
matches none labels = true
matches (some s) labels =
    labels_match s.match_labels labels
    && all (λ req. requirement_matches req labels) s.match_expressions

pub record NodeSelectorTerm : Type 0 where
  pub match_expressions : List SelectorRequirement
  pub match_fields : List SelectorRequirement

pub record NodeAffinity : Type 0 where
  pub required_terms : List NodeSelectorTerm

pub record PodAffinityTerm : Type 0 where
  pub label_selector : Option LabelSelector
  pub topology_key : String
  pub namespaces : List String

pub record PodAffinity : Type 0 where
  pub required_affinity : List PodAffinityTerm
  pub required_anti_affinity : List PodAffinityTerm

pub record TopologySpreadConstraint : Type 0 where
  pub max_skew : ℕ  -- int32
  pub topology_key : String
  pub when_unsatisfiable : String
  pub label_selector : Option LabelSelector
  pub min_domains : Option ℕ  -- *int32

unfoldable pub is_hard : TopologySpreadConstraint → Bool
is_hard t = t.when_unsatisfiable == "DoNotSchedule"
