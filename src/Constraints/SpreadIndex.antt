-- ===== src/Constraints/SpreadIndex.antt =====
-- internal/constraints/spreadindex.go: how many matching pods sit in each topology domain, computed
-- at first use and then kept up to date as pods are placed and removed.
use Prim.Native.String.{◌++◌ as str_append}
use k8s_dencer.Base.{
  ℕ, String, Bool, ◌&&◌, Option, none, some, List, [], ◌∷◌, map, ◌==◌, string_eq, if◌then◌else◌,
  lookup, insert, get, add64, sort_strings,
}
use k8s_dencer.Model.Labels.{LabelSelector, SelectorRequirement, TopologySpreadConstraint, matches}
use k8s_dencer.Model.Cluster.{Pod}
use k8s_dencer.Constraints.State.{NodeState, SpreadKey, spread_key_eq, SpreadEntry, Placement}

-- `strings.Join`
join : String → List String → String
join sep [] = ""
join sep (s ∷ []) = s
join sep (s ∷ t ∷ rest) = str_append s (str_append sep (join sep (t ∷ rest)))

-- The loop that writes `k=v,` for the sorted keys.
unfoldable pub render_labels : List String → List (String × String) → String
unfolding get lookup
render_labels [] labels = ""
render_labels (k ∷ keys) labels =
    str_append k
      (str_append "=" (str_append (get labels k) (str_append "," (render_labels keys labels))))

render_requirement : SelectorRequirement → String
unfolding join sort_strings
render_requirement e = str_append e.key (
    str_append " "
      (str_append e.operator (str_append " [" (str_append (join "|" (sort_strings e.values)) "]"))))

abbrev render_expressions : List SelectorRequirement → String
unfolding render_requirement
render_expressions [] = ""
render_expressions (e ∷ es) =
    str_append ";" (join ";" (sort_strings (map render_requirement (e ∷ es))))

unfoldable pub selector_fingerprint : Option LabelSelector → String
unfolding render_labels render_requirement sort_strings join
selector_fingerprint none = ""
selector_fingerprint (some s) =
    str_append (render_labels (sort_strings (map (λ (k, v). k) s.match_labels)) s.match_labels)
      (render_expressions s.match_expressions)

-- `counts[domain]` as an `int`: 0 on a missing key.
unfoldable pub count_in : List (String × ℕ) → String → ℕ
unfolding lookup
count_in counts domain = elim (lookup domain counts) [ some c ↦ c | none ↦ 0 ]

-- `counts[domain] += delta`
unfoldable pub bump : String → ℕ → List (String × ℕ) → List (String × ℕ)
unfolding insert count_in
bump domain delta counts = insert domain (add64 (count_in counts domain) delta) counts

-- Whether a pod counts towards a selector in a namespace.
unfoldable pub counts_for : String → Option LabelSelector → Pod → Bool
counts_for namespace selector pod = pod.namespace == namespace && matches selector pod.labels

-- The inner loop of the first-use pass: `counts[domain]++` for each matching occupant.
unfoldable pub tally_occupants :
    String → Option LabelSelector → String → List Pod → List (String × ℕ) → List (String × ℕ)
unfolding bump counts_for
tally_occupants namespace selector domain [] counts = counts
tally_occupants namespace selector domain (occupant ∷ rest) counts =
    tally_occupants namespace selector domain rest
      (if counts_for namespace selector occupant then bump domain 1 counts else counts)

unfoldable pub seed : String → List (String × ℕ) → List (String × ℕ)
unfolding lookup insert
seed domain counts = elim (lookup domain counts) [ some _ ↦ counts | none ↦ insert domain 0 counts ]

-- One round of the outer loop. A name in the order has a node (`WellFormed` of Constraints.Shape).
unfoldable pub tally_node :
    String
    → Option LabelSelector
    → String
    → Option NodeState
    → List (String × ℕ)
    → List (String × ℕ)
unfolding lookup seed tally_occupants
tally_node namespace selector topology_key none counts = counts
tally_node namespace selector topology_key (some ns) counts =
    elim (lookup topology_key ns.node.labels) [
      | none ↦ counts
      | some domain ↦ tally_occupants namespace selector domain ns.occupants (seed domain counts)
    ]

unfoldable pub tally :
    String
    → Option LabelSelector
    → String
    → List (String × NodeState)
    → List String
    → List (String × ℕ)
    → List (String × ℕ)
unfolding tally_node lookup
tally namespace selector topology_key nodes [] counts = counts
tally namespace selector topology_key nodes (name ∷ rest) counts =
    tally namespace selector topology_key nodes rest
      (tally_node namespace selector topology_key (lookup name nodes) counts)

abbrev pub key_of : String → TopologySpreadConstraint → SpreadKey
key_of namespace tsc = record {
  topology_key = tsc.topology_key;
  namespace = namespace;
  selector = selector_fingerprint tsc.label_selector;
}

-- A pass over the whole placement, as the first use makes it.
abbrev pub recount : Placement → SpreadKey → Option LabelSelector → List (String × ℕ)
recount p key selector = tally key.namespace selector key.topology_key p.nodes p.node_order []

-- The method memoises, so it returns the placement too.
unfoldable pub spread_counts :
    Placement → String → TopologySpreadConstraint → Placement × List (String × ℕ)
unfolding lookup insert tally
spread_counts p namespace tsc =
    let key = key_of namespace tsc in
    elim (lookup key p.spread) [
      | some e ↦ (p, e.counts)
      | none ↦
          let counts = recount p key tsc.label_selector in
          let e : SpreadEntry = record { counts = counts; selector = tsc.label_selector } in
          (record p { spread = insert key e p.spread }, counts)
    ]

-- The body of `adjustSpread`'s loop over the entries.
unfoldable pub adjust_entry : Pod → NodeState → ℕ → SpreadKey → SpreadEntry → SpreadEntry
unfolding lookup bump
adjust_entry pod ns delta key entry =
    if key.namespace == pod.namespace
    then elim (lookup key.topology_key ns.node.labels) [
      | none ↦ entry
      | some domain ↦
          if matches entry.selector pod.labels
          then record entry { counts = bump domain delta entry.counts }
          else entry
    ]
    else entry

unfoldable pub adjust_entries :
    Pod → NodeState → ℕ → List (SpreadKey × SpreadEntry) → List (SpreadKey × SpreadEntry)
unfolding adjust_entry
adjust_entries pod ns delta [] = []
adjust_entries pod ns delta ((key, entry) ∷ rest) =
    (key, adjust_entry pod ns delta key entry) ∷ adjust_entries pod ns delta rest

-- With no entry the early return changes nothing, as does the loop.
unfoldable pub adjust_spread : Placement → Pod → String → ℕ → Placement
unfolding lookup adjust_entries
adjust_spread p pod node_name delta = elim (lookup node_name p.nodes) [
  | none ↦ p
  | some ns ↦ record p { spread = adjust_entries pod ns delta p.spread }
]
