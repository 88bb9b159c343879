-- ===== src/Safety/Eviction.antt =====
-- `CheckEviction` of safety.go: the last gate before one pod is evicted.
use k8s_dencer.Base.{
  All, All-map, keep, not, some, ◌==◌, ◌≢◌, ◌⊎◌, ◌<◌, ◌^◌, ◌≡◌, refl, ◌↔◌, inl, inr, Bool, true,
  false, ◌&&◌, none, List, [], ◌∷◌, arith, Bool-cases, Option-cases, le32, find, string_eq,
}
use mathlib.Core.Path.{subst}
use k8s_dencer.Model.Labels.{LabelSelector, is_nil, is_empty, matches}
use k8s_dencer.Model.Cluster.{Pod, PodDisruptionBudget, blocks, ClusterSnapshot}
use k8s_dencer.Safety.Checks.{covers, check_eviction}

-- A 32-bit signed number above 0.
abbrev pub HasHeadroom : PodDisruptionBudget → Type 0
HasHeadroom pdb = (0 < pdb.disruptions_allowed) × (pdb.disruptions_allowed < 2 ^ 31)

blocks-false :
    (pdb : PodDisruptionBudget)
    → pdb.disruptions_allowed < 2 ^ 32
    → (blocks pdb ≡ false) ↔ HasHeadroom pdb
unfolding blocks le32
blocks-false pdb h = ground arith

-- A pattern of an int32.
abbrev pub IsInt32 : PodDisruptionBudget → Type 0
IsInt32 pdb = pdb.disruptions_allowed < 2 ^ 32

-- A selector that asks for something.
abbrev pub Asks : LabelSelector → Type 0
Asks s = (s.match_labels ≢ []) ⊎ (s.match_expressions ≢ [])

-- A budget speaks of a pod of its namespace that its selector, which asks for something, matches.
pub record Covers (pdb : PodDisruptionBudget) (pod : Pod) : Type 0 where
  pub same_namespace : pdb.namespace ≡ pod.namespace
  pub selects :
      (s : LabelSelector) × (pdb.selector ≡ some s) × Asks s × (matches (some s) pod.labels ≡ true)

is_nil-false : {A : Type 0} (xs : List A) → (is_nil xs ≡ false) ↔ (xs ≢ [])
is_nil-false [] = (λ h. cc, λ h. absurd (h refl))
is_nil-false (x ∷ xs) = (λ h e. cc, λ h. refl)

is_empty-Asks : (s : LabelSelector) → (is_empty (some s) ≡ false) ↔ Asks s
unfolding is_empty
is_empty-Asks s =
    let labels = is_nil-false s.match_labels in
    let expressions = is_nil-false s.match_expressions in
    elim (Bool-cases (is_nil s.match_labels)) [
      | inr no_ ↦ (λ h. inl (labels.0 no_), λ a. ground arith)
      | inl none_ ↦ (
        λ h. inr (expressions.0 (ground arith)),
        λ a. elim a [
          | inl l ↦ absurd (let h = labels.1 l in cc)
          | inr e ↦ ground (arith, expressions.1 e)
        ],
      )
    ]

covers-Covers : (pdb : PodDisruptionBudget) (pod : Pod) → (covers pdb pod ≡ true) ↔ Covers pdb pod
unfolding covers
covers-Covers pdb pod = elim (Option-cases pdb.selector) [
  | inl e ↦ (
    λ h. absurd (unfold is_empty in let h' = (rw (covers, e) at h) in ground arith),
    λ c. absurd (let h = c.selects.1 in cc),
  )
  | inr (s, e) ↦ (
    λ h.
        let h' = (rw (covers, e) at h) in
        record {
          same_namespace = (string_eq.equals_iff pdb.namespace pod.namespace).0 (ground arith);
          selects = (s, e, (is_empty-Asks s).0 (ground arith), ground arith);
        },
    λ c.
        let same : c.selects.0 ≡ s = let h = c.selects.1 in cc in
        let asks : is_empty (some s) ≡ false = (is_empty-Asks s).1 (subst Asks same c.selects.2) in
        let matched : matches (some s) pod.labels ≡ true =
          subst (λ t. matches (some t) pod.labels ≡ true) same c.selects.3 in
        let named : (pdb.namespace == pod.namespace) ≡ true =
          (string_eq.equals_iff pdb.namespace pod.namespace).1 c.same_namespace in
        rw (covers, e, named, asks, matched) refl,
  )
]

module _ (pod : Pod) where
  abbrev stops : PodDisruptionBudget → Bool
  stops pdb = covers pdb pod && blocks pdb

  abbrev Room : PodDisruptionBudget → Type 0
  Room pdb = covers pdb pod ≡ true → HasHeadroom pdb

  -- A budget that speaks of the pod has headroom.
  abbrev pub Permits : PodDisruptionBudget → Type 0
  Permits pdb = Covers pdb pod → HasHeadroom pdb

  Room-Permits : (pdbs : List PodDisruptionBudget) → All Room pdbs ↔ All Permits pdbs
  Room-Permits pdbs = (
    All-map Room Permits pdbs (λ pdb room c. room ((covers-Covers pdb pod).1 c)),
    All-map Permits Room pdbs (λ pdb permits c. permits ((covers-Covers pdb pod).0 c)),
  )

  find-none :
      (pdbs : List PodDisruptionBudget)
      → All IsInt32 pdbs
      → (find stops pdbs ≡ none) ↔ All Room pdbs
  unfolding find
  find-none [] w = (λ _. tt, λ _. refl)
  find-none (pdb ∷ pdbs) w =
      let (to_room, of_room) = blocks-false pdb w.0 in
      let (to_rooms, of_rooms) = find-none pdbs w.1 in
      (
        λ h. (λ c. to_room (ground arith), to_rooms (ground arith)),
        λ rooms. elim (Bool-cases (covers pdb pod)) [
          | inl c ↦ rw (c, of_room (rooms.0 c)) (of_rooms rooms.1)
          | inr c ↦ rw c (of_rooms rooms.1)
        ],
      )

  none_found :
      (live : ClusterSnapshot) → check_eviction pod live ≡ none → find stops live.pdbs ≡ none
  unfolding check_eviction
  none_found live h = elim (Option-cases (find stops live.pdbs)) [
    | inl e ↦ e
    | inr (pdb, e) ↦ absurd (let h' = (rw (e, check_eviction) at h) in cc)
  ]

  -- Where the budgets' numbers are of 32 bits, the guard consents to an eviction exactly if every budget
  -- of the pod's namespace whose selector asks for something and matches the pod allows at least one more
  -- disruption.
  pub check_eviction_iff :
      (live : ClusterSnapshot)
      → All IsInt32 live.pdbs
      → (check_eviction pod live ≡ none) ↔ All Permits live.pdbs
  unfolding check_eviction
  check_eviction_iff live w = (
    λ h. (Room-Permits live.pdbs).0 ((find-none live.pdbs w).0 (none_found live h)),
    λ permits. rw ((find-none live.pdbs w).1 ((Room-Permits live.pdbs).1 permits), check_eviction),
  )

-- The budgets whose selector asks for something.
abbrev pub asking : List PodDisruptionBudget → List PodDisruptionBudget
asking pdbs = keep (λ pdb. not (is_empty pdb.selector)) pdbs

stops_empty :
    (pod : Pod) (pdb : PodDisruptionBudget) → is_empty pdb.selector ≡ true → stops pod pdb ≡ false
unfolding covers
stops_empty pod pdb e = ground (arith, e)

find-asking :
    (pod : Pod) (pdbs : List PodDisruptionBudget)
    → find (stops pod) (asking pdbs) ≡ find (stops pod) pdbs
unfolding find keep
find-asking pod [] = refl
find-asking pod (pdb ∷ pdbs) = elim (Bool-cases (is_empty pdb.selector)) [
  | inl e ↦ rw (e, stops_empty pod pdb e) (find-asking pod pdbs)
  | inr e ↦ elim (Bool-cases (stops pod pdb)) [
    | inl found ↦ rw (e, found) refl
    | inr passed ↦ rw (e, passed) (find-asking pod pdbs)
  ]
]

-- Budgets whose selector is empty have no say in an eviction, beside any others and whatever they allow: the
-- guard answers what it answers without them.
pub check_eviction-asking :
    (pod : Pod) (live : ClusterSnapshot)
    → check_eviction pod live ≡ check_eviction pod (record live { pdbs = asking live.pdbs })
unfolding check_eviction
check_eviction-asking pod live = rw (check_eviction, find-asking pod live.pdbs) refl
