-- ===== src/Constraints/Coherence/Asked.antt =====
-- spreadindex.go and placement.go: the selectors that the index remembers are those that were asked about.
use k8s_dencer.Base.{
  ℕ, String, ◌≡◌, sym, ap, ◌∙◌, inl, inr, List, [], ◌∷◌, ◌==◌, string_eq, lookup, insert, All,
  All-insert, All-lookup, Bool-cases, Option-cases, minus_one, Float64,
}
use k8s_dencer.Model.Labels.{TopologySpreadConstraint, is_hard, matches}
use k8s_dencer.Model.Cluster.{Pod, ClusterSnapshot}
use k8s_dencer.Constraints.State.{NodeState, SpreadKey, spread_key_eq, SpreadEntry, Placement}
use k8s_dencer.Constraints.SpreadIndex.{
  key_of, spread_counts, adjust_entry, adjust_entries, adjust_spread,
}
use k8s_dencer.Constraints.Placement.{
  names_of, new_placement_ceiling, admit, take_out, release, place, remove,
}
use k8s_dencer.Constraints.CanPlace.{
  domain_counts, fits_spread_constraint, spread_from, fits_topology_spread, static_checks,
  can_place,
}
use k8s_dencer.Constraints.Coherence.Count.{Distinct, wrapped}
use k8s_dencer.Constraints.Coherence.Index.{true_count}
use k8s_dencer.Constraints.Coherence.Preserve.{IsCoherent}
use k8s_dencer.Constraints.Coherence.Answers.{AllExact-lookup, recount-IsExact}
use k8s_dencer.Constraints.Coherence.Runs.{
  Act, place_pod, remove_pod, ask, perform, perform_all, perform_all-IsCoherent,
  new_placement_ceiling-IsCoherent,
}
use k8s_dencer.Constraints.Coherence.Apart.{Selectors, ToldApart}

module _ (among : Selectors) where
  abbrev pub Spreads : Pod → Type 0
  Spreads pod = All (λ tsc. among tsc.label_selector) pod.topology_spread

  -- The question of an act is about these selectors.
  abbrev pub AsksAmong : Act → Type 0
  AsksAmong (ask pod n) = Spreads pod
  AsksAmong (place_pod pod n) = Unit
  AsksAmong (remove_pod pod) = Unit

  abbrev EntryAmong : SpreadKey × SpreadEntry → Type 0
  EntryAmong entry = among entry.1.selector

  abbrev Knows : Placement → Type 0
  Knows p = All EntryAmong p.spread

  adjust_entry-Among :
      (pod : Pod) (ns : NodeState) (delta : ℕ) (key : SpreadKey) (e : SpreadEntry)
      → among e.selector
      → among (adjust_entry pod ns delta key e).selector
  unfolding adjust_entry
  adjust_entry-Among pod ns delta key e a = elim (Bool-cases (key.namespace == pod.namespace)) [
    | inr other ↦ rw (adjust_entry, other) a
    | inl same ↦ elim (Option-cases (lookup key.topology_key ns.node.labels)) [
      | inl outside ↦ rw (adjust_entry, same, outside) a
      | inr (domain, inside) ↦ elim (Bool-cases (matches e.selector pod.labels)) [
        | inl counted ↦ rw (adjust_entry, same, inside, counted) a
        | inr skipped ↦ rw (adjust_entry, same, inside, skipped) a
      ]
    ]
  ]

  adjust_entries-Among :
      (pod : Pod) (ns : NodeState) (delta : ℕ) (entries : List (SpreadKey × SpreadEntry))
      → All EntryAmong entries
      → All EntryAmong (adjust_entries pod ns delta entries)
  unfolding adjust_entries
  adjust_entries-Among pod ns delta [] a = tt
  adjust_entries-Among pod ns delta ((key, e) ∷ rest) a =
      (adjust_entry-Among pod ns delta key e a.0, adjust_entries-Among pod ns delta rest a.1)

  adjust_spread-Knows :
      (p : Placement) (pod : Pod) (n : String) (delta : ℕ)
      → Knows p
      → Knows (adjust_spread p pod n delta)
  unfolding adjust_spread
  adjust_spread-Knows p pod n delta k = elim (Option-cases (lookup n p.nodes)) [
    | inl e ↦ rw (adjust_spread, e) k
    | inr (ns, e) ↦ rw (adjust_spread, e) (adjust_entries-Among pod ns delta p.spread k)
  ]

  place-Knows : (p : Placement) (pod : Pod) (n : String) → Knows p → Knows (place p pod n)
  unfolding place
  place-Knows p pod n k = elim (Option-cases (lookup n p.nodes)) [
    | inl e ↦ rw (place, e) k
    | inr (ns, e) ↦
        rw (place, e)
          (adjust_spread-Knows
            (record p { nodes = insert n (admit ns (record pod { node_name = n })) p.nodes })
            (record pod { node_name = n }) n 1 k)
  ]

  remove-Knows : (p : Placement) (pod : Pod) → Knows p → Knows (remove p pod)
  unfolding remove
  remove-Knows p pod k = elim (Option-cases (lookup pod.node_name p.nodes)) [
    | inl e ↦ rw (remove, e) k
    | inr (ns, e) ↦ elim (Option-cases (take_out pod ns.occupants)) [
      | inl e' ↦ rw (remove, e, e') k
      | inr ((found, left), e') ↦
          rw (remove, e, e')
            (adjust_spread-Knows
              (record p { nodes = insert pod.node_name (release ns pod left) p.nodes }) found
              pod.node_name minus_one k)
    ]
  ]

  spread_counts-Knows :
      (p : Placement) (namespace : String) (tsc : TopologySpreadConstraint)
      → among tsc.label_selector
      → Knows p
      → Knows (spread_counts p namespace tsc).0
  unfolding spread_counts
  spread_counts-Knows p namespace tsc a k =
      elim (Option-cases (lookup (key_of namespace tsc) p.spread)) [
        | inl e ↦ rw (spread_counts, e) (All-insert EntryAmong _ _ p.spread a k)
        | inr (x, e) ↦ rw (spread_counts, e) k
      ]

  fits_spread_constraint-Knows :
      (p : Placement) (pod : Pod) (n : String) (tsc : TopologySpreadConstraint)
      → among tsc.label_selector
      → Knows p
      → Knows (fits_spread_constraint p pod n tsc).0
  unfolding fits_spread_constraint domain_counts
  fits_spread_constraint-Knows p pod n tsc a k = elim (Bool-cases (is_hard tsc)) [
    | inr soft ↦ rw (soft, fits_spread_constraint) k
    | inl hard ↦ elim (Option-cases (lookup n p.nodes)) [
      | inl e ↦ rw (hard, e, fits_spread_constraint) k
      | inr (ns, e) ↦ elim (Option-cases (lookup tsc.topology_key ns.node.labels)) [
        | inl e' ↦ rw (hard, e, e', fits_spread_constraint) k
        | inr (dom, e') ↦
            rw (hard, e, e', fits_spread_constraint) (spread_counts-Knows p pod.namespace tsc a k)
      ]
    ]
  ]

  spread_from-Knows :
      (p : Placement) (pod : Pod) (n : String) (tscs : List TopologySpreadConstraint)
      → All (λ tsc. among tsc.label_selector) tscs
      → Knows p
      → Knows (spread_from p pod n tscs).0
  unfolding spread_from
  spread_from-Knows p pod n [] a k = k
  spread_from-Knows p pod n (tsc ∷ rest) a k =
      let first = fits_spread_constraint-Knows p pod n tsc a.0 k in
      let others = spread_from-Knows (fits_spread_constraint p pod n tsc).0 pod n rest a.1 first in
      elim (Option-cases (fits_spread_constraint p pod n tsc).1) [
        | inl e ↦ rw (e, spread_from) others
        | inr (r, e) ↦ rw (e, spread_from) first
      ]

  can_place-Knows :
      (p : Placement) (pod : Pod) (n : String) → Spreads pod → Knows p → Knows (can_place p pod n).0
  unfolding can_place fits_topology_spread
  can_place-Knows p pod n a k = elim (Option-cases (lookup n p.nodes)) [
    | inl e ↦ rw (e, can_place) k
    | inr (ns, e) ↦ elim (Option-cases (static_checks p pod n ns)) [
      | inl e' ↦
          rw (e, e', can_place, fits_topology_spread)
            (spread_from-Knows p pod n pod.topology_spread a k)
      | inr (r, e') ↦ rw (e, e', can_place) k
    ]
  ]

  perform_all-Knows :
      (p : Placement) (acts : List Act) → All AsksAmong acts → Knows p → Knows (perform_all p acts)
  unfolding perform_all perform
  perform_all-Knows p [] a k = k
  perform_all-Knows p (place_pod pod n ∷ acts) a k =
      perform_all-Knows (place p pod n) acts a.1 (place-Knows p pod n k)
  perform_all-Knows p (remove_pod pod ∷ acts) a k =
      perform_all-Knows (remove p pod) acts a.1 (remove-Knows p pod k)
  perform_all-Knows p (ask pod n ∷ acts) a k =
      perform_all-Knows (can_place p pod n).0 acts a.1 (can_place-Knows p pod n a.0 k)

  known_exact :
      (p : Placement) (namespace : String) (tsc : TopologySpreadConstraint)
      → ToldApart among
      → among tsc.label_selector
      → IsCoherent p
      → Knows p
      → (d : String)
      → lookup d (spread_counts p namespace tsc).1
        ≡ wrapped (true_count p.nodes p.node_order (key_of namespace tsc) tsc.label_selector d)
  unfolding spread_counts
  known_exact p namespace tsc apart a c k =
      elim (Option-cases (lookup (key_of namespace tsc) p.spread)) [
        | inl e ↦ rw (e, spread_counts) (recount-IsExact p namespace tsc).exact
        | inr (x, e) ↦
            let exact =
              AllExact-lookup p.nodes p.node_order (key_of namespace tsc) p.spread e c.exact in
            let known : among x.selector =
              All-lookup EntryAmong (key_of namespace tsc) x p.spread e k in
            let same : x.selector ≡ tsc.label_selector =
              apart x.selector tsc.label_selector known a (sym exact.keyed) in
            rw (e, spread_counts)
              (λ d.
                exact.exact d
                ∙ ap (λ s. wrapped (true_count p.nodes p.node_order (key_of namespace tsc) s d))
                    same)
      ]

  -- In a cluster of distinct node names, after any sequence of placements, removals and feasibility
  -- questions on a new placement, where the selectors of the spread constraints that are asked about are among
  -- some that no two of have the same fingerprint, the tally that the index answers for such a selector is, for
  -- every domain, the number of pods that it matches by a count from scratch (as a 64-bit counter); a domain
  -- has a counter exactly if some node is in it.
  pub asked_exact :
      (fl : Float64) (snap : ClusterSnapshot) (ceiling : fl.F) (acts : List Act)
      (namespace : String) (tsc : TopologySpreadConstraint)
      → Distinct (names_of snap.nodes)
      → ToldApart among
      → All AsksAmong acts
      → among tsc.label_selector
      → let p = perform_all (new_placement_ceiling fl snap ceiling) acts in
        (d : String)
        → lookup d (spread_counts p namespace tsc).1
          ≡ wrapped (true_count p.nodes p.node_order (key_of namespace tsc) tsc.label_selector d)
  asked_exact fl snap ceiling acts namespace tsc distinct apart asked a =
      known_exact _ namespace tsc apart a
        (perform_all-IsCoherent _ acts (new_placement_ceiling-IsCoherent fl snap ceiling distinct))
        (perform_all-Knows _ acts asked (unfold new_placement_ceiling in tt))
