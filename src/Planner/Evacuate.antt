-- ===== src/Planner/Evacuate.antt =====
-- `tryDrain` of greedy.go: the moves of a step are those of exactly the target's movable pods.
use k8s_dencer.Base.{
  All, String, ◌≡◌, refl, sym, ◌∙◌, ap, inl, inr, Bool, true, false, Option, none, some, List, [],
  ◌∷◌, map, ◌==◌, string_eq, Bool-cases, Option-cases, keep, sort_by-perm, Float64,
}
use mathlib.Core.Path.{subst}
use mathlib.Core.List.{Perm}
use mathlib.Core.List.Perm
use k8s_dencer.Model.Cluster.{Node, Pod, is_movable, pod_key}
use k8s_dencer.Model.Plan.{Move}
use k8s_dencer.Constraints.State.{Placement}
use k8s_dencer.Constraints.Placement.{occupants_of, place, remove}
use k8s_dencer.Planner.Policy.{Options, namespace_excluded, larger, sort_pods_by_size_desc}
use k8s_dencer.Planner.Greedy.{Verdicts, collect, first_fit, move_of, relocate, try_drain}

-- A drain has moves only where every pod that it collects finds a place.
pub try_drain-cases :
    (fl : Float64) (work : Placement) (node : Node) (drained : List String) (analysis : Verdicts)
    (opts : Options fl) (moves : List Move)
    → try_drain fl work node drained analysis opts ≡ some moves
    → (pods : List Pod) × (collect
          (namespace_excluded fl)
          opts
          analysis
          (occupants_of work node.name)
        ≡ some pods)
      × (relocate fl work node.name drained (sort_pods_by_size_desc pods) ≡ some moves)
unfolding try_drain
try_drain-cases fl work node drained analysis opts moves e =
    elim (Option-cases
      (collect (namespace_excluded fl) opts analysis (occupants_of work node.name))) [
        | inl c ↦ absurd (let h = (rw (c, try_drain) at e) in cc)
        | inr (pods, c) ↦ (pods, c, go pods c)
      ]
  where
    go :
        (pods : List Pod)
        → collect (namespace_excluded fl) opts analysis (occupants_of work node.name) ≡ some pods
        → relocate fl work node.name drained (sort_pods_by_size_desc pods) ≡ some moves
    go [] c = absurd (let h = (rw (c, try_drain) at e) in cc)
    go (p ∷ ps) c = let h = (rw (c, try_drain) at e) in h

-- A pod that a drain may take: not in an excluded namespace, not known to be pinned.
abbrev pub MayGo : {O : Type 0} → (O → String → Bool) → O → Verdicts → Pod → Type 0
MayGo excluded opts analysis p =
    is_movable p ≡ true
    → (excluded opts p.namespace ≡ false) × ¬ (analysis (pod_key p) ≡ some false)

-- A pod in front of what the rest of the loop collects.
abbrev ahead : Pod → Option (List Pod) → Option (List Pod)
ahead p none = none
ahead p (some pods) = some (p ∷ pods)

ahead-some :
    (p : Pod) (others : Option (List Pod)) (pods : List Pod)
    → ahead p others ≡ some pods
    → (qs : List Pod) × (others ≡ some qs) × (pods ≡ p ∷ qs)
ahead-some p none pods e = absurd cc
ahead-some p (some qs) pods e = (qs, refl, cc)

module _ {O : Type 0} (excluded : O → String → Bool) (opts : O) (analysis : Verdicts) where
  collect-keep :
      (os pods : List Pod)
      → collect excluded opts analysis os ≡ some pods
      → (pods ≡ keep is_movable os) × All (MayGo excluded opts analysis) os
  unfolding collect keep
  collect-keep [] pods e = (cc, tt)
  collect-keep (p ∷ ps) pods e = elim (Bool-cases (is_movable p)) [
    | inr b ↦
        let h = (rw (b, collect) at e) in
        let (k, may) = collect-keep ps pods h in rw b (k, ((λ m. absurd cc), may))
    | inl b ↦ elim (Bool-cases (excluded opts p.namespace)) [
      | inl x ↦ absurd (let h = (rw (b, x, collect) at e) in cc)
      | inr x ↦ elim (Option-cases (analysis (pod_key p))) [
        | inl n ↦
            let h = (rw (b, x, n, collect) at e) in
            let (qs, c, shape) = ahead-some p (collect excluded opts analysis ps) pods h in
            let (k, may) = collect-keep ps qs c in
            rw b (shape ∙ ap (λ l. p ∷ l) k, ((λ m. (x, λ f. absurd cc)), may))
        | inr (true, n) ↦
            let h = (rw (b, x, n, collect) at e) in
            let (qs, c, shape) = ahead-some p (collect excluded opts analysis ps) pods h in
            let (k, may) = collect-keep ps qs c in
            rw b (shape ∙ ap (λ l. p ∷ l) k, ((λ m. (x, λ f. absurd cc)), may))
        | inr (false, n) ↦ absurd (let h = (rw (b, x, n, collect) at e) in cc)
      ]
    ]
  ]

abbrev pub moved : Move → String × String
moved m = (m.namespace, m.pod)

abbrev pub named : Pod → String × String
named p = (p.namespace, p.name)

relocate-moved :
    (fl : Float64) (trial : Placement) (source : String) (drained : List String) (ps : List Pod)
    (moves : List Move)
    → relocate fl trial source drained ps ≡ some moves
    → map moved moves ≡ map named ps
unfolding relocate
relocate-moved fl trial source drained [] [] e = refl
relocate-moved fl trial source drained [] (m ∷ moves) e = absurd cc
relocate-moved fl trial source drained (p ∷ ps) moves e =
    let trial' = (first_fit fl trial p source drained).0 in
    let target = (first_fit fl trial p source drained).1 in
    let next = place (remove trial' p) p target in
    elim (Bool-cases (target == "")) [
      | inl b ↦ absurd (let h = (rw (b, relocate) at e) in cc)
      | inr b ↦ elim (Option-cases (relocate fl next source drained ps)) [
        | inl r ↦ absurd (let h = (rw (b, r, relocate) at e) in cc)
        | inr (later, r) ↦
            let h = (rw (b, r, relocate) at e) in
            let shape : moves ≡ move_of fl p source target ∷ later = cc in
            rw shape (ap (λ ms. named p ∷ ms) (relocate-moved fl next source drained ps later r))
      ]
    ]

-- Where the target is drained, its movable pods, by namespace and name, are those of the moves, each as often
-- as it stands there, and none of them is in an excluded namespace or pinned by the analysis.
pub try_drain-IsComplete :
    (fl : Float64) (work : Placement) (node : Node) (drained : List String) (analysis : Verdicts)
    (opts : Options fl) (moves : List Move)
    → try_drain fl work node drained analysis opts ≡ some moves
    → Perm (map moved moves) (map named (keep is_movable (occupants_of work node.name)))
      × All (MayGo (namespace_excluded fl) opts analysis) (occupants_of work node.name)
unfolding sort_pods_by_size_desc
try_drain-IsComplete fl work node drained analysis opts moves e =
    let (pods, c, r) = try_drain-cases fl work node drained analysis opts moves e in
    let (k, may) =
      collect-keep (namespace_excluded fl) opts analysis (occupants_of work node.name) pods c in
    let same = relocate-moved fl work node.name drained (sort_pods_by_size_desc pods) moves r in
    let sorted = Perm.map named (sort_by-perm larger pods) in
    (
      subst (λ l. Perm l (map named (keep is_movable (occupants_of work node.name)))) (sym same)
          (subst (λ l. Perm (map named (sort_pods_by_size_desc pods)) (map named l)) k sorted),
      may,
    )
