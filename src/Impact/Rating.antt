-- ===== src/Impact/Rating.antt =====
-- internal/impact/impact.go: what a rating says of the step.
use k8s_dencer.Base.{
  ◌≡◌, String, Bool, true, false, ◌||◌, List, [], ◌∷◌, ◌++◌, inl, inr, Bool-cases, ◌==◌, string_eq,
  any, All, contains, insert_sorted, sort_by, refl, sym, ◌∙◌, ap, arith,
}
use mathlib.Core.Path.{subst}
use k8s_dencer.Impact.Keys.{HasNoBar, same_kind}
use k8s_dencer.Model.Plan.{impact_green, impact_yellow, impact_red, ImpactReason, PlanStep}
use k8s_dencer.Model.Cluster.{ClusterSnapshot}
use k8s_dencer.Constraints.Analysis.{Analysis}
use k8s_dencer.Impact.Classifier.{
  Thresholds, severity, rating_from, rating_for, reason_key, add_each, weightier, offered,
  reasons_for, classify_step,
}

-- Whether some reason forces red.
abbrev pub is_red : ImpactReason → Bool
is_red r = severity r.kind == impact_red

rating_from-red :
    (rating : String) (reasons : List ImpactReason)
    → (rating == impact_red) ≡ false
    → (rating_from rating reasons == impact_red) ≡ any is_red reasons
unfolding rating_from any
rating_from-red rating [] h = h
rating_from-red rating (r ∷ reasons) h = elim (Bool-cases (is_red r)) [
  | inl red ↦ rw red refl
  | inr other ↦ elim (Bool-cases (severity r.kind == impact_yellow)) [
    | inl yellow ↦ rw (other, yellow) (rating_from-red impact_yellow reasons refl)
    | inr neither ↦ rw (other, neither) (rating_from-red rating reasons h)
  ]
]

-- The kind of a reason is one that the classifier has.
abbrev pub IsKnown : ImpactReason → Type 0
IsKnown r = HasNoBar r.kind

-- What `add` has seen is accounted for in the list.
abbrev Covers : List String → List ImpactReason → Type 0
Covers seen reasons =
    (r : ImpactReason)
    → IsKnown r
    → contains seen (reason_key r) ≡ true
    → is_red r ≡ true
    → any is_red reasons ≡ true

pub any-append :
    (xs ys : List ImpactReason) → any is_red (xs ++ ys) ≡ (any is_red xs || any is_red ys)
unfolding any
any-append [] ys = refl
any-append (x ∷ xs) ys = ground (arith, any-append xs ys)

add-Covers :
    (seen : List String) (reasons : List ImpactReason) (x : ImpactReason)
    → IsKnown x
    → Covers seen reasons
    → Covers (reason_key x ∷ seen) (reasons ++ x ∷ [])
unfolding contains any
add-Covers seen reasons x known covers r known_r there red =
    elim (Bool-cases (reason_key x == reason_key r)) [
      | inl same ↦
          let kinds : x.kind ≡ r.kind =
            same_kind x r known known_r
              ((string_eq.equals_iff (reason_key x) (reason_key r)).0 same) in
          let red_x : is_red x ≡ true =
            subst (λ k. (severity k == impact_red) ≡ true) (sym kinds) red in
          any-append reasons (x ∷ []) ∙ rw red_x (ground arith)
      | inr other ↦
          let before : any is_red reasons ≡ true =
            covers r known_r (rw (other, contains) at there) red in
          any-append reasons (x ∷ []) ∙ rw before refl
    ]

or_comm_false : (a : Bool) → a ≡ (a || false)
or_comm_false true = refl
or_comm_false false = refl

or_swap : (a b c : Bool) → (a || (b || c)) ≡ (b || (a || c))
or_swap true true c = refl
or_swap true false c = refl
or_swap false true c = refl
or_swap false false c = refl

or_once : (a b c : Bool) → ((a || (b || false)) || c) ≡ (a || (b || c))
or_once true b c = refl
or_once false true c = refl
or_once false false c = refl

or_known : (a b c : Bool) → (b ≡ true → a ≡ true) → (a || c) ≡ (a || (b || c))
or_known true b c h = refl
or_known false true c h = absurd (let h' = h refl in cc)
or_known false false c h = refl

-- Dropping a repeated key drops no red.
add_each-red :
    (seen : List String) (reasons rest : List ImpactReason)
    → Covers seen reasons
    → All IsKnown rest
    → any is_red (add_each seen reasons rest) ≡ (any is_red reasons || any is_red rest)
unfolding add_each any
add_each-red seen reasons [] covers known = or_comm_false (any is_red reasons)
add_each-red seen reasons (r ∷ rest) covers known =
    elim (Bool-cases (contains seen (reason_key r))) [
      | inl there ↦ rw there (
          add_each-red seen reasons rest covers known.1
          ∙ or_known (any is_red reasons) (is_red r) (any is_red rest) (covers r known.0 there))
      | inr new ↦ rw new (
          add_each-red (reason_key r ∷ seen) (reasons ++ r ∷ []) rest
            (add-Covers seen reasons r known.0 covers) known.1
          ∙ ap (λ b. b || any is_red rest) (any-append reasons (r ∷ []))
          ∙ or_once (any is_red reasons) (is_red r) (any is_red rest))
    ]

insert_sorted-red :
    (x : ImpactReason) (xs : List ImpactReason)
    → any is_red (insert_sorted weightier x xs) ≡ (is_red x || any is_red xs)
unfolding insert_sorted any
insert_sorted-red x [] = refl
insert_sorted-red x (y ∷ ys) = elim (Bool-cases (weightier y x)) [
  | inl e ↦ rw (e, insert_sorted-red x ys) (or_swap (is_red y) (is_red x) (any is_red ys))
  | inr e ↦ rw e refl
]

sort_by-red : (xs : List ImpactReason) → any is_red (sort_by weightier xs) ≡ any is_red xs
unfolding sort_by any
sort_by-red [] = refl
sort_by-red (x ∷ xs) =
    insert_sorted-red x (sort_by weightier xs) ∙ ap (λ b. is_red x || b) (sort_by-red xs)

-- The rating of a step is red exactly when some reason that was found forces red.
pub classify_step-red :
    (t : Thresholds) (snap : ClusterSnapshot) (analysis : Analysis) (step : PlanStep)
    → All IsKnown (offered t snap analysis step)
    → ((classify_step t snap analysis step).0 == impact_red)
      ≡ any is_red (offered t snap analysis step)
unfolding classify_step rating_for reasons_for any
classify_step-red t snap analysis step known =
    let found = offered t snap analysis step in
    rating_from-red impact_green (sort_by weightier (add_each [] [] found)) refl
    ∙ sort_by-red (add_each [] [] found)
    ∙ add_each-red [] [] found (λ r _ there _. absurd (unfold contains in cc)) known
