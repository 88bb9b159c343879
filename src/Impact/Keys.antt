-- ===== src/Impact/Keys.antt =====
-- internal/impact/impact.go: two reasons of one key are of one kind, since no kind has a bar.
use Prim.Native.String.{String, [], ◌∷◌, ◌++◌}
use mathlib.Core.Path.{◌≡◌, refl, sym, ◌∙◌, ap}
use mathlib.Core.Logic.{inl, inr}
use text.Mathlib.TextLemmas.{nil-append, cons-append, nil≢cons, tail-eq_of_cons-eq}
use text.Mathlib.Text.{◌==◌ as str_eq}
use k8s_dencer.Base.{if◌then◌else◌, Bool-cases}
use k8s_dencer.Model.Plan.{ImpactReason}
use k8s_dencer.Impact.Classifier.{reason_key}

-- The text before the first bar.
unfoldable pub before_bar : String → String
before_bar [] = []
before_bar (c ∷ s) = let rest = before_bar s in if str_eq (c ∷ []) "|" then [] else c ∷ rest

abbrev pub HasNoBar : String → Type 0
HasNoBar s = before_bar s ≡ s

before_bar-append :
    (kind subject : String) → HasNoBar kind → before_bar (kind ++ ("|" ++ subject)) ≡ kind
unfolding before_bar
before_bar-append [] subject h = rw (nil-append ("|" ++ subject), cons-append "|" [] subject) refl
before_bar-append (c ∷ s) subject h = elim (Bool-cases (str_eq (c ∷ []) "|")) [
  | inl bar ↦ absurd (nil≢cons (rw (bar, before_bar) at h))
  | inr other ↦
      rw (cons-append c s ("|" ++ subject), other)
        (ap (λ t. c ∷ t)
          (before_bar-append s subject (tail-eq_of_cons-eq (rw (other, before_bar) at h))))
]

pub same_kind :
    (a b : ImpactReason)
    → HasNoBar a.kind
    → HasNoBar b.kind
    → reason_key a ≡ reason_key b
    → a.kind ≡ b.kind
same_kind a b ha hb e =
    sym (before_bar-append a.kind a.subject ha)
    ∙ ap before_bar e
    ∙ before_bar-append b.kind b.subject hb
