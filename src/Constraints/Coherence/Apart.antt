-- ===== src/Constraints/Coherence/Apart.antt =====
-- `selectorFingerprint` of spreadindex.go: which selectors a fingerprint tells apart.
use Prim.Native.String.{◌++◌ as str_append}
use text.Mathlib.TextLemmas.{append_cancel_left, append_cancel_right}
use k8s_dencer.Base.{
  String, ◌≡◌, sym, ap, ◌∙◌, Option, some, [], ◌∷◌, string_eq, lookup, get, arith, sort_strings,
  sort_by, insert_sorted,
}
use k8s_dencer.Model.Labels.{LabelSelector}
use k8s_dencer.Constraints.State.{spread_key_eq}
use k8s_dencer.Constraints.SpreadIndex.{render_labels, selector_fingerprint}

-- The selectors of a workload's spread constraints, and a set of them that fingerprints tell apart.
abbrev pub Selectors : Type 1
Selectors = Option LabelSelector → Type 0

abbrev pub ToldApart : Selectors → Type 0
ToldApart among =
    (s t : Option LabelSelector)
    → among s
    → among t
    → selector_fingerprint s ≡ selector_fingerprint t
    → s ≡ t

-- Selectors that ask for one label, of the same key.
abbrev pub one_label : String → String → Option LabelSelector
one_label key value = some (record { match_labels = (key, value) ∷ []; match_expressions = [] })

abbrev pub OneLabel : String → Selectors
OneLabel key s = (value : String) × (s ≡ one_label key value)

get-own : (key value : String) → get ((key, value) ∷ []) key ≡ value
unfolding get lookup
get-own key value = ground (arith, string_eq.equals_iff key key)

render_one :
    (key value : String)
    → render_labels (key ∷ []) ((key, value) ∷ [])
      ≡ str_append key (str_append "=" (str_append value ","))
unfolding render_labels
render_one key value =
    ap (λ v. str_append key (str_append "=" (str_append v ","))) (get-own key value)

fingerprint_of :
    (key value : String)
    → selector_fingerprint (one_label key value)
      ≡ str_append (str_append key (str_append "=" (str_append value ","))) ""
unfolding selector_fingerprint sort_strings sort_by insert_sorted
fingerprint_of key value = ap (λ text. str_append text "") (render_one key value)

-- Two selectors that ask for one label, of the same key, have the same fingerprint only if they ask for the same
-- value, whatever characters the key and the values have.
pub fingerprint_inj :
    (key v w : String)
    → selector_fingerprint (one_label key v) ≡ selector_fingerprint (one_label key w)
    → v ≡ w
fingerprint_inj key v w same =
    let prints : str_append (str_append key (str_append "=" (str_append v ","))) ""
        ≡ str_append (str_append key (str_append "=" (str_append w ","))) "" =
      sym (fingerprint_of key v) ∙ same ∙ fingerprint_of key w in
    append_cancel_right v w ","
      (append_cancel_left "=" _ _ (append_cancel_left key _ _ (append_cancel_right _ _ "" prints)))

-- So such selectors are told apart.
pub OneLabel-ToldApart : (key : String) → ToldApart (OneLabel key)
OneLabel-ToldApart key s t (v, is_v) (w, is_w) same =
    let prints : selector_fingerprint (one_label key v) ≡ selector_fingerprint (one_label key w) =
      ap selector_fingerprint (sym is_v) ∙ same ∙ ap selector_fingerprint is_w in
    is_v ∙ ap (one_label key) (fingerprint_inj key v w prints) ∙ sym is_w
