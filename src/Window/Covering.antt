-- ===== src/Window/Covering.antt =====
-- `AllowsRedOn` of window.go: which windows unlock a Red step on a node.
use k8s_dencer.Base.{
  ◌≡◌, refl, ◌↔◌, ◌⊎◌, inl, inr, true, ◌&&◌, Option, none, some, List, [], ◌∷◌, arith, Bool-cases,
  Option-cases, find,
}
use k8s_dencer.Model.Labels.{labels_match}
use k8s_dencer.Model.Cluster.{Node}
use k8s_dencer.Window.Evaluate.{State, covering, permission, allows_red_on}

-- Of some element.
abbrev pub AnyOf : (State → Type 0) → List State → Type 0
AnyOf P [] = ⊥
AnyOf P (x ∷ xs) = P x ⊎ AnyOf P xs

-- An open window that selects the node and allows Red steps.
abbrev pub Unlocks : Node → State → Type 0
Unlocks node st =
    (st.is_open ≡ true) × (labels_match st.selector node.labels ≡ true) × (st.allows_red ≡ true)

abbrev IsFound : Option State → Type 0
IsFound none = ⊥
IsFound (some _) = Unit

covering-find :
    (states : List State) (node : Node)
    → IsFound (find (λ st. st.allows_red) (covering states node)) ↔ AnyOf (Unlocks node) states
unfolding covering find
covering-find [] node = ((λ h. h), λ h. h)
covering-find (st ∷ states) node =
    let (to, from) = covering-find states node in
    elim (Bool-cases (st.is_open && labels_match st.selector node.labels)) [
      | inr out ↦
          rw out (λ h. inr (to h), λ u. elim u [ inl x ↦ absurd (ground arith) | inr y ↦ from y ])
      | inl over ↦ elim (Bool-cases st.allows_red) [
        | inl red ↦ rw (over, red) (λ _. inl (ground arith, ground arith, refl), λ _. tt)
        | inr plain ↦
            rw (over, plain)
              (λ h. inr (to h), λ u. elim u [ inl x ↦ absurd (ground arith) | inr y ↦ from y ])
      ]
    ]

permission-IsFound :
    (states cover : List State) (node : Node)
    → ((permission states cover node).0 ≡ true) ↔ IsFound (find (λ st. st.allows_red) cover)
unfolding permission find
permission-IsFound states [] node = (λ h. cc, λ h. absurd h)
permission-IsFound states (c ∷ cs) node =
    elim (Option-cases (find (λ st. st.allows_red) (c ∷ cs))) [
      | inl e ↦ rw (e, permission) (λ h. absurd (cc), λ h. absurd h)
      | inr (st, e) ↦ rw (e, permission) (λ _. tt, λ _. refl)
    ]

-- A Red step is allowed on a node exactly if some window is open, selects the node by its labels (an
-- empty selector selects every node) and allows Red steps.
pub allows_red_on_iff :
    (states : List State) (node : Node)
    → ((allows_red_on states node).0 ≡ true) ↔ AnyOf (Unlocks node) states
unfolding allows_red_on
allows_red_on_iff states node =
    let (to₁, from₁) = permission-IsFound states (covering states node) node in
    let (to₂, from₂) = covering-find states node in (λ h. to₂ (to₁ h), λ u. from₁ (from₂ u))
