-- ===== src/Constraints/State.antt =====
-- The state of internal/constraints: the working placement (placement.go) and the memoised spread
-- index inside it (spreadindex.go). A Go map of pointers is a map of values that are written back.
use k8s_dencer.Base.{
  ℕ, String, ◌≡◌, ◌↔◌, Bool, true, ◌&&◌, Option, List, Comparable, ◌==◌, string_eq, arith,
}
use text.Mathlib.TextEquality.{eq_iff}
use k8s_dencer.Model.Resources.{Resources}
use k8s_dencer.Model.Labels.{LabelSelector}
use k8s_dencer.Model.Cluster.{Node, Pod}

pub record NodeState : Type 0 where
  pub node : Node
  pub free : Resources
  pub occupants : List Pod

pub record SpreadKey : Type 0 where
  pub topology_key : String
  pub namespace : String
  pub selector : String

abbrev pub spread_key_beq : SpreadKey → SpreadKey → Bool
spread_key_beq a b =
    a.topology_key == b.topology_key && a.namespace == b.namespace && a.selector == b.selector

pub spread_key_beq_iff : (a b : SpreadKey) → (spread_key_beq a b ≡ true) ↔ (a ≡ b)
spread_key_beq_iff a b = ground (
  arith,
  eq_iff a.topology_key b.topology_key,
  eq_iff a.namespace b.namespace,
  eq_iff a.selector b.selector,
)

instance abbrev pub spread_key_eq : Comparable SpreadKey
spread_key_eq = record { equals = spread_key_beq; equals_iff = spread_key_beq_iff }

pub record SpreadEntry : Type 0 where
  pub counts : List (String × ℕ)
  pub selector : Option LabelSelector

pub record Placement : Type 0 where
  pub nodes : List (String × NodeState)
  pub node_order : List String
  pub spread : List (SpreadKey × SpreadEntry)
