-- ===== src/Model/Plan.antt =====
-- internal/model/plan.go: plans, steps and moves.
use k8s_dencer.Base.{ℕ, String, Bool, List, ◌==◌, string_eq}

-- `ImpactRating` is a Go string with three constants.
abbrev pub impact_green : String
impact_green = "Green"

abbrev pub impact_yellow : String
impact_yellow = "Yellow"

abbrev pub impact_red : String
impact_red = "Red"

-- `ImpactRating.RequiresMaintenanceWindow`
unfoldable pub requires_maintenance_window : String → Bool
requires_maintenance_window r = r == impact_red

pub record Move : Type 0 where
  pub namespace : String
  pub pod : String
  pub from_node : String
  pub to_node : String
  pub cpu_milli : ℕ
  pub memory_bytes : ℕ

-- `Detail`, a text for people, is left out.
pub record ImpactReason : Type 0 where
  pub kind : String
  pub subject : String

-- The fields that the planner and the guard read; the audit fields are written by other parts.
pub record PlanStep : Type 0 where
  pub sequence_number : ℕ
  pub target_node : String
  pub moves : List Move
  pub impact : String
  pub rationale : String
  pub reasons : List ImpactReason
