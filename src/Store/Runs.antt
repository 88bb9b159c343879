-- ===== src/Store/Runs.antt =====
-- internal/store/execution.go: runs, envelopes and the entries of the audit trail. An instant is the text
-- that the store keeps of it; a summary or a message is text for people, and is left out.
use k8s_dencer.Base.{ℕ, String, Bool, ◌||◌, Option, List, ◌==◌, string_eq}

-- `RunStatus` is a Go string with six constants.
abbrev pub run_pending : String
run_pending = "Pending"

abbrev pub run_running : String
run_running = "Running"

abbrev pub run_succeeded : String
run_succeeded = "Succeeded"

abbrev pub run_blocked : String
run_blocked = "Blocked"

abbrev pub run_stopped : String
run_stopped = "Stopped"

abbrev pub run_failed : String
run_failed = "Failed"

-- `RunStatus.Terminal`
unfoldable pub terminal : String → Bool
terminal s = s == run_succeeded || s == run_blocked || s == run_failed

pub record Envelope : Type 0 where
  pub max_nodes : ℕ  -- int
  pub max_impact : String

abbrev pub run_mode_converge : String
run_mode_converge = "converge"

abbrev pub run_mode_drain : String
run_mode_drain = "drain"

pub record Run : Type 0 where
  pub id : String
  pub plan_id : String
  pub steps : List ℕ
  pub dry_run : Bool
  pub status : String
  pub stop_requested : Bool
  pub stop_requested_by : String
  pub mode : String
  pub node : String
  pub envelope : Option Envelope
  pub actor : String
  pub actor_groups : List String
  pub requested_at : String
  pub started_at : Option String
  pub finished_at : Option String
  pub worker : String

abbrev pub event_info : String
event_info = "Info"

abbrev pub event_blocked : String
event_blocked = "Blocked"

abbrev pub event_error : String
event_error = "Error"

pub record RunEvent : Type 0 where
  pub run_id : String
  pub sequence : ℕ
  pub level : String
  pub step : ℕ
  pub node : String
  pub pod : String
  pub action : String
  pub rule : String
