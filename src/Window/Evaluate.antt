-- ===== src/Window/Evaluate.antt =====
-- internal/window/window.go: `Evaluate`, `EvaluateAll` and `AllowsRedOn`. The cron parser (robfig/cron),
-- the zone database and the parsing of durations are a parameter. An instant is its nanoseconds since
-- Go's zero time, and a duration is an int64 bit pattern.
use k8s_dencer.Base.{
  ℕ, ◌+◌, ◌-◌, ◌*◌, ◌≤◌, ◌<◌, String, ◌≡◌, ◌⊎◌, Bool, true, false, not, ◌&&◌, Option, none, some,
  List, [], ◌∷◌, map, ◌==◌, string_eq, if◌then◌else◌, leb, ltb, le64, any, keep, find,
}
use k8s_dencer.Model.Labels.{labels_match}
use k8s_dencer.Model.Cluster.{Node}

-- Five years of 365 days, in nanoseconds: how far the cron library looks for a firing.
abbrev pub horizon : ℕ
horizon = 5 * 365 * 24 * 3600 * 1000000000

-- What the code takes from outside. `next` is the documented "next activation time, later than the
-- given time"; it is the zero time if there is none within the horizon.
pub record Clockwork : Type 1 where
  pub Location : Type 0
  pub Schedule : Type 0
  pub load_location : String → Option Location
  pub parse_schedule : String → Option Schedule
  pub parse_duration : String → Option ℕ
  pub fires : Schedule → Location → ℕ → Bool
  pub next : Schedule → Location → ℕ → ℕ
  pub next_later :
      (s : Schedule) (l : Location) (t : ℕ)
      → (next s l t ≡ 0) ⊎ ((t < next s l t) × (fires s l (next s l t) ≡ true))
  pub next_first :
      (s : Schedule) (l : Location) (t u : ℕ)
      → t < u
      → u ≤ t + horizon
      → fires s l u ≡ true
      → (0 < next s l t) × (next s l t ≤ u)

-- `MaintenanceWindowSpec` of api/v1alpha1, with the object's name.
pub record MaintenanceWindow : Type 0 where
  pub name : String
  pub schedule : String
  pub duration : String
  pub time_zone : String
  pub suspend : Bool
  pub allow_red : Bool
  pub node_selector : List (String × String)
  pub max_nodes : ℕ

pub data Reason : Type 0 where
  suspended time_zone_empty : Reason
  zone_unknown : (zone : String) → Reason
  schedule_invalid : (schedule : String) → Reason
  duration_invalid : (duration : String) → Reason
  open_until closed_until : (instant : ℕ) → Reason

pub record State : Type 0 where
  pub name : String
  pub is_open : Bool
  pub allows_red : Bool
  pub closes_at : ℕ
  pub next_open : ℕ
  pub reason : Reason
  pub selector : List (String × String)
  pub max_nodes : ℕ

abbrev pub or_default : String → String → String
or_default v fallback = if v == "" then fallback else v

-- The state at the head of `Evaluate`, with a reason, as the early returns leave it.
abbrev pub shut : MaintenanceWindow → Reason → State
shut mw reason = record {
  name = mw.name;
  is_open = false;
  allows_red = false;
  closes_at = 0;
  next_open = 0;
  reason = reason;
  selector = mw.node_selector;
  max_nodes = mw.max_nodes;
}

module _ (cw : Clockwork) where
  open cw use {Location, Schedule, load_location, parse_schedule, parse_duration, next}

  -- The part of `Evaluate` after the inputs are parsed.
  unfoldable pub evaluate_at : MaintenanceWindow → Location → Schedule → ℕ → ℕ → State
  evaluate_at mw loc schedule duration now =
      let prev = next schedule loc (now - duration) in
      let closes = prev + duration in
      if leb prev now && ltb now closes
      then record (shut mw (open_until closes)) {
        is_open = true;
        allows_red = mw.allow_red;
        closes_at = closes;
      }
      else record (shut mw (closed_until (next schedule loc now))) {
        next_open = next schedule loc now;
      }

  unfoldable pub evaluate : MaintenanceWindow → ℕ → State
  unfolding evaluate_at le64
  evaluate mw now =
      if mw.suspend
      then shut mw suspended
      else if mw.time_zone == ""
      then shut mw time_zone_empty
      else elim (load_location mw.time_zone) [
        | none ↦ shut mw (zone_unknown mw.time_zone)
        | some loc ↦ elim (parse_schedule mw.schedule) [
          | none ↦ shut mw (schedule_invalid mw.schedule)
          | some schedule ↦ elim (parse_duration (or_default mw.duration "1h")) [
            | none ↦ shut mw (duration_invalid mw.duration)
            | some duration ↦
                if le64 duration 0
                then shut mw (duration_invalid mw.duration)
                else evaluate_at mw loc schedule duration now
          ]
        ]
      ]

  -- `EvaluateAll`: the set's states.
  unfoldable pub evaluate_all : List MaintenanceWindow → ℕ → List State
  unfolding evaluate
  evaluate_all windows now = map (λ mw. evaluate mw now) windows

-- `Set.Any`
unfoldable pub any_open : List State → Bool
unfolding any
any_open states = any (λ st. st.is_open) states

-- `Set.Covering`
unfoldable pub covering : List State → Node → List State
unfolding keep labels_match
covering states node = keep (λ st. st.is_open && labels_match st.selector node.labels) states

pub data Verdict : Type 0 where
  none_defined : Verdict
  none_open : (states : List State) → Verdict
  none_covers : (node_name : String) → Verdict
  permitted : (window : String) (closes_at : ℕ) → Verdict
  not_for_red : (window : String) → Verdict

-- The refusals when no open window covers the node.
unfoldable pub uncovered : List State → Node → Verdict
unfolding any_open
uncovered [] node = none_defined
uncovered (s ∷ ss) node =
    if not (any_open (s ∷ ss)) then none_open (s ∷ ss) else none_covers node.name

-- The loop over the covering windows, and the sentence about the first of them.
unfoldable pub permission : List State → List State → Node → Bool × Verdict
unfolding find uncovered
permission states [] node = (false, uncovered states node)
permission states (c ∷ cs) node = elim (find (λ st. st.allows_red) (c ∷ cs)) [
  | some st ↦ (true, permitted st.name st.closes_at)
  | none ↦ (false, not_for_red c.name)
]

-- `Set.AllowsRedOn`
unfoldable pub allows_red_on : List State → Node → Bool × Verdict
unfolding covering permission
allows_red_on states node = permission states (covering states node) node
