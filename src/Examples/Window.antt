-- ===== src/Examples/Window.antt =====
-- An hourly window of half an hour, at ten past.
use k8s_dencer.Base.{
  ℕ, ◌+◌, ◌*◌, ◌/◌, ◌%◌, ◌<◌, ◌≤◌, ◌≡◌, refl, ◌↔◌, ◌⊎◌, inr, Bool, true, false, ◌&&◌, some, none,
  [], ◌∷◌, ◌==◌, nat_eq, string_eq, if◌then◌else◌, arith,
}
use k8s_dencer.Window.{Clockwork, MaintenanceWindow, evaluate, evaluate_all, allows_red_on}
use k8s_dencer.Window.Opening.{IsOpening, IsMeasurable, evaluate_iff}
use k8s_dencer.Window.Covering.{AnyOf, Unlocks, allows_red_on_iff}
use k8s_dencer.Examples.Fleet.{node_of}

abbrev hour : ℕ
hour = 3600000000000

abbrev hourly : ℕ → Bool
hourly t = t % hour == 0

abbrev next_hour : ℕ → ℕ
next_hour t = (t / hour + 1) * hour

later : (t : ℕ) → (next_hour t ≡ 0) ⊎ ((t < next_hour t) × (hourly (next_hour t) ≡ true))
later t = inr (omega arith, ground arith)

first : (t u : ℕ) → t < u → hourly u ≡ true → (0 < next_hour t) × (next_hour t ≤ u)
first t u less fired = let f : u % hour ≡ 0 = ground arith in (omega arith, omega (arith, f))

-- One zone, one schedule, two durations.
clock : Clockwork
clock = record {
  Location = Unit;
  Schedule = Unit;
  load_location = λ zone. if zone == "UTC" then some tt else none;
  parse_schedule = λ text. if text == "@hourly" then some tt else none;
  parse_duration = λ text.
      if text == "1h" then some hour else if text == "30m" then some 1800000000000 else none;
  fires = λ s l t. hourly t;
  next = λ s l t. next_hour t;
  next_later = λ s l t. later t;
  next_first = λ s l t u less near fired. first t u less fired;
}

nightly : MaintenanceWindow
nightly = record {
  name = "nightly";
  schedule = "@hourly";
  duration = "30m";
  time_zone = "UTC";
  suspend = false;
  allow_red = true;
  node_selector = [];
  max_nodes = 0;
}

now : ℕ
now = 10 * 3600000000000 + 600000000000

is_open : (evaluate clock nightly now).is_open ≡ true
unfolding evaluate clock nightly now
is_open = refl

is_measurable : IsMeasurable clock nightly now
unfolding clock nightly now
is_measurable d e positive =
    let d_eq : d ≡ 1800000000000 = cc in (omega (arith, d_eq), omega (arith, d_eq))

evaluate_iff_example :
    ((evaluate clock nightly now).is_open ≡ true ↔ IsOpening clock nightly now)
    × ((evaluate clock nightly now).allows_red
        ≡ ((evaluate clock nightly now).is_open && nightly.allow_red))
evaluate_iff_example = evaluate_iff clock nightly now is_measurable

allows_red_on_iff_example :
    ((allows_red_on (evaluate_all clock (nightly ∷ []) now) (node_of "a" "z1")).0 ≡ true)
    ↔ AnyOf (Unlocks (node_of "a" "z1")) (evaluate_all clock (nightly ∷ []) now)
allows_red_on_iff_example =
    allows_red_on_iff (evaluate_all clock (nightly ∷ []) now) (node_of "a" "z1")
