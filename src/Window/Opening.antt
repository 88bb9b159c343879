-- ===== src/Window/Opening.antt =====
-- `Evaluate` of window.go: a window is open exactly during its scheduled intervals, and every failure
-- leaves it closed.
use k8s_dencer.Base.{
  ℕ, ◌+◌, ◌-◌, ◌≤◌, ◌<◌, ◌≡◌, ◌≢◌, ap, sym, ◌∙◌, ◌↔◌, inl, inr, Bool, true, false, ◌&&◌, some, ◌==◌,
  string_eq, leb, ltb, le64, arith, Bool-cases, Option-cases, lt→ltb, le→leb,
}
use text.Mathlib.TextEquality.{eq_iff}
use k8s_dencer.Window.Evaluate.{
  horizon, Clockwork, MaintenanceWindow, State, or_default, evaluate_at, evaluate,
}

module _ (cw : Clockwork) where
  open cw use {
    Location, Schedule, load_location, parse_schedule, parse_duration, fires, next, next_later,
    next_first,
  }

  -- Some firing of the schedule is at most one duration old.
  abbrev pub Within : Schedule → Location → ℕ → ℕ → Type 0
  Within s l d now = (f : ℕ) × (fires s l f ≡ true) × (f ≤ now) × (now < f + d)

  module _ (mw : MaintenanceWindow) (s : Schedule) (l : Location) (d now : ℕ) (recent : d ≤ now)
      (bounded : d ≤ horizon) where
    -- The test of the code, by the firing that the cron library finds.
    abbrev admits : ℕ → Bool
    admits prev = leb prev now && ltb now (prev + d)

    evaluate_at_lem :
        ((evaluate_at cw mw l s d now).is_open ≡ admits (next s l (now - d)))
        × ((evaluate_at cw mw l s d now).allows_red ≡ (admits (next s l (now - d)) && mw.allow_red))
    unfolding evaluate_at
    evaluate_at_lem = ground arith

    admits-Within : admits (next s l (now - d)) ≡ true → Within s l d now
    admits-Within h = elim (next_later s l (now - d)) [
      | inl never ↦ absurd (ground arith)
      | inr (later, fired) ↦ (next s l (now - d), fired, ground arith, ground arith)
    ]

    Within-admits : Within s l d now → admits (next s l (now - d)) ≡ true
    Within-admits (f, fired, past, fresh) =
        let (some_, soonest) = next_first s l (now - d) f (omega arith) (omega arith) fired in
        elim (next_later s l (now - d)) [
          | inl never ↦ absurd (omega arith)
          | inr (later, _) ↦ rw (
            le→leb (next s l (now - d)) now (omega arith),
            lt→ltb now (next s l (now - d) + d) (omega arith),
          )
        ]

  -- What it takes for a window to be open: every input is in order, and a firing is recent.
  pub record IsOpening (mw : MaintenanceWindow) (now : ℕ) : Type 0 where
    pub active : mw.suspend ≡ false
    pub zoned : mw.time_zone ≢ ""
    pub location : cw.Location
    pub located : load_location mw.time_zone ≡ some location
    pub schedule : cw.Schedule
    pub scheduled : parse_schedule mw.schedule ≡ some schedule
    pub duration : ℕ
    pub timed : parse_duration (or_default mw.duration "1h") ≡ some duration
    pub positive : le64 duration 0 ≡ false
    pub within : Within schedule location duration now

  -- The duration is at most the horizon of the cron library, and the clock shows at least that much.
  abbrev pub IsMeasurable : MaintenanceWindow → ℕ → Type 0
  IsMeasurable mw now =
      (d : ℕ)
      → parse_duration (or_default mw.duration "1h") ≡ some d
      → le64 d 0 ≡ false
      → (d ≤ now) × (d ≤ horizon)

  module _ (mw : MaintenanceWindow) (now : ℕ) (m : IsMeasurable mw now) where
    IsOpening-evaluate :
        (o : IsOpening mw now)
        → evaluate cw mw now ≡ evaluate_at cw mw o.location o.schedule o.duration now
    unfolding evaluate
    IsOpening-evaluate o =
        rw (o.active, unnamed, o.located, o.scheduled, o.timed, o.positive, evaluate)
      where
        unnamed : (mw.time_zone == "") ≡ false
        unnamed = elim (Bool-cases (mw.time_zone == "")) [
          | inl e ↦ absurd (o.zoned ((eq_iff mw.time_zone "").0 e))
          | inr e ↦ e
        ]

    evaluate-IsOpening : (evaluate cw mw now).is_open ≡ true → IsOpening mw now
    unfolding evaluate
    evaluate-IsOpening h = elim (Bool-cases mw.suspend) [
      | inl e ↦ absurd (let h' = (rw (e, evaluate) at h) in cc)
      | inr active ↦ elim (Bool-cases (mw.time_zone == "")) [
        | inl e ↦ absurd (let h' = (rw (active, e, evaluate) at h) in cc)
        | inr zoned ↦ elim (Option-cases (load_location mw.time_zone)) [
          | inl e ↦ absurd (let h' = (rw (active, zoned, e, evaluate) at h) in cc)
          | inr (l, located) ↦ elim (Option-cases (parse_schedule mw.schedule)) [
            | inl e ↦ absurd (let h' = (rw (active, zoned, located, e, evaluate) at h) in cc)
            | inr (s, scheduled) ↦ timed_case active zoned l located s scheduled
          ]
        ]
      ]
    ]
      where
        timed_case :
            mw.suspend ≡ false
            → (mw.time_zone == "") ≡ false
            → (l : cw.Location) → load_location mw.time_zone ≡ some l
            → (s : cw.Schedule) → parse_schedule mw.schedule ≡ some s
            → IsOpening mw now
        timed_case active zoned l located s scheduled =
            elim (Option-cases (parse_duration (or_default mw.duration "1h"))) [
              | inl e ↦
                  absurd (let h' = (rw (active, zoned, located, scheduled, e, evaluate) at h) in cc)
              | inr (d, timed) ↦ elim (Bool-cases (le64 d 0)) [
                | inl e ↦ absurd (
                    let h' = (rw (active, zoned, located, scheduled, timed, e, evaluate) at h) in
                    cc)
                | inr positive ↦
                    let (recent, bounded) = m d timed positive in
                    let h' =
                      (rw (active, zoned, located, scheduled, timed, positive, evaluate) at h) in
                    record {
                      active = active;
                      zoned = λ e. let e' = (eq_iff mw.time_zone "").1 e in cc;
                      location = l;
                      located = located;
                      schedule = s;
                      scheduled = scheduled;
                      duration = d;
                      timed = timed;
                      positive = positive;
                      within =
                          admits-Within mw s l d now recent bounded
                            (sym (evaluate_at_lem mw s l d now recent bounded).0 ∙ h');
                    }
              ]
            ]

    IsOpening-opens : IsOpening mw now → (evaluate cw mw now).is_open ≡ true
    IsOpening-opens o =
        let (recent, bounded) = m o.duration o.timed o.positive in
        ap (λ (st : State). st.is_open) (IsOpening-evaluate o)
        ∙ (evaluate_at_lem mw o.schedule o.location o.duration now recent bounded).0
        ∙ Within-admits mw o.schedule o.location o.duration now recent bounded o.within

    evaluate-red : (evaluate cw mw now).allows_red ≡ ((evaluate cw mw now).is_open && mw.allow_red)
    unfolding evaluate
    evaluate-red = ground arith

    -- A window is open exactly if it is not suspended, names a known time zone, has a valid schedule and
    -- a positive duration, and some firing of the schedule is past and less than the duration old; and it
    -- then allows Red steps exactly if its specification does, which a closed window never does.
    pub evaluate_iff :
        ((evaluate cw mw now).is_open ≡ true ↔ IsOpening mw now)
        × ((evaluate cw mw now).allows_red ≡ ((evaluate cw mw now).is_open && mw.allow_red))
    evaluate_iff = ((evaluate-IsOpening, IsOpening-opens), evaluate-red)
