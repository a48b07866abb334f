-- ===== src/Window.antt =====
-- internal/controller/sleepschedule_controller.go: is a schedule asleep at a time, and how long
-- until that changes.
pub mod Nights
pub mod Transition
pub mod Requeue
use slumlord.Prelude.{
  ℕ, zero, suc, ◌+◌, ◌*◌, ◌%◌, Bool, false, ◌&&◌, ◌||◌, differ, none, some, List, ◌==◌, ltb,
  is_empty, any_of, if◌then◌else◌,
}
use slumlord.Prelude.Int.{ℤ, pos, eqb_ℤ}
use slumlord.Clock.{minute_ns, parse_clock, Zones}
use slumlord.Api.Schedule.{SleepWindow, SleepSchedule, get_windows}

-- `for _, d := range window.Days { if d == checkDay { ... } }`
abbrev pub day_allowed : List ℤ → ℕ → Bool
day_allowed days check_day = any_of (λ d. eqb_ℤ d (pos check_day)) days

-- The test once both times are parsed, set to the date of `now`.
unfoldable pub in_window : List ℤ → ℕ → ℕ → ℕ → ℕ → Bool
in_window days now weekday start_time end_time =
    let is_overnight = ltb end_time start_time in
    let check_day : ℕ = if is_overnight && ltb now end_time then (weekday + 6) % 7 else weekday in
    if is_empty days || day_allowed days check_day
    then if is_overnight
      then ltb start_time now || ltb now end_time
      else ltb start_time now && ltb now end_time
    else false

module _ (z : Zones) where
  open z use {Location, utc, load_location, civil, date}

  -- The named location, or UTC where the name is empty or unknown.
  unfoldable pub window_location : SleepWindow → Location
  window_location w =
      if w.timezone == "" then utc else elim (load_location w.timezone) [ none ↦ utc | some l ↦ l ]

  unfoldable pub should_be_sleeping_at_window : SleepWindow → ℕ → Bool
  unfolding window_location in_window
  should_be_sleeping_at_window w t = elim (parse_clock w.start) [
    | none ↦ false
    | some (sh, sm) ↦ elim (parse_clock w.end) [
      | none ↦ false
      | some (eh, em) ↦
          let loc = window_location w in
          let today = civil loc t in
          in_window w.days t today.weekday (date loc today sh sm) (date loc today eh em)
    ]
  ]

  unfoldable pub should_be_sleeping_at : SleepSchedule → ℕ → Bool
  should_be_sleeping_at s t = any_of (λ w. should_be_sleeping_at_window w t) (get_windows s.spec)

  -- The loop of `timeUntilNextTransition` from the probe `i` on, with the number of probes left.
  unfoldable pub next_change : SleepSchedule → ℕ → Bool → ℕ → ℕ → ℕ
  next_change s now current i zero = 0
  next_change s now current i (suc left) =
      let rest = next_change s now current (i + 1) left in
      if differ (should_be_sleeping_at s (now + i * minute_ns)) current then i * minute_ns else rest

  unfoldable pub time_until_next_transition : SleepSchedule → ℕ → ℕ
  unfolding next_change
  time_until_next_transition s now = next_change s now (should_be_sleeping_at s now) 1 1440
