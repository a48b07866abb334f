-- ===== src/Samples/Nights.antt =====
-- The theorems on windows and days at concrete inputs.
use mathlib.Core.List.{Permᴰ}
use slumlord.Prelude.{
  ℕ, ◌+◌, ◌*◌, ◌≡◌, refl, ◌↔◌, ◌≢◌, true, false, ◌||◌, some, [], ◌∷◌, arith, differ→ne,
}
use slumlord.Prelude.Int.{pos}
use slumlord.Clock.{second_ns, minute_ns, day_ns, parse_clock}
use slumlord.Api.Schedule.{get_windows}
use slumlord.Window.{
  window_location, should_be_sleeping_at_window, should_be_sleeping_at, time_until_next_transition,
}
use slumlord.Window.Nights.{IsFixedOffset, IsNight, should_be_sleeping_at_window_iff}
use slumlord.Window.Transition.{asleep_in, FirstChange, time_until_next_transition-FirstChange}
use slumlord.Window.Requeue.{compute_requeue_interval, requeue_before_transition}
use slumlord.Days.{days_to_display, aggregate_days_display}
use slumlord.Days.Range.{is_shown, every_day, valid_days, is_shown-aggregate_days_display}
use slumlord.Days.Order.{days_to_display-perm}
use slumlord.Samples.{utc_only, late_evening, night_window, night_schedule}

utc_only-IsFixedOffset : IsFixedOffset utc_only (window_location utc_only night_window) 0 4
utc_only-IsFixedOffset = record {
  dates = λ t h m h_ok m_ok. omega arith;
  weekdays = λ t. omega arith;
}

ten_pm : parse_clock "22:00" ≡ some (22, 0)
unfolding parse_clock
ten_pm = refl

six_am : parse_clock "06:00" ≡ some (6, 0)
unfolding parse_clock
six_am = refl

should_be_sleeping_at_window_iff_example :
    (should_be_sleeping_at_window utc_only night_window late_evening ≡ true) ↔ (
      (d : _) × IsNight
        (pos 0 ∷ [])
        4
        ((22 * 60 + 0) * minute_ns)
        ((6 * 60 + 0) * minute_ns)
        (late_evening + 0)
        d)
should_be_sleeping_at_window_iff_example =
    should_be_sleeping_at_window_iff utc_only night_window late_evening 22 0 6 0 0 4
      utc_only-IsFixedOffset ten_pm six_am (omega arith)

time_until_next_transition-FirstChange_example :
    FirstChange utc_only night_schedule late_evening
      (should_be_sleeping_at utc_only night_schedule late_evening)
      1
      1440
      (time_until_next_transition utc_only night_schedule late_evening)
time_until_next_transition-FirstChange_example =
    time_until_next_transition-FirstChange utc_only night_schedule late_evening

-- Five minutes before ten, and at noon of the same day.
abbrev early_evening : ℕ
early_evening = 10 * day_ns + 1315 * minute_ns

abbrev noon : ℕ
noon = 10 * day_ns + 720 * minute_ns

night_falls :
    asleep_in utc_only night_schedule early_evening 6
    ≢ should_be_sleeping_at utc_only night_schedule early_evening
unfolding should_be_sleeping_at should_be_sleeping_at_window get_windows parse_clock
night_falls e = absurd (differ→ne true false refl e)

requeue_before_transition_example :
    compute_requeue_interval utc_only (pos 0) night_schedule early_evening ≡ pos (30 * second_ns)
requeue_before_transition_example =
    requeue_before_transition utc_only (pos 0) night_schedule early_evening 6 (omega arith)
      (omega arith) night_falls

is_shown-aggregate_days_display_example :
    is_shown (aggregate_days_display (night_window ∷ []))
    ≡ (every_day (night_window ∷ []) || valid_days (night_window ∷ []))
is_shown-aggregate_days_display_example = is_shown-aggregate_days_display (night_window ∷ [])

days_to_display-perm_example :
    days_to_display (pos 6 ∷ pos 0 ∷ []) ≡ days_to_display (pos 0 ∷ pos 6 ∷ [])
days_to_display-perm_example =
    days_to_display-perm (pos 6 ∷ pos 0 ∷ []) (pos 0 ∷ pos 6 ∷ []) (Permᴰ.swap refl refl)
