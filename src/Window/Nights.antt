-- ===== src/Window/Nights.antt =====
-- The sleep test against its meaning: a window describes one night for each allowed day.
use slumlord.Prelude.{
  ℕ, ◌+◌, ◌-◌, ◌*◌, ◌/◌, ◌%◌, ◌≤◌, ◌<◌, ◌≡◌, ◌⊎◌, ◌↔◌, inl, inr, true, some, List, ltb, is_empty,
  arith, if◌then◌else◌, Bool-cases,
}
use slumlord.Prelude.Int.{ℤ}
use slumlord.Clock.{minute_ns, day_ns, parse_clock, parse_clock_range, Zones}
use slumlord.Api.Schedule.{SleepWindow}
use slumlord.Window.{day_allowed, in_window, window_location, should_be_sleeping_at_window}

-- A location whose offset from UTC never changes: with `shift` added to an instant, days begin at
-- the multiples of a day's length.
pub record IsFixedOffset (z : Zones) (loc : z.Location) (shift phase : ℕ) : Type 0 where
  pub dates :
      (t h m : ℕ)
      → h < 24
      → m < 60
      → z.date loc (z.civil loc t) h m + shift
        ≡ (t + shift) / day_ns * day_ns + (h * 60 + m) * minute_ns
  pub weekdays : (t : ℕ) → (z.civil loc t).weekday ≡ ((t + shift) / day_ns + phase) % 7

-- The night that begins on day `d` at `s` and ends at `e`, on the next day if `e` is before `s`,
-- is allowed and holds the shifted instant `t`.
pub record IsNight (days : List ℤ) (phase s e t d : ℕ) : Type 0 where
  pub allowed : (is_empty days ≡ true) ⊎ (day_allowed days ((d + phase) % 7) ≡ true)
  pub begun : d * day_ns + s < t
  pub lasting : t < d * day_ns + (if ltb e s then day_ns + e else e)

-- The weekday that is looked up in the morning part is that of the day before.
previous_weekday : (d phase : ℕ) → 1 ≤ d → ((d + phase) % 7 + 6) % 7 ≡ (d - 1 + phase) % 7
previous_weekday d phase h = omega arith

-- The facts about one test: `st` and `en` are the window's ends on day `d0`, on which `t` lies.
module _ (days : List ℤ) (phase shift s e t st en d0 : ℕ) (s_in : s < day_ns) (e_in : e < day_ns)
    (st_at : st + shift ≡ d0 * day_ns + s) (en_at : en + shift ≡ d0 * day_ns + e)
    (today : d0 * day_ns ≤ t + shift) (before_tomorrow : t + shift < d0 * day_ns + day_ns)
    (later : 1 ≤ d0) where
  in_window-IsNight :
      in_window days t ((d0 + phase) % 7) st en ≡ true
      → (d : ℕ) × IsNight days phase s e (t + shift) d
  unfolding in_window
  in_window-IsNight h = elim (Bool-cases (ltb e s)) [
    | inl over ↦ elim (Bool-cases (ltb t en)) [
      | inl morning ↦ (d0 - 1, ground (arith, previous_weekday d0 phase))
      | inr evening ↦ (d0, ground arith)
    ]
    | inr same ↦ (d0, ground arith)
  ]

  night_day : (d : ℕ) → IsNight days phase s e (t + shift) d → (d ≡ d0) ⊎ (d ≡ d0 - 1)
  night_day d n = elim (Bool-cases (ltb e s)) [
    | inl over ↦ let k : t + shift < d * day_ns + (day_ns + e) = ground arith in omega arith
    | inr same ↦ let k : t + shift < d * day_ns + e = ground arith in omega arith
  ]

  night_in_window :
      (d : ℕ)
      → IsNight days phase s e (t + shift) d
      → in_window days t ((d0 + phase) % 7) st en ≡ true
  unfolding in_window
  night_in_window d n = elim (night_day d n) [
    | inl tonight ↦ elim (Bool-cases (ltb e s)) [
      | inl over ↦ ground arith
      | inr same ↦ ground arith
    ]
    | inr last_night ↦ elim (Bool-cases (ltb e s)) [
      | inl over ↦ ground (arith, previous_weekday d0 phase)
      | inr same ↦ ground arith
    ]
  ]

-- With both times readable, the answer is the test on today's two instants.
readable_window :
    (z : Zones) (w : SleepWindow) (t sh sm eh em : ℕ)
    → parse_clock w.start ≡ some (sh, sm)
    → parse_clock w.end ≡ some (eh, em)
    → let loc = window_location z w in
      let today = z.civil loc t in
      should_be_sleeping_at_window z w t
      ≡ in_window w.days t today.weekday (z.date loc today sh sm) (z.date loc today eh em)
unfolding should_be_sleeping_at_window
readable_window z w t sh sm eh em ps pe = rw (ps, pe, should_be_sleeping_at_window)

-- A window is asleep at an instant exactly when the instant lies strictly inside one of the nights
-- of the window's allowed days, where a night that ends at an earlier clock time than it begins
-- runs into the next day. This is stated for readable times, for a location with a constant offset,
-- and after the first day of the calendar.
pub should_be_sleeping_at_window_iff :
    (z : Zones) (w : SleepWindow) (t sh sm eh em shift phase : ℕ)
    → IsFixedOffset z (window_location z w) shift phase
    → parse_clock w.start ≡ some (sh, sm)
    → parse_clock w.end ≡ some (eh, em)
    → day_ns ≤ t + shift
    → (should_be_sleeping_at_window z w t ≡ true) ↔ (
        (d : ℕ) × IsNight w.days phase
          ((sh * 60 + sm) * minute_ns)
          ((eh * 60 + em) * minute_ns)
          (t + shift)
          d)
should_be_sleeping_at_window_iff z w t sh sm eh em shift phase fixed ps pe after_first =
    let d0 : ℕ = (t + shift) / day_ns in
    let (sh_ok, sm_ok) = parse_clock_range w.start sh sm ps in
    let (eh_ok, em_ok) = parse_clock_range w.end eh em pe in
    let at_start = fixed.dates t sh sm sh_ok sm_ok in
    let at_end = fixed.dates t eh em eh_ok em_ok in
    simp (readable_window z w t sh sm eh em ps pe, fixed.weekdays)
      (
        in_window-IsNight w.days phase shift ((sh * 60 + sm) * minute_ns)
            ((eh * 60 + em) * minute_ns) t _ _ d0 (omega arith) (omega arith) at_start at_end
            (omega arith) (omega arith) (omega arith),
        λ n.
            night_in_window w.days phase shift ((sh * 60 + sm) * minute_ns)
              ((eh * 60 + em) * minute_ns) t _ _ d0 (omega arith) (omega arith) at_start at_end
              (omega arith) (omega arith) (omega arith) n.0 n.1,
      )
