-- ===== src/Packer/Windows.antt =====
-- The consolidation window is decided as the sleep schedule's windows are.
use slumlord.Prelude.{ℕ, ◌≡◌, refl, some, List, [], ◌∷◌, arith, Option-cases, inl, inr}
use slumlord.Prelude.Int.{ℤ}
use slumlord.Clock.{parse_clock, Zones}
use slumlord.Api.Schedule.{SleepWindow}
use slumlord.Window.{in_window, window_location, should_be_sleeping_at_window}
use slumlord.Packer.{consolidates, is_in_consolidation_window}

consolidates_lem :
    (days : List ℤ) (now weekday st en : ℕ)
    → consolidates days now weekday st en ≡ in_window days now weekday st en
unfolding consolidates in_window
consolidates_lem [] now weekday st en = ground arith
consolidates_lem (d ∷ days) now weekday st en = ground arith

-- Consolidation with a window is allowed exactly when a sleep schedule would sleep in that window.
pub is_in_consolidation_window_lem :
    (z : Zones) (w : SleepWindow) (t : ℕ)
    → is_in_consolidation_window z (some w) t ≡ should_be_sleeping_at_window z w t
unfolding is_in_consolidation_window should_be_sleeping_at_window window_location
is_in_consolidation_window_lem z w t = elim (Option-cases (parse_clock w.start)) [
  | inl e ↦ rw (e, is_in_consolidation_window, should_be_sleeping_at_window) refl
  | inr (s, e) ↦ elim (Option-cases (parse_clock w.end)) [
    | inl e' ↦ rw (e, e', is_in_consolidation_window, should_be_sleeping_at_window) refl
    | inr (s', e') ↦
        rw (e, e', is_in_consolidation_window, should_be_sleeping_at_window)
          (let loc = window_location z w in
            let today = z.civil loc t in
            consolidates_lem w.days t today.weekday (z.date loc today s.0 s.1)
              (z.date loc today s'.0 s'.1))
  ]
]
