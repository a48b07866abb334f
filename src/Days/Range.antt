-- ===== src/Days/Range.antt =====
-- Which lists of days can be displayed: exactly those of weekday numbers 0 to 6.
use slumlord.Prelude.{
  zero, suc, ◌≡◌, refl, inl, inr, Bool, Option, none, some, List, [], ◌∷◌, String, true, false,
  ◌&&◌, ◌||◌, any_of, is_empty, arith, Bool-cases, ltb, if◌then◌else◌,
}
use slumlord.Prelude.Int.{ℤ, pos, negsuc, eqb_ℤ, eqb_ℤ_iff, suc_ℤ, leb_ℤ}
use slumlord.Api.Schedule.{SleepWindow}
use slumlord.Days.{
  day_name, join_parts, DayRange, insert_sorted, sort_ints, ranges_from, range_text, format_range,
  format_ranges, display_sorted, days_to_display, mark_seen, merged_days, aggregate_days_display,
}

abbrev pub is_weekday : ℤ → Bool
is_weekday (pos n) = ltb n 7
is_weekday (negsuc n) = false

abbrev pub all_weekdays : List ℤ → Bool
all_weekdays [] = true
all_weekdays (d ∷ ds) = is_weekday d && all_weekdays ds

abbrev pub is_shown : Option String → Bool
is_shown none = false
is_shown (some s) = true

is_shown-day_name : (d : ℤ) → is_shown (day_name d) ≡ is_weekday d
unfolding day_name
is_shown-day_name (pos zero) = refl
is_shown-day_name (pos (suc zero)) = refl
is_shown-day_name (pos (suc (suc zero))) = refl
is_shown-day_name (pos (suc (suc (suc zero)))) = refl
is_shown-day_name (pos (suc (suc (suc (suc zero))))) = refl
is_shown-day_name (pos (suc (suc (suc (suc (suc zero)))))) = refl
is_shown-day_name (pos (suc (suc (suc (suc (suc (suc zero))))))) = refl
is_shown-day_name (pos (suc (suc (suc (suc (suc (suc (suc n)))))))) = ground arith
is_shown-day_name (negsuc n) = refl

is_shown-range_text :
    (r : DayRange) (a b : Option String) → is_shown (range_text r a b) ≡ (is_shown a && is_shown b)
unfolding range_text
is_shown-range_text r none b = refl
is_shown-range_text r (some a) none = refl
is_shown-range_text r (some a) (some b) = ground arith

is_shown-format_range :
    (r : DayRange) → is_shown (format_range r) ≡ (is_weekday r.start && is_weekday r.end)
unfolding format_range
is_shown-format_range r =
    rw (is_shown-range_text, is_shown-day_name r.start, is_shown-day_name r.end)

is_shown-join_parts :
    (a : Option String) (rs : List DayRange) (b : Option String)
    → is_shown (join_parts a rs b) ≡ (is_shown a && is_shown b)
unfolding join_parts
is_shown-join_parts none rs b = refl
is_shown-join_parts (some a) rs none = refl
is_shown-join_parts (some a) [] (some b) = refl
is_shown-join_parts (some a) (r ∷ rs) (some b) = refl

is_shown-format_ranges :
    (r : DayRange) (rs : List DayRange)
    → is_shown (format_ranges (r ∷ rs))
      ≡ ((is_weekday r.start && is_weekday r.end) && is_shown (format_ranges rs))
unfolding format_ranges
is_shown-format_ranges r rs = rw (is_shown-join_parts, is_shown-format_range)

between_weekdays :
    (start end d : ℤ)
    → leb_ℤ start end ≡ true
    → eqb_ℤ d (suc_ℤ end) ≡ true
    → is_weekday start ≡ true
    → is_weekday d ≡ true
    → (is_weekday end ≡ true) × (leb_ℤ start d ≡ true)
between_weekdays start end d le e hs hd = ground arith

longer_range :
    (start end d : ℤ) → leb_ℤ start end ≡ true → eqb_ℤ d (suc_ℤ end) ≡ true → leb_ℤ start d ≡ true
longer_range start end d le e = ground arith

-- A range between weekdays holds weekdays only, so only the ends are ever looked up.
is_shown-ranges_from :
    (start end : ℤ) (ds : List ℤ)
    → leb_ℤ start end ≡ true
    → is_shown (format_ranges (ranges_from start end ds))
      ≡ ((is_weekday start && is_weekday end) && all_weekdays ds)
unfolding ranges_from
is_shown-ranges_from start end [] h =
    rw (is_shown-format_ranges (record { start = start; end = end }) [])
      (unfold format_ranges in refl)
is_shown-ranges_from start end (d ∷ ds) h = elim (Bool-cases (eqb_ℤ d (suc_ℤ end))) [
  | inl next ↦ rw next (
      rw (is_shown-ranges_from start d ds (longer_range start end d h next))
        (ground (arith, between_weekdays start end d h next)))
  | inr gap ↦ rw gap (
      rw
        (
          is_shown-format_ranges (record { start = start; end = end }) (ranges_from d d ds),
          is_shown-ranges_from d d ds (ground arith),
        )
        (ground arith))
]

all_weekdays-insert_sorted :
    (d : ℤ) (ds : List ℤ) → all_weekdays (insert_sorted d ds) ≡ (is_weekday d && all_weekdays ds)
unfolding insert_sorted
all_weekdays-insert_sorted d [] = refl
all_weekdays-insert_sorted d (x ∷ ds) = ground (arith, all_weekdays-insert_sorted d ds)

all_weekdays-sort_ints : (ds : List ℤ) → all_weekdays (sort_ints ds) ≡ all_weekdays ds
unfolding sort_ints
all_weekdays-sort_ints [] = refl
all_weekdays-sort_ints (d ∷ ds) = rw (all_weekdays-insert_sorted, all_weekdays-sort_ints ds)

is_shown-display_sorted : (ds : List ℤ) → is_shown (display_sorted ds) ≡ all_weekdays ds
unfolding display_sorted
is_shown-display_sorted [] = refl
is_shown-display_sorted (d ∷ ds) = rw (is_shown-ranges_from d d ds (ground arith)) (ground arith)

-- Days are displayed exactly if all are weekday numbers from 0 to 6; any other number is an index
-- out of range.
pub is_shown-days_to_display : (days : List ℤ) → is_shown (days_to_display days) ≡ all_weekdays days
unfolding days_to_display
is_shown-days_to_display days = rw (is_shown-display_sorted, all_weekdays-sort_ints)

seen_weekday :
    (d : ℤ) (seen : List ℤ)
    → any_of (eqb_ℤ d) seen ≡ true
    → all_weekdays seen ≡ true
    → is_weekday d ≡ true
seen_weekday d [] h k = cc
seen_weekday d (x ∷ seen) h k = ground (arith, seen_weekday d seen, eqb_ℤ_iff d x)

all_weekdays-mark_seen :
    (seen ds : List ℤ) → all_weekdays (mark_seen seen ds) ≡ (all_weekdays seen && all_weekdays ds)
unfolding mark_seen
all_weekdays-mark_seen seen [] = ground arith
all_weekdays-mark_seen seen (d ∷ ds) = ground (
  arith,
  seen_weekday d seen,
  all_weekdays-mark_seen (if any_of (eqb_ℤ d) seen then seen else d ∷ seen) ds,
)

abbrev pub valid_days : List SleepWindow → Bool
valid_days [] = true
valid_days (w ∷ ws) = all_weekdays w.days && valid_days ws

abbrev pub every_day : List SleepWindow → Bool
every_day ws = any_of (λ w. is_empty w.days) ws

merged_days_shown :
    (seen : List ℤ) (ws : List SleepWindow)
    → is_shown (elim (merged_days seen ws) [
      | none ↦ some "Every day"
      | some merged ↦ days_to_display merged
    ])
      ≡ (every_day ws || (all_weekdays seen && valid_days ws))
unfolding merged_days
merged_days_shown seen [] = rw is_shown-days_to_display (ground arith)
merged_days_shown seen (w ∷ ws) =
    ground (arith, all_weekdays-mark_seen seen w.days, merged_days_shown (mark_seen seen w.days) ws)

-- The summary of a schedule's windows is displayed exactly if some window has no days, or every
-- window's days are numbers from 0 to 6; in every other case computing it is a run-time panic.
pub is_shown-aggregate_days_display :
    (ws : List SleepWindow) → is_shown (aggregate_days_display ws) ≡ (every_day ws || valid_days ws)
unfolding aggregate_days_display
is_shown-aggregate_days_display ws = merged_days_shown [] ws
