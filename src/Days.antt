-- ===== src/Days.antt =====
-- internal/controller/sleepschedule_controller.go, `daysToDisplay` and `aggregateDaysDisplay`.
-- `none` is the run-time panic of an index out of range.
pub mod Range
pub mod Order
use Prim.Native.String.{◌++◌ as append}
use slumlord.Prelude.{
  ℕ, zero, suc, Option, none, some, List, [], ◌∷◌, String, is_empty, any_of, if◌then◌else◌,
}
use slumlord.Prelude.Int.{ℤ, pos, negsuc, leb_ℤ, eqb_ℤ, suc_ℤ}
use slumlord.Api.Schedule.{SleepWindow}

pub day_names : List String
day_names = "Sun" ∷ "Mon" ∷ "Tue" ∷ "Wed" ∷ "Thu" ∷ "Fri" ∷ "Sat" ∷ []

index : List String → ℕ → Option String
index [] i = none
index (x ∷ xs) zero = some x
index (x ∷ xs) (suc i) = index xs i

-- `dayNames[d]`
pub day_name : ℤ → Option String
unfolding day_names index
day_name (pos n) = index day_names n
day_name (negsuc n) = none

-- `sort.Ints`
pub insert_sorted : ℤ → List ℤ → List ℤ
insert_sorted a [] = a ∷ []
insert_sorted a (x ∷ xs) = if leb_ℤ a x then a ∷ x ∷ xs else x ∷ insert_sorted a xs

pub sort_ints : List ℤ → List ℤ
unfolding insert_sorted
sort_ints [] = []
sort_ints (x ∷ xs) = insert_sorted x (sort_ints xs)

pub record DayRange : Type 0 where
  pub start : ℤ
  pub end : ℤ

-- The loop over the sorted days that come after `start` and `end`.
pub ranges_from : ℤ → ℤ → List ℤ → List DayRange
ranges_from start end [] = record { start = start; end = end } ∷ []
ranges_from start end (d ∷ ds) =
    let longer = ranges_from start d ds in
    let fresh = ranges_from d d ds in
    if eqb_ℤ d (suc_ℤ end) then longer else record { start = start; end = end } ∷ fresh

abbrev join_names : String → String → String → String
join_names a sep b = append a (append sep b)

-- The text of one range, from the names of its ends: the `if` over a range's length.
range_text : DayRange → Option String → Option String → Option String
range_text r none _ = none
range_text r (some a) none = none
range_text r (some a) (some b) =
    if eqb_ℤ r.start r.end
    then some a
    else if eqb_ℤ r.end (suc_ℤ r.start)
    then some (join_names a "," b)
    else some (join_names a "-" b)

pub format_range : DayRange → Option String
unfolding day_name range_text
format_range r = range_text r (day_name r.start) (day_name r.end)

-- `strings.Join(parts, ",")`, where a part that cannot be formatted has panicked.
join_parts : Option String → List DayRange → Option String → Option String
join_parts none rs rest = none
join_parts (some a) rs none = none
join_parts (some a) rs (some b) = if is_empty rs then some a else some (join_names a "," b)

pub format_ranges : List DayRange → Option String
unfolding join_parts
format_ranges [] = some ""
format_ranges (r ∷ rs) = join_parts (format_range r) rs (format_ranges rs)

-- What is displayed for days that are already sorted.
pub display_sorted : List ℤ → Option String
unfolding format_ranges ranges_from
display_sorted [] = some "Every day"
display_sorted (d ∷ ds) = format_ranges (ranges_from d d ds)

unfoldable pub days_to_display : List ℤ → Option String
unfolding sort_ints display_sorted
days_to_display days = display_sorted (sort_ints days)

-- `seen[d] = true` for each day; the map's keys are listed here in the order of insertion.
pub mark_seen : List ℤ → List ℤ → List ℤ
mark_seen seen [] = seen
mark_seen seen (d ∷ ds) = mark_seen (if any_of (eqb_ℤ d) seen then seen else d ∷ seen) ds

-- `none` if some window has no days.
pub merged_days : List ℤ → List SleepWindow → Option (List ℤ)
unfolding mark_seen
merged_days seen [] = some seen
merged_days seen (w ∷ ws) =
    let rest = merged_days (mark_seen seen w.days) ws in if is_empty w.days then none else rest

unfoldable pub aggregate_days_display : List SleepWindow → Option String
unfolding merged_days
aggregate_days_display ws = elim (merged_days [] ws) [
  | none ↦ some "Every day"
  | some merged ↦ days_to_display merged
]
