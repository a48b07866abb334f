-- ===== src/Clock.antt =====
-- What the controllers use of Go's `time`: clock readings "15:04", locations, and calendar dates.
use Prim.Native.Char.{code}
use slumlord.Prelude.{
  ℕ, ◌+◌, ◌-◌, ◌*◌, ◌<◌, ◌≡◌, arith, Bool, ◌&&◌, Option, none, some, List, [], ◌∷◌, String, leb,
  ltb, eqb, if◌then◌else◌,
}

-- Nanoseconds.
abbrev pub second_ns : ℕ
second_ns = 1_000_000_000

abbrev pub minute_ns : ℕ
minute_ns = 60_000_000_000

abbrev pub day_ns : ℕ
day_ns = 86_400_000_000_000

abbrev pub codes : String → List ℕ
codes String.[] = []
codes (String.◌∷◌ c s) = code c ∷ codes s

abbrev is_digit : ℕ → Bool
is_digit c = leb b'0' c && leb c b'9'

-- `getnum(s, false)`: one or two digits.
read_hour : List ℕ → Option (ℕ × List ℕ)
read_hour [] = none
read_hour (a ∷ []) = if is_digit a then some (a - b'0', []) else none
read_hour (a ∷ b ∷ r) =
    if is_digit a
    then if is_digit b then some ((a - b'0') * 10 + (b - b'0'), r) else some (a - b'0', b ∷ r)
    else none

-- `getnum(s, true)`, at the end of the text: two digits.
read_minute : List ℕ → Option ℕ
read_minute (a ∷ b ∷ []) =
    if is_digit a && is_digit b then some ((a - b'0') * 10 + (b - b'0')) else none
read_minute _ = none

read_colon : List ℕ → Option (List ℕ)
read_colon [] = none
read_colon (c ∷ r) = if eqb c b':' then some r else none

-- `time.ParseInLocation("15:04", s, loc)`, of which the hour and the minute are used.
unfoldable pub parse_clock : String → Option (ℕ × ℕ)
unfolding read_hour read_minute read_colon
parse_clock s = elim (read_hour (codes s)) [
  | none ↦ none
  | some (h, r) ↦ elim (read_colon r) [
    | none ↦ none
    | some r' ↦ elim (read_minute r') [
      | none ↦ none
      | some m ↦ if ltb h 24 && ltb m 60 then some (h, m) else none
    ]
  ]
]

-- The calendar date of an instant in a location, and its weekday (0 is Sunday).
pub record Civil : Type 0 where
  pub year : ℕ
  pub month : ℕ
  pub day : ℕ
  pub weekday : ℕ

-- The time zone database of the machine: `time.UTC`, `time.LoadLocation`, `t.In(loc)` and
-- `time.Date(year, month, day, hour, minute, 0, 0, loc)`.
pub record Zones : Type 1 where
  pub Location : Type 0
  pub utc : Location
  pub load_location : String → Option Location
  pub civil : Location → ℕ → Civil
  pub date : Location → Civil → ℕ → ℕ → ℕ

-- An hour and a minute that were read are those of a clock.
pub parse_clock_range : (s : String) (h m : ℕ) → parse_clock s ≡ some (h, m) → (h < 24) × (m < 60)
unfolding parse_clock
parse_clock_range s h m e = ground arith
