-- ===== src/Drain/Due.antt =====
-- When a run starts.
use slumlord.Prelude.{
  ℕ, ◌+◌, ◌-◌, ◌*◌, ◌⊎◌, refl, ◌<◌, ◌≤◌, ◌≡◌, ◌↔◌, Bool, true, false, Option, none, some, ltb,
  arith, Bool-cases, inl, inr,
}
use slumlord.Clock.{minute_ns, day_ns}
use slumlord.Drain.Types.{DrainRunStatus}
use slumlord.Drain.Choice.{should_run}

-- What the cron library's `Next` looks through at least, when there is no tick: four years.
abbrev pub horizon : ℕ
horizon = 4 * 365 * day_ns

-- The tick is the first one after a time.
pub record IsFirst (is_tick : ℕ → Bool) (t tick : ℕ) : Type 0 where
  pub later : t < tick
  pub ticks : is_tick tick ≡ true
  pub first : (u : ℕ) → t < u → u < tick → is_tick u ≡ false

-- The library's `Next`: the first tick after a time, or the zero time, here 0, where it finds none.
abbrev pub IsNext : (ℕ → Bool) → (ℕ → ℕ) → Type 0
IsNext is_tick next =
    (t : ℕ)
    → IsFirst is_tick t (next t)
      ⊎ ((next t ≡ 0) × ((u : ℕ) → t < u → u ≤ t + horizon → is_tick u ≡ false))

-- The tick is later than the start of the last run, if there was one.
abbrev pub IsFresh : Option DrainRunStatus → ℕ → Type 0
IsFresh none t = Unit {0}
IsFresh (some last) t = last.start_time < t

-- There is a tick in the last two minutes, and all of these are later than the last run's start.
pub record IsDue (is_tick : ℕ → Bool) (last : Option DrainRunStatus) (now : ℕ) : Type 0 where
  pub tick : ℕ
  pub after : now - 2 * minute_ns < tick
  pub by_now : tick ≤ now
  pub ticks : is_tick tick ≡ true
  pub fresh : (u : ℕ) → now - 2 * minute_ns < u → u ≤ now → is_tick u ≡ true → IsFresh last u

IsFresh-later : (last : Option DrainRunStatus) (t u : ℕ) → t ≤ u → IsFresh last t → IsFresh last u
IsFresh-later none t u le h = tt
IsFresh-later (some last) t u le h = omega arith

should_run_lem :
    (last : Option DrainRunStatus) (t now : ℕ)
    → (should_run last t now ≡ true) ↔ ((t ≤ now) × IsFresh last t)
unfolding should_run
should_run_lem none t now = (λ e. (ground arith, tt), λ h. ground (arith, h.0))
should_run_lem (some last) t now =
    (λ e. (ground arith, ground arith), λ h. ground (arith, h.0, h.1))

-- Nothing is earlier than the zero time.
IsFresh-zero : (last : Option DrainRunStatus) → IsFresh last 0 → last ≡ none
IsFresh-zero none h = refl
IsFresh-zero (some last) h = absurd (omega arith)

IsFirst-≤ :
    (is_tick : ℕ → Bool) (t tick u : ℕ)
    → IsFirst is_tick t tick
    → t < u
    → is_tick u ≡ true
    → tick ≤ u
IsFirst-≤ is_tick t tick u first lt e = elim (Bool-cases (ltb u tick)) [
  | inl before ↦ ground (arith, first.first u lt)
  | inr le ↦ ground arith
]

module _ (is_tick : ℕ → Bool) (last : Option DrainRunStatus) (now : ℕ) where
  -- What a run waits for: a tick that is due, or the first request where there is none to wait for.
  abbrev pub IsStart : ℕ → Type 0
  IsStart tick = IsDue is_tick last now ⊎ ((last ≡ none) × (tick ≡ 0))

  should_run-IsFirst :
      (tick : ℕ)
      → IsFirst is_tick (now - 2 * minute_ns) tick
      → (should_run last tick now ≡ true) ↔ IsStart tick
  should_run-IsFirst tick first =
      let run = should_run_lem last tick now in
      let least = IsFirst-≤ is_tick (now - 2 * minute_ns) tick in
      (
        (λ e. inl (record {
          tick = tick;
          after = first.later;
          by_now = (run.0 e).0;
          ticks = first.ticks;
          fresh = λ u lt le h. IsFresh-later last tick u (least u first lt h) (run.0 e).1;
        })),
        (λ start. elim start [
          | inl due ↦
              let le = least due.tick first due.after due.ticks in
              run.1 (
                omega (arith, le, due.by_now),
                due.fresh tick first.later (omega (arith, le, due.by_now)) first.ticks,
              )
          | inr never ↦ absurd (omega (arith, never.1, first.later))
        ]),
      )

  should_run-zero :
      (tick : ℕ)
      → tick ≡ 0
      → ((u : ℕ)
          → now - 2 * minute_ns < u
          → u ≤ (now - 2 * minute_ns) + horizon
          → is_tick u ≡ false)
      → (should_run last tick now ≡ true) ↔ IsStart tick
  should_run-zero tick zero empty =
      let run = should_run_lem last tick now in
      (
        (λ e. inr (IsFresh-zero last (rw zero at ((run.0 e).1)), zero)),
        (λ start. elim start [
          | inl due ↦
              let none_there = empty due.tick due.after (omega (arith, due.by_now)) in
              ground (arith, none_there, due.ticks)
          | inr never ↦ rw (zero, never.0) ((should_run_lem none 0 now).1 (omega arith, tt))
        ]),
      )

-- A run starts exactly in two cases. Either there is a tick in the last two minutes and every tick of
-- these two minutes, not only the latest, is later than the start of the last run; or there was no run
-- and the cron library finds no tick after two minutes ago, which it answers by the zero time. The
-- library's `Next` answers the first tick after a time, or that zero time where the four years after
-- it have none.
pub should_run_iff :
    (is_tick : ℕ → Bool) (next : ℕ → ℕ) (last : Option DrainRunStatus) (now : ℕ)
    → IsNext is_tick next
    → (should_run last (next (now - 2 * minute_ns)) now ≡ true)
      ↔ (IsDue is_tick last now ⊎ ((last ≡ none) × (next (now - 2 * minute_ns) ≡ 0)))
should_run_iff is_tick next last now law = elim (law (now - 2 * minute_ns)) [
  | inl first ↦ should_run-IsFirst is_tick last now (next (now - 2 * minute_ns)) first
  | inr (zero, empty) ↦ should_run-zero is_tick last now (next (now - 2 * minute_ns)) zero empty
]
