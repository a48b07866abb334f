-- ===== src/Window/Transition.antt =====
-- `timeUntilNextTransition` finds the first change of the sleep state within a day, minute by
-- minute.
use slumlord.Prelude.{
  ℕ, zero, suc, ◌+◌, ◌*◌, ◌≤◌, ◌<◌, ◌≡◌, refl, sym, ◌≢◌, ◌⊎◌, inl, inr, Bool, differ, differ→ne,
  not_differ→eq, arith, Bool-cases,
}
use mathlib.Core.Path.{subst}
use slumlord.Clock.{minute_ns, Zones}
use slumlord.Api.Schedule.{SleepSchedule}
use slumlord.Window.{should_be_sleeping_at, next_change, time_until_next_transition}

module _ (z : Zones) (s : SleepSchedule) (now : ℕ) where
  -- The state at the probe `j` minutes from now.
  abbrev pub asleep_in : ℕ → Bool
  asleep_in j = should_be_sleeping_at z s (now + j * minute_ns)

  abbrev Unchanged : Bool → ℕ → ℕ → Type 0
  Unchanged current from until = (j : ℕ) → from ≤ j → j < until → asleep_in j ≡ current

  -- The answer `r` is that of the first of the probes from `i` to `i + left` that differs.
  abbrev pub FirstChange : Bool → ℕ → ℕ → ℕ → Type 0
  FirstChange current i left r =
      (r ≡ 0) × Unchanged current i (i + left)
      ⊎ ((k : ℕ) × (i ≤ k)
          × (k < i + left)
          × (r ≡ k * minute_ns)
          × (asleep_in k ≢ current)
          × Unchanged current i k)

  Unchanged-step :
      (current : Bool) (i until : ℕ)
      → asleep_in i ≡ current
      → Unchanged current (i + 1) until
      → Unchanged current i until
  Unchanged-step current i until here later j lo hi = elim le_cases [
    | inl e ↦ subst (λ n. asleep_in n ≡ current) (sym e) here
    | inr h ↦ later j h hi
  ]
    where
      le_cases : (j ≡ i) ⊎ (i + 1 ≤ j)
      le_cases = omega arith

  next_change_first :
      (current : Bool) (left i : ℕ)
      → FirstChange current i left (next_change z s now current i left)
  unfolding next_change
  next_change_first current zero i = inl (refl, λ j lo hi. absurd (omega arith))
  next_change_first current (suc left) i = elim (Bool-cases (differ (asleep_in i) current)) [
    | inl differs ↦ rw differs (
        inr (
          i,
          omega arith,
          omega arith,
          refl,
          differ→ne _ _ differs,
          λ j lo hi. absurd (omega arith),
        ))
    | inr same ↦ rw same (elim (next_change_first current left (i + 1)) [
      | inl (r, all) ↦ inl (
        r,
        λ j lo hi.
            Unchanged-step current i (i + 1 + left) (not_differ→eq _ _ same) all j lo (omega arith),
      )
      | inr (k, lo, hi, r, differs, all) ↦ inr (
        k,
        omega arith,
        omega arith,
        r,
        differs,
        Unchanged-step current i k (not_differ→eq _ _ same) all,
      )
    ])
  ]

  -- The answer is 0 exactly when none of the 1440 probes, one a minute for a day, differs from the
  -- state now, and otherwise it is the distance to the first probe that differs.
  pub time_until_next_transition-FirstChange :
      FirstChange (should_be_sleeping_at z s now) 1 1440 (time_until_next_transition z s now)
  unfolding time_until_next_transition
  time_until_next_transition-FirstChange = next_change_first (should_be_sleeping_at z s now) 1440 1
