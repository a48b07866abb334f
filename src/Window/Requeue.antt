-- ===== src/Window/Requeue.antt =====
-- The requeue interval of internal/controller/sleepschedule_controller.go: `shouldVerifyWorkloads`
-- and `computeRequeueInterval`.
use slumlord.Prelude.{
  ℕ, ◌+◌, ◌*◌, ◌≤◌, ◌<◌, ◌≡◌, ◌≢◌, ◌⊎◌, inl, inr, false, Bool, not, ◌&&◌, Option, none, some, leb,
  ltb, is_empty, if◌then◌else◌, arith,
}
use slumlord.Prelude.Int.{ℤ, pos, ltb_ℤ}
use slumlord.Clock.{second_ns, minute_ns, Zones}
use slumlord.Api.Schedule.{SleepSchedule}
use slumlord.Window.{should_be_sleeping_at, time_until_next_transition}
use slumlord.Window.Transition.{asleep_in, time_until_next_transition-FirstChange}

abbrev pub idle_requeue_interval : ℕ
idle_requeue_interval = 5 * minute_ns

abbrev pub approaching_requeue_interval : ℕ
approaching_requeue_interval = 30 * second_ns

abbrev pub approaching_window : ℕ
approaching_window = 10 * minute_ns

abbrev pub verify_window : ℕ
verify_window = 10 * minute_ns

abbrev pub verify_requeue_interval : ℕ
verify_requeue_interval = 30 * second_ns

-- `now.Sub(last) <= verifyWindow`, also where `last` lies after `now`.
recently : Option ℕ → ℕ → Bool
recently none now = false
recently (some last) now = leb now (last + verify_window)

unfoldable pub should_verify_workloads : SleepSchedule → ℕ → Bool
unfolding recently
should_verify_workloads s now =
    not (is_empty s.status.managed_workloads) && recently s.status.last_transition_time now

-- The interval where nothing is near: the schedule's own, the controller's, or five minutes.
pub configured_interval : Option ℤ → ℤ → ℤ
configured_interval (some own) default = own
configured_interval none default =
    if ltb_ℤ (pos 0) default then default else pos idle_requeue_interval

module _ (z : Zones) (default_reconcile_interval : ℤ) where
  unfoldable pub compute_requeue_interval : SleepSchedule → ℕ → ℤ
  unfolding configured_interval
  compute_requeue_interval s now =
      if not s.status.sleeping && should_verify_workloads s now
      then pos verify_requeue_interval
      else let next = time_until_next_transition z s now in
        if ltb 0 next && leb next approaching_window
        then pos approaching_requeue_interval
        else configured_interval s.spec.reconcile_interval default_reconcile_interval

  next_is_near :
      (s : SleepSchedule) (now k : ℕ)
      → 1 ≤ k
      → k ≤ 10
      → asleep_in z s now k ≢ should_be_sleeping_at z s now
      → let next = time_until_next_transition z s now in (0 < next) × (next ≤ approaching_window)
  next_is_near s now k lo hi differs = elim (time_until_next_transition-FirstChange z s now) [
    | inl (none_found, all) ↦ absurd (differs (all k lo (omega arith)))
    | inr (first, lo', hi', at, differs', before) ↦ elim (le_or_gt first) [
      | inl le ↦ ground arith
      | inr gt ↦ absurd (differs (before k lo gt))
    ]
  ]
    where
      le_or_gt : (first : ℕ) → (first ≤ k) ⊎ (k < first)
      le_or_gt first = omega arith

  -- Where the sleep state differs at one of the next ten minute probes, the schedule is looked at
  -- again in thirty seconds, whatever interval is configured.
  pub requeue_before_transition :
      (s : SleepSchedule) (now k : ℕ)
      → 1 ≤ k
      → k ≤ 10
      → asleep_in z s now k ≢ should_be_sleeping_at z s now
      → compute_requeue_interval s now ≡ pos (30 * second_ns)
  unfolding compute_requeue_interval
  requeue_before_transition s now k lo hi differs =
      ground (arith, next_is_near s now k lo hi differs)

  next_is_far :
      (s : SleepSchedule) (now : ℕ)
      → ((k : ℕ) → 1 ≤ k → k ≤ 10 → asleep_in z s now k ≡ should_be_sleeping_at z s now)
      → let next = time_until_next_transition z s now in (next ≡ 0) ⊎ (approaching_window < next)
  next_is_far s now quiet = elim (time_until_next_transition-FirstChange z s now) [
    | inl (none_found, all) ↦ inl none_found
    | inr (first, lo', hi', at, differs', before) ↦ elim (le_or_gt first) [
      | inl le ↦ absurd (differs' (quiet first lo' le))
      | inr gt ↦ inr (omega arith)
    ]
  ]
    where
      le_or_gt : (first : ℕ) → (first ≤ 10) ⊎ (10 < first)
      le_or_gt first = omega arith

  -- Outside the verification window, and with the same sleep state at the next ten minute probes,
  -- the interval is the schedule's own, else a positive default, else five minutes.
  pub requeue_quiet :
      (s : SleepSchedule) (now : ℕ)
      → (not s.status.sleeping && should_verify_workloads s now) ≡ false
      → ((k : ℕ) → 1 ≤ k → k ≤ 10 → asleep_in z s now k ≡ should_be_sleeping_at z s now)
      → compute_requeue_interval s now
        ≡ configured_interval s.spec.reconcile_interval default_reconcile_interval
  unfolding compute_requeue_interval
  requeue_quiet s now steady quiet = ground (arith, next_is_far s now quiet)
