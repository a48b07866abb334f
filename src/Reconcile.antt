-- ===== src/Reconcile.antt =====
-- `Reconcile` of internal/controller/sleepschedule_controller.go.
pub mod Steps
pub mod Suspended
pub mod Active
pub mod Expired
pub mod Invalid
pub mod Served
use slumlord.Prelude.{
  ℕ, Bool, true, false, not, ◌&&◌, ◌||◌, differ, Option, none, some, List, [], ◌∷◌, String, ◌==◌,
  is_empty, length, if◌then◌else◌,
}
use slumlord.Prelude.Int.{ℤ, pos}
use slumlord.Action.{
  Error, not_found, no_match, failed, value, error, Outcome, ok, err, M, pure, crash, ◌>>=◌, ◌>>◌,
  gets, modify, when,
}
use slumlord.Clock.{minute_ns, Zones}
use slumlord.Api.Schedule.{SleepScheduleStatus, SleepSchedule, get_windows}
use slumlord.Cluster.{
  Client, Run, Report, action_counted, event, wake_duration_observed, gauge_set, gauge_deleted,
  report,
}
use slumlord.Window.{should_be_sleeping_at}
use slumlord.Window.Requeue.{should_verify_workloads, compute_requeue_interval}
use slumlord.Days.{aggregate_days_display}
use slumlord.Sleep.{persist_status, sleep_workloads}
use slumlord.Wake.{wake_workloads}
use slumlord.Verify.{verify_and_correct_workloads}

-- Updates of the status in memory.
abbrev pub with_status : (SleepScheduleStatus → SleepScheduleStatus) → SleepSchedule → SleepSchedule
with_status f s = record s { status = f s.status }

abbrev pub set_sleeping : Bool → ℕ → SleepSchedule → SleepSchedule
set_sleeping b ts = with_status (λ st. record st { sleeping = b; last_transition_time = some ts })

abbrev pub clear_managed : SleepSchedule → SleepSchedule
clear_managed = with_status (λ st. record st { managed_workloads = [] })

abbrev pub set_days_display : String → SleepSchedule → SleepSchedule
set_days_display d = with_status (λ st. record st { days_display = d })

module _ (z : Zones) (default_reconcile_interval : ℤ) (c : Client) where
  open c use {World, clock, get_schedule, set_status_condition}

  abbrev pub Step : Type 0
  Step = M (Run World) (Unit {0})

  pub change_schedule : (SleepSchedule → SleepSchedule) → Step
  change_schedule f = modify (λ (r : Run World). record r { schedule = f r.schedule })

  -- `time.Now()`
  pub read_clock : M (Run World) ℕ
  read_clock r = let (t, w) = clock r.world in (ok t, record r { world = w })

  pub set_schedule_condition : String → String → String → Step
  set_schedule_condition status reason message = change_schedule λ s.
      with_status
        (λ st. record st {
          conditions = set_status_condition st.conditions (record {
            condition_type = "Ready";
            status = status;
            observed_generation = s.generation;
            reason = reason;
            message = message;
          });
        })
        s

  -- `schedule.Status.Sleeping = b` and the time of the transition.
  pub mark_transition : Bool → Step
  mark_transition b = do ts ← read_clock; change_schedule (set_sleeping b ts)

  -- The branch of `schedule.Spec.Suspend`.
  pub reconcile_suspended : M (Run World) ℤ
  reconcile_suspended = do
    s ← gets (λ (r : Run World). r.schedule)
    when s.status.sleeping (wake_workloads c >> mark_transition false)
    set_schedule_condition "False" "Suspended" "Schedule is suspended"
    persist_status c
    pure (pos minute_ns)

  pub reconcile_invalid : M (Run World) ℤ
  reconcile_invalid = do
    read_clock
    set_schedule_condition "False" "InvalidSpec"
        "No sleep window defined: set spec.schedule or spec.schedules"
    persist_status c
    pure (pos minute_ns)

  -- The transition, by the state that is wanted.
  pub transition : Bool → Step
  transition true = do
    report (event "SleepStarted")
    report (action_counted "sleep")
    sleep_workloads c
    report (event "SleepCompleted")
  transition false = do
    report (event "WakeStarted")
    report (action_counted "wake")
    read_clock
    wake_workloads c
    read_clock
    report wake_duration_observed
    report (event "WakeCompleted")

  -- Within the verification window after a wake.
  pub verify_awake : Step
  verify_awake = do
    report (action_counted "verify")
    desynced ← verify_and_correct_workloads c
    when desynced (report (event "DesyncCorrected"))

  -- The verification window has expired: the entries are forgotten.
  pub clear_expired : Step
  clear_expired = do change_schedule clear_managed; persist_status c; report (action_counted "noop")

  -- Awake and meant to be.
  pub steady_awake : ℕ → Step
  steady_awake now r =
      if should_verify_workloads r.schedule now
      then verify_awake r
      else if not (is_empty r.schedule.status.managed_workloads)
      then clear_expired r
      else report (action_counted "noop") r

  -- `panic` where the days cannot be displayed.
  pub displayed : Option String → M (Run World) String
  displayed none = crash
  displayed (some d) = pure d

  pub act : Bool → Bool → ℕ → Step
  act should_sleep sleeping now =
      if differ should_sleep sleeping
      then transition should_sleep
      else if not should_sleep && not sleeping
      then steady_awake now
      else report (action_counted "noop")

  pub ready_condition : Bool → Step
  ready_condition true = set_schedule_condition "True" "Sleeping" "Workloads are sleeping"
  ready_condition false = set_schedule_condition "True" "Active" "Schedule is active"

  -- The status fields that are written at the end of an active reconciliation.
  pub finish_status : Bool → Bool → Bool → String → Step
  finish_status should_sleep status_changed days_changed display = do
    when (status_changed || days_changed) (change_schedule (set_days_display display))
    when status_changed (mark_transition should_sleep)

  -- From the gauge on.
  pub conclude : Bool → Bool → Bool → String → ℕ → M (Run World) ℤ
  conclude should_sleep status_changed days_changed display now = do
    after ← gets (λ (r : Run World). r.schedule)
    report (gauge_set (length after.status.managed_workloads))
    ready_condition should_sleep
    finish_status should_sleep status_changed days_changed display
    persist_status c
    last ← gets (λ (r : Run World). r.schedule)
    pure (compute_requeue_interval z default_reconcile_interval last now)

  pub reconcile_active : M (Run World) ℤ
  reconcile_active = do
    now ← read_clock
    s ← gets (λ (r : Run World). r.schedule)
    let should_sleep = should_be_sleeping_at z s now
    display ← displayed (aggregate_days_display (get_windows s.spec))
    let status_changed = differ should_sleep s.status.sleeping
    let days_changed = not (s.status.days_display == display)
    act should_sleep s.status.sleeping now
    conclude should_sleep status_changed days_changed display now

  -- The rest of the handler, once the schedule is read.
  pub reconcile_schedule : M (Run World) ℤ
  reconcile_schedule r =
      if r.schedule.spec.suspend
      then reconcile_suspended r
      else if is_empty (get_windows r.schedule.spec)
      then reconcile_invalid r
      else reconcile_active r

  -- `client.IgnoreNotFound`: a schedule that is gone is no error, and is not looked at again.
  pub ignore_not_found : Error → Outcome ℤ
  ignore_not_found not_found = ok (pos 0)
  ignore_not_found no_match = err no_match
  ignore_not_found failed = err failed

  -- A reconciliation request: its outcome with the time until the next one (0 for none), the
  -- reports, and the world after it.
  unfoldable pub reconcile : String → String → World → Outcome ℤ × List Report × World
  unfolding change_schedule read_clock set_schedule_condition mark_transition reconcile_suspended
      reconcile_invalid transition verify_awake clear_expired steady_awake displayed act
      ready_condition finish_status conclude reconcile_active reconcile_schedule ignore_not_found
  reconcile namespace name w =
      let (answer, w') = get_schedule namespace name w in
      elim answer [
        | error e ↦ (ignore_not_found e, gauge_deleted ∷ [], w')
        | value s ↦
            let (outcome, r) =
              reconcile_schedule
                (record { schedule = s; managed = []; reports = []; world = w' }) in
            (outcome, r.reports, r.world)
      ]
