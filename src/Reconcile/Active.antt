-- ===== src/Reconcile/Active.antt =====
-- An active schedule: the handler ends by storing the sleep state that the windows ask for.
use slumlord.Prelude.{
  ℕ, ◌≡◌, refl, ◌∙◌, ap, Bool, true, false, not, differ, String, ◌==◌, length, inl, inr, Bool-cases,
  is_empty, none, some, Option, ◌∷◌,
}
use slumlord.Prelude.Int.{ℤ}
use slumlord.Action.{ok, when, continue_with, ◌>>◌}
use slumlord.Action.Post.{Post, Post-continue, Post-bind, Keeps-when, Post-of_state, Post-ok}
use slumlord.Clock.{Zones}
use slumlord.Api.Schedule.{SleepSchedule, get_windows}
use slumlord.Cluster.{
  Client, RestatesUpdates, Run, gauge_set, report, event, action_counted, wake_duration_observed,
}
use slumlord.Window.{should_be_sleeping_at}
use slumlord.Window.Requeue.{should_verify_workloads}
use slumlord.Days.{aggregate_days_display}
use slumlord.Sleep.{persist_status, sleep_workloads}
use slumlord.Sleep.Keys.{Distinct, keys}
use slumlord.Sleep.Entries.{sleep_workloads-IsJournal}
use slumlord.Wake.{wake_workloads}
use slumlord.Wake.Frame.{schedule-wake_workloads}
use slumlord.Verify.{verify_and_correct_workloads}
use slumlord.Verify.Frame.{schedule-verify_and_correct_workloads}
use slumlord.Reconcile.{
  mark_transition, read_clock, change_schedule, transition, verify_awake, clear_expired,
  clear_managed, steady_awake, displayed, act, ready_condition, finish_status, conclude,
  reconcile_active,
}
use slumlord.Reconcile.Steps.{
  Reads, IsStored, Holds-persist_status, IsStored-persist_status, Holds-ready_condition,
}

-- The status says `b` for the sleep state.
abbrev pub SaysSleeping : Bool → SleepSchedule → Type 0
SaysSleeping b s = s.status.sleeping ≡ b

SaysSleeping-reads : (b : Bool) → Reads (SaysSleeping b)
SaysSleeping-reads b = record { restated = λ s s' spec sleeping managed h. sleeping ∙ h }

module _ (z : Zones) (default : ℤ) (c : Client) (restates : RestatesUpdates c) where
  abbrev In : Bool → Run c.World → Type 0
  In b r = SaysSleeping b r.schedule

  abbrev Any : Run c.World → Type 0
  Any r = Unit {0}

  -- The steps that act on workloads leave the stored state alone.
  In-transition :
      (b should_sleep : Bool) (r : Run c.World)
      → Distinct (keys r.schedule)
      → In b r
      → Post (In b) Any (transition z default c should_sleep r)
  unfolding transition read_clock
  In-transition b true r distinct i =
      let r' = record r { reports = action_counted "sleep" ∷ event "SleepStarted" ∷ r.reports } in
      let (o, t) = sleep_workloads c r' in
      Post-bind (In b) Any o t (λ _. report (event "SleepCompleted"))
        (Post-of_state (In b) (o, t)
          ((sleep_workloads-IsJournal c r' restates distinct).sleeping ∙ i))
        (λ _ u j. j)
  In-transition b false r distinct i =
      let (start, w) = c.clock r.world in
      let r' = record r {
        reports = action_counted "wake" ∷ event "WakeStarted" ∷ r.reports;
        world = w;
      } in
      let (o, t) = wake_workloads c r' in
      Post-bind (In b) Any o t
        (λ _.
          read_clock z default c >> report wake_duration_observed >> report (event "WakeCompleted"))
        (Post-of_state (In b) (o, t)
          (ap (λ s. s.status.sleeping) (schedule-wake_workloads c r') ∙ i))
        (λ _ u j. j)

  In-verify_awake :
      (b : Bool) (r : Run c.World) → In b r → Post (In b) Any (verify_awake z default c r)
  unfolding verify_awake
  In-verify_awake b r i =
      let r' = record r { reports = action_counted "verify" ∷ r.reports } in
      let (o, t) = verify_and_correct_workloads c r' in
      Post-bind (In b) Any o t (λ desynced. when desynced (report (event "DesyncCorrected")))
        (Post-of_state (In b) (o, t)
          (ap (λ s. s.status.sleeping) (schedule-verify_and_correct_workloads c r') ∙ i))
        (λ desynced. Keeps-when (In b) Any desynced _ (λ u j. j))

  In-clear_expired :
      (b : Bool) (r : Run c.World) → In b r → Post (In b) Any (clear_expired z default c r)
  unfolding clear_expired change_schedule
  In-clear_expired b r i =
      let r' = record r { schedule = clear_managed r.schedule } in
      let (o, t) = persist_status c r' in
      Post-bind (In b) Any o t (λ _. report (action_counted "noop"))
        (Holds-persist_status z default c (SaysSleeping b) (SaysSleeping-reads b) restates r' i)
        (λ _ u j. j)

  In-steady_awake :
      (b : Bool) (now : ℕ) (r : Run c.World)
      → In b r
      → Post (In b) Any (steady_awake z default c now r)
  unfolding steady_awake
  In-steady_awake b now r i = elim (Bool-cases (should_verify_workloads r.schedule now)) [
    | inl e ↦ rw e (In-verify_awake b r i)
    | inr e ↦ elim (Bool-cases (is_empty r.schedule.status.managed_workloads)) [
      | inl none_left ↦ rw (e, none_left) i
      | inr some_left ↦ rw (e, some_left) (In-clear_expired b r i)
    ]
  ]

  In-act :
      (b should_sleep : Bool) (now : ℕ) (r : Run c.World)
      → Distinct (keys r.schedule)
      → In b r
      → Post (In b) Any (act z default c should_sleep b now r)
  unfolding act
  In-act true true now r distinct i = i
  In-act true false now r distinct i = In-transition true false r distinct i
  In-act false true now r distinct i = In-transition false true r distinct i
  In-act false false now r distinct i = In-steady_awake false now r i

  abbrev Stored : Bool → Run c.World → Type 0
  Stored b = IsStored c (SaysSleeping b)

  -- The end of the handler sets and stores the state that is wanted.
  In-finish_status :
      (b should_sleep days_changed : Bool) (display : String) (r : Run c.World)
      → In b r
      → Post
          (In should_sleep)
          Any
          (finish_status z default c should_sleep (differ should_sleep b) days_changed display r)
  unfolding finish_status mark_transition read_clock change_schedule
  In-finish_status true true true display r i = i
  In-finish_status true true false display r i = i
  In-finish_status true false days_changed display r i = refl
  In-finish_status false true days_changed display r i = refl
  In-finish_status false false true display r i = i
  In-finish_status false false false display r i = i

  In-conclude :
      (b should_sleep days_changed : Bool) (display : String) (now : ℕ) (r : Run c.World)
      → In b r
      → Post
          (Stored should_sleep)
          Any
          (conclude z default c should_sleep (differ should_sleep b) days_changed display now r)
  unfolding conclude
  In-conclude b should_sleep days_changed display now r i =
      let r' = record r {
        reports = gauge_set (length r.schedule.status.managed_workloads) ∷ r.reports;
      } in
      Post-continue (In b) (Stored should_sleep) Any (ready_condition z default c should_sleep r') _
        (Holds-ready_condition z default c (SaysSleeping b) (SaysSleeping-reads b) should_sleep r'
          i)
        (λ u t j.
          Post-continue (In should_sleep) (Stored should_sleep) Any
            (finish_status z default c should_sleep (differ should_sleep b) days_changed display t)
            _ (In-finish_status b should_sleep days_changed display t j)
            (λ v t' j'.
              Post-continue (Stored should_sleep) (Stored should_sleep) Any (persist_status c t') _
                (IsStored-persist_status z default c (SaysSleeping should_sleep)
                  (SaysSleeping-reads should_sleep) restates t' j')
                (λ w t'' j''. j'')))

  In-displayed :
      (o : Option String) (b should_sleep : Bool) (now : ℕ) (old : String) (r : Run c.World)
      → Distinct (keys r.schedule)
      → In b r
      → Post (Stored should_sleep) Any (
          continue_with (displayed z default c o r) (λ display.
            act z default c should_sleep b now
            >> conclude z default c should_sleep
                (differ should_sleep b)
                (not (old == display))
                display
                now))
  unfolding displayed
  In-displayed none b should_sleep now old r distinct i = tt
  In-displayed (some display) b should_sleep now old r distinct i =
      Post-continue (In b) (Stored should_sleep) Any (act z default c should_sleep b now r) _
        (In-act b should_sleep now r distinct i)
        (λ u t j. In-conclude b should_sleep (not (old == display)) display now t j)

-- When the handler of an active schedule ends without an error or a panic, the schedule and the world
-- that it ends in are those of a status update that the server accepted: the sleep state that was
-- sent, and that of the schedule answered, are what the windows ask for at the instant that the handler read from the clock first. An answer
-- to a status update restates the spec, the sleep state and the entries sent, and no workload is
-- entered twice to begin with.
pub reconcile_active_state :
    (z : Zones) (default : ℤ) (c : Client) (r r' : Run c.World) (t : ℤ)
    → RestatesUpdates c
    → Distinct (keys r.schedule)
    → reconcile_active z default c r ≡ (ok t, r')
    → IsStored c (SaysSleeping (should_be_sleeping_at z r.schedule (c.clock r.world).0)) r'
unfolding reconcile_active read_clock
reconcile_active_state z default c r r' t restates distinct e =
    let (now, w) = c.clock r.world in
    let should_sleep = should_be_sleeping_at z r.schedule now in
    Post-ok (Stored z default c restates should_sleep) (Any z default c restates) _ t r'
      (In-displayed z default c restates (aggregate_days_display (get_windows r.schedule.spec))
        r.schedule.status.sleeping should_sleep now r.schedule.status.days_display
        (record r { world = w }) distinct refl)
      e
