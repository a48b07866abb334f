-- ===== src/Reconcile/Served.antt =====
-- With a server that carries out every request, the handler of an active schedule succeeds, and
-- ends by storing the sleep state that the windows ask for.
use slumlord.Prelude.{
  ℕ, ◌≡◌, refl, ◌∙◌, Bool, true, false, not, ◌||◌, differ, ◌==◌, String, Option, none, some,
  is_empty, Bool-cases, inl, inr, arith,
}
use slumlord.Prelude.Int.{ℤ}
use slumlord.Action.{Outcome, ok, err, panic, M, continue_with, ◌>>◌, when}
use slumlord.Action.Post.{Post, Keeps-bind, Keeps-then, Keeps-when}
use slumlord.Clock.{Zones}
use slumlord.Api.Schedule.{get_windows}
use slumlord.Cluster.{
  Client, RestatesUpdates, Serves, Run, event, action_counted, report, wake_duration_observed,
}
use slumlord.Window.{should_be_sleeping_at}
use slumlord.Window.Requeue.{should_verify_workloads}
use slumlord.Days.{aggregate_days_display}
use slumlord.Days.Range.{is_shown, every_day, valid_days, is_shown-aggregate_days_display}
use slumlord.Sleep.{persist_status, sleep_workloads}
use slumlord.Sleep.Keys.{Distinct, keys}
use slumlord.Sleep.Served.{Succeeds, Succeeds-persist_status, Succeeds-sleep_workloads}
use slumlord.Wake.{wake_workloads}
use slumlord.Wake.Served.{Succeeds-wake_workloads}
use slumlord.Verify.{verify_and_correct_workloads}
use slumlord.Verify.Served.{Succeeds-verify_and_correct_workloads}
use slumlord.Reconcile.{
  change_schedule, read_clock, set_schedule_condition, mark_transition, transition, verify_awake,
  clear_expired, steady_awake, displayed, act, ready_condition, finish_status, conclude,
  reconcile_active,
}
use slumlord.Reconcile.Steps.{IsStored}
use slumlord.Reconcile.Active.{SaysSleeping, reconcile_active_state}

module _ (z : Zones) (default : ℤ) (c : Client) (serves : Serves c) where
  Succeeds-transition : (b : Bool) → Succeeds (transition z default c b)
  unfolding transition read_clock
  Succeeds-transition true r i =
      Keeps-bind (λ _. Unit {0}) (λ _. ⊥) (sleep_workloads c) (λ _. report (event "SleepCompleted"))
        (Succeeds-sleep_workloads c serves) (λ u t j. tt) _ tt
  Succeeds-transition false r i =
      Keeps-bind (λ _. Unit {0}) (λ _. ⊥) (wake_workloads c)
        (λ _.
          read_clock z default c >> report wake_duration_observed >> report (event "WakeCompleted"))
        (Succeeds-wake_workloads c serves) (λ u t j. tt) _ tt

  Succeeds-verify_awake : Succeeds (verify_awake z default c)
  unfolding verify_awake
  Succeeds-verify_awake r i =
      Keeps-bind (λ _. Unit {0}) (λ _. ⊥) (verify_and_correct_workloads c)
        (λ desynced. when desynced (report (event "DesyncCorrected")))
        (Succeeds-verify_and_correct_workloads c serves)
        (λ desynced. Keeps-when (λ _. Unit {0}) (λ _. ⊥) desynced _ (λ t j. tt)) _ tt

  Succeeds-clear_expired : Succeeds (clear_expired z default c)
  unfolding clear_expired change_schedule
  Succeeds-clear_expired r i =
      Keeps-bind (λ _. Unit {0}) (λ _. ⊥) (persist_status c) (λ _. report (action_counted "noop"))
        (Succeeds-persist_status c serves) (λ u t j. tt) _ tt

  Succeeds-steady_awake : (now : ℕ) → Succeeds (steady_awake z default c now)
  unfolding steady_awake
  Succeeds-steady_awake now r i = elim (Bool-cases (should_verify_workloads r.schedule now)) [
    | inl e ↦ rw e (Succeeds-verify_awake r i)
    | inr e ↦ elim (Bool-cases (is_empty r.schedule.status.managed_workloads)) [
      | inl none_left ↦ rw (e, none_left) tt
      | inr some_left ↦ rw (e, some_left) (Succeeds-clear_expired r i)
    ]
  ]

  Succeeds-act : (wanted sleeping : Bool) (now : ℕ) → Succeeds (act z default c wanted sleeping now)
  unfolding act
  Succeeds-act true true now r i = tt
  Succeeds-act true false now r i = Succeeds-transition true r i
  Succeeds-act false true now r i = Succeeds-transition false r i
  Succeeds-act false false now r i = Succeeds-steady_awake now r i

  Succeeds-ready_condition : (b : Bool) → Succeeds (ready_condition z default c b)
  unfolding ready_condition set_schedule_condition change_schedule
  Succeeds-ready_condition true r i = tt
  Succeeds-ready_condition false r i = tt

  Succeeds-finish_status :
      (wanted changed days_changed : Bool) (display : String)
      → Succeeds (finish_status z default c wanted changed days_changed display)
  unfolding finish_status mark_transition read_clock change_schedule
  Succeeds-finish_status wanted true days_changed display r i = tt
  Succeeds-finish_status wanted false true display r i = tt
  Succeeds-finish_status wanted false false display r i = tt

  Succeeds-conclude :
      (wanted changed days_changed : Bool) (display : String) (now : ℕ)
      → Succeeds (conclude z default c wanted changed days_changed display now)
  unfolding conclude
  Succeeds-conclude wanted changed days_changed display now r i =
      Keeps-bind (λ _. Unit {0}) (λ _. ⊥) (ready_condition z default c wanted) _
        (Succeeds-ready_condition wanted)
        (λ u.
          Keeps-bind (λ _. Unit {0}) (λ _. ⊥)
            (finish_status z default c wanted changed days_changed display) _
            (Succeeds-finish_status wanted changed days_changed display)
            (λ v.
              Keeps-bind (λ _. Unit {0}) (λ _. ⊥) (persist_status c) _
                (Succeeds-persist_status c serves) (λ x t j. tt)))
        _ tt

  Succeeds-displayed :
      (o : Option String) (f : String → M (Run c.World) ℤ) (r : Run c.World)
      → is_shown o ≡ true
      → ((d : String) → Succeeds (f d))
      → Post (λ _. Unit {0}) (λ _. ⊥) (continue_with (displayed z default c o r) f)
  unfolding displayed
  Succeeds-displayed none f r shown h = ground arith
  Succeeds-displayed (some d) f r shown h = h d r tt

ending_of_Post :
    {S : Type 0} (p : Outcome ℤ × S)
    → Post (λ _. Unit {0}) (λ _. ⊥) p
    → (t : ℤ) × (s : S) × (p ≡ (ok t, s))
ending_of_Post (ok t, s) h = (t, s, refl)
ending_of_Post (err e, s) h = absurd h
ending_of_Post (panic, s) h = absurd h

-- With a server that carries out lists, updates and encodings, a kind of custom resources that is
-- not installed excepted, and whose answer to a status update restates what was sent, the handler of
-- an active schedule ends without an error or a panic, and the schedule and the world that it ends in
-- are those of a status update that the server accepted: the sleep state that was sent, and that of the schedule answered, are what the
-- windows ask for at the instant that the handler read first. This is stated where no workload is
-- entered twice and where some window has no days or all days are numbers from 0 to 6.
pub reconcile_active_total :
    (z : Zones) (default : ℤ) (c : Client) (r : Run c.World)
    → Serves c
    → RestatesUpdates c
    → Distinct (keys r.schedule)
    → (every_day (get_windows r.schedule.spec) || valid_days (get_windows r.schedule.spec)) ≡ true
    → (t : ℤ) × (r' : Run c.World) × (reconcile_active z default c r ≡ (ok t, r'))
      × IsStored c (SaysSleeping (should_be_sleeping_at z r.schedule (c.clock r.world).0)) r'
unfolding reconcile_active read_clock
reconcile_active_total z default c r serves restates distinct valid =
    let (now, w) = c.clock r.world in
    let wanted = should_be_sleeping_at z r.schedule now in
    let sleeping = r.schedule.status.sleeping in
    let (t, r', e) = ending_of_Post (reconcile_active z default c r) (
      Succeeds-displayed z default c serves (aggregate_days_display (get_windows r.schedule.spec)) _
        (record r { world = w })
        (is_shown-aggregate_days_display (get_windows r.schedule.spec) ∙ valid)
        (λ display.
          Keeps-then (λ _. Unit {0}) (λ _. ⊥) (act z default c wanted sleeping now) _
            (Succeeds-act z default c serves wanted sleeping now)
            (Succeeds-conclude z default c serves wanted (differ wanted sleeping)
              (not (r.schedule.status.days_display == display)) display now))) in
    (t, r', e, reconcile_active_state z default c r r' t restates distinct e)
