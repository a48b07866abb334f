-- ===== src/Reconcile/Suspended.antt =====
-- A suspended schedule: the handler ends by storing that its workloads are awake.
use slumlord.Prelude.{◌≡◌, refl, ◌∙◌, ap, Bool, true, false, List}
use slumlord.Prelude.Int.{ℤ, pos}
use slumlord.Action.{Outcome, ok, err, panic, pure, when, continue_with, ◌>>◌}
use slumlord.Action.Post.{Post, Post-continue, Post-ok}
use slumlord.Clock.{minute_ns, Zones}
use slumlord.Api.Schedule.{ManagedWorkload, SleepSchedule}
use slumlord.Cluster.{Client, RestatesUpdates, Run}
use slumlord.Sleep.{persist_status}
use slumlord.Wake.{wake_workloads}
use slumlord.Wake.Frame.{schedule-wake_workloads}
use slumlord.Reconcile.{
  mark_transition, read_clock, change_schedule, set_schedule_condition, reconcile_suspended,
}
use slumlord.Reconcile.Steps.{
  Reads, IsStored, IsStored-persist_status, Holds-set_schedule_condition,
}

-- The status says awake, with the given entries.
abbrev pub SaysAwake : List ManagedWorkload → SleepSchedule → Type 0
SaysAwake entries s = (s.status.sleeping ≡ false) × (s.status.managed_workloads ≡ entries)

SaysAwake-reads : (entries : List ManagedWorkload) → Reads (SaysAwake entries)
SaysAwake-reads entries = record {
  restated = λ s s' spec sleeping managed h. (sleeping ∙ h.0, managed ∙ h.1);
}

module _ (z : Zones) (default : ℤ) (c : Client) (entries : List ManagedWorkload) where
  abbrev AwakeRun : Run c.World → Type 0
  AwakeRun r = SaysAwake entries r.schedule

  mark_awake :
      (p : Outcome (Unit {0}) × Run c.World)
      → p.1.schedule.status.managed_workloads ≡ entries
      → Post AwakeRun (λ _. Unit {0}) (continue_with p (λ _. mark_transition z default c false))
  unfolding mark_transition read_clock change_schedule
  mark_awake (ok u, r) h = (refl, h)
  mark_awake (err e, r) h = tt
  mark_awake (panic, r) h = tt

  wake_if_sleeping :
      (asleep : Bool) (r : Run c.World)
      → r.schedule.status.sleeping ≡ asleep
      → r.schedule.status.managed_workloads ≡ entries
      → Post AwakeRun
          (λ _. Unit {0})
          (when asleep (wake_workloads c >> mark_transition z default c false) r)
  wake_if_sleeping true r state h =
      mark_awake (wake_workloads c r)
        (ap (λ s. s.status.managed_workloads) (schedule-wake_workloads c r) ∙ h)
  wake_if_sleeping false r state h = (state, h)

  -- The condition is set, and the status is stored.
  rest-IsStored :
      RestatesUpdates c
      → (r : Run c.World) → AwakeRun r
      → Post
          (IsStored c (SaysAwake entries))
          (λ _. Unit {0})
          ((do
            set_schedule_condition z default c "False" "Suspended" "Schedule is suspended"
            persist_status c
            pure (pos minute_ns))
            r)
  rest-IsStored restates r i =
      Post-continue AwakeRun (IsStored c (SaysAwake entries)) (λ _. Unit {0})
        (set_schedule_condition z default c "False" "Suspended" "Schedule is suspended" r) _
        (Holds-set_schedule_condition z default c (SaysAwake entries) (SaysAwake-reads entries)
          "False" "Suspended" "Schedule is suspended" r i)
        (λ u t j.
          Post-continue (IsStored c (SaysAwake entries)) (IsStored c (SaysAwake entries))
            (λ _. Unit {0}) (persist_status c t) _
            (IsStored-persist_status z default c (SaysAwake entries) (SaysAwake-reads entries)
              restates t j)
            (λ v t' k. k))

-- When the handler of a suspended schedule ends without an error, the schedule and the world that it
-- ends in are those of a status update that the server accepted: in the schedule that was sent, and in the one answered, the sleep state is
-- awake and the entries of managed workloads are those from before. An answer to a status update
-- restates what was sent.
pub reconcile_suspended_awake :
    (z : Zones) (default : ℤ) (c : Client) (r r' : Run c.World) (t : ℤ)
    → RestatesUpdates c
    → reconcile_suspended z default c r ≡ (ok t, r')
    → IsStored c (SaysAwake r.schedule.status.managed_workloads) r'
unfolding reconcile_suspended
reconcile_suspended_awake z default c r r' t restates e =
    let entries = r.schedule.status.managed_workloads in
    Post-ok (IsStored c (SaysAwake entries)) (λ _. Unit {0}) _ t r'
      (Post-continue (AwakeRun z default c entries) (IsStored c (SaysAwake entries)) (λ _. Unit {0})
        (when r.schedule.status.sleeping (wake_workloads c >> mark_transition z default c false) r)
        _ (wake_if_sleeping z default c entries r.schedule.status.sleeping r refl refl)
        (λ _. rest-IsStored z default c entries restates))
      e
