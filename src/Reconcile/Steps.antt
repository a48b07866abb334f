-- ===== src/Reconcile/Steps.antt =====
-- What the steps of `Reconcile` do to the sleep state and the entries in the schedule's status.
use slumlord.Prelude.{◌≡◌, refl, Bool, true, false, String, inl, inr}
use slumlord.Prelude.Int.{ℤ}
use slumlord.Action.{value, answer_cases}
use slumlord.Action.Post.{Post}
use slumlord.Clock.{Zones}
use slumlord.Api.Schedule.{SleepSchedule}
use slumlord.Cluster.{Client, RestatesUpdates, Run}
use slumlord.Sleep.{persist_status}
use slumlord.Reconcile.{set_schedule_condition, change_schedule, ready_condition}

-- A property of the schedule that looks only at its spec, its sleep state and its entries.
pub record Reads (P : SleepSchedule → Type 0) : Type 0 where
  pub restated :
      (s s' : SleepSchedule)
      → s'.spec ≡ s.spec
      → s'.status.sleeping ≡ s.status.sleeping
      → s'.status.managed_workloads ≡ s.status.managed_workloads
      → P s
      → P s'

-- The run ends with a status update: a schedule with the property was sent, the server accepted it, and
-- the schedule in memory and the world are those of its answer.
pub record IsStored (c : Client) (P : SleepSchedule → Type 0) (r : Run c.World) : Type 0 where
  pub sent : SleepSchedule
  pub before : c.World
  pub as_sent : P sent
  pub accepted : c.update_status sent before ≡ (value r.schedule, r.world)
  pub as_answered : P r.schedule

module _ (z : Zones) (default : ℤ) (c : Client) (P : SleepSchedule → Type 0) (reads : Reads P) where
  abbrev pub Holds : Run c.World → Type 0
  Holds r = P r.schedule

  abbrev pub Any : Run c.World → Type 0
  Any r = Unit {0}

  pub Holds-persist_status :
      RestatesUpdates c → (r : Run c.World) → Holds r → Post Holds Any (persist_status c r)
  unfolding persist_status
  Holds-persist_status restates r i = elim (answer_cases (c.update_status r.schedule r.world)) [
    | inl (s', w', e) ↦
        let same = restates r.schedule s' r.world w' e in
        rw e (reads.restated r.schedule s' same.spec same.sleeping same.managed_workloads i)
    | inr (x, w', e) ↦ rw e tt
  ]

  pub IsStored-persist_status :
      RestatesUpdates c → (r : Run c.World) → Holds r → Post (IsStored c P) Any (persist_status c r)
  unfolding persist_status
  IsStored-persist_status restates r i = elim (answer_cases (c.update_status r.schedule r.world)) [
    | inl (s', w', e) ↦
        let same = restates r.schedule s' r.world w' e in
        rw e (record {
          sent = r.schedule;
          before = r.world;
          as_sent = i;
          accepted = e;
          as_answered =
              reads.restated r.schedule s' same.spec same.sleeping same.managed_workloads i;
        })
    | inr (x, w', e) ↦ rw e tt
  ]

  pub Holds-set_schedule_condition :
      (status reason message : String) (r : Run c.World)
      → Holds r
      → Post Holds Any (set_schedule_condition z default c status reason message r)
  unfolding set_schedule_condition change_schedule
  Holds-set_schedule_condition status reason message r i =
      reads.restated r.schedule _ refl refl refl i

  pub Holds-ready_condition :
      (b : Bool) (r : Run c.World) → Holds r → Post Holds Any (ready_condition z default c b r)
  unfolding ready_condition
  Holds-ready_condition true r i =
      Holds-set_schedule_condition "True" "Sleeping" "Workloads are sleeping" r i
  Holds-ready_condition false r i =
      Holds-set_schedule_condition "True" "Active" "Schedule is active" r i
