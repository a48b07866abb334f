-- ===== src/Cluster.antt =====
-- The Kubernetes API server and the libraries around it, none of which this repository implements:
-- the calls that the sleep schedule controller makes, as operations on an unknown world. Every call
-- may change the world, since other actors run between any two of them.
use slumlord.Prelude.{ℕ, ◌≡◌, List, ◌∷◌, String}
use slumlord.Prelude.Int.{ℤ}
use slumlord.Action.{Reply, value, error, no_match, M, ok}
use slumlord.Api.Workload.{App, CronJob, Resource, Gvk}
use slumlord.Api.Schedule.{SleepSchedule, Condition}

abbrev pub Labels : Type 0
Labels = List (String × String)

-- `kind` tells Deployments from StatefulSets; both are read and written alike. `update_status`
-- answers with the object that the server stored, which replaces the one in memory.
pub record Client : Type 1 where
  pub World : Type 0
  pub list_apps : String → String → Labels → World → Reply (List App) × World
  pub get_app : String → String → String → World → Reply App × World
  pub update_app : String → App → World → Reply (Unit {0}) × World
  pub list_cron_jobs : String → Labels → World → Reply (List CronJob) × World
  pub get_cron_job : String → String → World → Reply CronJob × World
  pub update_cron_job : CronJob → World → Reply (Unit {0}) × World
  pub list_resources : Gvk → String → Labels → World → Reply (List Resource) × World
  pub get_resource : Gvk → String → String → World → Reply Resource × World
  pub update_resource : Gvk → Resource → World → Reply (Unit {0}) × World
  pub get_schedule : String → String → World → Reply SleepSchedule × World
  pub update_status : SleepSchedule → World → Reply SleepSchedule × World
  pub clock : World → ℕ × World
  pub set_status_condition : List Condition → Condition → List Condition
  pub marshal_counts : List (String × ℤ) → Reply String
  pub unmarshal_counts : String → Reply (List (String × ℤ))

-- What is reported about a reconciliation: counters, the gauge, and recorded events.
pub data Report : Type 0 where
  action_counted : String → Report
  event : String → Report
  wake_duration_observed : Report
  gauge_set : ℕ → Report
  gauge_deleted : Report

-- The state of one reconciliation: the schedule in memory, the set `managed` of `sleepWorkloads`,
-- the reports so far (latest first), and the world.
pub record Run (W : Type 0) : Type 0 where
  pub schedule : SleepSchedule
  pub managed : List String
  pub reports : List Report
  pub world : W

module _ {W : Type 0} where
  -- A call of the API server, with its error as a value.
  abbrev pub call : {A : Type 0} → (W → Reply A × W) → M (Run W) (Reply A)
  call op s = let (r, w) = op s.world in (ok r, record s { world = w })

  abbrev pub report : Report → M (Run W) (Unit {0})
  report e s = (ok tt, record s { reports = e ∷ s.reports })

  abbrev pub put_schedule : SleepSchedule → M (Run W) (Unit {0})
  put_schedule x s = (ok tt, record s { schedule = x })

  abbrev pub put_managed : List String → M (Run W) (Unit {0})
  put_managed x s = (ok tt, record s { managed = x })

-- What the controller relies on: the answer to a status update restates what was sent. (Times may
-- be rounded, and the object's other metadata is the server's.)
pub record RestatesStatus (s s' : SleepSchedule) : Type 0 where
  pub spec : s'.spec ≡ s.spec
  pub sleeping : s'.status.sleeping ≡ s.status.sleeping
  pub managed_workloads : s'.status.managed_workloads ≡ s.status.managed_workloads

abbrev pub RestatesUpdates : Client → Type 0
RestatesUpdates c =
    (s s' : SleepSchedule) (w w' : c.World)
    → c.update_status s w ≡ (value s', w')
    → RestatesStatus s s'

-- A server that carries out what it is asked for: lists, updates and encodings succeed, except that
-- a kind of custom resources may not be installed. Reading a single object may fail.
abbrev pub Answers : {A : Type 0} → Reply A → Type 0
Answers (value a) = Unit
Answers (error e) = ⊥

abbrev pub Lists : {A : Type 0} → Reply A → Type 0
Lists (value a) = Unit
Lists (error no_match) = Unit
Lists (error e) = ⊥

pub record Serves (c : Client) : Type 0 where
  pub apps :
      (kind ns : String) (labels : Labels) (w : c.World) → Answers (c.list_apps kind ns labels w).0
  pub cron_jobs :
      (ns : String) (labels : Labels) (w : c.World) → Answers (c.list_cron_jobs ns labels w).0
  pub resources :
      (gvk : Gvk) (ns : String) (labels : Labels) (w : c.World)
      → Lists (c.list_resources gvk ns labels w).0
  pub app_update : (kind : String) (x : App) (w : c.World) → Answers (c.update_app kind x w).0
  pub cron_job_update : (x : CronJob) (w : c.World) → Answers (c.update_cron_job x w).0
  pub resource_update :
      (gvk : Gvk) (x : Resource) (w : c.World) → Answers (c.update_resource gvk x w).0
  pub status_update : (s : SleepSchedule) (w : c.World) → Answers (c.update_status s w).0
  pub encoding : (counts : List (String × ℤ)) → Answers (c.marshal_counts counts)
