-- ===== src/Samples.antt =====
-- Concrete inputs: a time zone, a store of Deployments that answers like the API server, and a
-- schedule that sleeps from 22:00 to 06:00.
pub mod Nights
pub mod Objects
pub mod Handlers
pub mod Policies
pub mod Children
pub mod Autoschedule
pub mod Nodes
pub mod Drains
pub mod Packers
use slumlord.Prelude.{
  ℕ, ◌+◌, ◌*◌, ◌/◌, ◌%◌, false, none, some, List, [], ◌∷◌, String, ◌==◌, if◌then◌else◌,
}
use slumlord.Prelude.Int.{pos}
use slumlord.Action.{Reply, value, error, not_found, failed}
use slumlord.Clock.{minute_ns, day_ns, Zones}
use slumlord.Api.Workload.{App}
use slumlord.Api.Schedule.{SleepWindow, SleepScheduleSpec, SleepScheduleStatus, SleepSchedule}
use slumlord.Cluster.{Client, Run, RestatesUpdates}

-- Coordinated universal time alone, from a Thursday on.
abbrev pub utc_only : Zones
utc_only = record {
  Location = Unit {0};
  utc = tt;
  load_location = λ _. none;
  civil =
      λ _ t. record { year = 1970; month = 1; day = t / day_ns; weekday = (t / day_ns + 4) % 7 };
  date = λ _ d h m. d.day * day_ns + (h * 60 + m) * minute_ns;
}

-- 23:00 on the eleventh day, a Sunday.
abbrev pub late_evening : ℕ
late_evening = 10 * day_ns + 1380 * minute_ns

abbrev pub night_window : SleepWindow
night_window = record { start = "22:00"; end = "06:00"; timezone = "UTC"; days = pos 0 ∷ [] }

abbrev pub night_spec : SleepScheduleSpec
night_spec = record {
  suspend = false;
  selector = record { match_labels = []; match_names = []; types = [] };
  schedule = some night_window;
  schedules = [];
  reconcile_interval = none;
}

abbrev pub awake_status : SleepScheduleStatus
awake_status = record {
  sleeping = false;
  days_display = "";
  managed_workloads = [];
  last_transition_time = none;
  conditions = [];
}

abbrev pub night_schedule : SleepSchedule
night_schedule = record {
  namespace = "shop";
  name = "nights";
  generation = 1;
  spec = night_spec;
  status = awake_status;
}

abbrev find_app : String → List App → Reply App
find_app name [] = error not_found
find_app name (d ∷ ds) = if d.name == name then value d else find_app name ds

abbrev replace_app : App → List App → List App
replace_app x [] = []
replace_app x (d ∷ ds) = (if d.name == x.name then x else d) ∷ replace_app x ds

abbrev pub deployments : String → List App → List App
deployments kind w = if kind == "Deployment" then w else []

-- A store of Deployments and of nothing else, where it is late evening.
abbrev pub store : Client
store = record {
  World = List App;
  list_apps = λ kind namespace labels w. (value (deployments kind w), w);
  get_app = λ kind namespace name w. (find_app name (deployments kind w), w);
  update_app = λ kind x w. (value tt, replace_app x w);
  list_cron_jobs = λ namespace labels w. (value [], w);
  get_cron_job = λ namespace name w. (error not_found, w);
  update_cron_job = λ x w. (error failed, w);
  list_resources = λ gvk namespace labels w. (value [], w);
  get_resource = λ gvk namespace name w. (error not_found, w);
  update_resource = λ gvk x w. (error failed, w);
  get_schedule = λ namespace name w. (value night_schedule, w);
  update_status = λ s w. (value s, w);
  clock = λ w. (late_evening, w);
  set_status_condition = λ cs x. x ∷ cs;
  marshal_counts = λ counts. error failed;
  unmarshal_counts = λ s. error failed;
}

abbrev pub web : App
web = record { namespace = "shop"; name = "web"; replicas = some (pos 3) }

abbrev pub evening_run : Run (List App)
evening_run = record { schedule = night_schedule; managed = []; reports = []; world = web ∷ [] }

pub store-RestatesUpdates : RestatesUpdates store
store-RestatesUpdates s s' w w' e = record { spec = cc; sleeping = cc; managed_workloads = cc }
