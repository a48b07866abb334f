-- ===== src/Samples/Handlers.antt =====
-- The theorems on the handlers at a concrete store.
use slumlord.Prelude.{
  ◌||◌, ◌≡◌, refl, Bool, true, false, some, List, [], ◌∷◌, String, contains, All, Bool-cases, inl,
  inr, arith, eq_iff, ◌==◌,
}
use slumlord.Prelude.Int.{ℤ, pos}
use slumlord.Reconcile.Served.{reconcile_active_total}
use slumlord.Action.{value, Outcome, ok, err, panic, for_each}
use slumlord.Clock.{minute_ns, parse_clock}
use slumlord.Api.Workload.{App}
use slumlord.Api.Schedule.{ManagedWorkload, SleepSchedule, get_windows}
use slumlord.Cluster.{Client, Serves, RestatesUpdates, Run}
use slumlord.Kinds.{workload_key, kind_case, should_manage_type}
use slumlord.Change.{no_original, scale_down_app}
use slumlord.Window.{should_be_sleeping_at, should_be_sleeping_at_window}
use slumlord.Days.{aggregate_days_display}
use slumlord.Sleep.{key_of, persist_status, sleep_workloads}
use slumlord.Window.Requeue.{should_verify_workloads}
use slumlord.Sleep.Keys.{IsJournal, keys}
use slumlord.Sleep.Entries.{sleep_workloads-IsJournal}
use slumlord.Sleep.Marked.{AllListed}
use slumlord.Sleep.Stale.{sleep_workloads-AllListed}
use slumlord.Wake.{wake_workloads}
use slumlord.Reconcile.{reconcile_suspended, reconcile_active, reconcile}
use slumlord.Action.Post.{Post}
use slumlord.Days.Range.{every_day, valid_days}
use slumlord.Reconcile.Expired.{IsUntouchedByStatus, reconcile_active_forgets}
use slumlord.Reconcile.Invalid.{reconcile_active-panic}
use slumlord.Reconcile.Steps.{IsStored}
use slumlord.Reconcile.Suspended.{SaysAwake, reconcile_suspended_awake}
use slumlord.Reconcile.Active.{SaysSleeping, reconcile_active_state}
use slumlord.Samples.{
  utc_only, late_evening, night_window, night_schedule, store, web, evening_run,
  store-RestatesUpdates, deployments,
}

sleep_workloads-IsJournal_example :
    IsJournal night_schedule (sleep_workloads store evening_run).1.schedule
sleep_workloads-IsJournal_example =
    sleep_workloads-IsJournal store evening_run store-RestatesUpdates tt

-- The schedule after a wake: awake, with the entry of `web` still there.
abbrev web_entry : ManagedWorkload
web_entry = record (no_original "Deployment" "web") { original_replicas = some (pos 3) }

abbrev woken_schedule : SleepSchedule
woken_schedule = record night_schedule {
  status = record night_schedule.status { managed_workloads = web_entry ∷ [] };
}

abbrev woken_run : Run (List App)
woken_run = record evening_run { schedule = woken_schedule }

deployments_marked :
    (kind : String)
    → All
        (λ d. contains (workload_key kind d.name) (keys woken_schedule) ≡ true)
        (deployments kind (web ∷ []))
unfolding workload_key key_of
deployments_marked kind = elim (Bool-cases (kind == "Deployment")) [
  | inl e ↦ rw ((eq_iff kind "Deployment").0 e) (refl, tt)
  | inr e ↦ rw e tt
]

abbrev IsWeb : List App → Type 0
IsWeb w = w ≡ web ∷ []

woken-AllListed : AllListed store IsWeb woken_schedule (keys woken_schedule)
woken-AllListed = record {
  apps = λ kind w which managed i. rw i (deployments_marked kind, refl);
  cron_jobs = λ w managed i. (tt, i);
  resources = λ gvk w m managed i. (tt, i);
}

sleep_workloads-AllListed_example :
    ((sleep_workloads store woken_run).0 ≡ ok tt)
    × ((sleep_workloads store woken_run).1.schedule ≡ woken_schedule)
    × IsWeb (sleep_workloads store woken_run).1.world
sleep_workloads-AllListed_example =
    sleep_workloads-AllListed store IsWeb woken_run woken-AllListed refl

-- The same schedule, asleep and then suspended.
abbrev suspended_run : Run (List App)
suspended_run = record woken_run {
  schedule = record woken_schedule {
    spec = record woken_schedule.spec { suspend = true };
    status = record woken_schedule.status { sleeping = true };
  };
}

abbrev after_suspended : Run (List App)
after_suspended = (reconcile_suspended utc_only (pos 0) store suspended_run).1

suspended_done :
    reconcile_suspended utc_only (pos 0) store suspended_run ≡ (ok (pos minute_ns), after_suspended)
unfolding reconcile wake_workloads for_each kind_case persist_status
suspended_done = refl

reconcile_suspended_awake_example : IsStored store (SaysAwake (web_entry ∷ [])) after_suspended
reconcile_suspended_awake_example =
    reconcile_suspended_awake utc_only (pos 0) store suspended_run after_suspended (pos minute_ns)
      store-RestatesUpdates suspended_done

-- Asleep on every night of the week.
abbrev every_night : SleepSchedule
every_night = record night_schedule {
  spec = record night_schedule.spec { schedule = some (record night_window { days = [] }) };
}

abbrev every_night_run : Run (List App)
every_night_run = record evening_run { schedule = every_night }

abbrev is_ok : {S : Type 0} → Outcome ℤ × S → Bool
is_ok (ok t, r) = true
is_ok (err e, r) = false
is_ok (panic, r) = false

abbrev ok_value : {S : Type 0} → Outcome ℤ × S → ℤ
ok_value (ok t, r) = t
ok_value (err e, r) = pos 0
ok_value (panic, r) = pos 0

ok_lem : {S : Type 0} (p : Outcome ℤ × S) → is_ok p ≡ true → p ≡ (ok (ok_value p), p.1)
ok_lem (ok t, r) h = refl
ok_lem (err e, r) h = ground arith
ok_lem (panic, r) h = ground arith

abbrev evening_result : Outcome ℤ × Run (List App)
evening_result = reconcile_active utc_only (pos 0) store every_night_run

evening_is_ok : is_ok evening_result ≡ true
unfolding reconcile sleep_workloads for_each should_manage_type persist_status workload_key
    scale_down_app should_be_sleeping_at should_be_sleeping_at_window get_windows parse_clock
    aggregate_days_display
evening_is_ok = refl

reconcile_active_state_example :
    IsStored store
      (SaysSleeping (should_be_sleeping_at utc_only every_night late_evening))
      evening_result.1
reconcile_active_state_example =
    reconcile_active_state utc_only (pos 0) store every_night_run evening_result.1
      (ok_value evening_result) store-RestatesUpdates tt (ok_lem evening_result evening_is_ok)

-- A child of an interrupted sleep: awake, outside its window, with an entry for a Deployment that is
-- scaled to zero.
abbrev web_at_zero : App
web_at_zero = record web { replicas = some (pos 0) }

abbrev interrupted : SleepSchedule
interrupted = record woken_schedule {
  spec = record night_schedule.spec { schedule = some (record night_window { days = pos 3 ∷ [] }) };
}

abbrev interrupted_run : Run (List App)
interrupted_run = record evening_run { schedule = interrupted; world = web_at_zero ∷ [] }

store-IsUntouched : IsUntouchedByStatus store (λ w. w ≡ web_at_zero ∷ [])
store-IsUntouched = record { by_clock = λ w i. i; by_status = λ s w i. i }

outside_window : should_be_sleeping_at utc_only interrupted late_evening ≡ false
unfolding should_be_sleeping_at should_be_sleeping_at_window get_windows parse_clock
outside_window = refl

not_verified : should_verify_workloads interrupted late_evening ≡ false
unfolding should_verify_workloads
not_verified = refl

reconcile_active_forgets_example :
    Post
      (λ t. (t.schedule.status.managed_workloads ≡ []) × (t.world ≡ web_at_zero ∷ []))
      (λ t. t.world ≡ web_at_zero ∷ [])
      (reconcile_active utc_only (pos 0) store interrupted_run)
reconcile_active_forgets_example =
    reconcile_active_forgets utc_only (pos 0) store (λ w. w ≡ web_at_zero ∷ []) interrupted_run
      store-RestatesUpdates store-IsUntouched refl outside_window not_verified refl

-- A schedule for the eighth day of the week.
abbrev eighth_day_run : Run (List App)
eighth_day_run = record evening_run {
  schedule = record night_schedule {
    spec = record night_schedule.spec {
      schedule = some (record night_window { days = pos 7 ∷ [] });
    };
  };
}

eighth_day_invalid :
    (every_day (get_windows eighth_day_run.schedule.spec)
      || valid_days (get_windows eighth_day_run.schedule.spec))
    ≡ false
unfolding get_windows
eighth_day_invalid = refl

reconcile_active-panic_example :
    reconcile_active utc_only (pos 0) store eighth_day_run ≡ (panic, eighth_day_run)
reconcile_active-panic_example =
    reconcile_active-panic utc_only (pos 0) store eighth_day_run eighth_day_invalid

-- The store, with an encoding of counts that always succeeds and status and object updates that do.
abbrev served_store : Client
served_store = record store {
  update_cron_job = λ x w. (value tt, w);
  update_resource = λ gvk x w. (value tt, w);
  marshal_counts = λ counts. value "{}";
}

served_store-Serves : Serves served_store
served_store-Serves = record {
  apps = λ kind ns labels w. tt;
  cron_jobs = λ ns labels w. tt;
  resources = λ gvk ns labels w. tt;
  app_update = λ kind x w. tt;
  cron_job_update = λ x w. tt;
  resource_update = λ gvk x w. tt;
  status_update = λ s w. tt;
  encoding = λ counts. tt;
}

served_store-RestatesUpdates : RestatesUpdates served_store
served_store-RestatesUpdates s s' w w' e = store-RestatesUpdates s s' w w' e

sunday_is_valid :
    (every_day (get_windows night_schedule.spec) || valid_days (get_windows night_schedule.spec))
    ≡ true
unfolding get_windows
sunday_is_valid = refl

reconcile_active_total_example :
    (t : ℤ) × (r' : Run (List App)) × (reconcile_active utc_only (pos 0) served_store evening_run
      ≡ (ok t, r'))
    × IsStored served_store
        (SaysSleeping (should_be_sleeping_at utc_only night_schedule late_evening))
        r'
reconcile_active_total_example =
    reconcile_active_total utc_only (pos 0) served_store evening_run served_store-Serves
      served_store-RestatesUpdates tt sunday_is_valid
