-- ===== src/Samples/Objects.antt =====
-- The theorems on single objects at concrete inputs.
use slumlord.Prelude.{
  ◌≡◌, refl, true, false, none, some, [], ◌∷◌, String, ◌==◌, if◌then◌else◌, arith,
}
use slumlord.Prelude.Int.{pos, ltb_ℤ, to_int32}
use slumlord.Api.Json.{
  int64, text, boolean, object, Items, nil, item, Fields, blank, field, get_field, set_field,
  as_int32,
}
use slumlord.Api.Workload.{App, CronJob, Resource}
use slumlord.Api.Schedule.{ManagedWorkload}
use slumlord.Kinds.{hibernation_annotation}
use slumlord.Change.{
  or_else, no_original, scale_down_app, suspend_cron_job, current_hibernation, hibernate_cluster,
  current_suspend, suspend_resource, scale_down_field, restore_app, restore_cron_job,
  restore_cluster, restore_suspend, restore_field, app_desynced, capture_counts, zero_counts,
  node_set_name, node_set_count, restore_counts, any_zero_count, field_desynced,
}
use slumlord.Change.Restore.{
  annotation, spec_field, restore-scale_down_app, restore-suspend_cron_job,
  restore-hibernate_cluster, restore-scale_down_field, restore-suspend_resource,
}
use slumlord.Change.NodeSets.{
  node_sets_of, had_zero_count, IsValid, restore_captured_counts, any_zero_count-restore_counts,
}
use slumlord.Change.Desync.{app_desynced_iff_asleep, field_desynced_iff_asleep}
use slumlord.Samples.{web}

abbrev web_asleep : App
web_asleep = record web { replicas = some (pos 0) }

abbrev web_entry : ManagedWorkload
web_entry = record (no_original "Deployment" "web") { original_replicas = some (pos 3) }

scale_down_web : scale_down_app "Deployment" web ≡ some (web_asleep, web_entry)
unfolding scale_down_app
scale_down_web = refl

restore-scale_down_app_example :
    (ltb_ℤ (pos 0) (pos 3) ≡ true)
    × (web_asleep.replicas ≡ some (pos 0))
    × (web_entry.kind ≡ "Deployment")
    × (web_entry.name ≡ "web")
    × (web_entry.original_replicas ≡ some (pos 3))
    × (restore_app (pos 3) web_asleep ≡ web)
restore-scale_down_app_example =
    restore-scale_down_app "Deployment" web web_asleep web_entry scale_down_web

app_desynced_iff_asleep_example :
    (app_desynced web_entry web_asleep ≡ true)
    × (app_desynced web_entry (restore_app (pos 3) web_asleep) ≡ false)
app_desynced_iff_asleep_example =
    app_desynced_iff_asleep "Deployment" web web_asleep web_entry scale_down_web

-- A CronJob without the flag.
abbrev report_job : CronJob
report_job = record { namespace = "shop"; name = "report"; suspend = none }

abbrev report_entry : ManagedWorkload
report_entry = record (no_original "CronJob" "report") { original_suspend = some false }

suspend_report :
    suspend_cron_job report_job ≡ some (record report_job { suspend = some true }, report_entry)
unfolding suspend_cron_job
suspend_report = refl

restore-suspend_cron_job_example :
    (or_else report_job.suspend false ≡ false)
    × (record report_job { suspend = some true } ≡ record report_job { suspend = some true })
    × (report_entry.kind ≡ "CronJob")
    × (report_entry.name ≡ report_job.name)
    × (report_entry.original_suspend ≡ some false)
    × (restore_cron_job false (record report_job { suspend = some true })
        ≡ record report_job { suspend = some false })
restore-suspend_cron_job_example =
    restore-suspend_cron_job report_job (record report_job { suspend = some true }) report_entry
      suspend_report

-- A database cluster without annotations.
abbrev orders : Resource
orders = record { namespace = "shop"; name = "orders"; annotations = none; spec = none }

abbrev orders_asleep : Resource
orders_asleep = record orders { annotations = some ((hibernation_annotation, "on") ∷ []) }

abbrev orders_entry : ManagedWorkload
orders_entry = record (no_original "Cluster" "orders") { original_hibernation = some "" }

hibernate_orders : hibernate_cluster orders ≡ some (orders_asleep, orders_entry)
unfolding hibernate_cluster
hibernate_orders = refl

restore-hibernate_cluster_example :
    (annotation hibernation_annotation orders_asleep ≡ some "on")
    × (current_hibernation (restore_cluster (some "") orders_asleep) ≡ current_hibernation orders)
    × ((k : String)
        → annotation k (restore_cluster (some "") orders_asleep) ≡ (
            if hibernation_annotation == k
            then annotation k (restore_cluster (some "") orders_asleep)
            else annotation k orders))
    × ((restore_cluster (some "") orders_asleep).spec ≡ orders.spec)
restore-hibernate_cluster_example =
    restore-hibernate_cluster orders orders_asleep orders_entry hibernate_orders

-- A Helm release that is not suspended.
abbrev shop_release : Resource
shop_release = record {
  namespace = "shop";
  name = "release";
  annotations = none;
  spec = some (field "interval" (text "5m") blank);
}

abbrev shop_release_asleep : Resource
shop_release_asleep = record shop_release {
  spec = some (field "interval" (text "5m") (field "suspend" (boolean true) blank));
}

abbrev shop_release_entry : ManagedWorkload
shop_release_entry = record (no_original "HelmRelease" "release") { original_suspend = some false }

suspend_shop_release :
    suspend_resource "HelmRelease" shop_release ≡ some (shop_release_asleep, shop_release_entry)
unfolding suspend_resource get_field set_field
suspend_shop_release = refl

restore-suspend_resource_example :
    (current_suspend shop_release.spec ≡ false)
    × (spec_field "suspend" shop_release_asleep ≡ some (boolean true))
    × (shop_release_entry.original_suspend ≡ some false)
    × ((restore_suspend (some false) shop_release_asleep).annotations ≡ none)
    × ((j : String)
        → spec_field j (restore_suspend (some false) shop_release_asleep)
          ≡ (if "suspend" == j then some (boolean false) else spec_field j shop_release))
restore-suspend_resource_example =
    restore-suspend_resource "HelmRelease" shop_release shop_release_asleep shop_release_entry
      suspend_shop_release

-- A Prometheus of two replicas.
abbrev metrics : Resource
metrics = record {
  namespace = "shop";
  name = "metrics";
  annotations = none;
  spec = some (field "replicas" (int64 (pos 2)) blank);
}

abbrev metrics_asleep : Resource
metrics_asleep = record metrics { spec = some (field "replicas" (int64 (pos 0)) blank) }

abbrev metrics_entry : ManagedWorkload
metrics_entry = record (no_original "Prometheus" "metrics") { original_replicas = some (pos 2) }

scale_down_metrics :
    scale_down_field "replicas" "Prometheus" metrics ≡ some (metrics_asleep, metrics_entry)
unfolding scale_down_field get_field set_field to_int32
scale_down_metrics = refl

restore-scale_down_field_example :
    (ltb_ℤ (pos 0) (pos 2) ≡ true)
    × (metrics_entry.original_replicas ≡ as_int32 to_int32 (spec_field "replicas" metrics))
    × (spec_field "replicas" metrics_asleep ≡ some (int64 (pos 0)))
    × ((j : String)
        → spec_field j (restore_field "replicas" (pos 2) metrics_asleep)
          ≡ (if "replicas" == j then some (int64 (pos 2)) else spec_field j metrics))
restore-scale_down_field_example =
    restore-scale_down_field "replicas" "Prometheus" metrics metrics_asleep metrics_entry
      scale_down_metrics

field_desynced_iff_asleep_example :
    (field_desynced "replicas" metrics_entry metrics_asleep ≡ true)
    × (field_desynced "replicas" metrics_entry (restore_field "replicas" (pos 2) metrics_asleep)
        ≡ false)
field_desynced_iff_asleep_example =
    field_desynced_iff_asleep "replicas" "Prometheus" metrics metrics_asleep metrics_entry
      scale_down_metrics

-- Two node sets, of which the second has no nodes.
abbrev masters : Fields
masters = field "name" (text "masters") (field "count" (int64 (pos 3)) blank)

abbrev spares : Fields
spares = field "name" (text "spares") (field "count" (int64 (pos 0)) blank)

abbrev both_sets : Items
both_sets = item (object masters) (item (object spares) nil)

both_sets-IsValid : IsValid both_sets
unfolding node_set_name node_set_count get_field to_int32
both_sets-IsValid = ((refl, (omega arith, omega arith)), ((refl, (omega arith, omega arith)), tt))

restore_captured_counts_example :
    node_sets_of (restore_counts (capture_counts [] both_sets) (zero_counts both_sets))
    ≡ node_sets_of both_sets
restore_captured_counts_example = restore_captured_counts both_sets both_sets-IsValid

any_zero_count-restore_counts_example :
    any_zero_count (restore_counts (capture_counts [] both_sets) (zero_counts both_sets))
    ≡ had_zero_count both_sets
any_zero_count-restore_counts_example = any_zero_count-restore_counts both_sets both_sets-IsValid
