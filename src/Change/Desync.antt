-- ===== src/Change/Desync.antt =====
-- The tests of `verifyAndCorrectWorkloads` against what sleeping and waking do to an object: each
-- is met by the object asleep, and by no object that was restored, Elasticsearch excepted.
use slumlord.Prelude.{◌≡◌, refl, ap, true, false, Option, none, some, String, ◌==◌, eq_iff, arith}
use slumlord.Prelude.Int.{pos}
use slumlord.Api.Json.{
  int64, blank, as_bool, Fields, get_field, get_field-blank, get_field-set_field,
}
use slumlord.Api.Workload.{App, CronJob, Resource}
use slumlord.Api.Schedule.{ManagedWorkload}
use slumlord.Change.{
  or_else, scale_down_app, suspend_cron_job, current_hibernation, hibernate_cluster,
  current_suspend, suspend_resource, scale_down_field, restore_app, restore_cron_job,
  restore_cluster, restore_suspend, restore_field, app_desynced, cron_job_desynced,
  suspend_desynced, cluster_desynced, field_desynced,
}
use slumlord.Kinds.{hibernation_annotation}
use slumlord.Change.Restore.{
  annotation, annotation-hibernated, hibernate_cluster_lem, current_hibernation-restore_cluster,
  restore-suspend_resource,
}

-- A scaled down Deployment or StatefulSet is found desynced by its entry, and not once its count is
-- restored.
pub app_desynced_iff_asleep :
    (kind : String) (d d' : App) (mw : ManagedWorkload)
    → scale_down_app kind d ≡ some (d', mw)
    → (app_desynced mw d' ≡ true)
      × (app_desynced mw (restore_app (or_else mw.original_replicas (pos 0)) d') ≡ false)
unfolding scale_down_app app_desynced restore_app
app_desynced_iff_asleep kind d d' mw h = ground arith

-- A suspended CronJob is found desynced by its entry, and not once its flag is restored.
pub cron_job_desynced_iff_asleep :
    (cj cj' : CronJob) (mw : ManagedWorkload)
    → suspend_cron_job cj ≡ some (cj', mw)
    → (cron_job_desynced mw cj' ≡ true)
      × (cron_job_desynced mw (restore_cron_job (or_else mw.original_suspend true) cj') ≡ false)
unfolding suspend_cron_job cron_job_desynced restore_cron_job
cron_job_desynced_iff_asleep cj cj' mw h = ground arith

cluster_desynced_lem :
    (mw : ManagedWorkload) (r : Resource)
    → annotation hibernation_annotation r ≡ some "on"
    → cluster_desynced mw r ≡ true
unfolding cluster_desynced
cluster_desynced_lem mw r e = ap (λ a. or_else a "" == "on") e

-- A hibernated Cluster is found desynced, and not once its annotation is restored.
pub cluster_desynced_iff_asleep :
    (r r' : Resource) (mw : ManagedWorkload)
    → hibernate_cluster r ≡ some (r', mw)
    → (cluster_desynced mw r' ≡ true)
      × (cluster_desynced mw (restore_cluster mw.original_hibernation r') ≡ false)
unfolding cluster_desynced
cluster_desynced_iff_asleep r r' mw h =
    let (changed, original, awake) = hibernate_cluster_lem r r' mw h in
    (
      cluster_desynced_lem mw r' (annotation-hibernated r r' mw hibernation_annotation h),
      rw (original, current_hibernation-restore_cluster (current_hibernation r) r') awake,
    )

current_suspend_lem :
    (spec : Option Fields)
    → current_suspend spec ≡ or_else (as_bool (get_field "suspend" (or_else spec blank))) false
unfolding current_suspend
current_suspend_lem none = rw (get_field-blank "suspend")
current_suspend_lem (some spec) = refl

-- A suspended resource is found desynced by its entry, and not once its flag is restored.
pub suspend_desynced_iff_asleep :
    (kind : String) (r r' : Resource) (mw : ManagedWorkload)
    → suspend_resource kind r ≡ some (r', mw)
    → (suspend_desynced mw r' ≡ true)
      × (suspend_desynced mw (restore_suspend mw.original_suspend r') ≡ false)
unfolding suspend_desynced
suspend_desynced_iff_asleep kind r r' mw h =
    let (awake, asleep, original, _, restored) = restore-suspend_resource kind r r' mw h in
    (
      ground (arith, current_suspend_lem r'.spec),
      ground (
        arith,
        restored "suspend",
        current_suspend_lem (restore_suspend mw.original_suspend r').spec,
      ),
    )

-- A custom resource that is scaled down is found desynced by its entry, and not once its count is
-- restored.
pub field_desynced_iff_asleep :
    (key kind : String) (r r' : Resource) (mw : ManagedWorkload)
    → scale_down_field key kind r ≡ some (r', mw)
    → (field_desynced key mw r' ≡ true)
      × (field_desynced key mw (restore_field key (or_else mw.original_replicas (pos 0)) r')
          ≡ false)
unfolding scale_down_field field_desynced restore_field
field_desynced_iff_asleep key kind r r' mw h = ground (
  arith,
  eq_iff key key,
  get_field-set_field key key (int64 (pos 0)) (or_else r.spec blank),
  get_field-set_field key key (int64 (or_else mw.original_replicas (pos 0)))
      (or_else r'.spec blank),
)
