-- ===== src/Sleep.antt =====
-- `sleepWorkloads` of internal/controller/sleepschedule_controller.go and its helpers
-- `sleepSuspendResources`, `sleepReplicaResources`, `sleepCountResources` and
-- `sleepElasticsearchResources`.
pub mod Keys
pub mod Journal
pub mod Entries
pub mod Marked
pub mod Stale
pub mod Served
use slumlord.Prelude.{not, Option, none, some, List, [], ◌∷◌, ◌++◌, map, String, contains}
use slumlord.Action.{
  not_found, no_match, failed, Reply, value, error, M, pure, raise, ◌>>=◌, ◌>>◌, gets, when,
  or_return, for_each,
}
use slumlord.Prelude.Int.{ℤ}
use slumlord.Api.Workload.{Resource, Gvk}
use slumlord.Api.Schedule.{ManagedWorkload, SleepSchedule}
use slumlord.Cluster.{Client, Run, call, put_schedule, put_managed}
use slumlord.Kinds.{
  workload_key, should_manage_type, list_gvk, cnpg_cluster_gvk, flux_helm_release_gvk,
  flux_kustomization_gvk, mariadb_gvk, mariadb_max_scale_gvk, prom_thanos_ruler_gvk,
  prom_alertmanager_gvk, prom_prometheus_gvk, eck_elasticsearch_gvk, eck_kibana_gvk,
}
use slumlord.Change.{
  Decision, no_original, scale_down_app, suspend_cron_job, hibernate_cluster, suspend_resource,
  scale_down_field, scale_down_elasticsearch,
}

-- `schedule.Status.ManagedWorkloads = append(schedule.Status.ManagedWorkloads, mw)`
pub append_managed : ManagedWorkload → SleepSchedule → SleepSchedule
append_managed mw s = record s {
  status = record (s.status) { managed_workloads = s.status.managed_workloads ++ mw ∷ [] };
}

unfoldable pub key_of : ManagedWorkload → String
key_of mw = workload_key mw.kind mw.name

module _ (c : Client) where
  open c use {
    World, list_apps, update_app, list_cron_jobs, update_cron_job, list_resources, update_resource,
    update_status, marshal_counts,
  }

  abbrev pub Step : Type 0
  Step = M (Run World) (Unit {0})

  -- `r.Status().Update(ctx, schedule)`: on success the answer replaces the schedule in memory.
  unfoldable pub persist_status : Step
  persist_status = do
    s ← gets (λ (r : Run World). r.schedule)
    answer ← call (update_status s)
    stored ← or_return answer
    put_schedule stored

  -- What follows a successful write: the entry, its persistence, and the mark in `managed`.
  pub record_managed : ManagedWorkload → Step
  record_managed mw = do
    s ← gets (λ (r : Run World). r.schedule)
    put_schedule (append_managed mw s)
    persist_status
    marked ← gets (λ (r : Run World). r.managed)
    put_managed (key_of mw ∷ marked)

  -- `if err := r.Update(ctx, x); err != nil { return err }`, and then the entry.
  pub write_decided : {A : Type 0} → (A → World → Reply (Unit {0}) × World) → Decision A → Step
  write_decided update none = pure tt
  write_decided update (some (x, mw)) = do
    answer ← call (update x)
    or_return answer
    record_managed mw

  -- The body of the loops: skip what is managed, else decide and write.
  pub sleep_one :
      {A : Type 0}
      → String
      → (A → String)
      → (A → Decision A)
      → (A → World → Reply (Unit {0}) × World)
      → A
      → Step
  sleep_one kind name decide update x = do
    marked ← gets (λ (r : Run World). r.managed)
    when (not (contains (workload_key kind (name x)) marked)) (write_decided update (decide x))

  -- Deployments and StatefulSets.
  pub sleep_apps : String → Step
  sleep_apps kind = do
    s ← gets (λ (r : Run World). r.schedule)
    answer ← call (list_apps kind s.namespace s.spec.selector.match_labels)
    items ← or_return answer
    for_each (sleep_one kind (λ d. d.name) (scale_down_app kind) (update_app kind)) items

  pub sleep_cron_jobs : Step
  sleep_cron_jobs = do
    s ← gets (λ (r : Run World). r.schedule)
    answer ← call (list_cron_jobs s.namespace s.spec.selector.match_labels)
    items ← or_return answer
    for_each (sleep_one "CronJob" (λ cj. cj.name) suspend_cron_job update_cron_job) items

  -- A list of custom resources: a kind that is not installed is skipped.
  pub for_each_resource : (Resource → Step) → Reply (List Resource) → Step
  for_each_resource body (value items) = for_each body items
  for_each_resource body (error no_match) = pure tt
  for_each_resource body (error not_found) = raise not_found
  for_each_resource body (error failed) = raise failed

  -- The loops over custom resources, by what they decide.
  pub sleep_resources : Gvk → String → (Resource → Decision Resource) → Step
  sleep_resources gvk kind decide = do
    s ← gets (λ (r : Run World). r.schedule)
    answer ← call (list_resources (list_gvk gvk) s.namespace s.spec.selector.match_labels)
    for_each_resource (sleep_one kind (λ r. r.name) decide (update_resource gvk)) answer

  -- `sleepSuspendResources`, `sleepReplicaResources` and `sleepCountResources`.
  abbrev pub sleep_suspend_resources : Gvk → String → Step
  sleep_suspend_resources gvk kind = sleep_resources gvk kind (suspend_resource kind)

  abbrev pub sleep_replica_resources : Gvk → String → Step
  sleep_replica_resources gvk kind = sleep_resources gvk kind (scale_down_field "replicas" kind)

  abbrev pub sleep_count_resources : Gvk → String → Step
  sleep_count_resources gvk kind = sleep_resources gvk kind (scale_down_field "count" kind)

  -- The entry of an Elasticsearch, once its counts are encoded.
  pub record_encoded : String → Reply String → Step
  record_encoded name answer = do
    encoded ← or_return answer
    record_managed
        (record (no_original "Elasticsearch" name) { original_node_set_counts = some encoded })

  -- The body of the Elasticsearch loop: the counts are encoded after the write.
  pub write_elasticsearch : Option (Resource × List (String × ℤ)) → Step
  write_elasticsearch none = pure tt
  write_elasticsearch (some (x, counts)) = do
    answer ← call (update_resource eck_elasticsearch_gvk x)
    or_return answer
    record_encoded x.name (marshal_counts counts)

  pub sleep_one_elasticsearch : Resource → Step
  sleep_one_elasticsearch x = do
    marked ← gets (λ (r : Run World). r.managed)
    when (not (contains (workload_key "Elasticsearch" x.name) marked))
        (write_elasticsearch (scale_down_elasticsearch x))

  pub sleep_elasticsearch : Step
  sleep_elasticsearch = do
    s ← gets (λ (r : Run World). r.schedule)
    answer ←
        call
          (list_resources (list_gvk eck_elasticsearch_gvk) s.namespace s.spec.selector.match_labels)
    for_each_resource sleep_one_elasticsearch answer

  -- `if r.shouldManageType(schedule, kind) { ... }`
  pub if_managed : String → Step → Step
  if_managed kind body = do
    s ← gets (λ (r : Run World). r.schedule)
    when (should_manage_type s kind) body

  -- Operators that would undo the scaling are suspended before anything is scaled.
  pub sleep_operators : Step
  sleep_operators = do
    if_managed "HelmRelease" (sleep_suspend_resources flux_helm_release_gvk "HelmRelease")
    if_managed "Kustomization" (sleep_suspend_resources flux_kustomization_gvk "Kustomization")
    if_managed "MariaDB" (sleep_suspend_resources mariadb_gvk "MariaDB")
    if_managed "MaxScale" (sleep_suspend_resources mariadb_max_scale_gvk "MaxScale")

  pub sleep_core : Step
  sleep_core = do
    if_managed "Deployment" (sleep_apps "Deployment")
    if_managed "StatefulSet" (sleep_apps "StatefulSet")
    if_managed "CronJob" sleep_cron_jobs
    if_managed "Cluster" (sleep_resources cnpg_cluster_gvk "Cluster" hibernate_cluster)

  pub sleep_custom : Step
  sleep_custom = do
    if_managed "ThanosRuler" (sleep_replica_resources prom_thanos_ruler_gvk "ThanosRuler")
    if_managed "Alertmanager" (sleep_replica_resources prom_alertmanager_gvk "Alertmanager")
    if_managed "Prometheus" (sleep_replica_resources prom_prometheus_gvk "Prometheus")
    if_managed "Kibana" (sleep_count_resources eck_kibana_gvk "Kibana")
    if_managed "Elasticsearch" sleep_elasticsearch

  -- `managed` begins with the entries that an earlier, interrupted run left behind.
  pub init_managed : Step
  init_managed = do
    s ← gets (λ (r : Run World). r.schedule)
    put_managed (map key_of s.status.managed_workloads)

  unfoldable pub sleep_workloads : Step
  unfolding append_managed key_of persist_status record_managed write_decided sleep_one sleep_apps
      sleep_cron_jobs for_each_resource sleep_resources record_encoded write_elasticsearch
      sleep_one_elasticsearch sleep_elasticsearch if_managed sleep_operators sleep_core sleep_custom
      init_managed
  sleep_workloads = do init_managed; sleep_operators; sleep_core; sleep_custom
