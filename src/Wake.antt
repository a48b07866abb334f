-- ===== src/Wake.antt =====
-- `wakeWorkloads` of internal/controller/sleepschedule_controller.go and its helpers
-- `wakeSuspendResource`, `wakeReplicaResource`, `wakeCountResource` and
-- `wakeElasticsearchResource`.
pub mod Frame
pub mod Served
use slumlord.Prelude.{Option, none, some, String}
use slumlord.Action.{Reply, value, error, M, pure, ◌>>=◌, ◌>>◌, gets, or_return, for_each}
use slumlord.Api.Workload.{Resource, Gvk}
use slumlord.Api.Schedule.{ManagedWorkload}
use slumlord.Cluster.{Client, Run, call}
use slumlord.Kinds.{
  cnpg_cluster_gvk, flux_helm_release_gvk, flux_kustomization_gvk, mariadb_gvk,
  mariadb_max_scale_gvk, prom_thanos_ruler_gvk, prom_alertmanager_gvk, prom_prometheus_gvk,
  eck_elasticsearch_gvk, eck_kibana_gvk, Kind, deployment, stateful_set, cron_job, cluster,
  helm_release, kustomization, mariadb, max_scale, thanos_ruler, alertmanager, prometheus, kibana,
  elasticsearch, kind_case,
}
use slumlord.Change.{
  restore_app, restore_cron_job, restore_cluster, restore_suspend, restore_field,
  restore_elasticsearch,
}

module _ (c : Client) where
  open c use {
    World, get_app, update_app, get_cron_job, update_cron_job, get_resource, update_resource,
    unmarshal_counts,
  }

  abbrev Step : Type 0
  Step = M (Run World) (Unit {0})

  -- `if err := r.Update(ctx, x); err != nil { return err }`
  pub write : {A : Type 0} → (A → World → Reply (Unit {0}) × World) → A → Step
  write update x = do answer ← call (update x); or_return answer

  -- `if p != nil { ... }` around a write.
  pub write_if_set :
      {A B : Type 0} → (A → World → Reply (Unit {0}) × World) → (B → A → A) → Option B → A → Step
  write_if_set update restore none x = pure tt
  write_if_set update restore (some original) x = write update (restore original x)

  -- An object that cannot be read is logged and passed over.
  pub on_found : {A : Type 0} → (A → Step) → Reply A → Step
  on_found body (value x) = body x
  on_found body (error e) = pure tt

  pub wake_app : String → ManagedWorkload → Step
  wake_app kind mw = do
    s ← gets (λ (r : Run World). r.schedule)
    answer ← call (get_app kind s.namespace mw.name)
    on_found (write_if_set (update_app kind) restore_app mw.original_replicas) answer

  pub wake_cron_job : ManagedWorkload → Step
  wake_cron_job mw = do
    s ← gets (λ (r : Run World). r.schedule)
    answer ← call (get_cron_job s.namespace mw.name)
    on_found (write_if_set update_cron_job restore_cron_job mw.original_suspend) answer

  pub wake_cluster : ManagedWorkload → Step
  wake_cluster mw = do
    s ← gets (λ (r : Run World). r.schedule)
    answer ← call (get_resource cnpg_cluster_gvk s.namespace mw.name)
    on_found
        (λ x. write (update_resource cnpg_cluster_gvk) (restore_cluster mw.original_hibernation x))
        answer

  pub wake_suspend_resource : Gvk → ManagedWorkload → Step
  wake_suspend_resource gvk mw = do
    s ← gets (λ (r : Run World). r.schedule)
    answer ← call (get_resource gvk s.namespace mw.name)
    on_found (λ x. write (update_resource gvk) (restore_suspend mw.original_suspend x)) answer

  -- `wakeReplicaResource` (`key` is "replicas") and `wakeCountResource` ("count").
  pub wake_field_resource : String → Gvk → ManagedWorkload → Step
  wake_field_resource key gvk mw = do
    s ← gets (λ (r : Run World). r.schedule)
    answer ← call (get_resource gvk s.namespace mw.name)
    on_found (write_if_set (update_resource gvk) (restore_field key) mw.original_replicas) answer

  abbrev pub wake_replica_resource : Gvk → ManagedWorkload → Step
  wake_replica_resource = wake_field_resource "replicas"

  abbrev pub wake_count_resource : Gvk → ManagedWorkload → Step
  wake_count_resource = wake_field_resource "count"

  write_if_restored : Option Resource → Step
  write_if_restored none = pure tt
  write_if_restored (some x) = write (update_resource eck_elasticsearch_gvk) x

  restore_encoded : Option String → Resource → Step
  restore_encoded none x = pure tt
  restore_encoded (some encoded) x =
      on_found (λ counts. write_if_restored (restore_elasticsearch counts x))
        (unmarshal_counts encoded)

  pub wake_elasticsearch : ManagedWorkload → Step
  wake_elasticsearch mw = do
    s ← gets (λ (r : Run World). r.schedule)
    answer ← call (get_resource eck_elasticsearch_gvk s.namespace mw.name)
    on_found (restore_encoded mw.original_node_set_counts) answer

  -- The `switch` of the first pass: all but the operators.
  pub wake_workload : Kind → ManagedWorkload → Step
  wake_workload deployment mw = wake_app "Deployment" mw
  wake_workload stateful_set mw = wake_app "StatefulSet" mw
  wake_workload cron_job mw = wake_cron_job mw
  wake_workload cluster mw = wake_cluster mw
  wake_workload thanos_ruler mw = wake_replica_resource prom_thanos_ruler_gvk mw
  wake_workload alertmanager mw = wake_replica_resource prom_alertmanager_gvk mw
  wake_workload prometheus mw = wake_replica_resource prom_prometheus_gvk mw
  wake_workload kibana mw = wake_count_resource eck_kibana_gvk mw
  wake_workload elasticsearch mw = wake_elasticsearch mw
  wake_workload _ mw = pure tt

  -- The `switch` of the second pass: the operators.
  pub wake_operator : Kind → ManagedWorkload → Step
  wake_operator helm_release mw = wake_suspend_resource flux_helm_release_gvk mw
  wake_operator kustomization mw = wake_suspend_resource flux_kustomization_gvk mw
  wake_operator mariadb mw = wake_suspend_resource mariadb_gvk mw
  wake_operator max_scale mw = wake_suspend_resource mariadb_max_scale_gvk mw
  wake_operator _ mw = pure tt

  unfoldable pub wake_workloads : Step
  unfolding write write_if_set on_found wake_app wake_cron_job wake_cluster wake_suspend_resource
      wake_field_resource write_if_restored restore_encoded wake_elasticsearch wake_workload
      wake_operator
  wake_workloads = do
    s ← gets (λ (r : Run World). r.schedule)
    for_each (λ mw. wake_workload (kind_case mw.kind) mw) s.status.managed_workloads
    for_each (λ mw. wake_operator (kind_case mw.kind) mw) s.status.managed_workloads
