-- ===== src/Wake/Served.antt =====
-- `wakeWorkloads` with a server that carries out every update.
use slumlord.Prelude.{Option, none, some, String}
use slumlord.Action.{Reply, value, error, M, or_return}
use slumlord.Action.Post.{Post, Keeps-then, Keeps-for_each}
use slumlord.Api.Workload.{Resource, Gvk}
use slumlord.Api.Schedule.{ManagedWorkload}
use slumlord.Cluster.{Client, Run, Serves, Answers}
use slumlord.Kinds.{
  Kind, deployment, stateful_set, cron_job, cluster, helm_release, kustomization, mariadb,
  max_scale, thanos_ruler, alertmanager, prometheus, kibana, elasticsearch, kind_case,
  eck_elasticsearch_gvk, cnpg_cluster_gvk,
}
use slumlord.Change.{
  restore_app, restore_cron_job, restore_field, restore_cluster, restore_suspend,
  restore_elasticsearch,
}
use slumlord.Sleep.Served.{Succeeds}
use slumlord.Wake.{
  write, write_if_set, on_found, wake_app, wake_cron_job, wake_cluster, wake_suspend_resource,
  wake_field_resource, write_if_restored, restore_encoded, wake_elasticsearch, wake_workload,
  wake_operator, wake_workloads,
}

module _ (c : Client) (serves : Serves c) where
  Succeeds-write :
      {A : Type 0} (update : A → c.World → Reply (Unit {0}) × c.World)
      → ((x : A) (w : c.World) → Answers (update x w).0)
      → (x : A) → Succeeds (write c update x)
  unfolding write
  Succeeds-write update h x r i = go (update x r.world).0 (update x r.world).1 (h x r.world)
    where
      go :
          (a : Reply (Unit {0})) (w : c.World)
          → Answers a
          → Post (λ _. Unit {0}) (λ _. ⊥) (or_return a (record r { world = w }))
      go (value a) w h' = tt
      go (error e) w h' = h'

  Succeeds-write_if_set :
      {A B : Type 0} (update : A → c.World → Reply (Unit {0}) × c.World) (restore : B → A → A)
      (o : Option B)
      → ((x : A) (w : c.World) → Answers (update x w).0)
      → (x : A) → Succeeds (write_if_set c update restore o x)
  unfolding write_if_set
  Succeeds-write_if_set update restore none h x r i = tt
  Succeeds-write_if_set update restore (some b) h x r i = Succeeds-write update h (restore b x) r i

  Succeeds-on_found :
      {A : Type 0} (body : A → M (Run c.World) (Unit {0}))
      → ((x : A) → Succeeds (body x))
      → (answer : Reply A) → Succeeds (on_found c body answer)
  unfolding on_found
  Succeeds-on_found body h (value x) r i = h x r i
  Succeeds-on_found body h (error e) r i = tt

  Succeeds-wake_app : (kind : String) (mw : ManagedWorkload) → Succeeds (wake_app c kind mw)
  unfolding wake_app
  Succeeds-wake_app kind mw r i =
      Succeeds-on_found (write_if_set c (c.update_app kind) restore_app mw.original_replicas)
        (Succeeds-write_if_set (c.update_app kind) restore_app mw.original_replicas
          (serves.app_update kind))
        _ _ tt

  Succeeds-wake_cron_job : (mw : ManagedWorkload) → Succeeds (wake_cron_job c mw)
  unfolding wake_cron_job
  Succeeds-wake_cron_job mw r i =
      Succeeds-on_found (write_if_set c c.update_cron_job restore_cron_job mw.original_suspend)
        (Succeeds-write_if_set c.update_cron_job restore_cron_job mw.original_suspend
          serves.cron_job_update)
        _ _ tt

  Succeeds-wake_cluster : (mw : ManagedWorkload) → Succeeds (wake_cluster c mw)
  unfolding wake_cluster
  Succeeds-wake_cluster mw r i =
      Succeeds-on_found _
        (λ x.
          Succeeds-write (c.update_resource cnpg_cluster_gvk)
            (serves.resource_update cnpg_cluster_gvk) (restore_cluster mw.original_hibernation x))
        _ _ tt

  Succeeds-wake_suspend_resource :
      (gvk : Gvk) (mw : ManagedWorkload) → Succeeds (wake_suspend_resource c gvk mw)
  unfolding wake_suspend_resource
  Succeeds-wake_suspend_resource gvk mw r i =
      Succeeds-on_found _
        (λ x.
          Succeeds-write (c.update_resource gvk) (serves.resource_update gvk)
            (restore_suspend mw.original_suspend x))
        _ _ tt

  Succeeds-wake_field_resource :
      (key : String) (gvk : Gvk) (mw : ManagedWorkload)
      → Succeeds (wake_field_resource c key gvk mw)
  unfolding wake_field_resource
  Succeeds-wake_field_resource key gvk mw r i =
      Succeeds-on_found
        (write_if_set c (c.update_resource gvk) (restore_field key) mw.original_replicas)
        (Succeeds-write_if_set (c.update_resource gvk) (restore_field key) mw.original_replicas
          (serves.resource_update gvk))
        _ _ tt

  Succeeds-write_if_restored : (o : Option Resource) → Succeeds (write_if_restored c o)
  unfolding write_if_restored
  Succeeds-write_if_restored none r i = tt
  Succeeds-write_if_restored (some x) r i =
      Succeeds-write (c.update_resource eck_elasticsearch_gvk)
        (serves.resource_update eck_elasticsearch_gvk) x r i

  Succeeds-restore_encoded : (o : Option String) (x : Resource) → Succeeds (restore_encoded c o x)
  unfolding restore_encoded
  Succeeds-restore_encoded none x r i = tt
  Succeeds-restore_encoded (some encoded) x r i =
      Succeeds-on_found (λ counts. write_if_restored c (restore_elasticsearch counts x))
        (λ counts. Succeeds-write_if_restored (restore_elasticsearch counts x))
        (c.unmarshal_counts encoded) r i

  Succeeds-wake_elasticsearch : (mw : ManagedWorkload) → Succeeds (wake_elasticsearch c mw)
  unfolding wake_elasticsearch
  Succeeds-wake_elasticsearch mw r i =
      Succeeds-on_found (restore_encoded c mw.original_node_set_counts)
        (Succeeds-restore_encoded mw.original_node_set_counts) _ _ tt

  Succeeds-wake_workload : (k : Kind) (mw : ManagedWorkload) → Succeeds (wake_workload c k mw)
  unfolding wake_workload
  Succeeds-wake_workload deployment mw r i = Succeeds-wake_app "Deployment" mw r i
  Succeeds-wake_workload stateful_set mw r i = Succeeds-wake_app "StatefulSet" mw r i
  Succeeds-wake_workload cron_job mw r i = Succeeds-wake_cron_job mw r i
  Succeeds-wake_workload cluster mw r i = Succeeds-wake_cluster mw r i
  Succeeds-wake_workload thanos_ruler mw r i = Succeeds-wake_field_resource "replicas" _ mw r i
  Succeeds-wake_workload alertmanager mw r i = Succeeds-wake_field_resource "replicas" _ mw r i
  Succeeds-wake_workload prometheus mw r i = Succeeds-wake_field_resource "replicas" _ mw r i
  Succeeds-wake_workload kibana mw r i = Succeeds-wake_field_resource "count" _ mw r i
  Succeeds-wake_workload elasticsearch mw r i = Succeeds-wake_elasticsearch mw r i
  Succeeds-wake_workload _ mw r i = tt

  Succeeds-wake_operator : (k : Kind) (mw : ManagedWorkload) → Succeeds (wake_operator c k mw)
  unfolding wake_operator
  Succeeds-wake_operator helm_release mw r i = Succeeds-wake_suspend_resource _ mw r i
  Succeeds-wake_operator kustomization mw r i = Succeeds-wake_suspend_resource _ mw r i
  Succeeds-wake_operator mariadb mw r i = Succeeds-wake_suspend_resource _ mw r i
  Succeeds-wake_operator max_scale mw r i = Succeeds-wake_suspend_resource _ mw r i
  Succeeds-wake_operator _ mw r i = tt

  pub Succeeds-wake_workloads : Succeeds (wake_workloads c)
  unfolding wake_workloads
  Succeeds-wake_workloads r i =
      Keeps-then (λ _. Unit {0}) (λ _. ⊥) _ _
        (Keeps-for_each (λ _. Unit {0}) (λ _. ⊥)
          (λ (mw : ManagedWorkload). wake_workload c (kind_case mw.kind) mw)
          r.schedule.status.managed_workloads (λ mw. Succeeds-wake_workload (kind_case mw.kind) mw))
        (Keeps-for_each (λ _. Unit {0}) (λ _. ⊥)
          (λ (mw : ManagedWorkload). wake_operator c (kind_case mw.kind) mw)
          r.schedule.status.managed_workloads (λ mw. Succeeds-wake_operator (kind_case mw.kind) mw))
        r tt
