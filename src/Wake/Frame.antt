-- ===== src/Wake/Frame.antt =====
-- `wakeWorkloads` reads the schedule and leaves it as it is: the entries are kept for verification.
use slumlord.Prelude.{◌≡◌, refl, Option, none, some, String}
use slumlord.Action.{Reply, value, error, M}
use slumlord.Action.Post.{Post_same, Keeps, Keeps-then, Keeps-for_each, Keeps-or_return}
use slumlord.Api.Workload.{Resource, Gvk}
use slumlord.Api.Schedule.{ManagedWorkload, SleepSchedule}
use slumlord.Cluster.{Client, Run}
use slumlord.Kinds.{
  Kind, deployment, stateful_set, cron_job, cluster, helm_release, kustomization, mariadb,
  max_scale, thanos_ruler, alertmanager, prometheus, kibana, elasticsearch, kind_case,
}
use slumlord.Change.{restore_elasticsearch}
use slumlord.Wake.{
  write, write_if_set, on_found, wake_app, wake_cron_job, wake_cluster, wake_suspend_resource,
  wake_field_resource, write_if_restored, restore_encoded, wake_elasticsearch, wake_workload,
  wake_operator, wake_workloads,
}

module _ (c : Client) (s : SleepSchedule) where
  abbrev Same : Run c.World → Type 0
  Same r = r.schedule ≡ s

  abbrev Leaves : M (Run c.World) (Unit {0}) → Type 0
  Leaves = Keeps Same Same

  Leaves-write :
      {A : Type 0} (update : A → c.World → Reply (Unit {0}) × c.World) (x : A)
      → Leaves (write c update x)
  unfolding write
  Leaves-write update x r i =
      Keeps-or_return Same Same (λ t j. j) (update x r.world).0
        (record r { world = (update x r.world).1 }) i

  Leaves-write_if_set :
      {A B : Type 0} (update : A → c.World → Reply (Unit {0}) × c.World) (restore : B → A → A)
      (o : Option B) (x : A)
      → Leaves (write_if_set c update restore o x)
  unfolding write_if_set
  Leaves-write_if_set update restore none x r i = i
  Leaves-write_if_set update restore (some b) x r i = Leaves-write update (restore b x) r i

  Leaves-on_found :
      {A : Type 0} (body : A → M (Run c.World) (Unit {0}))
      → ((x : A) → Leaves (body x))
      → (answer : Reply A) → Leaves (on_found c body answer)
  unfolding on_found
  Leaves-on_found body h (value x) r i = h x r i
  Leaves-on_found body h (error e) r i = i

  Leaves-write_if_restored : (o : Option Resource) → Leaves (write_if_restored c o)
  unfolding write_if_restored
  Leaves-write_if_restored none r i = i
  Leaves-write_if_restored (some x) r i = Leaves-write _ x r i

  Leaves-restore_encoded : (o : Option String) (x : Resource) → Leaves (restore_encoded c o x)
  unfolding restore_encoded
  Leaves-restore_encoded none x r i = i
  Leaves-restore_encoded (some encoded) x r i =
      Leaves-on_found (λ counts. write_if_restored c (restore_elasticsearch counts x))
        (λ counts. Leaves-write_if_restored (restore_elasticsearch counts x))
        (c.unmarshal_counts encoded) r i

  Leaves-wake_suspend_resource :
      (gvk : Gvk) (mw : ManagedWorkload) → Leaves (wake_suspend_resource c gvk mw)
  unfolding wake_suspend_resource
  Leaves-wake_suspend_resource gvk mw r i =
      Leaves-on_found _ (λ x. Leaves-write (c.update_resource gvk) _) _ _ i

  Leaves-wake_field_resource :
      (key : String) (gvk : Gvk) (mw : ManagedWorkload) → Leaves (wake_field_resource c key gvk mw)
  unfolding wake_field_resource
  Leaves-wake_field_resource key gvk mw r i =
      Leaves-on_found _ (λ x. Leaves-write_if_set (c.update_resource gvk) _ _ x) _ _ i

  Leaves-wake_app : (kind : String) (mw : ManagedWorkload) → Leaves (wake_app c kind mw)
  unfolding wake_app
  Leaves-wake_app kind mw r i =
      Leaves-on_found _ (λ x. Leaves-write_if_set (c.update_app kind) _ _ x) _ _ i

  Leaves-wake_cron_job : (mw : ManagedWorkload) → Leaves (wake_cron_job c mw)
  unfolding wake_cron_job
  Leaves-wake_cron_job mw r i =
      Leaves-on_found _ (λ x. Leaves-write_if_set c.update_cron_job _ _ x) _ _ i

  Leaves-wake_cluster : (mw : ManagedWorkload) → Leaves (wake_cluster c mw)
  unfolding wake_cluster
  Leaves-wake_cluster mw r i = Leaves-on_found _ (λ x. Leaves-write _ _) _ _ i

  Leaves-wake_elasticsearch : (mw : ManagedWorkload) → Leaves (wake_elasticsearch c mw)
  unfolding wake_elasticsearch
  Leaves-wake_elasticsearch mw r i =
      Leaves-on_found _ (Leaves-restore_encoded mw.original_node_set_counts) _ _ i

  Leaves-wake_workload : (k : Kind) (mw : ManagedWorkload) → Leaves (wake_workload c k mw)
  unfolding wake_workload
  Leaves-wake_workload deployment mw r i = Leaves-wake_app "Deployment" mw r i
  Leaves-wake_workload stateful_set mw r i = Leaves-wake_app "StatefulSet" mw r i
  Leaves-wake_workload cron_job mw r i = Leaves-wake_cron_job mw r i
  Leaves-wake_workload cluster mw r i = Leaves-wake_cluster mw r i
  Leaves-wake_workload thanos_ruler mw r i = Leaves-wake_field_resource "replicas" _ mw r i
  Leaves-wake_workload alertmanager mw r i = Leaves-wake_field_resource "replicas" _ mw r i
  Leaves-wake_workload prometheus mw r i = Leaves-wake_field_resource "replicas" _ mw r i
  Leaves-wake_workload kibana mw r i = Leaves-wake_field_resource "count" _ mw r i
  Leaves-wake_workload elasticsearch mw r i = Leaves-wake_elasticsearch mw r i
  Leaves-wake_workload _ mw r i = i

  Leaves-wake_operator : (k : Kind) (mw : ManagedWorkload) → Leaves (wake_operator c k mw)
  unfolding wake_operator
  Leaves-wake_operator helm_release mw r i = Leaves-wake_suspend_resource _ mw r i
  Leaves-wake_operator kustomization mw r i = Leaves-wake_suspend_resource _ mw r i
  Leaves-wake_operator mariadb mw r i = Leaves-wake_suspend_resource _ mw r i
  Leaves-wake_operator max_scale mw r i = Leaves-wake_suspend_resource _ mw r i
  Leaves-wake_operator _ mw r i = i

  pub Leaves-wake_workloads : Leaves (wake_workloads c)
  unfolding wake_workloads
  Leaves-wake_workloads r i =
      Keeps-then Same Same _ _
        (Keeps-for_each Same Same (λ mw. wake_workload c (kind_case mw.kind) mw) _
          (λ mw. Leaves-wake_workload (kind_case mw.kind) mw))
        (Keeps-for_each Same Same (λ mw. wake_operator c (kind_case mw.kind) mw) _
          (λ mw. Leaves-wake_operator (kind_case mw.kind) mw))
        r i

-- However it ends, `wakeWorkloads` leaves the schedule in memory, with its entries, as it was.
pub schedule-wake_workloads :
    (c : Client) (r : Run c.World) → (wake_workloads c r).1.schedule ≡ r.schedule
schedule-wake_workloads c r =
    Post_same (Same c r.schedule) (wake_workloads c r) (Leaves-wake_workloads c r.schedule r refl)
