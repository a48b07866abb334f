-- ===== src/Sleep/Entries.antt =====
-- The journal of `sleepWorkloads` as a whole: whatever the API server answers, and wherever the run
-- stops, earlier entries stay and no workload is entered twice.
use slumlord.Prelude.{
  ◌≡◌, refl, sym, inl, inr, false, Option, none, some, List, [], String, contains, Bool-cases,
}
use mathlib.Core.List.{append-nil}
use slumlord.Prelude.Int.{ℤ}
use slumlord.Action.{Reply, value, error, M, ◌>>◌, Outcome, ok, err, panic, answer_cases}
use slumlord.Action.Post.{Post, Keeps, Keeps-then}
use slumlord.Api.Workload.{Resource, Gvk}
use slumlord.Api.Schedule.{SleepSchedule}
use slumlord.Cluster.{Client, RestatesUpdates, Run}
use slumlord.Kinds.{
  workload_key, cnpg_cluster_gvk, flux_helm_release_gvk, flux_kustomization_gvk, mariadb_gvk,
  mariadb_max_scale_gvk, prom_thanos_ruler_gvk, prom_alertmanager_gvk, prom_prometheus_gvk,
  eck_elasticsearch_gvk, eck_kibana_gvk,
}
use slumlord.Change.{
  no_original, scale_down_elasticsearch, suspend_resource, hibernate_cluster, scale_down_field,
}
use slumlord.Change.Names.{
  hibernate_cluster_names, suspend_resource_names, scale_down_field_names,
  scale_down_elasticsearch_name,
}
use slumlord.Sleep.{
  record_encoded, sleep_resources, write_elasticsearch, sleep_one_elasticsearch,
  sleep_elasticsearch, if_managed, sleep_operators, sleep_core, sleep_custom, sleep_workloads,
}
use slumlord.Sleep.Keys.{Marked-self, keys, Distinct, IsJournal}
use slumlord.Sleep.Journal.{
  Between, Broken, Between-record_managed, Keeps-if_managed, Keeps-for_each_resource, key_of_named,
  Keeps-sleep_apps, Keeps-sleep_cron_jobs, Keeps-sleep_resources,
}

module _ (c : Client) (restates : RestatesUpdates c) (base : SleepSchedule) where
  abbrev Safe : M (Run c.World) (Unit {0}) → Type 0
  Safe = Keeps (Between c restates base) (Broken c restates base)

  Between-record_encoded :
      (name : String) (answer : Reply String) (r : Run c.World)
      → contains (workload_key "Elasticsearch" name) r.managed ≡ false
      → Between c restates base r
      → Post (Between c restates base) (Broken c restates base) (record_encoded c name answer r)
  unfolding record_encoded
  Between-record_encoded name (value encoded) r fresh i =
      let mw = record (no_original "Elasticsearch" name) {
        original_node_set_counts = some encoded;
      } in
      Between-record_managed c restates base mw r
        (rw (key_of_named c restates base mw "Elasticsearch" name (refl, refl)) fresh) i
  Between-record_encoded name (error e) r fresh i = i.0

  Between-write_elasticsearch :
      (d : Option (Resource × List (String × ℤ))) (name : String)
      → ((x : Resource) (counts : List (String × ℤ)) → d ≡ some (x, counts) → x.name ≡ name)
      → (r : Run c.World) → contains (workload_key "Elasticsearch" name) r.managed ≡ false
      → Between c restates base r
      → Post (Between c restates base) (Broken c restates base) (write_elasticsearch c d r)
  unfolding write_elasticsearch
  Between-write_elasticsearch none name named r fresh i = i
  Between-write_elasticsearch (some (x, counts)) name named r fresh i =
      elim (answer_cases (c.update_resource eck_elasticsearch_gvk x r.world)) [
        | inl (u, w, e) ↦ rw e (
            Between-record_encoded x.name (c.marshal_counts counts) (record r { world = w })
              (rw (named x counts refl) fresh) i)
        | inr (err', w, e) ↦ rw e i.0
      ]

  Safe-sleep_one_elasticsearch : (x : Resource) → Safe (sleep_one_elasticsearch c x)
  unfolding sleep_one_elasticsearch
  Safe-sleep_one_elasticsearch x r i =
      elim (Bool-cases (contains (workload_key "Elasticsearch" x.name) r.managed)) [
        | inl old ↦ rw old i
        | inr fresh ↦ rw fresh (
            Between-write_elasticsearch (scale_down_elasticsearch x) x.name
              (λ x' counts e. scale_down_elasticsearch_name x x' counts e) r fresh i)
      ]

  Safe-sleep_elasticsearch : Safe (sleep_elasticsearch c)
  unfolding sleep_elasticsearch
  Safe-sleep_elasticsearch r =
      Keeps-for_each_resource c restates base (sleep_one_elasticsearch c)
        Safe-sleep_one_elasticsearch _ _

  Safe-then : (m n : M (Run c.World) (Unit {0})) → Safe m → Safe n → Safe (m >> n)
  Safe-then m n h k = Keeps-then (Between c restates base) (Broken c restates base) m n h k

  Safe-if_managed :
      (kind : String) (body : M (Run c.World) (Unit {0}))
      → Safe body
      → Safe (if_managed c kind body)
  Safe-if_managed kind body h = Keeps-if_managed c restates base kind body h

  Safe-suspend :
      (gvk : Gvk) (kind : String)
      → Safe (if_managed c kind (sleep_resources c gvk kind (suspend_resource kind)))
  Safe-suspend gvk kind = Safe-if_managed kind _ (
      Keeps-sleep_resources c restates base gvk kind (suspend_resource kind)
        (suspend_resource_names kind))

  Safe-scale :
      (gvk : Gvk) (key kind : String)
      → Safe (if_managed c kind (sleep_resources c gvk kind (scale_down_field key kind)))
  Safe-scale gvk key kind = Safe-if_managed kind _ (
      Keeps-sleep_resources c restates base gvk kind (scale_down_field key kind)
        (scale_down_field_names key kind))

  Safe-sleep_operators : Safe (sleep_operators c)
  unfolding sleep_operators
  Safe-sleep_operators = Safe-then _ _ (Safe-suspend flux_helm_release_gvk "HelmRelease") (
      Safe-then _ _ (Safe-suspend flux_kustomization_gvk "Kustomization") (
        Safe-then _ _ (Safe-suspend mariadb_gvk "MariaDB")
          (Safe-suspend mariadb_max_scale_gvk "MaxScale")))

  Safe-sleep_core : Safe (sleep_core c)
  unfolding sleep_core
  Safe-sleep_core =
      Safe-then _ _ (Safe-if_managed "Deployment" _ (Keeps-sleep_apps c restates base "Deployment"))
        (Safe-then _ _
          (Safe-if_managed "StatefulSet" _ (Keeps-sleep_apps c restates base "StatefulSet"))
          (Safe-then _ _ (Safe-if_managed "CronJob" _ (Keeps-sleep_cron_jobs c restates base)) (
            Safe-if_managed "Cluster" _ (
              Keeps-sleep_resources c restates base cnpg_cluster_gvk "Cluster" hibernate_cluster
                hibernate_cluster_names))))

  Safe-sleep_custom : Safe (sleep_custom c)
  unfolding sleep_custom
  Safe-sleep_custom = Safe-then _ _ (Safe-scale prom_thanos_ruler_gvk "replicas" "ThanosRuler") (
      Safe-then _ _ (Safe-scale prom_alertmanager_gvk "replicas" "Alertmanager") (
        Safe-then _ _ (Safe-scale prom_prometheus_gvk "replicas" "Prometheus") (
          Safe-then _ _ (Safe-scale eck_kibana_gvk "count" "Kibana")
            (Safe-if_managed "Elasticsearch" _ Safe-sleep_elasticsearch))))

  Broken-of_Post :
      (p : Outcome (Unit {0}) × Run c.World)
      → Post (Between c restates base) (Broken c restates base) p
      → IsJournal base p.1.schedule
  Broken-of_Post (ok x, r) h = h.0
  Broken-of_Post (err e, r) h = h
  Broken-of_Post (panic, r) h = h

-- Where no workload is entered twice to begin with, then after `sleepWorkloads`, be it complete or
-- stopped by an error of any call, the schedule in memory has the earlier entries unchanged and in
-- their order, new ones after them, no workload entered twice, and the spec and the sleep state that
-- it had. The API server may answer anything, but an answer to a status update restates it.
pub sleep_workloads-IsJournal :
    (c : Client) (r : Run c.World)
    → RestatesUpdates c
    → Distinct (keys r.schedule)
    → IsJournal r.schedule (sleep_workloads c r).1.schedule
unfolding sleep_workloads
sleep_workloads-IsJournal c r restates distinct =
    let begin : IsJournal r.schedule r.schedule = record {
      later = [];
      entries = sym (append-nil r.schedule.status.managed_workloads);
      distinct = distinct;
      spec = refl;
      sleeping = refl;
    } in
    Broken-of_Post c restates r.schedule _ (
      Safe-then c restates r.schedule _ _ (Safe-sleep_operators c restates r.schedule)
        (Safe-then c restates r.schedule _ _ (Safe-sleep_core c restates r.schedule)
          (Safe-sleep_custom c restates r.schedule))
        (record r { managed = keys r.schedule }) (begin, Marked-self (keys r.schedule)))
