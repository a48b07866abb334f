-- ===== src/Sleep/Served.antt =====
-- `sleepWorkloads` with a server that carries out every request.
use slumlord.Prelude.{◌≡◌, refl, Option, none, some, String, List}
use slumlord.Prelude.Int.{ℤ}
use slumlord.Action.{
  Reply, value, error, not_found, no_match, failed, Outcome, ok, err, panic, M, ◌>>=◌, ◌>>◌,
  or_return,
}
use slumlord.Action.Post.{Post, Keeps, Keeps-then, Keeps-when, Keeps-for_each}
use slumlord.Api.Workload.{Resource, Gvk}
use slumlord.Api.Schedule.{ManagedWorkload}
use slumlord.Cluster.{Client, Run, Serves, Answers, Lists, call}
use slumlord.Kinds.{
  should_manage_type, cnpg_cluster_gvk, flux_helm_release_gvk, flux_kustomization_gvk, mariadb_gvk,
  mariadb_max_scale_gvk, prom_thanos_ruler_gvk, prom_alertmanager_gvk, prom_prometheus_gvk,
  eck_elasticsearch_gvk, eck_kibana_gvk, list_gvk,
}
use slumlord.Change.{Decision, scale_down_app, suspend_cron_job, scale_down_elasticsearch}
use slumlord.Sleep.{
  persist_status, record_managed, write_decided, sleep_one, sleep_apps, sleep_cron_jobs,
  for_each_resource, sleep_resources, record_encoded, write_elasticsearch, sleep_one_elasticsearch,
  sleep_elasticsearch, if_managed, sleep_operators, sleep_core, sleep_custom, sleep_workloads,
}

module _ {W : Type 0} where
  -- The step ends without an error and without a panic, from every state.
  abbrev pub Succeeds : {A : Type 0} → M (Run W) A → Type 0
  Succeeds = Keeps (λ _. Unit {0}) (λ _. ⊥)

  pub Succeeds-of_answer :
      {A B : Type 0} (op : W → Reply A × W) (f : A → M (Run W) B)
      → ((w : W) → Answers (op w).0)
      → ((a : A) → Succeeds (f a))
      → Succeeds (call op >>= λ answer. or_return answer >>= f)
  Succeeds-of_answer op f h k r i = go (op r.world).0 (op r.world).1 (h r.world)
    where
      go :
          (a : _) (w : W)
          → Answers a
          → Post (λ _. Unit {0}) (λ _. ⊥) ((or_return a >>= f) (record r { world = w }))
      go (value a) w h' = k a (record r { world = w }) tt
      go (error e) w h' = h'

module _ (c : Client) (serves : Serves c) where
  pub Succeeds-persist_status : Succeeds (persist_status c)
  unfolding persist_status
  Succeeds-persist_status r i =
      Succeeds-of_answer (c.update_status r.schedule) _ (serves.status_update r.schedule)
        (λ s' t j. tt) r i

  Succeeds-record_managed : (mw : ManagedWorkload) → Succeeds (record_managed c mw)
  unfolding record_managed
  Succeeds-record_managed mw r i =
      Keeps-then (λ _. Unit {0}) (λ _. ⊥) (persist_status c) _ Succeeds-persist_status (λ t j. tt) _
        tt

  Succeeds-write_decided :
      {A : Type 0} (update : A → c.World → Reply (Unit {0}) × c.World) (d : Decision A)
      → ((x : A) (w : c.World) → Answers (update x w).0)
      → Succeeds (write_decided c update d)
  unfolding write_decided
  Succeeds-write_decided update none h r i = tt
  Succeeds-write_decided update (some (x, mw)) h r i =
      Succeeds-of_answer (update x) _ (h x) (λ u. Succeeds-record_managed mw) r i

  Succeeds-sleep_one :
      {A : Type 0} (kind : String) (name : A → String) (decide : A → Decision A)
      (update : A → c.World → Reply (Unit {0}) × c.World)
      → ((x : A) (w : c.World) → Answers (update x w).0)
      → (x : A) → Succeeds (sleep_one c kind name decide update x)
  unfolding sleep_one
  Succeeds-sleep_one kind name decide update h x r i =
      Keeps-when (λ _. Unit {0}) (λ _. ⊥) _ _ (Succeeds-write_decided update (decide x) h) r i

  Succeeds-sleep_apps : (kind : String) → Succeeds (sleep_apps c kind)
  unfolding sleep_apps
  Succeeds-sleep_apps kind r i =
      Succeeds-of_answer
        (c.list_apps kind r.schedule.namespace r.schedule.spec.selector.match_labels) _
        (serves.apps kind r.schedule.namespace r.schedule.spec.selector.match_labels)
        (λ items.
          Keeps-for_each (λ _. Unit {0}) (λ _. ⊥) _ items
            (Succeeds-sleep_one kind (λ d. d.name) (scale_down_app kind) (c.update_app kind)
              (serves.app_update kind)))
        r i

  Succeeds-sleep_cron_jobs : Succeeds (sleep_cron_jobs c)
  unfolding sleep_cron_jobs
  Succeeds-sleep_cron_jobs r i =
      Succeeds-of_answer
        (c.list_cron_jobs r.schedule.namespace r.schedule.spec.selector.match_labels) _
        (serves.cron_jobs r.schedule.namespace r.schedule.spec.selector.match_labels)
        (λ items.
          Keeps-for_each (λ _. Unit {0}) (λ _. ⊥) _ items
            (Succeeds-sleep_one "CronJob" (λ cj. cj.name) suspend_cron_job c.update_cron_job
              serves.cron_job_update))
        r i

  Succeeds-for_each_resource :
      (body : Resource → M (Run c.World) (Unit {0})) (answer : Reply (List Resource))
      → ((x : Resource) → Succeeds (body x))
      → Lists answer
      → Succeeds (for_each_resource c body answer)
  unfolding for_each_resource
  Succeeds-for_each_resource body (value items) h l r i =
      Keeps-for_each (λ _. Unit {0}) (λ _. ⊥) body items h r i
  Succeeds-for_each_resource body (error no_match) h l r i = tt
  Succeeds-for_each_resource body (error not_found) h l r i = l
  Succeeds-for_each_resource body (error failed) h l r i = l

  Succeeds-sleep_resources :
      (gvk : Gvk) (kind : String) (decide : Resource → Decision Resource)
      → Succeeds (sleep_resources c gvk kind decide)
  unfolding sleep_resources
  Succeeds-sleep_resources gvk kind decide r i =
      let ns = r.schedule.namespace in
      let labels = r.schedule.spec.selector.match_labels in
      let (answer, w) = c.list_resources (list_gvk gvk) ns labels r.world in
      Succeeds-for_each_resource (sleep_one c kind (λ x. x.name) decide (c.update_resource gvk))
        answer
        (Succeeds-sleep_one kind (λ x. x.name) decide (c.update_resource gvk)
          (serves.resource_update gvk))
        (serves.resources (list_gvk gvk) ns labels r.world) (record r { world = w }) tt

  Succeeds-record_encoded :
      (name : String) (answer : Reply String)
      → Answers answer
      → Succeeds (record_encoded c name answer)
  unfolding record_encoded
  Succeeds-record_encoded name (value encoded) h r i = Succeeds-record_managed _ r i
  Succeeds-record_encoded name (error e) h r i = h

  Succeeds-write_elasticsearch :
      (d : Option (Resource × List (String × ℤ))) → Succeeds (write_elasticsearch c d)
  unfolding write_elasticsearch
  Succeeds-write_elasticsearch none r i = tt
  Succeeds-write_elasticsearch (some (x, counts)) r i =
      Succeeds-of_answer (c.update_resource eck_elasticsearch_gvk x) _
        (serves.resource_update eck_elasticsearch_gvk x)
        (λ u. Succeeds-record_encoded x.name (c.marshal_counts counts) (serves.encoding counts)) r i

  Succeeds-sleep_one_elasticsearch : (x : Resource) → Succeeds (sleep_one_elasticsearch c x)
  unfolding sleep_one_elasticsearch
  Succeeds-sleep_one_elasticsearch x r i =
      Keeps-when (λ _. Unit {0}) (λ _. ⊥) _ _
        (Succeeds-write_elasticsearch (scale_down_elasticsearch x)) r i

  Succeeds-sleep_elasticsearch : Succeeds (sleep_elasticsearch c)
  unfolding sleep_elasticsearch
  Succeeds-sleep_elasticsearch r i =
      let ns = r.schedule.namespace in
      let labels = r.schedule.spec.selector.match_labels in
      let (answer, w) = c.list_resources (list_gvk eck_elasticsearch_gvk) ns labels r.world in
      Succeeds-for_each_resource (sleep_one_elasticsearch c) answer Succeeds-sleep_one_elasticsearch
        (serves.resources (list_gvk eck_elasticsearch_gvk) ns labels r.world)
        (record r { world = w }) tt

  Succeeds-if_managed :
      (kind : String) (body : M (Run c.World) (Unit {0}))
      → Succeeds body
      → Succeeds (if_managed c kind body)
  unfolding if_managed
  Succeeds-if_managed kind body h r i =
      Keeps-when (λ _. Unit {0}) (λ _. ⊥) (should_manage_type r.schedule kind) body h r i

  Succeeds-then : (m n : M (Run c.World) (Unit {0})) → Succeeds m → Succeeds n → Succeeds (m >> n)
  Succeeds-then m n h k = Keeps-then (λ _. Unit {0}) (λ _. ⊥) m n h k

  Succeeds-kind :
      (gvk : Gvk) (kind : String) (decide : Resource → Decision Resource)
      → Succeeds (if_managed c kind (sleep_resources c gvk kind decide))
  Succeeds-kind gvk kind decide =
      Succeeds-if_managed kind _ (Succeeds-sleep_resources gvk kind decide)

  Succeeds-sleep_operators : Succeeds (sleep_operators c)
  unfolding sleep_operators
  Succeeds-sleep_operators =
      Succeeds-then _ _ (Succeeds-kind flux_helm_release_gvk "HelmRelease" _) (
        Succeeds-then _ _ (Succeeds-kind flux_kustomization_gvk "Kustomization" _) (
          Succeeds-then _ _ (Succeeds-kind mariadb_gvk "MariaDB" _)
            (Succeeds-kind mariadb_max_scale_gvk "MaxScale" _)))

  Succeeds-sleep_core : Succeeds (sleep_core c)
  unfolding sleep_core
  Succeeds-sleep_core =
      Succeeds-then _ _ (Succeeds-if_managed "Deployment" _ (Succeeds-sleep_apps "Deployment")) (
        Succeeds-then _ _ (Succeeds-if_managed "StatefulSet" _ (Succeeds-sleep_apps "StatefulSet"))
          (Succeeds-then _ _ (Succeeds-if_managed "CronJob" _ Succeeds-sleep_cron_jobs)
            (Succeeds-kind cnpg_cluster_gvk "Cluster" _)))

  Succeeds-sleep_custom : Succeeds (sleep_custom c)
  unfolding sleep_custom
  Succeeds-sleep_custom = Succeeds-then _ _ (Succeeds-kind prom_thanos_ruler_gvk "ThanosRuler" _) (
      Succeeds-then _ _ (Succeeds-kind prom_alertmanager_gvk "Alertmanager" _) (
        Succeeds-then _ _ (Succeeds-kind prom_prometheus_gvk "Prometheus" _) (
          Succeeds-then _ _ (Succeeds-kind eck_kibana_gvk "Kibana" _)
            (Succeeds-if_managed "Elasticsearch" _ Succeeds-sleep_elasticsearch))))

  pub Succeeds-sleep_workloads : Succeeds (sleep_workloads c)
  unfolding sleep_workloads
  Succeeds-sleep_workloads r i =
      Succeeds-then _ _ Succeeds-sleep_operators
        (Succeeds-then _ _ Succeeds-sleep_core Succeeds-sleep_custom) _ tt

-- A step that succeeds ends well.
pub ok_of_Succeeds :
    {S : Type 0} (p : Outcome (Unit {0}) × S) → Post (λ _. Unit {0}) (λ _. ⊥) p → p.0 ≡ ok tt
ok_of_Succeeds (ok tt, r) h = refl
ok_of_Succeeds (err e, r) h = absurd h
ok_of_Succeeds (panic, r) h = absurd h

-- With a server that carries out lists, updates and encodings, a kind of custom resources that is
-- not installed excepted, `sleepWorkloads` ends without an error from every state.
pub sleep_workloads-ok : (c : Client) (r : Run c.World) → Serves c → (sleep_workloads c r).0 ≡ ok tt
sleep_workloads-ok c r serves =
    ok_of_Succeeds (sleep_workloads c r) (Succeeds-sleep_workloads c serves r tt)
