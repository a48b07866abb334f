-- ===== src/Sleep/Stale.antt =====
-- Entries that an earlier wake left behind: `sleepWorkloads` takes every workload with an entry for
-- one that is already asleep.
use mathlib.Core.List.{Memᴰ}
use mathlib.Core.Path.{subst}
use mathlib.Core.List.Memᴰ.{head, tail}
use slumlord.Prelude.{
  ◌≡◌, ◌⊎◌, refl, sym, ap, ◌∙◌, true, List, [], ◌∷◌, String, contains, All, inl, inr, Bool-cases,
}
use slumlord.Action.{
  Reply, value, error, no_match, not_found, failed, Outcome, ok, err, panic, M, ◌>>◌, ◌>>=◌,
  or_return, for_each,
}
use slumlord.Action.Post.{Post, Keeps, Keeps-then}
use slumlord.Api.Workload.{Resource, Gvk}
use slumlord.Api.Schedule.{SleepSchedule}
use slumlord.Cluster.{Client, Run}
use slumlord.Kinds.{
  workload_key, list_gvk, should_manage_type, cnpg_cluster_gvk, flux_helm_release_gvk,
  flux_kustomization_gvk, mariadb_gvk, mariadb_max_scale_gvk, prom_thanos_ruler_gvk,
  prom_alertmanager_gvk, prom_prometheus_gvk, eck_elasticsearch_gvk, eck_kibana_gvk,
}
use slumlord.Change.{
  Decision, scale_down_app, suspend_cron_job, hibernate_cluster, suspend_resource, scale_down_field,
}
use slumlord.Sleep.{
  sleep_one, sleep_apps, sleep_cron_jobs, for_each_resource, sleep_resources,
  sleep_one_elasticsearch, sleep_elasticsearch, if_managed, sleep_operators, sleep_core,
  sleep_custom, sleep_workloads,
}
use slumlord.Sleep.Keys.{keys}
use slumlord.Sleep.Marked.{IsMarked, IsMarkedList, sleep_gvks, AllListed}

module _ (c : Client) (I : c.World → Type 0) (s : SleepSchedule) (marked : List String)
    (listed : AllListed c I s marked) where
  -- The schedule and the set `managed` are as at the start, and `I` holds of the world.
  abbrev Same : Run c.World → Type 0
  Same t = (t.schedule ≡ s) × (t.managed ≡ marked) × I t.world

  -- The step succeeds and keeps all that.
  abbrev Idle : M (Run c.World) (Unit {0}) → Type 0
  Idle = Keeps Same (λ _. ⊥)

  Idle-then : (m n : M (Run c.World) (Unit {0})) → Idle m → Idle n → Idle (m >> n)
  Idle-then = Keeps-then Same (λ _. ⊥)

  Idle-if_managed :
      (kind : String) (body : M (Run c.World) (Unit {0}))
      → (should_manage_type s kind ≡ true → Idle body)
      → Idle (if_managed c kind body)
  unfolding if_managed
  Idle-if_managed kind body h t i = elim (Bool-cases (should_manage_type t.schedule kind)) [
    | inl e ↦ rw e (h (ap (λ q. should_manage_type q kind) (sym i.0) ∙ e) t i)
    | inr e ↦ rw e i
  ]

  listed_at : (t : Run c.World) → Same t → AllListed c I t.schedule marked
  listed_at t i = subst (λ q. AllListed c I q marked) (sym i.0) listed

  managed_at :
      (kind : String) (t : Run c.World)
      → Same t
      → should_manage_type s kind ≡ true
      → should_manage_type t.schedule kind ≡ true
  managed_at kind t i e = ap (λ q. should_manage_type q kind) i.0 ∙ e

  marked_at :
      (key : String) (t : Run c.World)
      → Same t
      → contains key marked ≡ true
      → contains key t.managed ≡ true
  marked_at key t i e = ap (contains key) i.1 ∙ e

  Idle-for_each :
      {A : Type 0} (P : A → Type 0) (body : A → M (Run c.World) (Unit {0})) (items : List A)
      → ((x : A) → P x → Idle (body x))
      → All P items
      → Idle (for_each body items)
  unfolding for_each
  Idle-for_each P body [] h all t i = i
  Idle-for_each P body (x ∷ xs) h all t i =
      Idle-then (body x) (for_each body xs) (h x all.0) (Idle-for_each P body xs h all.1) t i

  Idle-sleep_one :
      {A : Type 0} (kind : String) (name : A → String) (decide : A → Decision A)
      (update : A → c.World → Reply (Unit {0}) × c.World) (x : A)
      → contains (workload_key kind (name x)) marked ≡ true
      → Idle (sleep_one c kind name decide update x)
  unfolding sleep_one
  Idle-sleep_one kind name decide update x e t i =
      rw (marked_at (workload_key kind (name x)) t i e) i

  -- The loop over the items, once they are listed.
  Idle-or_return :
      {A : Type 0} (kind : String) (name : A → String) (body : A → M (Run c.World) (Unit {0}))
      (answer : Reply (List A))
      → ((x : A) → contains (workload_key kind (name x)) marked ≡ true → Idle (body x))
      → IsMarkedList kind name marked answer
      → Idle (or_return answer >>= λ items. for_each body items)
  Idle-or_return kind name body (value items) h all t i = Idle-for_each _ body items h all t i
  Idle-or_return kind name body (error e) h all t i = all

  Idle-for_each_resource :
      (kind : String) (body : Resource → M (Run c.World) (Unit {0}))
      (answer : Reply (List Resource))
      → ((x : Resource) → contains (workload_key kind x.name) marked ≡ true → Idle (body x))
      → IsMarked kind (λ x. x.name) marked answer
      → Idle (for_each_resource c body answer)
  unfolding for_each_resource
  Idle-for_each_resource kind body (value items) h all t i = Idle-for_each _ body items h all t i
  Idle-for_each_resource kind body (error no_match) h all t i = i
  Idle-for_each_resource kind body (error not_found) h all t i = all
  Idle-for_each_resource kind body (error failed) h all t i = all

  Idle-sleep_apps :
      (kind : String)
      → (kind ≡ "Deployment") ⊎ (kind ≡ "StatefulSet")
      → should_manage_type s kind ≡ true
      → Idle (sleep_apps c kind)
  unfolding sleep_apps
  Idle-sleep_apps kind which managed t i =
      let (all, kept) = (listed_at t i).apps kind t.world which (managed_at kind t i managed) i.2 in
      let (answer, w) =
        c.list_apps kind t.schedule.namespace t.schedule.spec.selector.match_labels t.world in
      Idle-or_return kind (λ d. d.name)
        (sleep_one c kind (λ d. d.name) (scale_down_app kind) (c.update_app kind)) answer
        (Idle-sleep_one kind (λ d. d.name) (scale_down_app kind) (c.update_app kind)) all
        (record t { world = w }) (i.0, i.1, kept)

  Idle-sleep_cron_jobs : should_manage_type s "CronJob" ≡ true → Idle (sleep_cron_jobs c)
  unfolding sleep_cron_jobs
  Idle-sleep_cron_jobs managed t i =
      let (all, kept) = (listed_at t i).cron_jobs t.world (managed_at "CronJob" t i managed) i.2 in
      let (answer, w) =
        c.list_cron_jobs t.schedule.namespace t.schedule.spec.selector.match_labels t.world in
      Idle-or_return "CronJob" (λ cj. cj.name)
        (sleep_one c "CronJob" (λ cj. cj.name) suspend_cron_job c.update_cron_job) answer
        (Idle-sleep_one "CronJob" (λ cj. cj.name) suspend_cron_job c.update_cron_job) all
        (record t { world = w }) (i.0, i.1, kept)

  Idle-listed :
      (gvk : Gvk) (body : Resource → M (Run c.World) (Unit {0}))
      → Memᴰ gvk sleep_gvks
      → should_manage_type s gvk.kind ≡ true
      → ((x : Resource) → contains (workload_key gvk.kind x.name) marked ≡ true → Idle (body x))
      → (t : Run c.World) → Same t
      → let (answer, w) =
          c.list_resources
            (list_gvk gvk)
            t.schedule.namespace
            t.schedule.spec.selector.match_labels
            t.world in
        Post Same (λ _. ⊥) (for_each_resource c body answer (record t { world = w }))
  Idle-listed gvk body m managed h t i =
      let (all, kept) =
        (listed_at t i).resources gvk t.world m (managed_at gvk.kind t i managed) i.2 in
      let (answer, w) =
        c.list_resources (list_gvk gvk) t.schedule.namespace t.schedule.spec.selector.match_labels
          t.world in
      Idle-for_each_resource gvk.kind body answer h all (record t { world = w }) (i.0, i.1, kept)

  Idle-sleep_resources :
      (gvk : Gvk) (decide : Resource → Decision Resource)
      → Memᴰ gvk sleep_gvks
      → should_manage_type s gvk.kind ≡ true
      → Idle (sleep_resources c gvk gvk.kind decide)
  unfolding sleep_resources
  Idle-sleep_resources gvk decide m managed =
      Idle-listed gvk (sleep_one c gvk.kind (λ x. x.name) decide (c.update_resource gvk)) m managed
        (Idle-sleep_one gvk.kind (λ x. x.name) decide (c.update_resource gvk))

  Idle-sleep_one_elasticsearch :
      (x : Resource)
      → contains (workload_key "Elasticsearch" x.name) marked ≡ true
      → Idle (sleep_one_elasticsearch c x)
  unfolding sleep_one_elasticsearch
  Idle-sleep_one_elasticsearch x e t i =
      rw (marked_at (workload_key "Elasticsearch" x.name) t i e) i

  Idle-sleep_elasticsearch :
      should_manage_type s "Elasticsearch" ≡ true → Idle (sleep_elasticsearch c)
  unfolding sleep_elasticsearch
  Idle-sleep_elasticsearch managed =
      Idle-listed eck_elasticsearch_gvk (sleep_one_elasticsearch c)
        (tail (tail (tail (tail (tail (tail (tail (tail (tail (head refl)))))))))) managed
        Idle-sleep_one_elasticsearch

  Idle-resources :
      (gvk : Gvk) (decide : Resource → Decision Resource)
      → Memᴰ gvk sleep_gvks
      → Idle (if_managed c gvk.kind (sleep_resources c gvk gvk.kind decide))
  Idle-resources gvk decide m =
      Idle-if_managed gvk.kind (sleep_resources c gvk gvk.kind decide)
        (Idle-sleep_resources gvk decide m)

  Idle-sleep_operators : Idle (sleep_operators c)
  unfolding sleep_operators
  Idle-sleep_operators =
      Idle-then _ _
        (Idle-resources flux_helm_release_gvk (suspend_resource "HelmRelease") (head refl))
        (Idle-then _ _
          (Idle-resources flux_kustomization_gvk (suspend_resource "Kustomization")
            (tail (head refl)))
          (Idle-then _ _
            (Idle-resources mariadb_gvk (suspend_resource "MariaDB") (tail (tail (head refl))))
            (Idle-resources mariadb_max_scale_gvk (suspend_resource "MaxScale")
              (tail (tail (tail (head refl)))))))

  Idle-sleep_core : Idle (sleep_core c)
  unfolding sleep_core
  Idle-sleep_core =
      Idle-then _ _
        (Idle-if_managed "Deployment" (sleep_apps c "Deployment")
          (Idle-sleep_apps "Deployment" (inl refl)))
        (Idle-then _ _
          (Idle-if_managed "StatefulSet" (sleep_apps c "StatefulSet")
            (Idle-sleep_apps "StatefulSet" (inr refl)))
          (Idle-then _ _ (Idle-if_managed "CronJob" (sleep_cron_jobs c) Idle-sleep_cron_jobs) (
            Idle-resources cnpg_cluster_gvk hibernate_cluster
              (tail (tail (tail (tail (head refl))))))))

  Idle-sleep_custom : Idle (sleep_custom c)
  unfolding sleep_custom
  Idle-sleep_custom =
      Idle-then _ _
        (Idle-resources prom_thanos_ruler_gvk (scale_down_field "replicas" "ThanosRuler")
          (tail (tail (tail (tail (tail (head refl)))))))
        (Idle-then _ _
          (Idle-resources prom_alertmanager_gvk (scale_down_field "replicas" "Alertmanager")
            (tail (tail (tail (tail (tail (tail (head refl))))))))
          (Idle-then _ _
            (Idle-resources prom_prometheus_gvk (scale_down_field "replicas" "Prometheus")
              (tail (tail (tail (tail (tail (tail (tail (head refl)))))))))
            (Idle-then _ _
              (Idle-resources eck_kibana_gvk (scale_down_field "count" "Kibana")
                (tail (tail (tail (tail (tail (tail (tail (tail (head refl))))))))))
              (Idle-if_managed "Elasticsearch" (sleep_elasticsearch c) Idle-sleep_elasticsearch))))

  Idle-all : Idle (sleep_operators c >> (sleep_core c >> sleep_custom c))
  Idle-all = Idle-then _ _ Idle-sleep_operators (Idle-then _ _ Idle-sleep_core Idle-sleep_custom)

same_ending :
    {S : Type 0} (P : S → Type 0) (p : Outcome (Unit {0}) × S)
    → Post P (λ _. ⊥) p
    → (p.0 ≡ ok tt) × P p.1
same_ending P (ok tt, r) h = (refl, h)
same_ending P (err e, r) h = absurd h
same_ending P (panic, r) h = absurd h

-- Where the lists of the kinds that the schedule manages answer only with objects that have an entry
-- already, `sleepWorkloads` reports success and leaves the schedule as it is, and whatever of the
-- world these lists leave alone: nothing is scaled down or suspended, however many replicas the
-- objects have. A kind of custom resources may not be installed; a kind that the schedule does not
-- manage may answer anything.
pub sleep_workloads-AllListed :
    (c : Client) (I : c.World → Type 0) (r : Run c.World)
    → AllListed c I r.schedule (keys r.schedule)
    → I r.world
    → ((sleep_workloads c r).0 ≡ ok tt)
      × ((sleep_workloads c r).1.schedule ≡ r.schedule)
      × I (sleep_workloads c r).1.world
unfolding sleep_workloads
sleep_workloads-AllListed c I r listed i =
    let (done, same) = same_ending (Same c I r.schedule (keys r.schedule) listed) _ (
      Idle-all c I r.schedule (keys r.schedule) listed (record r { managed = keys r.schedule })
        (refl, refl, i)) in
    (done, same.0, same.2)
