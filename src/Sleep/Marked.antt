-- ===== src/Sleep/Marked.antt =====
-- A server that lists only objects with an entry, for the kinds that `sleepWorkloads` of
-- internal/controller/sleepschedule_controller.go lists.
use mathlib.Core.List.{Memᴰ}
use slumlord.Prelude.{◌≡◌, ◌⊎◌, true, List, [], ◌∷◌, String, contains, All}
use slumlord.Action.{Reply, value, error, no_match}
use slumlord.Api.Workload.{Gvk}
use slumlord.Api.Schedule.{SleepSchedule}
use slumlord.Cluster.{Client}
use slumlord.Kinds.{
  workload_key, list_gvk, should_manage_type, cnpg_cluster_gvk, flux_helm_release_gvk,
  flux_kustomization_gvk, mariadb_gvk, mariadb_max_scale_gvk, prom_thanos_ruler_gvk,
  prom_alertmanager_gvk, prom_prometheus_gvk, eck_elasticsearch_gvk, eck_kibana_gvk,
}

-- The answer lists only objects with a key among `marked`, or says that the kind is not installed.
abbrev pub IsMarked : {A : Type 0} → String → (A → String) → List String → Reply (List A) → Type 0
IsMarked kind name marked (value items) =
    All (λ x. contains (workload_key kind (name x)) marked ≡ true) items
IsMarked kind name marked (error no_match) = Unit {0}
IsMarked kind name marked (error e) = ⊥

-- The same for kinds that are always installed.
abbrev pub IsMarkedList :
    {A : Type 0} → String → (A → String) → List String → Reply (List A) → Type 0
IsMarkedList kind name marked (value items) = IsMarked kind name marked (value items)
IsMarkedList kind name marked (error e) = ⊥

-- The custom resources that `sleepWorkloads` lists.
abbrev pub sleep_gvks : List Gvk
sleep_gvks =
    flux_helm_release_gvk ∷ flux_kustomization_gvk ∷ mariadb_gvk ∷ mariadb_max_scale_gvk
    ∷ cnpg_cluster_gvk ∷ prom_thanos_ruler_gvk ∷ prom_alertmanager_gvk ∷ prom_prometheus_gvk
    ∷ eck_kibana_gvk ∷ eck_elasticsearch_gvk ∷ []

-- While `I` holds of the world, the lists of the kinds that the schedule manages answer, with nothing
-- but objects whose key is among `marked`; a kind of custom resources may not be installed. Listing
-- leaves `I` alone.
pub record AllListed (c : Client) (I : c.World → Type 0) (s : SleepSchedule) (marked : List String)
    : Type 0 where
  pub apps :
      (kind : String) (w : c.World)
      → (kind ≡ "Deployment") ⊎ (kind ≡ "StatefulSet")
      → should_manage_type s kind ≡ true
      → I w
      → let (answer, w') = c.list_apps kind s.namespace s.spec.selector.match_labels w in
        IsMarkedList kind (λ d. d.name) marked answer × I w'
  pub cron_jobs :
      (w : c.World)
      → should_manage_type s "CronJob" ≡ true
      → I w
      → let (answer, w') = c.list_cron_jobs s.namespace s.spec.selector.match_labels w in
        IsMarkedList "CronJob" (λ cj. cj.name) marked answer × I w'
  pub resources :
      (gvk : Gvk) (w : c.World)
      → Memᴰ gvk sleep_gvks
      → should_manage_type s gvk.kind ≡ true
      → I w
      → let (answer, w') =
          c.list_resources (list_gvk gvk) s.namespace s.spec.selector.match_labels w in
        IsMarked gvk.kind (λ x. x.name) marked answer × I w'
