-- ===== src/Verify.antt =====
-- `verifyAndCorrectWorkloads` of internal/controller/sleepschedule_controller.go.
pub mod Frame
pub mod Served
use slumlord.Prelude.{
  Bool, true, false, ◌&&◌, ◌||◌, Option, none, some, List, [], ◌∷◌, String, ◌==◌, is_empty, any_of,
  if◌then◌else◌,
}
use slumlord.Action.{
  not_found, no_match, failed, Reply, value, error, M, pure, raise, ◌>>=◌, ◌>>◌, gets, or_return,
}
use slumlord.Api.Workload.{Resource, Gvk}
use slumlord.Api.Schedule.{ManagedWorkload}
use slumlord.Cluster.{Client, Run, call}
use slumlord.Kinds.{
  should_manage_type, list_gvk, cnpg_cluster_gvk, flux_helm_release_gvk, flux_kustomization_gvk,
  mariadb_gvk, mariadb_max_scale_gvk, prom_thanos_ruler_gvk, prom_alertmanager_gvk,
  prom_prometheus_gvk, eck_elasticsearch_gvk, eck_kibana_gvk,
}
use slumlord.Change.{
  app_desynced, cron_job_desynced, suspend_desynced, cluster_desynced, field_desynced,
  elasticsearch_desynced,
}
use slumlord.Wake.{wake_workloads}

-- `managedSet[workloadKey{kind, name}]`: of several entries with one key the last was stored.
pub find_managed : String → String → List ManagedWorkload → Option ManagedWorkload
find_managed kind name [] = none
find_managed kind name (mw ∷ rest) = elim (find_managed kind name rest) [
  | some later ↦ some later
  | none ↦ if mw.kind == kind && mw.name == name then some mw else none
]

-- Is the object managed, and still asleep by the test?
pub is_desynced :
    {A : Type 0}
    → String
    → (A → String)
    → (ManagedWorkload → A → Bool)
    → List ManagedWorkload
    → A
    → Bool
is_desynced kind name test managed x = elim (find_managed kind (name x) managed) [
  | none ↦ false
  | some mw ↦ test mw x
]

module _ (c : Client) where
  open c use {World, list_apps, list_cron_jobs, list_resources}

  abbrev Check : Type 0
  Check = M (Run World) Bool

  -- `if r.shouldManageType(schedule, kind) { ... }` round a check.
  pub check_if_managed : String → Check → Check
  check_if_managed kind check r =
      if should_manage_type r.schedule kind then check r else pure false r

  pub check_apps : String → Check
  check_apps kind = do
    s ← gets (λ (r : Run World). r.schedule)
    answer ← call (list_apps kind s.namespace s.spec.selector.match_labels)
    items ← or_return answer
    pure (any_of (is_desynced kind (λ d. d.name) app_desynced s.status.managed_workloads) items)

  pub check_cron_jobs : Check
  check_cron_jobs = do
    s ← gets (λ (r : Run World). r.schedule)
    answer ← call (list_cron_jobs s.namespace s.spec.selector.match_labels)
    items ← or_return answer
    pure (
        any_of (is_desynced "CronJob" (λ cj. cj.name) cron_job_desynced s.status.managed_workloads)
          items)

  -- A kind that is not installed is passed over.
  pub any_resource : (Resource → Bool) → Reply (List Resource) → Check
  any_resource test (value items) = pure (any_of test items)
  any_resource test (error no_match) = pure false
  any_resource test (error not_found) = raise not_found
  any_resource test (error failed) = raise failed

  pub check_resources : Gvk → String → (ManagedWorkload → Resource → Bool) → Check
  check_resources gvk kind test = do
    s ← gets (λ (r : Run World). r.schedule)
    answer ← call (list_resources (list_gvk gvk) s.namespace s.spec.selector.match_labels)
    any_resource (is_desynced kind (λ r. r.name) test s.status.managed_workloads) answer

  -- One check after another; `desynced` is set by any of them, and an error stops them.
  pub any_check : List Check → Check
  any_check [] = pure false
  any_check (check ∷ rest) = do found ← check; later ← any_check rest; pure (found || later)

  -- `r.shouldManageType` and the list of one kind of custom resources.
  pub check_kind : Gvk → String → (ManagedWorkload → Resource → Bool) → Check
  check_kind gvk kind test = check_if_managed kind (check_resources gvk kind test)

  -- The checks in their order.
  pub checks : List Check
  checks =
      check_if_managed "Deployment" (check_apps "Deployment")
      ∷ check_if_managed "StatefulSet" (check_apps "StatefulSet")
      ∷ check_if_managed "CronJob" check_cron_jobs
      ∷ check_kind flux_helm_release_gvk "HelmRelease" suspend_desynced
      ∷ check_kind flux_kustomization_gvk "Kustomization" suspend_desynced
      ∷ check_kind mariadb_gvk "MariaDB" suspend_desynced
      ∷ check_kind mariadb_max_scale_gvk "MaxScale" suspend_desynced
      ∷ check_kind cnpg_cluster_gvk "Cluster" cluster_desynced
      ∷ check_kind prom_thanos_ruler_gvk "ThanosRuler" (field_desynced "replicas")
      ∷ check_kind prom_alertmanager_gvk "Alertmanager" (field_desynced "replicas")
      ∷ check_kind prom_prometheus_gvk "Prometheus" (field_desynced "replicas")
      ∷ check_kind eck_kibana_gvk "Kibana" (field_desynced "count")
      ∷ check_kind eck_elasticsearch_gvk "Elasticsearch" elasticsearch_desynced
      ∷ []

  -- Whether any managed object is found asleep.
  pub find_desync : Check
  find_desync r =
      if is_empty r.schedule.status.managed_workloads then pure false r else any_check checks r

  -- The correction: a second run of `wakeWorkloads`.
  pub correct : Bool → Check
  correct true = wake_workloads c >> pure true
  correct false = pure false

  unfoldable pub verify_and_correct_workloads : Check
  unfolding find_managed is_desynced check_if_managed check_apps check_cron_jobs any_resource
      check_resources any_check check_kind checks find_desync correct
  verify_and_correct_workloads = do desynced ← find_desync; correct desynced
