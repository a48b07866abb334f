-- ===== src/Verify/Frame.antt =====
-- `verifyAndCorrectWorkloads` leaves the schedule as it is.
use slumlord.Prelude.{
  ◌≡◌, refl, Bool, true, false, ◌||◌, All, any_of, List, [], ◌∷◌, String, is_empty, inl, inr,
  Bool-cases,
}
use slumlord.Action.{
  Reply, value, error, no_match, not_found, failed, M, pure, continue_with, ◌>>=◌, or_return,
}
use slumlord.Action.Post.{Post_same, Keeps, Keeps-bind, Keeps-then}
use slumlord.Api.Workload.{Resource, Gvk}
use slumlord.Api.Schedule.{ManagedWorkload, SleepSchedule}
use slumlord.Cluster.{Client, Run}
use slumlord.Kinds.{
  should_manage_type, list_gvk, cnpg_cluster_gvk, flux_helm_release_gvk, flux_kustomization_gvk,
  mariadb_gvk, mariadb_max_scale_gvk, prom_thanos_ruler_gvk, prom_alertmanager_gvk,
  prom_prometheus_gvk, eck_elasticsearch_gvk, eck_kibana_gvk,
}
use slumlord.Change.{
  app_desynced, cron_job_desynced, suspend_desynced, cluster_desynced, field_desynced,
  elasticsearch_desynced,
}
use slumlord.Wake.{wake_workloads}
use slumlord.Wake.Frame.{Leaves-wake_workloads}
use slumlord.Verify.{
  is_desynced, check_if_managed, check_apps, check_cron_jobs, any_resource, check_resources,
  any_check, check_kind, checks, find_desync, correct, verify_and_correct_workloads,
}

module _ (c : Client) (s : SleepSchedule) where
  abbrev Same : Run c.World → Type 0
  Same r = r.schedule ≡ s

  abbrev Reads : M (Run c.World) Bool → Type 0
  Reads = Keeps Same Same

  Reads-answered :
      {A : Type 0} (answer : Reply (List A)) (test : A → Bool)
      → Reads (λ r. continue_with (or_return answer r) (λ items. pure (any_of test items)))
  Reads-answered (value items) test r i = i
  Reads-answered (error e) test r i = i

  Reads-check_if_managed :
      (kind : String) (check : M (Run c.World) Bool)
      → Reads check
      → Reads (check_if_managed c kind check)
  unfolding check_if_managed
  Reads-check_if_managed kind check h r i = elim (Bool-cases (should_manage_type r.schedule kind)) [
    | inl e ↦ rw e (h r i)
    | inr e ↦ rw e i
  ]

  Reads-check_apps : (kind : String) → Reads (check_apps c kind)
  unfolding check_apps
  Reads-check_apps kind r i =
      let (answer, w) =
        c.list_apps kind r.schedule.namespace r.schedule.spec.selector.match_labels r.world in
      Reads-answered answer
        (is_desynced kind (λ d. d.name) app_desynced r.schedule.status.managed_workloads)
        (record r { world = w }) i

  Reads-check_cron_jobs : Reads (check_cron_jobs c)
  unfolding check_cron_jobs
  Reads-check_cron_jobs r i =
      let (answer, w) =
        c.list_cron_jobs r.schedule.namespace r.schedule.spec.selector.match_labels r.world in
      Reads-answered answer
        (is_desynced "CronJob" (λ cj. cj.name) cron_job_desynced
          r.schedule.status.managed_workloads)
        (record r { world = w }) i

  Reads-any_resource :
      (test : Resource → Bool) (answer : Reply (List Resource)) → Reads (any_resource c test answer)
  unfolding any_resource
  Reads-any_resource test (value items) r i = i
  Reads-any_resource test (error no_match) r i = i
  Reads-any_resource test (error not_found) r i = i
  Reads-any_resource test (error failed) r i = i

  Reads-check_kind :
      (gvk : Gvk) (kind : String) (test : ManagedWorkload → Resource → Bool)
      → Reads (check_kind c gvk kind test)
  unfolding check_kind check_resources
  Reads-check_kind gvk kind test =
      Reads-check_if_managed kind (check_resources c gvk kind test) (λ r i.
        let (answer, w) =
          c.list_resources (list_gvk gvk) r.schedule.namespace r.schedule.spec.selector.match_labels
            r.world in
        Reads-any_resource (is_desynced kind (λ x. x.name) test r.schedule.status.managed_workloads)
          answer (record r { world = w }) i)

  Reads-any_check : (all : List (M (Run c.World) Bool)) → All Reads all → Reads (any_check c all)
  unfolding any_check
  Reads-any_check [] h r i = i
  Reads-any_check (check ∷ rest) h r i =
      Keeps-bind Same Same check (λ found. any_check c rest >>= λ later. pure (found || later)) h.0
        (λ found.
          Keeps-bind Same Same (any_check c rest) (λ later. pure (found || later))
            (Reads-any_check rest h.1) (λ later t j. j))
        r i

  All-checks : All Reads (checks c)
  unfolding checks
  All-checks = (
    Reads-check_if_managed "Deployment" (check_apps c "Deployment") (Reads-check_apps "Deployment"),
    (
      Reads-check_if_managed "StatefulSet" (check_apps c "StatefulSet")
          (Reads-check_apps "StatefulSet"),
      (
        Reads-check_if_managed "CronJob" (check_cron_jobs c) Reads-check_cron_jobs,
        (
          Reads-check_kind flux_helm_release_gvk "HelmRelease" suspend_desynced,
          (
            Reads-check_kind flux_kustomization_gvk "Kustomization" suspend_desynced,
            (
              Reads-check_kind mariadb_gvk "MariaDB" suspend_desynced,
              (
                Reads-check_kind mariadb_max_scale_gvk "MaxScale" suspend_desynced,
                (
                  Reads-check_kind cnpg_cluster_gvk "Cluster" cluster_desynced,
                  (
                    Reads-check_kind prom_thanos_ruler_gvk "ThanosRuler"
                        (field_desynced "replicas"),
                    (
                      Reads-check_kind prom_alertmanager_gvk "Alertmanager"
                          (field_desynced "replicas"),
                      (
                        Reads-check_kind prom_prometheus_gvk "Prometheus"
                            (field_desynced "replicas"),
                        (
                          Reads-check_kind eck_kibana_gvk "Kibana" (field_desynced "count"),
                          (
                            Reads-check_kind eck_elasticsearch_gvk "Elasticsearch"
                                elasticsearch_desynced,
                            tt,
                          ),
                        ),
                      ),
                    ),
                  ),
                ),
              ),
            ),
          ),
        ),
      ),
    ),
  )

  Reads-find_desync : Reads (find_desync c)
  unfolding find_desync
  Reads-find_desync r i = elim (Bool-cases (is_empty r.schedule.status.managed_workloads)) [
    | inl e ↦ rw e i
    | inr e ↦ rw e (Reads-any_check (checks c) All-checks r i)
  ]

  Reads-correct : (b : Bool) → Reads (correct c b)
  unfolding correct
  Reads-correct true r i =
      Keeps-then Same Same (wake_workloads c) (pure true) (Leaves-wake_workloads c s) (λ t j. j) r i
  Reads-correct false r i = i

  pub Reads-verify_and_correct_workloads : Reads (verify_and_correct_workloads c)
  unfolding verify_and_correct_workloads
  Reads-verify_and_correct_workloads =
      Keeps-bind Same Same (find_desync c) (correct c) Reads-find_desync Reads-correct

-- However it ends, `verifyAndCorrectWorkloads` leaves the schedule in memory as it was.
pub schedule-verify_and_correct_workloads :
    (c : Client) (r : Run c.World) → (verify_and_correct_workloads c r).1.schedule ≡ r.schedule
schedule-verify_and_correct_workloads c r =
    Post_same (Same c r.schedule) (verify_and_correct_workloads c r)
      (Reads-verify_and_correct_workloads c r.schedule r refl)
