-- ===== src/Verify/Served.antt =====
-- `verifyAndCorrectWorkloads` with a server that carries out lists and updates.
use slumlord.Prelude.{
  Bool, true, false, ◌||◌, String, List, [], ◌∷◌, any_of, All, is_empty, Bool-cases, inl, inr,
}
use slumlord.Action.{Reply, value, error, not_found, no_match, failed, M, pure, ◌>>=◌}
use slumlord.Action.Post.{Keeps-bind}
use slumlord.Api.Workload.{App, CronJob, Resource, Gvk}
use slumlord.Api.Schedule.{ManagedWorkload}
use slumlord.Cluster.{Client, Run, Serves, Lists}
use slumlord.Kinds.{list_gvk, should_manage_type}
use slumlord.Change.{app_desynced, cron_job_desynced}
use slumlord.Sleep.Served.{Succeeds, Succeeds-of_answer}
use slumlord.Wake.{wake_workloads}
use slumlord.Wake.Served.{Succeeds-wake_workloads}
use slumlord.Verify.{
  is_desynced, check_if_managed, check_apps, check_cron_jobs, any_resource, check_resources,
  any_check, check_kind, checks, find_desync, correct, verify_and_correct_workloads,
}

module _ (c : Client) (serves : Serves c) where
  Succeeds-check_if_managed :
      (kind : String) (check : M (Run c.World) Bool)
      → Succeeds check
      → Succeeds (check_if_managed c kind check)
  unfolding check_if_managed
  Succeeds-check_if_managed kind check h r i =
      elim (Bool-cases (should_manage_type r.schedule kind)) [
        | inl e ↦ rw e (h r i)
        | inr e ↦ rw e tt
      ]

  Succeeds-check_apps : (kind : String) → Succeeds (check_apps c kind)
  unfolding check_apps
  Succeeds-check_apps kind r i =
      Succeeds-of_answer
        (c.list_apps kind r.schedule.namespace r.schedule.spec.selector.match_labels)
        (λ items. pure (
          any_of
            (is_desynced kind (λ (d : App). d.name) app_desynced
              r.schedule.status.managed_workloads)
            items))
        (serves.apps kind r.schedule.namespace r.schedule.spec.selector.match_labels)
        (λ items t j. tt) r i

  Succeeds-check_cron_jobs : Succeeds (check_cron_jobs c)
  unfolding check_cron_jobs
  Succeeds-check_cron_jobs r i =
      Succeeds-of_answer
        (c.list_cron_jobs r.schedule.namespace r.schedule.spec.selector.match_labels)
        (λ items. pure (
          any_of
            (is_desynced "CronJob" (λ (d : CronJob). d.name) cron_job_desynced
              r.schedule.status.managed_workloads)
            items))
        (serves.cron_jobs r.schedule.namespace r.schedule.spec.selector.match_labels)
        (λ items t j. tt) r i

  Succeeds-any_resource :
      (test : Resource → Bool) (answer : Reply (List Resource))
      → Lists answer
      → Succeeds (any_resource c test answer)
  unfolding any_resource
  Succeeds-any_resource test (value items) l r i = tt
  Succeeds-any_resource test (error no_match) l r i = tt
  Succeeds-any_resource test (error not_found) l r i = l
  Succeeds-any_resource test (error failed) l r i = l

  Succeeds-check_kind :
      (gvk : Gvk) (kind : String) (test : ManagedWorkload → Resource → Bool)
      → Succeeds (check_kind c gvk kind test)
  unfolding check_kind check_resources
  Succeeds-check_kind gvk kind test =
      Succeeds-check_if_managed kind (check_resources c gvk kind test) (λ r i.
        let ns = r.schedule.namespace in
        let labels = r.schedule.spec.selector.match_labels in
        let (answer, w) = c.list_resources (list_gvk gvk) ns labels r.world in
        Succeeds-any_resource
          (is_desynced kind (λ x. x.name) test r.schedule.status.managed_workloads) answer
          (serves.resources (list_gvk gvk) ns labels r.world) (record r { world = w }) tt)

  Succeeds-any_check :
      (all : List (M (Run c.World) Bool))
      → All (λ check. Succeeds check) all
      → Succeeds (any_check c all)
  unfolding any_check
  Succeeds-any_check [] h r i = tt
  Succeeds-any_check (check ∷ rest) h r i =
      Keeps-bind (λ _. Unit {0}) (λ _. ⊥) check
        (λ found. any_check c rest >>= λ later. pure (found || later)) h.0
        (λ found.
          Keeps-bind (λ _. Unit {0}) (λ _. ⊥) (any_check c rest) (λ later. pure (found || later))
            (Succeeds-any_check rest h.1) (λ later t j. j))
        r i

  All-checks : All (λ check. Succeeds check) (checks c)
  unfolding checks
  All-checks = (
    Succeeds-check_if_managed "Deployment" (check_apps c "Deployment")
        (Succeeds-check_apps "Deployment"),
    (
      Succeeds-check_if_managed "StatefulSet" (check_apps c "StatefulSet")
          (Succeeds-check_apps "StatefulSet"),
      (
        Succeeds-check_if_managed "CronJob" (check_cron_jobs c) Succeeds-check_cron_jobs,
        (
          Succeeds-check_kind _ _ _,
          (
            Succeeds-check_kind _ _ _,
            (
              Succeeds-check_kind _ _ _,
              (
                Succeeds-check_kind _ _ _,
                (
                  Succeeds-check_kind _ _ _,
                  (
                    Succeeds-check_kind _ _ _,
                    (
                      Succeeds-check_kind _ _ _,
                      (
                        Succeeds-check_kind _ _ _,
                        (Succeeds-check_kind _ _ _, (Succeeds-check_kind _ _ _, tt)),
                      ),
                    ),
                  ),
                ),
              ),
            ),
          ),
        ),
      ),
    ),
  )

  Succeeds-find_desync : Succeeds (find_desync c)
  unfolding find_desync
  Succeeds-find_desync r i = elim (Bool-cases (is_empty r.schedule.status.managed_workloads)) [
    | inl e ↦ rw e tt
    | inr e ↦ rw e (Succeeds-any_check (checks c) All-checks r i)
  ]

  Succeeds-correct : (b : Bool) → Succeeds (correct c b)
  unfolding correct
  Succeeds-correct true r i =
      Keeps-bind (λ _. Unit {0}) (λ _. ⊥) (wake_workloads c) (λ _. pure true)
        (Succeeds-wake_workloads c serves) (λ u t j. tt) r i
  Succeeds-correct false r i = tt

  pub Succeeds-verify_and_correct_workloads : Succeeds (verify_and_correct_workloads c)
  unfolding verify_and_correct_workloads
  Succeeds-verify_and_correct_workloads r i =
      Keeps-bind (λ _. Unit {0}) (λ _. ⊥) (find_desync c) (correct c) Succeeds-find_desync
        Succeeds-correct r i
