-- ===== src/Policy/Types.antt =====
-- api/v1alpha1/autoschedulepolicy_types.go, and what its controller reads of other objects.
use slumlord.Prelude.{ℕ, Bool, Option, List, String, ◌==◌, if◌then◌else◌}
use slumlord.Prelude.Int.{ℤ}
use slumlord.Cluster.{Labels}
use slumlord.Api.Schedule.{SleepScheduleSpec, Condition}
use slumlord.Policy.{AutoScheduleProfile}

abbrev pub default_profile_label : String
default_profile_label = "slumlord.io/sleep-profile"

abbrev pub default_generated_schedule_name : String
default_generated_schedule_name = "auto-sleep"

abbrev pub managed_by_label : String
managed_by_label = "slumlord.io/managed-by-policy"

abbrev pub auto_schedule_policy_finalizer : String
auto_schedule_policy_finalizer = "slumlord.io/auto-schedule-policy"

-- metav1.LabelSelector
pub record Requirement : Type 0 where
  pub key : String
  pub operator : String
  pub values : List String

pub record LabelSelector : Type 0 where
  pub match_labels : Labels
  pub match_expressions : List Requirement

pub record AutoSchedulePolicySpec : Type 0 where
  pub suspend : Bool
  pub namespace_selector : Option LabelSelector
  pub profile_label : String
  pub profiles : List (String × AutoScheduleProfile)
  pub generated_name : String
  pub reconcile_interval : Option ℤ

pub record NamespaceConflict : Type 0 where
  pub namespace : String
  pub reason : String
  pub with_policies : List String
  pub message : String

pub record MissingProfile : Type 0 where
  pub namespace : String
  pub profile : String

-- A condition whose time is set by the controller.
pub record StampedCondition : Type 0 where
  pub condition : Condition
  pub last_transition_time : ℕ

pub record AutoSchedulePolicyStatus : Type 0 where
  pub observed_generation : ℕ
  pub matched_namespaces : ℤ
  pub generated_schedules : ℤ
  pub conflicts : List NamespaceConflict
  pub missing_profiles : List MissingProfile
  pub conditions : List StampedCondition

-- `deleting` says that the deletion timestamp is set.
pub record AutoSchedulePolicy : Type 0 where
  pub name : String
  pub generation : ℕ
  pub deleting : Bool
  pub finalizers : List String
  pub spec : AutoSchedulePolicySpec
  pub status : AutoSchedulePolicyStatus

-- corev1.Namespace
pub record Namespace : Type 0 where
  pub name : String
  pub labels : Labels

-- A SlumlordSleepSchedule as this controller sees it.
pub record Child : Type 0 where
  pub namespace : String
  pub name : String
  pub labels : Labels
  pub spec : SleepScheduleSpec

unfoldable pub resolved_profile_label : AutoSchedulePolicy → String
resolved_profile_label p =
    if p.spec.profile_label == "" then default_profile_label else p.spec.profile_label

unfoldable pub resolved_generated_name : AutoSchedulePolicy → String
resolved_generated_name p =
    if p.spec.generated_name == "" then default_generated_schedule_name else p.spec.generated_name
