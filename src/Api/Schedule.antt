-- ===== src/Api/Schedule.antt =====
-- api/v1alpha1/sleepschedule_types.go. Durations are nanoseconds, times are nanoseconds after a
-- fixed instant that lies before all times in use.
use slumlord.Prelude.{ℕ, Bool, Option, none, some, List, [], ◌∷◌, ◌++◌, String}
use slumlord.Prelude.Int.{ℤ}

pub record WorkloadSelector : Type 0 where
  pub match_labels : List (String × String)
  pub match_names : List String
  pub types : List String

pub record SleepWindow : Type 0 where
  pub start : String
  pub end : String
  pub timezone : String
  pub days : List ℤ

pub record SleepScheduleSpec : Type 0 where
  pub suspend : Bool
  pub selector : WorkloadSelector
  pub schedule : Option SleepWindow
  pub schedules : List SleepWindow
  pub reconcile_interval : Option ℤ

pub record ManagedWorkload : Type 0 where
  pub kind : String
  pub name : String
  pub original_replicas : Option ℤ
  pub original_suspend : Option Bool
  pub original_hibernation : Option String
  pub original_node_set_counts : Option String

-- metav1.Condition, as far as the controller fills it in.
pub record Condition : Type 0 where
  pub condition_type : String
  pub status : String
  pub observed_generation : ℕ
  pub reason : String
  pub message : String

pub record SleepScheduleStatus : Type 0 where
  pub sleeping : Bool
  pub days_display : String
  pub managed_workloads : List ManagedWorkload
  pub last_transition_time : Option ℕ
  pub conditions : List Condition

pub record SleepSchedule : Type 0 where
  pub namespace : String
  pub name : String
  pub generation : ℕ
  pub spec : SleepScheduleSpec
  pub status : SleepScheduleStatus

-- `windows = append(windows, *s.Schedule)` where the field is set.
single_window : Option SleepWindow → List SleepWindow
single_window none = []
single_window (some w) = w ∷ []

unfoldable pub get_windows : SleepScheduleSpec → List SleepWindow
unfolding single_window
get_windows s = single_window s.schedule ++ s.schedules
