-- ===== src/Policy.antt =====
-- The child schedules of internal/controller/autoschedulepolicy_controller.go: how the spec of a
-- generated SleepSchedule is built from a profile, compared with the stored one, and replaced.
pub mod Synced
pub mod Types
pub mod Client
pub mod Match
pub mod Removal
pub mod Handler
pub mod Watches
use slumlord.Prelude.{
  Bool, true, false, not, ◌&&◌, none, List, [], ◌∷◌, String, ◌==◌, eqb, length, lookup, differ,
  if◌then◌else◌,
}
use slumlord.Prelude.Int.{ℤ, eqb_ℤ}
use slumlord.Api.Schedule.{WorkloadSelector, SleepWindow, SleepScheduleSpec}
use slumlord.Change.{or_else}

pub record AutoScheduleProfile : Type 0 where
  pub selector : WorkloadSelector
  pub schedules : List SleepWindow
  pub suspend : Bool

-- The loops over the indices of the first list; the second is as long.
each_string_equal : List String → List String → Bool
each_string_equal (x ∷ xs) (y ∷ ys) = if not (x == y) then false else each_string_equal xs ys
each_string_equal _ _ = true

pub string_slice_equal : List String → List String → Bool
unfolding each_string_equal
string_slice_equal a b = if not (eqb (length a) (length b)) then false else each_string_equal a b

each_int_equal : List ℤ → List ℤ → Bool
each_int_equal (x ∷ xs) (y ∷ ys) = if not (eqb_ℤ x y) then false else each_int_equal xs ys
each_int_equal _ _ = true

pub int_slice_equal : List ℤ → List ℤ → Bool
unfolding each_int_equal
int_slice_equal a b = if not (eqb (length a) (length b)) then false else each_int_equal a b

pub sleep_window_equal : SleepWindow → SleepWindow → Bool
unfolding int_slice_equal
sleep_window_equal a b =
    if not (a.start == b.start && a.end == b.end && a.timezone == b.timezone)
    then false
    else int_slice_equal a.days b.days

-- `b[k] != v` for the pairs of `a`; a missing key reads as the empty text.
pub labels_within : List (String × String) → List (String × String) → Bool
labels_within [] b = true
labels_within ((k, v) ∷ a) b =
    if not (or_else (lookup k b) "" == v) then false else labels_within a b

pub workload_selector_equal : WorkloadSelector → WorkloadSelector → Bool
unfolding string_slice_equal labels_within
workload_selector_equal a b =
    if not (string_slice_equal a.types b.types)
    then false
    else if not (string_slice_equal a.match_names b.match_names)
    then false
    else if not (eqb (length a.match_labels) (length b.match_labels))
    then false
    else labels_within a.match_labels b.match_labels

each_window_equal : List SleepWindow → List SleepWindow → Bool
unfolding sleep_window_equal
each_window_equal (x ∷ xs) (y ∷ ys) =
    if not (sleep_window_equal x y) then false else each_window_equal xs ys
each_window_equal _ _ = true

pub sleep_spec_equal : SleepScheduleSpec → SleepScheduleSpec → Bool
unfolding workload_selector_equal each_window_equal
sleep_spec_equal a b =
    if differ a.suspend b.suspend
    then false
    else if not (workload_selector_equal a.selector b.selector)
    then false
    else if not (eqb (length a.schedules) (length b.schedules))
    then false
    else each_window_equal a.schedules b.schedules

pub build_sleep_schedule_spec : AutoScheduleProfile → SleepScheduleSpec
build_sleep_schedule_spec profile = record {
  suspend = profile.suspend;
  selector = profile.selector;
  schedule = none;
  schedules = profile.schedules;
  reconcile_interval = none;
}

-- The spec of an existing child after `Reconcile`: replaced where it differs.
pub synced_spec : SleepScheduleSpec → AutoScheduleProfile → SleepScheduleSpec
unfolding build_sleep_schedule_spec sleep_spec_equal
synced_spec existing profile =
    let desired = build_sleep_schedule_spec profile in
    if not (sleep_spec_equal existing desired) then desired else existing
