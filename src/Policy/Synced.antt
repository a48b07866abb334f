-- ===== src/Policy/Synced.antt =====
-- What the comparison of specs sees, and the child's spec after it.
use slumlord.Prelude.{
  ◌≡◌, refl, ◌↔◌, ap, Bool, true, false, List, [], ◌∷◌, String, ◌==◌, eq_iff, eqb, length, arith,
  if◌then◌else◌, Bool-cases, inl, inr,
}
use slumlord.Prelude.Int.{ℤ, eqb_ℤ_iff}
use slumlord.Api.Schedule.{WorkloadSelector, SleepWindow, SleepScheduleSpec}
use slumlord.Policy.{
  AutoScheduleProfile, string_slice_equal, int_slice_equal, sleep_window_equal, labels_within,
  workload_selector_equal, each_window_equal, sleep_spec_equal, build_sleep_schedule_spec,
  synced_spec,
}

string_slice_equal_iff : (a b : List String) → (string_slice_equal a b ≡ true) ↔ (a ≡ b)
unfolding string_slice_equal
string_slice_equal_iff [] [] = ground arith
string_slice_equal_iff [] (y ∷ b) = ground arith
string_slice_equal_iff (x ∷ a) [] = ground arith
string_slice_equal_iff (x ∷ a) (y ∷ b) = ground (arith, eq_iff x y, string_slice_equal_iff a b)

int_slice_equal_iff : (a b : List ℤ) → (int_slice_equal a b ≡ true) ↔ (a ≡ b)
unfolding int_slice_equal
int_slice_equal_iff [] [] = ground arith
int_slice_equal_iff [] (y ∷ b) = ground arith
int_slice_equal_iff (x ∷ a) [] = ground arith
int_slice_equal_iff (x ∷ a) (y ∷ b) = ground (arith, eqb_ℤ_iff x y, int_slice_equal_iff a b)

sleep_window_equal_iff : (a b : SleepWindow) → (sleep_window_equal a b ≡ true) ↔ (a ≡ b)
unfolding sleep_window_equal
sleep_window_equal_iff a b = ground (
  arith,
  eq_iff a.start b.start,
  eq_iff a.end b.end,
  eq_iff a.timezone b.timezone,
  int_slice_equal_iff a.days b.days,
)

-- The loop over the windows, with the test of the lengths before it.
each_window_equal_iff :
    (a b : List SleepWindow) → length a ≡ length b → (each_window_equal a b ≡ true) ↔ (a ≡ b)
unfolding each_window_equal
each_window_equal_iff [] [] h = ground arith
each_window_equal_iff [] (y ∷ b) h = absurd (omega arith)
each_window_equal_iff (x ∷ a) [] h = absurd (omega arith)
each_window_equal_iff (x ∷ a) (y ∷ b) h =
    ground (arith, sleep_window_equal_iff x y, each_window_equal_iff a b (omega arith))

-- As many labels, and every label of `a` reads the same in `b`.
abbrev pub labels_agree : List (String × String) → List (String × String) → Bool
labels_agree a b = if eqb (length a) (length b) then labels_within a b else false

workload_selector_equal_lem :
    (a b : WorkloadSelector)
    → (workload_selector_equal a b ≡ true) ↔ (
        (a.types ≡ b.types)
        × (a.match_names ≡ b.match_names)
        × (labels_agree a.match_labels b.match_labels ≡ true))
unfolding workload_selector_equal
workload_selector_equal_lem a b = ground (
  arith,
  string_slice_equal_iff a.types b.types,
  string_slice_equal_iff a.match_names b.match_names,
)

-- Two specs compare as equal exactly if they agree on being suspended, on the selected types and
-- names, on the labels as they read, and on the list of windows. Neither the single window nor the
-- reconcile interval is compared.
pub sleep_spec_equal_iff :
    (a b : SleepScheduleSpec)
    → (sleep_spec_equal a b ≡ true) ↔ (
        (a.suspend ≡ b.suspend)
        × (a.selector.types ≡ b.selector.types)
        × (a.selector.match_names ≡ b.selector.match_names)
        × (labels_agree a.selector.match_labels b.selector.match_labels ≡ true)
        × (a.schedules ≡ b.schedules))
unfolding sleep_spec_equal
sleep_spec_equal_iff a b = elim (Bool-cases (eqb (length a.schedules) (length b.schedules))) [
  | inl e ↦ ground (
    arith,
    workload_selector_equal_lem a.selector b.selector,
    each_window_equal_iff a.schedules b.schedules (ground arith),
  )
  | inr e ↦ ground (arith, ap (λ (xs : List SleepWindow). length xs))
]

-- After the update, an existing child agrees with the profile on being suspended, on types, names
-- and windows.
pub synced_spec_lem :
    (existing : SleepScheduleSpec) (profile : AutoScheduleProfile)
    → let synced = synced_spec existing profile in
      (synced.suspend ≡ profile.suspend)
      × (synced.selector.types ≡ profile.selector.types)
      × (synced.selector.match_names ≡ profile.selector.match_names)
      × (synced.schedules ≡ profile.schedules)
unfolding synced_spec build_sleep_schedule_spec
synced_spec_lem existing profile =
    elim (Bool-cases (sleep_spec_equal existing (build_sleep_schedule_spec profile))) [
      | inl e ↦ ground (arith, sleep_spec_equal_iff existing (build_sleep_schedule_spec profile))
      | inr e ↦ ground arith
    ]

labels_agree_empty :
    (j k v : String) → (k == j) ≡ false → labels_agree ((j, "") ∷ []) ((k, v) ∷ []) ≡ true
unfolding labels_within
labels_agree_empty j k v ne = rw ne refl

-- A selector whose only label has the empty value compares as equal to any selector with one label
-- of another key, whatever that label's value, where types and names agree.
pub workload_selector_equal-empty_label :
    (a b : WorkloadSelector) (j k v : String)
    → (k == j) ≡ false
    → a.types ≡ b.types
    → a.match_names ≡ b.match_names
    → a.match_labels ≡ (j, "") ∷ []
    → b.match_labels ≡ (k, v) ∷ []
    → workload_selector_equal a b ≡ true
workload_selector_equal-empty_label a b j k v ne types names la lb =
    (workload_selector_equal_lem a b).1 (types, names, rw (la, lb) (labels_agree_empty j k v ne))
