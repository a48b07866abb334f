-- ===== src/Samples/Policies.antt =====
-- The theorems on child schedules and on the bin packer at concrete inputs.
use slumlord.Prelude.{
  ◌≡◌, refl, ◌↔◌, ◌⊎◌, ◌||◌, true, false, some, [], ◌∷◌, String, ◌==◌, All, any_of,
}
use slumlord.Api.Schedule.{WorkloadSelector, SleepScheduleSpec}
use slumlord.Window.{should_be_sleeping_at_window}
use slumlord.Policy.{workload_selector_equal, sleep_spec_equal}
use slumlord.Policy.Synced.{labels_agree, sleep_spec_equal_iff, workload_selector_equal-empty_label}
use slumlord.Packer.{Taint, Toleration, is_in_consolidation_window, tolerates_taints}
use slumlord.Packer.Windows.{is_in_consolidation_window_lem}
use slumlord.Packer.Taints.{matches, tolerates_taints_iff}
use slumlord.Samples.{utc_only, late_evening, night_window, night_spec}

abbrev labelled : String → String → WorkloadSelector
labelled k v = record { match_labels = (k, v) ∷ []; match_names = []; types = "Deployment" ∷ [] }

abbrev stored : SleepScheduleSpec
stored = record night_spec { selector = labelled "tier" "web" }

abbrev other : SleepScheduleSpec
other = record night_spec { suspend = true }

sleep_spec_equal_iff_example : (sleep_spec_equal stored other ≡ true) ↔ (
    (false ≡ true)
    × (stored.selector.types ≡ other.selector.types)
    × (stored.selector.match_names ≡ [])
    × (labels_agree (("tier", "web") ∷ []) [] ≡ true)
    × (stored.schedules ≡ []))
sleep_spec_equal_iff_example = sleep_spec_equal_iff stored other

workload_selector_equal-empty_label_example :
    workload_selector_equal (labelled "canary" "") (labelled "tier" "web") ≡ true
workload_selector_equal-empty_label_example =
    workload_selector_equal-empty_label (labelled "canary" "") (labelled "tier" "web") "canary"
      "tier" "web" refl refl refl refl refl

is_in_consolidation_window_lem_example :
    is_in_consolidation_window utc_only (some night_window) late_evening
    ≡ should_be_sleeping_at_window utc_only night_window late_evening
is_in_consolidation_window_lem_example =
    is_in_consolidation_window_lem utc_only night_window late_evening

abbrev dedicated : Taint
dedicated = record { key = "dedicated"; value = "batch"; effect = "NoSchedule" }

abbrev batch : Toleration
batch = record { key = "dedicated"; operator = ""; value = "batch"; effect = "" }

tolerates_taints_iff_example :
    (tolerates_taints (batch ∷ []) (dedicated ∷ []) ≡ true)
    ↔ All
        (λ t.
          ((t.effect == "NoSchedule" || t.effect == "NoExecute") ≡ false)
          ⊎ (any_of (matches t) (batch ∷ []) ≡ true))
        (dedicated ∷ [])
tolerates_taints_iff_example = tolerates_taints_iff (batch ∷ []) (dedicated ∷ [])
