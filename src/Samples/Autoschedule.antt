-- ===== src/Samples/Autoschedule.antt =====
-- The theorems on the handler of an auto-schedule policy at concrete inputs.
use slumlord.Prelude.{
  arith, ◌+◌, ◌≡◌, refl, Bool, true, false, none, some, List, [], ◌∷◌, String, length, contains,
  any_of, ◌==◌, ◌&&◌, not, if◌then◌else◌,
}
use slumlord.Prelude.Int.{ℤ, pos, to_int32}
use slumlord.Action.{Outcome, ok, err, panic, value}
use slumlord.Policy.Types.{
  AutoSchedulePolicy, Namespace, Child, managed_by_label, resolved_profile_label,
  resolved_generated_name, auto_schedule_policy_finalizer,
}
use slumlord.Policy.Client.{PolicyClient, PolicyRun, Tally, no_tally}
use slumlord.Policy.Match.{other_policies, overlapping_policies, matching_names}
use slumlord.Policy.Handler.{settle_namespaces, reconcile_children, reconcile}
use slumlord.Policy.Handler.Store.{Children, is_labelled}
use slumlord.Policy.Handler.Overlap.{matches_namespace, contains-overlapping_policies}
use slumlord.Policy.Handler.Partition.{times, settle_namespaces_partition}
use slumlord.Policy.Handler.Refined.{IsReconciled, reconcile_children_refines}
use slumlord.Policy.Handler.Final.{reconcile-deleting}
use slumlord.Samples.{night_window, night_spec}
use slumlord.Samples.Children.{find, remove, labelled, find_policy, has_keys, server, server-Store}

-- Every night, for the namespaces with the profile "office".
abbrev office : AutoSchedulePolicy
office = record {
  name = "office-hours";
  generation = 1;
  deleting = false;
  finalizers = auto_schedule_policy_finalizer ∷ [];
  spec = record {
    suspend = false;
    namespace_selector = none;
    profile_label = "";
    profiles =
        (
          "office",
          record { selector = night_spec.selector; schedules = night_window ∷ []; suspend = false },
        )
        ∷ [];
    generated_name = "";
    reconcile_interval = none;
  };
  status = record {
    observed_generation = 0;
    matched_namespaces = pos 0;
    generated_schedules = pos 0;
    conflicts = [];
    missing_profiles = [];
    conditions = [];
  };
}

abbrev in_profile : String → String → Namespace
in_profile name profile = record {
  name = name;
  labels = ("slumlord.io/sleep-profile", profile) ∷ [];
}

abbrev namespaces : List Namespace
namespaces =
    in_profile "shop" "office"
    ∷ in_profile "lab" "weekend"
    ∷ in_profile "bank" "office"
    ∷ record { name = "default"; labels = [] }
    ∷ []

-- One that the policy made and that no namespace asks for any more, and one made by hand.
abbrev children : List Child
children =
    record {
      namespace = "old";
      name = "auto-sleep";
      labels = (managed_by_label, "office-hours") ∷ [];
      spec = night_spec;
    }
    ∷ record { namespace = "bank"; name = "auto-sleep"; labels = []; spec = night_spec }
    ∷ []

abbrev office_run : PolicyRun (List Child)
office_run = record { policy = office; world = children }

-- Another policy, for every namespace with the profile "weekend".
abbrev labs : AutoSchedulePolicy
labs = record office {
  name = "labs";
  spec = record office.spec {
    namespace_selector = some (record {
      match_labels = ("slumlord.io/sleep-profile", "weekend") ∷ [];
      match_expressions = [];
    });
  };
}

abbrev cluster : PolicyClient
cluster = server (office ∷ labs ∷ []) namespaces

abbrev is_ok : {A S : Type 0} → Outcome A × S → Bool
is_ok (ok a, r) = true
is_ok (err e, r) = false
is_ok (panic, r) = false

abbrev value_or : {A S : Type 0} → A → Outcome A × S → A
value_or d (ok a, r) = a
value_or d (err e, r) = d
value_or d (panic, r) = d

ok_lem : {A S : Type 0} (d : A) (p : Outcome A × S) → is_ok p ≡ true → p ≡ (ok (value_or d p), p.1)
ok_lem d (ok t, r) h = refl
ok_lem d (err e, r) h = ground arith
ok_lem d (panic, r) h = ground arith

contains-overlapping_policies_example :
    contains "labs" (
      overlapping_policies cluster
        (other_policies "office-hours" (office ∷ labs ∷ []))
        (in_profile "lab" "weekend"))
    ≡ any_of
        (λ q.
          q.name == "labs"
          && (not (q.name == "office-hours")
              && (not q.deleting && matches_namespace cluster q (in_profile "lab" "weekend"))))
        (office ∷ labs ∷ [])
contains-overlapping_policies_example =
    contains-overlapping_policies cluster "labs" "office-hours" (in_profile "lab" "weekend")
      (office ∷ labs ∷ [])

abbrev loop_result : Outcome Tally × PolicyRun (List Child)
loop_result = settle_namespaces (pos 0) cluster office (labs ∷ []) namespaces no_tally office_run

loop_ends_well : is_ok loop_result ≡ true
unfolding reconcile resolved_profile_label resolved_generated_name matching_names has_keys find
loop_ends_well = refl

settle_namespaces_partition_example :
    ((a : String)
      → times (λ x. x.namespace) a (value_or no_tally loop_result).conflicts
          + times (λ x. x.namespace) a (value_or no_tally loop_result).missing
          + times (λ x. x) a (value_or no_tally loop_result).desired
        ≡ times (λ ns. ns.name) a namespaces)
    × ((value_or no_tally loop_result).generated
        ≡ to_int32 (pos (length (value_or no_tally loop_result).desired)))
settle_namespaces_partition_example =
    settle_namespaces_partition (pos 0) cluster office (labs ∷ []) namespaces office_run
      loop_result.1 (value_or no_tally loop_result) (ok_lem no_tally loop_result loop_ends_well)

abbrev pass : Outcome ℤ × PolicyRun (List Child)
pass = reconcile_children (pos 0) cluster office_run

pass_ends_well : is_ok pass ≡ true
unfolding reconcile resolved_profile_label resolved_generated_name matching_names has_keys find
    remove labelled
pass_ends_well = refl

reconcile_children_refines_example :
    IsReconciled
      (pos 0)
      cluster
      (server-Store (office ∷ labs ∷ []) namespaces)
      office
      children
      pass.1.world
reconcile_children_refines_example =
    reconcile_children_refines (pos 0) cluster (server-Store (office ∷ labs ∷ []) namespaces)
      office_run pass.1 (value_or (pos 0) pass) (ok_lem (pos 0) pass pass_ends_well)

abbrev leaving : AutoSchedulePolicy
leaving = record office { deleting = true }

abbrev farewell : PolicyClient
farewell = server (leaving ∷ []) namespaces

abbrev seen : List Child → Children
seen = (server-Store (leaving ∷ []) namespaces).view

farewell_result :
    reconcile (pos 0) farewell "office-hours" children
    ≡ (ok (pos 0), (reconcile (pos 0) farewell "office-hours" children).1)
unfolding reconcile resolved_generated_name find_policy find remove labelled
farewell_result = refl

farewell_found : farewell.get_policy "office-hours" children ≡ (value leaving, children)
unfolding find_policy
farewell_found = refl

reconcile-deleting_example :
    (pos 0 ≡ pos 0)
    × ((a b : String)
        → seen (reconcile (pos 0) farewell "office-hours" children).1 a b
          ≡ (if is_labelled "office-hours" (seen children a b) then none else seen children a b))
reconcile-deleting_example =
    reconcile-deleting (pos 0) farewell (server-Store (leaving ∷ []) namespaces) "office-hours"
      children children (reconcile (pos 0) farewell "office-hours" children).1 leaving (pos 0)
      farewell_found refl refl farewell_result
