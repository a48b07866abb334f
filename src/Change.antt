-- ===== src/Change.antt =====
-- What internal/controller/sleepschedule_controller.go does to one object: the bodies of the loops
-- of `sleepWorkloads` and `wakeWorkloads`, and the tests of `verifyAndCorrectWorkloads`, without
-- the calls of the API server around them.
pub mod Names
pub mod Restore
pub mod NodeSets
pub mod Desync
use slumlord.Prelude.{
  Bool, true, false, not, ◌&&◌, ◌||◌, Option, none, some, List, [], String, ◌==◌, lookup, insert,
  delete, if◌then◌else◌,
}
use slumlord.Prelude.Int.{ℤ, pos, ltb_ℤ, eqb_ℤ, to_int32}
use slumlord.Api.Json.{
  Value, boolean, int64, array, object, Items, nil, item, Fields, blank, get_field, set_field,
  delete_field, as_bool, as_text, as_array, as_object, as_int32, as_int64,
}
use slumlord.Api.Workload.{App, CronJob, Resource}
use slumlord.Api.Schedule.{ManagedWorkload}
use slumlord.Kinds.{hibernation_annotation}

abbrev pub or_else {ℓ} : {A : Type ℓ} → Option A → A → A
or_else none d = d
or_else (some a) d = a

abbrev pub no_original : String → String → ManagedWorkload
no_original kind name = record {
  kind = kind;
  name = name;
  original_replicas = none;
  original_suspend = none;
  original_hibernation = none;
  original_node_set_counts = none;
}

-- What a loop body decides about an object: leave it, or write a changed object and an entry.
abbrev pub Decision : Type 0 → Type 0
Decision A = Option (A × ManagedWorkload)

-- Deployments and StatefulSets.
unfoldable pub scale_down_app : String → App → Decision App
scale_down_app kind d = elim d.replicas [
  | none ↦ none
  | some original ↦
      if ltb_ℤ (pos 0) original
      then some (
        record d { replicas = some (pos 0) },
        record (no_original kind d.name) { original_replicas = some original },
      )
      else none
]

-- CronJobs; a missing `suspend` counts as false.
unfoldable pub suspend_cron_job : CronJob → Decision CronJob
suspend_cron_job cj =
    let original = or_else cj.suspend false in
    if original
    then none
    else some (
      record cj { suspend = some true },
      record (no_original "CronJob" cj.name) { original_suspend = some original },
    )

-- CNPG Clusters: the hibernation annotation, "" where there is none.
pub current_hibernation : Resource → String
current_hibernation r = or_else (lookup hibernation_annotation (or_else r.annotations [])) ""

unfoldable pub hibernate_cluster : Resource → Decision Resource
unfolding current_hibernation
hibernate_cluster r =
    let current = current_hibernation r in
    if current == "on"
    then none
    else some (
      record r {
        annotations = some (insert hibernation_annotation "on" (or_else r.annotations []));
      },
      record (no_original "Cluster" r.name) { original_hibernation = some current },
    )

-- FluxCD and MariaDB resources: `spec.suspend`.
pub current_suspend : Option Fields → Bool
current_suspend none = false
current_suspend (some spec) = or_else (as_bool (get_field "suspend" spec)) false

unfoldable pub suspend_resource : String → Resource → Decision Resource
unfolding current_suspend
suspend_resource kind r =
    let current = current_suspend r.spec in
    if current
    then none
    else some (
      record r { spec = some (set_field "suspend" (boolean true) (or_else r.spec blank)) },
      record (no_original kind r.name) { original_suspend = some current },
    )

-- Prometheus Operator resources (`spec.replicas`) and Kibana (`spec.count`): the loops of
-- `sleepReplicaResources` and `sleepCountResources`, which differ in the field `key` alone.
unfoldable pub scale_down_field : String → String → Resource → Decision Resource
scale_down_field key kind r = elim r.spec [
  | none ↦ none
  | some spec ↦ elim (as_int32 to_int32 (get_field key spec)) [
    | none ↦ none
    | some current ↦
        if ltb_ℤ (pos 0) current
        then some (
          record r { spec = some (set_field key (int64 (pos 0)) spec) },
          record (no_original kind r.name) { original_replicas = some current },
        )
        else none
  ]
]

-- Elasticsearch: the name and count of one entry of `spec.nodeSets`.
unfoldable pub node_set_name : Fields → String
node_set_name m = or_else (as_text (get_field "name" m)) ""

unfoldable pub node_set_count : Fields → ℤ
node_set_count m = or_else (as_int32 to_int32 (get_field "count" m)) (pos 0)

-- `originalCounts`, filled in the order of the list; entries that are no maps are skipped.
pub capture_counts : List (String × ℤ) → Items → List (String × ℤ)
unfolding node_set_name node_set_count
capture_counts counts nil = counts
capture_counts counts (item v rest) =
    capture_counts
      (elim (as_object v) [
        | none ↦ counts
        | some m ↦ insert (node_set_name m) (node_set_count m) counts
      ])
      rest

pub has_positive_count : Items → Bool
unfolding node_set_count
has_positive_count nil = false
has_positive_count (item v rest) = elim (as_object v) [
  | none ↦ has_positive_count rest
  | some m ↦ ltb_ℤ (pos 0) (node_set_count m) || has_positive_count rest
]

zero_node_set : Value → Value
zero_node_set v = elim (as_object v) [
  | none ↦ v
  | some m ↦ object (set_field "count" (int64 (pos 0)) m)
]

pub zero_counts : Items → Items
unfolding zero_node_set
zero_counts nil = nil
zero_counts (item v rest) = item (zero_node_set v) (zero_counts rest)

-- The scaled down object and the captured counts; `none` leaves the object alone.
pub scale_down_elasticsearch : Resource → Option (Resource × List (String × ℤ))
scale_down_elasticsearch r = elim r.spec [
  | none ↦ none
  | some spec ↦ elim (as_array (get_field "nodeSets" spec)) [
    | none ↦ none
    | some sets ↦
        if has_positive_count sets
        then some (
          record r { spec = some (set_field "nodeSets" (array (zero_counts sets)) spec) },
          capture_counts [] sets,
        )
        else none
  ]
]

-- The bodies of `wakeWorkloads`, from the entry's original value.
pub restore_app : ℤ → App → App
restore_app original d = record d { replicas = some original }

pub restore_cron_job : Bool → CronJob → CronJob
restore_cron_job original cj = record cj { suspend = some original }

pub restore_cluster : Option String → Resource → Resource
restore_cluster original r =
    let annotations = or_else r.annotations [] in
    let value = or_else original "" in
    record r {
      annotations = some (
          if value == ""
          then delete hibernation_annotation annotations
          else insert hibernation_annotation value annotations);
    }

pub restore_suspend : Option Bool → Resource → Resource
restore_suspend original r =
    let spec = or_else r.spec blank in
    record r {
      spec = some (elim original [
        | none ↦ delete_field "suspend" spec
        | some b ↦ set_field "suspend" (boolean b) spec
      ]);
    }

pub restore_field : String → ℤ → Resource → Resource
restore_field key original r = record r {
  spec = some (set_field key (int64 original) (or_else r.spec blank));
}

restore_node_set : List (String × ℤ) → Value → Value
unfolding node_set_name
restore_node_set counts v = elim (as_object v) [
  | none ↦ v
  | some m ↦ elim (lookup (node_set_name m) counts) [
    | none ↦ v
    | some count ↦ object (set_field "count" (int64 count) m)
  ]
]

pub restore_counts : List (String × ℤ) → Items → Items
unfolding restore_node_set
restore_counts counts nil = nil
restore_counts counts (item v rest) = item (restore_node_set counts v) (restore_counts counts rest)

-- `none` where the object has no spec, and is not written.
pub restore_elasticsearch : List (String × ℤ) → Resource → Option Resource
restore_elasticsearch counts r = elim r.spec [
  | none ↦ none
  | some spec ↦ elim (as_array (get_field "nodeSets" spec)) [
    | none ↦ some r
    | some sets ↦
        some (record r {
          spec = some (set_field "nodeSets" (array (restore_counts counts sets)) spec);
        })
  ]
]

-- The tests of `verifyAndCorrectWorkloads`: is an object that should be awake still asleep?
is_positive : Option ℤ → Bool
is_positive none = false
is_positive (some n) = ltb_ℤ (pos 0) n

is_false : Option Bool → Bool
is_false none = false
is_false (some b) = not b

pub app_desynced : ManagedWorkload → App → Bool
unfolding is_positive
app_desynced mw d = elim d.replicas [
  | none ↦ false
  | some n ↦ eqb_ℤ n (pos 0) && is_positive mw.original_replicas
]

pub cron_job_desynced : ManagedWorkload → CronJob → Bool
unfolding is_false
cron_job_desynced mw cj = or_else cj.suspend false && is_false mw.original_suspend

pub suspend_desynced : ManagedWorkload → Resource → Bool
unfolding current_suspend is_false
suspend_desynced mw r = current_suspend r.spec && is_false mw.original_suspend

pub cluster_desynced : ManagedWorkload → Resource → Bool
unfolding current_hibernation
cluster_desynced mw r = current_hibernation r == "on"

pub field_desynced : String → ManagedWorkload → Resource → Bool
unfolding is_positive
field_desynced key mw r = elim r.spec [
  | none ↦ false
  | some spec ↦
      eqb_ℤ (or_else (as_int64 (get_field key spec)) (pos 0)) (pos 0)
      && is_positive mw.original_replicas
]

pub any_zero_count : Items → Bool
any_zero_count nil = false
any_zero_count (item v rest) = elim (as_object v) [
  | none ↦ any_zero_count rest
  | some m ↦ eqb_ℤ (or_else (as_int64 (get_field "count" m)) (pos 0)) (pos 0) || any_zero_count rest
]

pub elasticsearch_desynced : ManagedWorkload → Resource → Bool
unfolding any_zero_count
elasticsearch_desynced mw r = elim mw.original_node_set_counts [
  | none ↦ false
  | some counts ↦ elim r.spec [
    | none ↦ false
    | some spec ↦ elim (as_array (get_field "nodeSets" spec)) [
      | none ↦ false
      | some sets ↦ any_zero_count sets
    ]
  ]
]
