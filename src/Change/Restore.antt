-- ===== src/Change/Restore.antt =====
-- Waking undoes sleeping, object by object: what an entry stores is enough to restore what the
-- object was before, and nothing else of the object changes.
use slumlord.Prelude.{
  ◌≡◌, refl, Bool, true, false, Option, none, some, List, [], ◌∷◌, String, ◌==◌, eq_iff, lookup,
  insert, lookup-insert, delete, if◌then◌else◌, arith, Bool-cases, inl, inr,
}
use slumlord.Prelude.Int.{ℤ, pos, ltb_ℤ, to_int32}
use slumlord.Api.Json.{
  Value, int64, boolean, blank, get_field, set_field, as_int32, get_field-set_field,
}
use slumlord.Api.Workload.{App, CronJob, Resource}
use slumlord.Api.Schedule.{ManagedWorkload}
use slumlord.Kinds.{hibernation_annotation}
use slumlord.Change.{
  or_else, scale_down_app, suspend_cron_job, current_hibernation, hibernate_cluster,
  current_suspend, suspend_resource, scale_down_field, restore_app, restore_cron_job,
  restore_cluster, restore_suspend, restore_field,
}

-- A Deployment or StatefulSet is scaled down only from a positive count; its entry carries its
-- kind, name and count, and writing that count back to the scaled down object gives the object.
pub restore-scale_down_app :
    (kind : String) (d d' : App) (mw : ManagedWorkload)
    → scale_down_app kind d ≡ some (d', mw)
    → (ltb_ℤ (pos 0) (or_else d.replicas (pos 0)) ≡ true)
      × (d'.replicas ≡ some (pos 0))
      × (mw.kind ≡ kind)
      × (mw.name ≡ d.name)
      × (mw.original_replicas ≡ d.replicas)
      × (restore_app (or_else mw.original_replicas (pos 0)) d' ≡ d)
unfolding scale_down_app restore_app
restore-scale_down_app kind d d' mw h = ground arith

-- A CronJob is suspended only if it was not suspended (its flag is missing or false); its entry has
-- its kind and name and says that it was not, and writing that back to the suspended object gives the
-- object, with a missing flag written out as false.
pub restore-suspend_cron_job :
    (cj cj' : CronJob) (mw : ManagedWorkload)
    → suspend_cron_job cj ≡ some (cj', mw)
    → (or_else cj.suspend false ≡ false)
      × (cj' ≡ record cj { suspend = some true })
      × (mw.kind ≡ "CronJob")
      × (mw.name ≡ cj.name)
      × (mw.original_suspend ≡ some false)
      × (restore_cron_job (or_else mw.original_suspend true) cj'
          ≡ record cj { suspend = some false })
unfolding suspend_cron_job restore_cron_job
restore-suspend_cron_job cj cj' mw h = ground arith

lookup-delete :
    (k j : String) (m : List (String × String))
    → lookup j (delete k m) ≡ (if k == j then none else lookup j m)
lookup-delete k j [] = ground arith
lookup-delete k j ((i, w) ∷ m) =
    ground (arith, eq_iff k j, eq_iff i k, eq_iff i j, lookup-delete k j m)

-- The annotations of a resource, by key.
abbrev pub annotation : String → Resource → Option String
annotation k r = lookup k (or_else r.annotations [])

pub annotation-restore_cluster :
    (original : Option String) (k : String) (r : Resource)
    → annotation k (restore_cluster original r) ≡ (
        if hibernation_annotation == k
        then (if or_else original "" == "" then none else some (or_else original ""))
        else annotation k r)
unfolding restore_cluster
annotation-restore_cluster original k r = elim (Bool-cases (or_else original "" == "")) [
  | inl e ↦ rw e (lookup-delete hibernation_annotation k (or_else r.annotations []))
  | inr e ↦
      rw e (lookup-insert hibernation_annotation k (or_else original "") (or_else r.annotations []))
]

pub current_hibernation-restore_cluster :
    (v : String) (r : Resource) → current_hibernation (restore_cluster (some v) r) ≡ v
unfolding current_hibernation
current_hibernation-restore_cluster v r =
    ground (arith, annotation-restore_cluster (some v) hibernation_annotation r, eq_iff v "")

pub hibernate_cluster_lem :
    (r r' : Resource) (mw : ManagedWorkload)
    → hibernate_cluster r ≡ some (r', mw)
    → (r' ≡ record r {
      annotations = some (insert hibernation_annotation "on" (or_else r.annotations []));
    })
      × (mw.original_hibernation ≡ some (current_hibernation r))
      × ((current_hibernation r == "on") ≡ false)
unfolding hibernate_cluster
hibernate_cluster_lem r r' mw h = elim (Bool-cases (current_hibernation r == "on")) [
  | inl e ↦ ground arith
  | inr e ↦ ground arith
]

pub annotation-hibernated :
    (r r' : Resource) (mw : ManagedWorkload) (k : String)
    → hibernate_cluster r ≡ some (r', mw)
    → annotation k r' ≡ (if hibernation_annotation == k then some "on" else annotation k r)
annotation-hibernated r r' mw k h =
    rw (hibernate_cluster_lem r r' mw h).0
      (lookup-insert hibernation_annotation k "on" (or_else r.annotations []))

-- A Cluster that is hibernated gets the annotation "on" and is restored to the hibernation value it
-- had before (no annotation counts as the empty value); every other annotation, and the spec, are
-- as before.
pub restore-hibernate_cluster :
    (r r' : Resource) (mw : ManagedWorkload)
    → hibernate_cluster r ≡ some (r', mw)
    → (annotation hibernation_annotation r' ≡ some "on")
      × (current_hibernation (restore_cluster mw.original_hibernation r') ≡ current_hibernation r)
      × ((k : String)
          → annotation k (restore_cluster mw.original_hibernation r') ≡ (
              if hibernation_annotation == k
              then annotation k (restore_cluster mw.original_hibernation r')
              else annotation k r))
      × ((restore_cluster mw.original_hibernation r').spec ≡ r.spec)
restore-hibernate_cluster r r' mw h =
    let (changed, original, _) = hibernate_cluster_lem r r' mw h in
    (
      ground (arith, annotation-hibernated r r' mw hibernation_annotation h),
      rw original (current_hibernation-restore_cluster (current_hibernation r) r'),
      (λ k. ground (
        arith,
        annotation-restore_cluster mw.original_hibernation k r',
        annotation-hibernated r r' mw k h,
      )),
      rw changed (unfold restore_cluster in refl),
    )

abbrev pub spec_field : String → Resource → Option Value
spec_field k r = get_field k (or_else r.spec blank)

pub spec_field-restore_field :
    (key j : String) (n : ℤ) (r : Resource)
    → spec_field j (restore_field key n r) ≡ (if key == j then some (int64 n) else spec_field j r)
unfolding restore_field
spec_field-restore_field key j n r = get_field-set_field key j (int64 n) (or_else r.spec blank)

pub scale_down_field_lem :
    (key kind : String) (r r' : Resource) (mw : ManagedWorkload)
    → scale_down_field key kind r ≡ some (r', mw)
    → ((j : String) → spec_field j r' ≡ (if key == j then some (int64 (pos 0)) else spec_field j r))
      × (mw.original_replicas ≡ as_int32 to_int32 (spec_field key r))
      × (ltb_ℤ (pos 0) (or_else mw.original_replicas (pos 0)) ≡ true)
unfolding scale_down_field
scale_down_field_lem key kind r r' mw h = (
  (λ j. ground (arith, get_field-set_field key j (int64 (pos 0)) (or_else r.spec blank))),
  ground arith,
  ground arith,
)

pub suspend_resource_lem :
    (kind : String) (r r' : Resource) (mw : ManagedWorkload)
    → suspend_resource kind r ≡ some (r', mw)
    → (r' ≡ record r { spec = some (set_field "suspend" (boolean true) (or_else r.spec blank)) })
      × (current_suspend r.spec ≡ false)
      × (mw.original_suspend ≡ some false)
unfolding suspend_resource
suspend_resource_lem kind r r' mw h = elim (Bool-cases (current_suspend r.spec)) [
  | inl e ↦ ground arith
  | inr e ↦ ground arith
]

-- A custom resource is scaled down only from a count that reads as a positive `int32`; its field is
-- zero then, the entry carries the count, and writing that back leaves the field with the count and
-- every other field of the spec as it was.
pub restore-scale_down_field :
    (key kind : String) (r r' : Resource) (mw : ManagedWorkload)
    → scale_down_field key kind r ≡ some (r', mw)
    → (ltb_ℤ (pos 0) (or_else mw.original_replicas (pos 0)) ≡ true)
      × (mw.original_replicas ≡ as_int32 to_int32 (spec_field key r))
      × (spec_field key r' ≡ some (int64 (pos 0)))
      × ((j : String)
          → spec_field j (restore_field key (or_else mw.original_replicas (pos 0)) r') ≡ (
              if key == j
              then some (int64 (or_else mw.original_replicas (pos 0)))
              else spec_field j r))
restore-scale_down_field key kind r r' mw h =
    let (changed, original, positive) = scale_down_field_lem key kind r r' mw h in
    (
      positive,
      original,
      ground (arith, changed key, eq_iff key key),
      (λ j. ground (
        arith,
        changed j,
        spec_field-restore_field key j (or_else mw.original_replicas (pos 0)) r',
      )),
    )

pub spec_field-restore_suspend :
    (j : String) (b : Bool) (r : Resource)
    → spec_field j (restore_suspend (some b) r)
      ≡ (if "suspend" == j then some (boolean b) else spec_field j r)
unfolding restore_suspend
spec_field-restore_suspend j b r =
    get_field-set_field "suspend" j (boolean b) (or_else r.spec blank)

-- A FluxCD or MariaDB resource that is suspended was not; its entry says so, and writing that back
-- leaves `suspend` false, every other field of the spec as it was, and the annotations untouched.
pub restore-suspend_resource :
    (kind : String) (r r' : Resource) (mw : ManagedWorkload)
    → suspend_resource kind r ≡ some (r', mw)
    → (current_suspend r.spec ≡ false)
      × (spec_field "suspend" r' ≡ some (boolean true))
      × (mw.original_suspend ≡ some false)
      × ((restore_suspend mw.original_suspend r').annotations ≡ r.annotations)
      × ((j : String)
          → spec_field j (restore_suspend mw.original_suspend r')
            ≡ (if "suspend" == j then some (boolean false) else spec_field j r))
restore-suspend_resource kind r r' mw h =
    let (changed, awake, original) = suspend_resource_lem kind r r' mw h in
    let set : (j : String)
        → spec_field j r' ≡ (if "suspend" == j then some (boolean true) else spec_field j r) =
      λ j. rw changed (get_field-set_field "suspend" j (boolean true) (or_else r.spec blank)) in
    (
      awake,
      set "suspend",
      original,
      rw (original, changed) (unfold restore_suspend in refl),
      (λ j. rw original (ground (arith, set j, spec_field-restore_suspend j false r'))),
    )
