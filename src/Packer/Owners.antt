-- ===== src/Packer/Owners.antt =====
-- The owners of a pod: which workload replicates it, and whether it can be evicted.
use Prim.Native.String.{◌++◌ as append}
use slumlord.Prelude.{
  Bool, true, false, not, ◌&&◌, Option, none, some, List, [], ◌∷◌, String, ◌==◌, lookup, insert,
  contains, is_empty, any_of, if◌then◌else◌,
}
use slumlord.Packer.Types.{OwnerReference, Pod, ReplicaSet, WorkloadRef}
use slumlord.Drain.Analysis.{mirror_annotation, is_some}

-- `fmt.Sprintf("%s/%s", namespace, name)`
abbrev pub object_key : String → String → String
object_key namespace name = append namespace (append "/" name)

-- `rsMap`
abbrev pub ReplicaSets : Type 0
ReplicaSets = List (String × ReplicaSet)

-- The loop that fills `rsMap`.
unfoldable pub replica_sets_from : ReplicaSets → List ReplicaSet → ReplicaSets
replica_sets_from m [] = m
replica_sets_from m (x ∷ xs) = replica_sets_from (insert (object_key x.namespace x.name) x m) xs

-- The loop over the owners of a ReplicaSet.
deployment_of : String → List OwnerReference → Option WorkloadRef
deployment_of namespace [] = none
deployment_of namespace (o ∷ os) =
    let rest = deployment_of namespace os in
    if o.kind == "Deployment"
    then some (record { namespace = namespace; kind = "Deployment"; name = o.name })
    else rest

-- `rs == nil`, or its loop.
owner_of : String → Option ReplicaSet → Option WorkloadRef
unfolding deployment_of
owner_of namespace none = none
owner_of namespace (some rs) = deployment_of namespace rs.owners

-- The loop of `resolveWorkload`.
pub resolve_owners : String → ReplicaSets → List OwnerReference → Option WorkloadRef
unfolding owner_of
resolve_owners namespace m [] = none
resolve_owners namespace m (o ∷ os) =
    let rest = resolve_owners namespace m os in
    if o.kind == "StatefulSet"
    then some (record { namespace = namespace; kind = "StatefulSet"; name = o.name })
    else if o.kind == "ReplicaSet"
    then owner_of namespace (lookup (object_key namespace o.name) m)
    else rest

-- Whether a ReplicaSet that is known is owned by a DaemonSet.
is_daemon_owned : Option ReplicaSet → Bool
is_daemon_owned none = false
is_daemon_owned (some rs) = any_of (λ o. o.kind == "DaemonSet") rs.owners

-- The loop that looks for DaemonSets.
has_daemon_owner : String → ReplicaSets → List OwnerReference → Bool
unfolding is_daemon_owned
has_daemon_owner namespace m [] = false
has_daemon_owner namespace m (o ∷ os) =
    let rest = has_daemon_owner namespace m os in
    if o.kind == "DaemonSet"
    then true
    else if o.kind == "ReplicaSet" && is_daemon_owned (lookup (object_key namespace o.name) m)
    then true
    else rest

module _ {Q : Type 0} where
  abbrev pub resolve_workload : Pod Q → ReplicaSets → Option WorkloadRef
  resolve_workload pod m = resolve_owners pod.namespace m pod.owners

  unfoldable pub is_evictable : Pod Q → List String → List String → ReplicaSets → Bool
  unfolding resolve_owners has_daemon_owner
  is_evictable pod excluded included m =
      if contains pod.namespace excluded
      then false
      else if not (is_empty included) && not (contains pod.namespace included)
      then false
      else if is_some (lookup mirror_annotation pod.annotations)
      then false
      else if is_empty pod.owners
      then false
      else if has_daemon_owner pod.namespace m pod.owners
      then false
      else if not (is_some (resolve_workload pod m))
      then false
      else if any_of (λ b. b) pod.host_paths
      then false
      else not pod.deleting
