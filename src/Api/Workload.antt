-- ===== src/Api/Workload.antt =====
-- The workloads: Deployments and StatefulSets, CronJobs, and the custom resources that are handled
-- as unstructured objects.
use slumlord.Prelude.{Bool, Option, List, String}
use slumlord.Prelude.Int.{ℤ}
use slumlord.Api.Json.{Fields}

-- A Deployment or a StatefulSet: `Spec.Replicas` is a `*int32`.
pub record App : Type 0 where
  pub namespace : String
  pub name : String
  pub replicas : Option ℤ

-- A CronJob: `Spec.Suspend` is a `*bool`.
pub record CronJob : Type 0 where
  pub namespace : String
  pub name : String
  pub suspend : Option Bool

-- An unstructured object: `GetAnnotations()`, and `Object["spec"]` where it is a map.
pub record Resource : Type 0 where
  pub namespace : String
  pub name : String
  pub annotations : Option (List (String × String))
  pub spec : Option Fields

-- schema.GroupVersionKind
pub record Gvk : Type 0 where
  pub group : String
  pub version : String
  pub kind : String
