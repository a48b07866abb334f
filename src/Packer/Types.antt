-- ===== src/Packer/Types.antt =====
-- api/v1alpha1/binpacker_types.go, what the bin packer reads of other objects, whose resource
-- quantities are values of a type `Q`, and the types of its controller.
use slumlord.Prelude.{ℕ, Bool, Option, List, String}
use slumlord.Prelude.Int.{ℤ}
use slumlord.Cluster.{Labels}
use slumlord.Api.Schedule.{SleepWindow}
use slumlord.Policy.Types.{LabelSelector}
use slumlord.Drain.Types.{Container}
use slumlord.Packer.{Taint, Toleration}

pub record BinPackerThresholds : Type 0 where
  pub cpu_request_percent : Option ℤ
  pub memory_request_percent : Option ℤ

pub record BinPackerSpec : Type 0 where
  pub action : String
  pub node_selector : Labels
  pub namespaces : List String
  pub exclude_namespaces : List String
  pub thresholds : BinPackerThresholds
  pub schedule : Option SleepWindow
  pub max_evictions_per_cycle : Option ℤ
  pub dry_run : Bool
  pub reconcile_interval : Option ℤ

pub record CandidateNode : Type 0 where
  pub name : String
  pub cpu_request_percent : ℤ
  pub memory_request_percent : ℤ
  pub pod_count : ℤ

pub record PlannedEviction : Type 0 where
  pub pod_name : String
  pub namespace : String
  pub source_node : String
  pub target_node : String
  pub reason : String

pub record BinPackerStatus : Type 0 where
  pub candidate_nodes : List CandidateNode
  pub candidate_node_count : ℤ
  pub consolidation_plan : List PlannedEviction
  pub last_analysis_time : Option ℕ
  pub last_consolidation_time : Option ℕ
  pub nodes_analyzed : ℤ
  pub pods_evicted_this_cycle : ℤ
  pub total_pods_evicted : ℤ

-- `deleting` says that the deletion timestamp is set.
pub record BinPacker : Type 0 where
  pub name : String
  pub deleting : Bool
  pub finalizers : List String
  pub spec : BinPackerSpec
  pub status : BinPackerStatus

-- metav1.OwnerReference
pub record OwnerReference : Type 0 where
  pub kind : String
  pub name : String

-- corev1.Pod; `host_paths` says of each volume whether it is a hostPath.
pub record Pod (Q : Type 0) : Type 0 where
  pub namespace : String
  pub name : String
  pub annotations : Labels
  pub owners : List OwnerReference
  pub node_name : String
  pub phase : String
  pub deleting : Bool
  pub host_paths : List Bool
  pub node_selector : Labels
  pub tolerations : List Toleration
  pub containers : List (Container Q)
  pub init_containers : List (Container Q)

-- corev1.Node
pub record Node (Q : Type 0) : Type 0 where
  pub name : String
  pub labels : Labels
  pub unschedulable : Bool
  pub taints : List Taint
  pub cpu_allocatable : Option Q
  pub memory_allocatable : Option Q

-- appsv1.ReplicaSet
pub record ReplicaSet : Type 0 where
  pub namespace : String
  pub name : String
  pub owners : List OwnerReference

-- appsv1.Deployment and appsv1.StatefulSet: the labels of the pod template and the ready replicas.
pub record Replicated : Type 0 where
  pub namespace : String
  pub name : String
  pub template_labels : Labels
  pub ready_replicas : ℤ

-- policyv1.PodDisruptionBudget
pub record DisruptionBudget : Type 0 where
  pub namespace : String
  pub selector : Option LabelSelector
  pub disruptions_allowed : ℤ

-- `resourcePair`
pub record ResourcePair (Q : Type 0) : Type 0 where
  pub cpu : Q
  pub mem : Q

-- `nodeInfo`
pub record NodeInfo (Q : Type 0) : Type 0 where
  pub name : String
  pub cpu_allocatable : Q
  pub mem_allocatable : Q
  pub cpu_requests : Q
  pub mem_requests : Q
  pub cpu_request_percent : ℤ
  pub mem_request_percent : ℤ
  pub evictable_pods : List (Pod Q)
  pub node : Node Q
  pub scheduled_requests : ResourcePair Q

-- `workloadRef`
pub record WorkloadRef : Type 0 where
  pub namespace : String
  pub kind : String
  pub name : String

-- `safetyContext`: the workloads of the pods, by the pods' keys, and the budgets of workloads.
pub record SafetyContext : Type 0 where
  pub pod_workloads : List (String × WorkloadRef)
  pub disruption_budget : List (WorkloadRef × ℤ)
