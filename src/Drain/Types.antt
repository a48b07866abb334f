-- ===== src/Drain/Types.antt =====
-- api/v1alpha1/nodedrainpolicy_types.go, and what the controller reads of nodes and pods, whose
-- resource quantities are values of a type `Q`.
use slumlord.Prelude.{ℕ, Bool, Option, List, String}
use slumlord.Prelude.Int.{ℤ}
use slumlord.Cluster.{Labels}
use slumlord.Api.Schedule.{Condition}

pub record DrainThresholds : Type 0 where
  pub cpu_request_percent : Option ℤ
  pub memory_request_percent : Option ℤ

pub record DrainSchedule : Type 0 where
  pub cron : String
  pub timezone : String

pub record DrainConfig : Type 0 where
  pub grace_period_seconds : Option ℤ
  pub timeout_seconds : Option ℤ
  pub delete_empty_dir_data : Bool
  pub ignore_daemon_sets : Option Bool
  pub delete_node_after_drain : Bool
  pub pod_selector : Labels

pub record DrainSafety : Type 0 where
  pub max_nodes_per_run : Option ℤ
  pub min_ready_nodes : Option ℤ
  pub dry_run : Bool

pub record NodeDrainPolicySpec : Type 0 where
  pub node_selector : Labels
  pub thresholds : DrainThresholds
  pub schedule : DrainSchedule
  pub drain : DrainConfig
  pub safety : DrainSafety
  pub suspend : Bool
  pub reconcile_interval : Option ℤ

pub record DrainNodeResult : Type 0 where
  pub name : String
  pub cpu_request_percent : ℤ
  pub memory_request_percent : ℤ
  pub action : String
  pub reason : String
  pub pods_evicted : ℤ

pub record DrainRunStatus : Type 0 where
  pub start_time : ℕ
  pub completion_time : Option ℕ
  pub nodes_evaluated : ℤ
  pub nodes_candidates : ℤ
  pub nodes_drained : ℤ
  pub nodes_deleted : ℤ
  pub node_results : List DrainNodeResult

pub record NodeDrainPolicyStatus : Type 0 where
  pub conditions : List Condition
  pub last_run : Option DrainRunStatus
  pub next_run : Option ℕ
  pub total_nodes_drained : ℤ

-- `deleting` says that the deletion timestamp is set.
pub record NodeDrainPolicy : Type 0 where
  pub name : String
  pub generation : ℕ
  pub deleting : Bool
  pub finalizers : List String
  pub spec : NodeDrainPolicySpec
  pub status : NodeDrainPolicyStatus

-- The requests of a container, where it has them.
pub record Container (Q : Type 0) : Type 0 where
  pub cpu : Option Q
  pub memory : Option Q

-- corev1.Pod: `owner_kinds` are the kinds of its owner references, and `empty_dirs` says of each
-- volume whether it is an emptyDir.
pub record Pod (Q : Type 0) : Type 0 where
  pub namespace : String
  pub name : String
  pub labels : Labels
  pub annotations : Labels
  pub node_name : String
  pub phase : String
  pub deleting : Bool
  pub owner_kinds : List String
  pub empty_dirs : List Bool
  pub containers : List (Container Q)
  pub init_containers : List (Container Q)

-- corev1.Node; the conditions are pairs of a type and a status.
pub record Node (Q : Type 0) : Type 0 where
  pub name : String
  pub labels : Labels
  pub unschedulable : Bool
  pub cpu_allocatable : Option Q
  pub memory_allocatable : Option Q
  pub conditions : List (String × String)

-- `drainNodeInfo`
pub record DrainNodeInfo (Q : Type 0) : Type 0 where
  pub name : String
  pub cpu_allocatable : Q
  pub mem_allocatable : Q
  pub cpu_requests : Q
  pub mem_requests : Q
  pub cpu_request_percent : ℤ
  pub mem_request_percent : ℤ
  pub drainable_pods : List (Pod Q)
  pub node : Node Q
