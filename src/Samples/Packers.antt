-- ===== src/Samples/Packers.antt =====
-- A cluster with two nodes, one of them little used, and the theorems on the bin packer at it.
use mathlib.Core.List.{Sublistᴰ, reverse_aux}
use slumlord.Prelude.{
  ℕ, ◌+◌, ◌*◌, ◌≤◌, All, ◌≡◌, refl, sym, ap, true, false, none, some, List, [], ◌∷◌, map, String,
  length, ltb, arith,
}
use slumlord.Prelude.Int.{pos, add_ℤ, to_int32, to_int64}
use slumlord.Action.{Reply, value, ok}
use slumlord.Policy.{labels_within}
use slumlord.Packer.Types.{
  BinPackerSpec, BinPacker, PlannedEviction, Pod, Node, ReplicaSet, Replicated, DisruptionBudget,
  NodeInfo, WorkloadRef, SafetyContext,
}
use slumlord.Packer.Client.{PackerClient, PackerRun}
use slumlord.Packer.Owners.{ReplicaSets, replica_sets_from}
use slumlord.Packer.Analysis.{infos_of, find_candidate_nodes}
use slumlord.Packer.Safety.{replicated_of, collect_workloads}
use slumlord.Packer.Safety.Allowed.{Allows}
use slumlord.Packer.Plan.{build_consolidation_plan}
use slumlord.Packer.Plan.Loads.{Placement, eviction_of}
use slumlord.Packer.Plan.Capacity.{IsPlacedOutside, HoldsAll, plan_fits}
use slumlord.Packer.Plan.Limit.{plan_limit}
use slumlord.Packer.Handler.{consolidate_candidates, execute_plan, run_plan, reconcile}
use slumlord.Packer.Journal.{Journal}
use slumlord.Packer.Held.{reconcile_held}
use slumlord.Packer.Evictions.{keys, run_plan_counts, execute_plan_all}
use slumlord.Packer.Kept.{HasWorkload, evicted_of, consolidate_candidates_allowed}
use slumlord.Samples.{utc_only}
use slumlord.Samples.Nodes.{sort_less, Mem-sort_less}

-- What has been evicted, the latest first.
abbrev Log : Type 0
Log = List (String × String)

abbrev packer_spec : BinPackerSpec
packer_spec = record {
  action = "consolidate";
  node_selector = [];
  namespaces = [];
  exclude_namespaces = [];
  thresholds = record { cpu_request_percent = some (pos 50); memory_request_percent = none };
  schedule = none;
  max_evictions_per_cycle = some (pos 2);
  dry_run = false;
  reconcile_interval = none;
}

abbrev packer : BinPacker
packer = record {
  name = "tidy";
  deleting = false;
  finalizers = "slumlord.io/binpacker-finalizer" ∷ [];
  spec = packer_spec;
  status = record {
    candidate_nodes = [];
    candidate_node_count = pos 0;
    consolidation_plan = [];
    last_analysis_time = none;
    last_consolidation_time = none;
    nodes_analyzed = pos 0;
    pods_evicted_this_cycle = pos 0;
    total_pods_evicted = pos 7;
  };
}

abbrev node : String → Node ℕ
node name = record {
  name = name;
  labels = [];
  unschedulable = false;
  taints = [];
  cpu_allocatable = some 10;
  memory_allocatable = some 10;
}

abbrev nodes : List (Node ℕ)
nodes = node "idle" ∷ node "busy" ∷ []

abbrev pod : String → String → ℕ → Pod ℕ
pod name node_name cpu = record {
  namespace = "shop";
  name = name;
  annotations = [];
  owners = record { kind = "ReplicaSet"; name = "web-5d9" } ∷ [];
  node_name = node_name;
  phase = "Running";
  deleting = false;
  host_paths = [];
  node_selector = [];
  tolerations = [];
  containers = record { cpu = some cpu; memory = some 1 } ∷ [];
  init_containers = [];
}

abbrev pods : List (Pod ℕ)
pods = pod "web-1" "idle" 1 ∷ pod "web-2" "idle" 2 ∷ pod "web-3" "busy" 6 ∷ []

abbrev sets : List ReplicaSet
sets =
    record {
      namespace = "shop";
      name = "web-5d9";
      owners = record { kind = "Deployment"; name = "web" } ∷ [];
    }
    ∷ []

abbrev web : Replicated
web = record {
  namespace = "shop";
  name = "web";
  template_labels = ("app", "web") ∷ [];
  ready_replicas = pos 3;
}

-- One pod of the shop's web may be missing.
abbrev budget : DisruptionBudget
budget = record {
  namespace = "shop";
  selector = some (record { match_labels = ("app", "web") ∷ []; match_expressions = [] });
  disruptions_allowed = pos 1;
}

module _ (stored : BinPacker) where
  abbrev cluster : PackerClient
  cluster = record {
    World = Log;
    Quantity = ℕ;
    zones = utc_only;
    zero = 0;
    add = λ a b. a + b;
    exceeds = λ a b. ltb b a;
    milli_value = λ q. pos (q * 1000);
    value_of = λ q. pos q;
    selects = λ s labels. value (labels_within s.match_labels labels);
    sort_slice = λ less xs. sort_less less xs;
    sprintf = λ form arguments. form;
    get_packer = λ name w. (value stored, w);
    update_packer = λ p w. (value p, w);
    update_packer_status = λ p w. (value p, w);
    list_nodes = λ w. (value nodes, w);
    list_pods = λ w. (value pods, w);
    list_replica_sets = λ w. (value sets, w);
    list_disruption_budgets = λ w. (value (budget ∷ []), w);
    list_deployments = λ w. (value (web ∷ []), w);
    list_stateful_sets = λ w. (value [], w);
    evict = λ namespace name w. (value tt, (namespace, name) ∷ w);
    clock = λ w. (0, w);
  }

  cluster-Journal : Journal cluster
  cluster-Journal = record {
    evicted = λ w. w;
    done = λ namespace name w w' u e. sym (ap (λ (q : Reply (Unit {0}) × Log). q.1) e);
    refused = λ namespace name w w' e eq. ground (arith, eq);
    got = λ name w. refl;
    updated = λ p w. refl;
    stored = λ p w. refl;
    nodes = λ w. refl;
    pods = λ w. refl;
    replica_sets = λ w. refl;
    disruption_budgets = λ w. refl;
    deployments = λ w. refl;
    stateful_sets = λ w. refl;
    read_clock = λ w. refl;
    restated = λ p p' w w' e. cc;
    restated_status = λ p p' w w' e. (cc, cc);
  }

abbrev replica_sets : ReplicaSets
replica_sets = replica_sets_from [] sets

abbrev infos : List (NodeInfo ℕ)
infos = infos_of (cluster packer) packer replica_sets pods nodes

abbrev candidates : List (NodeInfo ℕ)
candidates = find_candidate_nodes (cluster packer) packer.spec.thresholds infos

abbrev morning : PackerRun Log
morning = record { packer = packer; world = [] }

abbrev the_web : WorkloadRef
the_web = record { namespace = "shop"; kind = "Deployment"; name = "web" }

abbrev safety : SafetyContext
safety = record {
  pod_workloads = ("shop/web-1", the_web) ∷ ("shop/web-2", the_web) ∷ [];
  disruption_budget = (the_web, pos 1) ∷ [];
}

consolidate_candidates_allowed_example :
    (news : List (String × String)) × ((consolidate_candidates
        (pos 0)
        (cluster packer)
        0
        infos
        candidates
        replica_sets
        morning).1.world
      ≡ reverse_aux news [])
    × Allows
        (cluster packer).selects
        (budget ∷ [])
        (replicated_of (web ∷ []) [] the_web)
        the_web
        (evicted_of (collect_workloads replica_sets candidates ([], [])).0 the_web news)
    × All (HasWorkload replica_sets candidates) news
unfolding replicated_of cluster-Journal
consolidate_candidates_allowed_example =
    consolidate_candidates_allowed (pos 0) (cluster packer) (cluster-Journal packer) 0 packer
      replica_sets pods nodes morning (budget ∷ []) (web ∷ []) [] the_web
      (λ less xs x m. Mem-sort_less less xs x m) ([], [], [], refl, refl, refl) (refl, tt) refl

plan_fits_example :
    (ps : List (Placement ℕ)) × (build_consolidation_plan
        (cluster packer)
        candidates
        infos
        packer
        safety
      ≡ map (eviction_of (cluster packer)) ps)
    × All (IsPlacedOutside (cluster packer) candidates infos) ps
    × All (HoldsAll (cluster packer) ps) infos
unfolding infos_of
plan_fits_example =
    plan_fits (cluster packer) candidates infos packer safety (refl, (refl, tt)) refl

plan_limit_example :
    length (build_consolidation_plan (cluster packer) candidates infos packer safety) ≤ 2
plan_limit_example = plan_limit (cluster packer) safety candidates infos packer 1 refl (omega arith)

abbrev rehearsal : BinPacker
rehearsal = record packer { spec = record packer_spec { dry_run = true } }

reconcile_held_example : (reconcile (pos 0) (cluster rehearsal) "tidy" []).1 ≡ []
unfolding cluster-Journal
reconcile_held_example =
    reconcile_held (pos 0) (cluster rehearsal) (cluster-Journal rehearsal) "tidy" [] [] rehearsal
      refl refl

abbrev one_eviction : List PlannedEviction
one_eviction =
    record {
      pod_name = "web-1";
      namespace = "shop";
      source_node = "idle";
      target_node = "busy";
      reason = "";
    }
    ∷ []

abbrev evening : PackerRun Log
evening = record {
  packer = record packer {
    status = record (packer.status) {
      last_consolidation_time = some 0;
      pods_evicted_this_cycle = pos 1;
      total_pods_evicted = pos 8;
    };
  };
  world = ("shop", "web-1") ∷ [];
}

run_plan_counts_example :
    (news : List (String × String)) × Sublistᴰ news (keys one_eviction)
    × (evening.world ≡ reverse_aux news [])
    × (evening.packer.status.pods_evicted_this_cycle ≡ to_int32 (pos (length news)))
    × (evening.packer.status.total_pods_evicted ≡ to_int64 (add_ℤ (pos 7) (pos (length news))))
unfolding run_plan to_int32 to_int64 cluster-Journal
run_plan_counts_example =
    run_plan_counts (pos 0) (cluster packer) (cluster-Journal packer) 0 one_eviction morning evening
      (pos 360_000_000_000) refl

execute_plan_all_example :
    (r' : PackerRun Log) × (execute_plan (pos 0) (cluster packer) 0 one_eviction morning
      ≡ (ok (0 + 1, none), r'))
    × (r'.world ≡ ("shop", "web-1") ∷ [])
unfolding cluster-Journal
execute_plan_all_example =
    execute_plan_all (pos 0) (cluster packer) (cluster-Journal packer) one_eviction 0 morning
      (λ namespace name w. ((namespace, name) ∷ w, refl))
