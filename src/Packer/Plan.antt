-- ===== src/Packer/Plan.antt =====
-- `buildConsolidationPlan`, `findTargetNode` and `canFitOnNode`.
pub mod Loops
pub mod Budget
pub mod Known
pub mod Loads
pub mod FirstFit
pub mod Targets
pub mod Capacity
pub mod Limit
use slumlord.Prelude.{
  Bool, true, false, not, ◌&&◌, Option, none, some, List, [], ◌∷◌, ◌++◌, String, ◌==◌, map, lookup,
  contains, length, if◌then◌else◌,
}
use slumlord.Prelude.Int.{ℤ, pos, sub_ℤ, ltb_ℤ, leb_ℤ, to_int32}
use slumlord.Change.{or_else}
use slumlord.Policy.{labels_within}
use slumlord.Drain.Client.{number, text}
use slumlord.Drain.Requests.{pod_requests}
use slumlord.Packer.{tolerates_taints}
use slumlord.Packer.Types.{PlannedEviction, BinPacker, Pod, NodeInfo, WorkloadRef, SafetyContext}
use slumlord.Packer.Client.{PackerClient}
use slumlord.Packer.Owners.{object_key}
use slumlord.Packer.Safety.{Budgets, budget_of, set_budget}

-- The state of the loops: the plan, the target nodes, and what is left of the budgets.
pub record Planning (Q : Type 0) : Type 0 where
  pub plan : List PlannedEviction
  pub targets : List (NodeInfo Q)
  pub budgets : Budgets

-- `ok && safety.disruptionBudget[wl] <= 0`
pub is_exhausted : Option WorkloadRef → Budgets → Bool
is_exhausted none budgets = false
is_exhausted (some wl) budgets = leb_ℤ (budget_of wl budgets) (pos 0)

-- `if ok { safety.disruptionBudget[wl]-- }`
pub spend : Option WorkloadRef → Budgets → Budgets
spend none budgets = budgets
spend (some wl) budgets = set_budget wl (to_int32 (sub_ℤ (budget_of wl budgets) (pos 1))) budgets

-- The limit has been reached; a limit of 0 is none.
abbrev pub is_full : ℤ → List PlannedEviction → Bool
is_full max_evictions plan =
    ltb_ℤ (pos 0) max_evictions && leb_ℤ max_evictions (to_int32 (pos (length plan)))

-- `targetNodes`: the nodes without the name of a candidate.
pub target_nodes : {Q : Type 0} → List String → List (NodeInfo Q) → List (NodeInfo Q)
target_nodes names [] = []
target_nodes names (x ∷ xs) =
    let rest = target_nodes names xs in if contains x.name names then rest else x ∷ rest

module _ (c : PackerClient) where
  open c use {Quantity, zero, add, exceeds, sprintf}

  -- The requests of a pod and the node's scheduled ones fit on the node.
  pub can_fit_on_node : Pod Quantity → NodeInfo Quantity → Quantity → Quantity → Bool
  can_fit_on_node pod target pod_cpu pod_mem =
      if exceeds (add target.scheduled_requests.cpu pod_cpu) target.cpu_allocatable
      then false
      else if exceeds (add target.scheduled_requests.mem pod_mem) target.mem_allocatable
      then false
      else if not (labels_within pod.node_selector target.node.labels)
      then false
      else if not (tolerates_taints pod.tolerations target.node.taints)
      then false
      else true

  abbrev pub schedule_on : Quantity → Quantity → NodeInfo Quantity → NodeInfo Quantity
  schedule_on pod_cpu pod_mem target = record target {
    scheduled_requests = record {
      cpu = add target.scheduled_requests.cpu pod_cpu;
      mem = add target.scheduled_requests.mem pod_mem;
    };
  }

  -- The loop over the targets: the name of the first that fits, and the targets after it.
  pub first_fit :
      Pod Quantity
      → Quantity
      → Quantity
      → List (NodeInfo Quantity)
      → String × List (NodeInfo Quantity)
  unfolding can_fit_on_node
  first_fit pod pod_cpu pod_mem [] = ("", [])
  first_fit pod pod_cpu pod_mem (x ∷ xs) =
      let (name, rest) = first_fit pod pod_cpu pod_mem xs in
      if can_fit_on_node pod x pod_cpu pod_mem
      then (x.name, schedule_on pod_cpu pod_mem x ∷ xs)
      else (name, x ∷ rest)

  abbrev pub requests_of : Pod Quantity → Quantity × Quantity
  requests_of pod = pod_requests zero add exceeds pod.containers pod.init_containers

  pub find_target_node : Pod Quantity → List (NodeInfo Quantity) → String × List (NodeInfo Quantity)
  unfolding first_fit
  find_target_node pod targets =
      let (pod_cpu, pod_mem) = requests_of pod in first_fit pod pod_cpu pod_mem targets

  pub planned_eviction : NodeInfo Quantity → Pod Quantity → String → PlannedEviction
  planned_eviction candidate pod target_name = record {
    pod_name = pod.name;
    namespace = pod.namespace;
    source_node = candidate.name;
    target_node = target_name;
    reason = sprintf "node %s below utilization threshold (cpu=%d%%, mem=%d%%)" (
        text candidate.name
        ∷ number candidate.cpu_request_percent
        ∷ number candidate.mem_request_percent
        ∷ []);
  }

  -- From the result of `findTargetNode` on.
  pub plan_target :
      NodeInfo Quantity
      → Pod Quantity
      → Option WorkloadRef
      → String × List (NodeInfo Quantity)
      → Planning Quantity
      → Planning Quantity
  unfolding spend planned_eviction
  plan_target candidate pod owner (target_name, targets) s =
      if target_name == "" then record s { targets = targets } else record {
        plan = s.plan ++ planned_eviction candidate pod target_name ∷ [];
        targets = targets;
        budgets = spend owner s.budgets;
      }

  module _ (safety : SafetyContext) where
    -- One pod, where the limit has not been reached.
    pub plan_pod : NodeInfo Quantity → Pod Quantity → Planning Quantity → Planning Quantity
    unfolding is_exhausted find_target_node plan_target
    plan_pod candidate pod s =
        let owner = lookup (object_key pod.namespace pod.name) safety.pod_workloads in
        if is_exhausted owner s.budgets
        then s
        else plan_target candidate pod owner (find_target_node pod s.targets) s

    module _ (max_evictions : ℤ) where
      -- The inner loop; whether it returned the plan.
      pub plan_pods :
          NodeInfo Quantity → List (Pod Quantity) → Planning Quantity → Bool × Planning Quantity
      unfolding plan_pod
      plan_pods candidate [] s = (false, s)
      plan_pods candidate (pod ∷ pods) s =
          let rest = plan_pods candidate pods (plan_pod candidate pod s) in
          if is_full max_evictions s.plan then (true, s) else rest

      pub plan_candidates : List (NodeInfo Quantity) → Planning Quantity → Planning Quantity
      unfolding plan_pods
      plan_candidates [] s = s
      plan_candidates (x ∷ xs) s =
          let (returned, s') = plan_pods x x.evictable_pods s in
          let rest = plan_candidates xs s' in if returned then s' else rest

  abbrev pub initial_planning :
      List (NodeInfo Quantity) → List (NodeInfo Quantity) → SafetyContext → Planning Quantity
  initial_planning candidates all_nodes safety = record {
    plan = [];
    targets = target_nodes (map (λ (x : NodeInfo Quantity). x.name) candidates) all_nodes;
    budgets = safety.disruption_budget;
  }

  -- The state at the end of `buildConsolidationPlan`.
  pub consolidate :
      List (NodeInfo Quantity)
      → List (NodeInfo Quantity)
      → BinPacker
      → SafetyContext
      → Planning Quantity
  unfolding target_nodes plan_candidates
  consolidate candidates all_nodes p safety =
      plan_candidates safety (or_else p.spec.max_evictions_per_cycle (pos 0)) candidates
        (initial_planning candidates all_nodes safety)

  abbrev pub build_consolidation_plan :
      List (NodeInfo Quantity)
      → List (NodeInfo Quantity)
      → BinPacker
      → SafetyContext
      → List PlannedEviction
  build_consolidation_plan candidates all_nodes p safety =
      (consolidate candidates all_nodes p safety).plan
