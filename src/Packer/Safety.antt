-- ===== src/Packer/Safety.antt =====
-- `buildSafetyContext`: how many pods of each workload may be evicted.
pub mod Allowed
pub mod Found
pub mod Traced
use slumlord.Prelude.{
  Bool, false, not, ◌&&◌, ◌||◌, Option, none, some, List, [], ◌∷◌, String, ◌==◌, insert, any_of,
  if◌then◌else◌,
}
use slumlord.Prelude.Int.{ℤ, pos, negsuc, sub_ℤ, ltb_ℤ, leb_ℤ, eqb_ℤ, to_int32}
use slumlord.Action.{Reply, value, error, M, pure, ◌>>=◌}
use slumlord.Cluster.{Labels}
use slumlord.Policy.Types.{LabelSelector}
use slumlord.Packer.Types.{Pod, Replicated, DisruptionBudget, NodeInfo, WorkloadRef, SafetyContext}
use slumlord.Packer.Client.{PackerClient, PackerRun, ask_or_return}
use slumlord.Packer.Owners.{object_key, ReplicaSets, resolve_workload}

-- Equality of the keys of `map[workloadRef]`.
abbrev pub same_workload : WorkloadRef → WorkloadRef → Bool
same_workload a b = a.namespace == b.namespace && (a.kind == b.kind && a.name == b.name)

abbrev pub Budgets : Type 0
Budgets = List (WorkloadRef × ℤ)

-- `budgets[wl]`; a missing key reads as 0.
unfoldable pub budget_of : WorkloadRef → Budgets → ℤ
budget_of wl [] = pos 0
budget_of wl ((v, b) ∷ bs) = if same_workload v wl then b else budget_of wl bs

-- `budgets[wl] = b`
unfoldable pub set_budget : WorkloadRef → ℤ → Budgets → Budgets
set_budget wl b [] = (wl, b) ∷ []
set_budget wl b ((v, old) ∷ bs) =
    let rest = set_budget wl b bs in if same_workload v wl then (v, b) ∷ bs else (v, old) ∷ rest

-- `deployMap[wl]` and `stsMap[wl]`: the last object with this namespace and name.
replicated_at : WorkloadRef → List Replicated → Option Replicated
replicated_at wl [] = none
replicated_at wl (x ∷ xs) = elim (replicated_at wl xs) [
  | some y ↦ some y
  | none ↦ if x.namespace == wl.namespace && x.name == wl.name then some x else none
]

-- The object of a workload, where there is one.
unfoldable pub replicated_of : List Replicated → List Replicated → WorkloadRef → Option Replicated
unfolding replicated_at
replicated_of deployments stateful_sets wl =
    if wl.kind == "Deployment"
    then replicated_at wl deployments
    else if wl.kind == "StatefulSet"
    then replicated_at wl stateful_sets
    else none

abbrev pub template_labels_of : Option Replicated → Labels
template_labels_of none = []
template_labels_of (some x) = x.template_labels

abbrev pub ready_replicas_of : Option Replicated → ℤ
ready_replicas_of none = pos 0
ready_replicas_of (some x) = x.ready_replicas

-- One pod of a candidate, with its workload.
pub collect_pod :
    {Q : Type 0}
    → Pod Q
    → Option WorkloadRef
    → List (String × WorkloadRef) × List WorkloadRef
    → List (String × WorkloadRef) × List WorkloadRef
collect_pod pod none found = found
collect_pod pod (some wl) (by_pod, workloads) = (
  insert (object_key pod.namespace pod.name) wl by_pod,
  (if any_of (same_workload wl) workloads then workloads else wl ∷ workloads),
)

module _ {Q : Type 0} (m : ReplicaSets) where
  -- The workloads of the pods of the candidates: those by the pods' keys, and all of them.
  pub collect_pods :
      List (Pod Q)
      → List (String × WorkloadRef) × List WorkloadRef
      → List (String × WorkloadRef) × List WorkloadRef
  unfolding collect_pod
  collect_pods [] found = found
  collect_pods (pod ∷ pods) found =
      collect_pods pods (collect_pod pod (resolve_workload pod m) found)

  pub collect_workloads :
      List (NodeInfo Q)
      → List (String × WorkloadRef) × List WorkloadRef
      → List (String × WorkloadRef) × List WorkloadRef
  unfolding collect_pods
  collect_workloads [] found = found
  collect_workloads (x ∷ xs) found = collect_workloads xs (collect_pods x.evictable_pods found)

module _ (selects : LabelSelector → Labels → Reply Bool) where
  -- `sel.Matches(labels)`, and not where the selector is invalid.
  abbrev pub is_selected : Reply Bool → Bool
  is_selected (value b) = b
  is_selected (error e) = false

  -- A PodDisruptionBudget that the loop does not pass over.
  pub guards : DisruptionBudget → WorkloadRef → Labels → Bool
  guards pdb wl pod_labels =
      if not (pdb.namespace == wl.namespace) then false else elim pdb.selector [
        | none ↦ false
        | some selector ↦ is_selected (selects selector pod_labels)
      ]

  -- The loop over the PodDisruptionBudgets: the smallest number of allowed disruptions, -1 for none.
  pub least_allowed : WorkloadRef → Labels → ℤ → List DisruptionBudget → ℤ
  unfolding guards
  least_allowed wl pod_labels budget [] = budget
  least_allowed wl pod_labels budget (x ∷ xs) =
      least_allowed wl pod_labels
        (if guards x wl pod_labels
            && (eqb_ℤ budget (negsuc 0) || ltb_ℤ x.disruptions_allowed budget)
          then x.disruptions_allowed
          else budget)
        xs

  -- Without a PodDisruptionBudget, all ready replicas but one.
  pub disruption_budget_of : List DisruptionBudget → Option Replicated → WorkloadRef → ℤ
  unfolding least_allowed
  disruption_budget_of pdbs object wl =
      let budget = least_allowed wl (template_labels_of object) (negsuc 0) pdbs in
      if leb_ℤ (pos 0) budget then budget else to_int32 (sub_ℤ (ready_replicas_of object) (pos 1))

  -- The loop over the workloads.
  unfoldable pub budgets_for :
      List DisruptionBudget → List Replicated → List Replicated → List WorkloadRef → Budgets
  unfolding replicated_of disruption_budget_of set_budget
  budgets_for pdbs deployments stateful_sets [] = []
  budgets_for pdbs deployments stateful_sets (wl ∷ wls) =
      set_budget wl (disruption_budget_of pdbs (replicated_of deployments stateful_sets wl) wl)
        (budgets_for pdbs deployments stateful_sets wls)

module _ (c : PackerClient) where
  open c use {
    World, Quantity, selects, list_disruption_budgets, list_deployments, list_stateful_sets,
  }

  -- Nothing is listed where no workload was found.
  unfoldable pub budgets_of_workloads :
      List (String × WorkloadRef) → List WorkloadRef → M (PackerRun World) SafetyContext
  unfolding budgets_for
  budgets_of_workloads by_pod [] = pure (record { pod_workloads = by_pod; disruption_budget = [] })
  budgets_of_workloads by_pod (wl ∷ wls) = do
    pdbs ← ask_or_return list_disruption_budgets
    deployments ← ask_or_return list_deployments
    stateful_sets ← ask_or_return list_stateful_sets
    pure (record {
      pod_workloads = by_pod;
      disruption_budget = budgets_for selects pdbs deployments stateful_sets (wl ∷ wls);
    })

  unfoldable pub build_safety_context :
      List (NodeInfo Quantity) → ReplicaSets → M (PackerRun World) SafetyContext
  unfolding collect_workloads budgets_of_workloads
  build_safety_context candidates m =
      let (by_pod, workloads) = collect_workloads m candidates ([], []) in
      budgets_of_workloads by_pod workloads
