-- ===== src/Packer/Available.antt =====
-- The plan respects PodDisruptionBudgets and ready replicas: `analyzeNodes`, `findCandidateNodes`,
-- `buildSafetyContext` and `buildConsolidationPlan` together.
use mathlib.Core.Path.{subst}
use slumlord.Prelude.{
  ℕ, ◌≤◌, ◌≡◌, refl, sym, Bool, List, [], ◌∷◌, String, All, any_of, arith, if◌then◌else◌,
}
use slumlord.Prelude.Int.{ℤ, pos, pos_part}
use slumlord.Action.{value, ok}
use slumlord.Packer.Types.{
  BinPacker, Pod, Node, Replicated, DisruptionBudget, NodeInfo, WorkloadRef, SafetyContext,
}
use slumlord.Packer.Client.{PackerClient, PackerRun}
use slumlord.Packer.Owners.{ReplicaSets}
use slumlord.Packer.Analysis.{infos_of, find_candidate_nodes}
use slumlord.Packer.Safety.{
  same_workload, budget_of, ready_replicas_of, replicated_of, collect_workloads, budgets_for,
  budgets_of_workloads, build_safety_context,
}
use slumlord.Packer.Safety.Allowed.{IsNatural, Allows, Allows-disruption_budget_of}
use slumlord.Packer.Safety.Found.{IsKnown, budget_of-budgets_for, IsKnown-collect_workloads}
use slumlord.Packer.Plan.{build_consolidation_plan}
use slumlord.Packer.Plan.Budget.{evictions_of, consolidate_within_budget}
use slumlord.Packer.Plan.Known.{
  SortAddsNone, HasReplicatedPods-candidates, IsCounted, IsCounted-consolidate,
}

module _ (c : PackerClient) where
  open c use {
    World, Quantity, selects, list_disruption_budgets, list_deployments, list_stateful_sets,
  }

  -- What the three lists answer.
  abbrev pub Lists : List DisruptionBudget → List Replicated → List Replicated → World → Type 0
  Lists pdbs deployments stateful_sets w =
      (w1 : World) × (w2 : World) × (w3 : World) × (list_disruption_budgets w ≡ (value pdbs, w1))
      × (list_deployments w1 ≡ (value deployments, w2))
      × (list_stateful_sets w2 ≡ (value stateful_sets, w3))

  -- Where the lists are answered, the safety context is built.
  build_safety_context_lem :
      (candidates : List (NodeInfo Quantity)) (m : ReplicaSets) (r : PackerRun World)
      (pdbs : List DisruptionBudget) (deployments stateful_sets : List Replicated)
      → Lists pdbs deployments stateful_sets r.world
      → (safety : SafetyContext) × (r' : PackerRun World) × (build_safety_context c candidates m r
          ≡ (ok safety, r'))
        × (safety.pod_workloads ≡ (collect_workloads m candidates ([], [])).0)
        × (safety.disruption_budget
            ≡ budgets_for selects pdbs deployments stateful_sets
                (collect_workloads m candidates ([], [])).1)
  unfolding build_safety_context budgets_of_workloads budgets_for
  build_safety_context_lem candidates m r pdbs deployments stateful_sets (w1, w2, w3, e1, e2, e3) =
      let (by_pod, workloads) = collect_workloads m candidates ([], []) in go by_pod workloads
    where
      go :
          (by_pod : List (String × WorkloadRef)) (workloads : List WorkloadRef)
          → (safety : SafetyContext) × (r' : PackerRun World) × (budgets_of_workloads c by_pod
                workloads r
              ≡ (ok safety, r'))
            × (safety.pod_workloads ≡ by_pod)
            × (safety.disruption_budget
                ≡ budgets_for selects pdbs deployments stateful_sets workloads)
      go by_pod [] = (_, _, refl, refl, refl)
      go by_pod (wl ∷ wls) = (
        record {
          pod_workloads = by_pod;
          disruption_budget = budgets_for selects pdbs deployments stateful_sets (wl ∷ wls);
        },
        record r { world = w3 },
        rw (e1, e2, e3) refl,
        refl,
        refl,
      )

  -- What was found about a workload bounds the evictions of its pods.
  Allows-plan :
      (wl : WorkloadRef) (n : ℕ) (wls : List WorkloadRef) (pdbs : List DisruptionBudget)
      (deployments stateful_sets : List Replicated)
      → All (λ x. IsNatural x.disruptions_allowed) pdbs
      → IsNatural (ready_replicas_of (replicated_of deployments stateful_sets wl))
      → n ≤ pos_part (budget_of wl (budgets_for selects pdbs deployments stateful_sets wls))
      → Allows selects pdbs (replicated_of deployments stateful_sets wl) wl n
  Allows-plan wl n wls pdbs deployments stateful_sets natural ready le =
      Allows-disruption_budget_of selects pdbs (replicated_of deployments stateful_sets wl) wl n
        natural ready
        (at_most (any_of (same_workload wl) wls) _ n
          (rw (budget_of-budgets_for selects pdbs deployments stateful_sets wl wls) at le))
    where
      at_most : (b : Bool) (x : ℤ) (n : ℕ) → n ≤ pos_part (if b then x else pos 0) → n ≤ pos_part x
      at_most b x n h = ground arith

  -- The safety context is built, and any plan made with it evicts as many pods of the workload as
  -- is allowed, and none whose workload is not known.
  pub plan_keeps_available :
      (p : BinPacker) (m : ReplicaSets) (pods : List (Pod Quantity)) (nodes : List (Node Quantity))
      (r : PackerRun World) (pdbs : List DisruptionBudget)
      (deployments stateful_sets : List Replicated) (wl : WorkloadRef)
      → SortAddsNone c
      → Lists pdbs deployments stateful_sets r.world
      → All (λ x. IsNatural x.disruptions_allowed) pdbs
      → IsNatural (ready_replicas_of (replicated_of deployments stateful_sets wl))
      → let infos = infos_of c p m pods nodes in
        let candidates = find_candidate_nodes c p.spec.thresholds infos in
        (safety : SafetyContext) × (r' : PackerRun World) × (build_safety_context c candidates m r
          ≡ (ok safety, r'))
        × (safety.pod_workloads ≡ (collect_workloads m candidates ([], [])).0)
        × ((q : BinPacker)
            → let plan = build_consolidation_plan c candidates infos q safety in
              Allows selects pdbs
                (replicated_of deployments stateful_sets wl)
                wl
                (evictions_of safety.pod_workloads wl plan)
              × All (IsCounted c safety) plan)
  plan_keeps_available p m pods nodes r pdbs deployments stateful_sets wl sorts lists natural
        ready =
      let infos = infos_of c p m pods nodes in
      let candidates = find_candidate_nodes c p.spec.thresholds infos in
      let (safety, r', e, by_pod, budgets) =
        build_safety_context_lem candidates m r pdbs deployments stateful_sets lists in
      (
        safety,
        r',
        e,
        by_pod,
        λ q. (
          Allows-plan wl _ (collect_workloads m candidates ([], [])).1 pdbs deployments
              stateful_sets natural ready
              (subst
                (λ b.
                  evictions_of safety.pod_workloads wl
                    (build_consolidation_plan c candidates infos q safety)
                  ≤ pos_part (budget_of wl b))
                budgets (consolidate_within_budget c safety wl candidates infos q)),
          IsCounted-consolidate c safety candidates infos q (λ x pod at at'.
              subst (λ b. IsKnown b pod) (sym by_pod)
                (IsKnown-collect_workloads m candidates ([], [])
                  (HasReplicatedPods-candidates c p m pods nodes sorts) x pod at at')),
        ),
      )
