-- ===== src/Packer/Safety/Found.antt =====
-- Which workloads `buildSafetyContext` finds, and the budgets that it gives them.
use mathlib.Core.List.{Memᴰ}
use mathlib.Core.List.Memᴰ.{head, tail}
use mathlib.Core.Path.{subst}
use slumlord.Prelude.{
  ◌≡◌, refl, sym, ap, inl, inr, Bool, true, Option, none, some, List, [], ◌∷◌, String, ◌==◌, eq_iff,
  any_of, lookup, insert, lookup-insert, All, arith, Bool-cases, eq_refl, if◌then◌else◌,
}
use slumlord.Prelude.Int.{pos}
use slumlord.Action.{Reply}
use slumlord.Cluster.{Labels}
use slumlord.Policy.Types.{LabelSelector}
use slumlord.Packer.Types.{Pod, Replicated, DisruptionBudget, NodeInfo, WorkloadRef}
use slumlord.Packer.Owners.{object_key, ReplicaSets, resolve_workload}
use slumlord.Packer.Safety.{
  same_workload, budget_of, replicated_of, collect_pod, collect_pods, collect_workloads,
  disruption_budget_of, budgets_for,
}
use slumlord.Packer.Plan.Budget.{budget_of-set_budget}

pub same_workload→eq : (a b : WorkloadRef) → same_workload a b ≡ true → a ≡ b
same_workload→eq a b h =
    go (ground (arith, eq_iff a.namespace b.namespace)) (ground (arith, eq_iff a.kind b.kind))
      (ground (arith, eq_iff a.name b.name))
  where
    go : a.namespace ≡ b.namespace → a.kind ≡ b.kind → a.name ≡ b.name → a ≡ b
    go p q r = λ i. record { namespace = p i; kind = q i; name = r i }

same_workload_sym : (a b : WorkloadRef) → same_workload a b ≡ same_workload b a
same_workload_sym a b = ground (
  arith,
  eq_iff a.namespace b.namespace,
  eq_iff b.namespace a.namespace,
  eq_iff a.kind b.kind,
  eq_iff b.kind a.kind,
  eq_iff a.name b.name,
  eq_iff b.name a.name,
)

module _ (selects : LabelSelector → Labels → Reply Bool) where
  -- A workload that was found has its budget, any other 0.
  pub budget_of-budgets_for :
      (pdbs : List DisruptionBudget) (deployments stateful_sets : List Replicated)
      (wl : WorkloadRef) (wls : List WorkloadRef)
      → budget_of wl (budgets_for selects pdbs deployments stateful_sets wls) ≡ (
          if any_of (same_workload wl) wls
          then disruption_budget_of selects pdbs (replicated_of deployments stateful_sets wl) wl
          else pos 0)
  unfolding budgets_for budget_of
  budget_of-budgets_for pdbs deployments stateful_sets wl [] = refl
  budget_of-budgets_for pdbs deployments stateful_sets wl (v ∷ wls) =
      rw
        (
          budget_of-set_budget wl v
              (disruption_budget_of selects pdbs (replicated_of deployments stateful_sets v) v)
              (budgets_for selects pdbs deployments stateful_sets wls),
          budget_of-budgets_for pdbs deployments stateful_sets wl wls,
          same_workload_sym v wl,
        )
        (elim (Bool-cases (same_workload wl v)) [
          | inl e ↦ rw e (
              ap
                (λ u.
                  disruption_budget_of selects pdbs (replicated_of deployments stateful_sets u) u)
                (sym (same_workload→eq wl v e)))
          | inr e ↦ rw e refl
        ])

-- The key of a pod of a candidate that has a workload is known.
abbrev pub IsKnown : {Q : Type 0} → List (String × WorkloadRef) → Pod Q → Type 0
IsKnown by_pod pod =
    (wl : WorkloadRef) × (lookup (object_key pod.namespace pod.name) by_pod ≡ some wl)

module _ (k : String) where
  abbrev HasKey : List (String × WorkloadRef) → Type 0
  HasKey by_pod = (wl : WorkloadRef) × (lookup k by_pod ≡ some wl)

  HasKey-insert :
      (j : String) (v : WorkloadRef) (by_pod : List (String × WorkloadRef))
      → HasKey by_pod
      → HasKey (insert j v by_pod)
  HasKey-insert j v by_pod (wl, h) = elim (Bool-cases (j == k)) [
    | inl e ↦ (v, rw (lookup-insert j k v by_pod, e) refl)
    | inr e ↦ (wl, rw (lookup-insert j k v by_pod, e) h)
  ]

module _ {Q : Type 0} (m : ReplicaSets) where
  abbrev pub IsReplicated : Pod Q → Type 0
  IsReplicated pod = (wl : WorkloadRef) × (resolve_workload pod m ≡ some wl)

  module _ (k : String) where
    HasKey-collect_pod :
        (pod : Pod Q) (o : Option WorkloadRef)
        (found : List (String × WorkloadRef) × List WorkloadRef)
        → HasKey k found.0
        → HasKey k (collect_pod pod o found).0
    unfolding collect_pod
    HasKey-collect_pod pod none found h = h
    HasKey-collect_pod pod (some v) found h = HasKey-insert k _ v found.0 h

    HasKey-collect_pods :
        (pods : List (Pod Q)) (found : List (String × WorkloadRef) × List WorkloadRef)
        → HasKey k found.0
        → HasKey k (collect_pods m pods found).0
    unfolding collect_pods
    HasKey-collect_pods [] found h = h
    HasKey-collect_pods (pod ∷ pods) found h =
        HasKey-collect_pods pods _ (HasKey-collect_pod pod (resolve_workload pod m) found h)

    HasKey-collect_workloads :
        (xs : List (NodeInfo Q)) (found : List (String × WorkloadRef) × List WorkloadRef)
        → HasKey k found.0
        → HasKey k (collect_workloads m xs found).0
    unfolding collect_workloads
    HasKey-collect_workloads [] found h = h
    HasKey-collect_workloads (x ∷ xs) found h =
        HasKey-collect_workloads xs _ (HasKey-collect_pods x.evictable_pods found h)

  HasKey-own :
      (pod : Pod Q) (o : Option WorkloadRef) (wl : WorkloadRef)
      (found : List (String × WorkloadRef) × List WorkloadRef)
      → o ≡ some wl
      → HasKey (object_key pod.namespace pod.name) (collect_pod pod o found).0
  unfolding collect_pod
  HasKey-own pod none wl found e = ground arith
  HasKey-own pod (some v) wl found e =
      let k = object_key pod.namespace pod.name in
      (v, rw (lookup-insert k k v found.0, eq_refl k) refl)

  HasKey-of_Mem :
      (pods : List (Pod Q)) (found : List (String × WorkloadRef) × List WorkloadRef)
      → All IsReplicated pods
      → (pod : Pod Q) → Memᴰ pod pods
      → HasKey (object_key pod.namespace pod.name) (collect_pods m pods found).0
  unfolding collect_pods
  HasKey-of_Mem [] found h y at = elim at [ ]
  HasKey-of_Mem (pod ∷ pods) found h y (head at) =
      subst
        (λ (u : Pod Q).
          HasKey (object_key u.namespace u.name) (collect_pods m (pod ∷ pods) found).0)
        (sym at)
        (HasKey-collect_pods (object_key pod.namespace pod.name) pods _
          (HasKey-own pod (resolve_workload pod m) h.0.0 found h.0.1))
  HasKey-of_Mem (pod ∷ pods) found h y (tail at) = HasKey-of_Mem pods _ h.1 y at

  -- After the loops, the workload of each pod of a candidate is known.
  pub IsKnown-collect_workloads :
      (xs : List (NodeInfo Q)) (found : List (String × WorkloadRef) × List WorkloadRef)
      → All (λ (x : NodeInfo Q). All IsReplicated x.evictable_pods) xs
      → (x : NodeInfo Q) (pod : Pod Q) → Memᴰ x xs
      → Memᴰ pod x.evictable_pods
      → IsKnown (collect_workloads m xs found).0 pod
  unfolding collect_workloads
  IsKnown-collect_workloads [] found h x pod at at' = elim at [ ]
  IsKnown-collect_workloads (y ∷ xs) found h x pod (head at) at' =
      HasKey-collect_workloads (object_key pod.namespace pod.name) xs _ (
        HasKey-of_Mem y.evictable_pods found h.0 pod
          (subst (λ (u : NodeInfo Q). Memᴰ pod u.evictable_pods) at at'))
  IsKnown-collect_workloads (y ∷ xs) found h x pod (tail at) at' =
      IsKnown-collect_workloads xs _ h.1 x pod at at'
