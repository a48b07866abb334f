-- ===== src/Packer/Plan/Known.antt =====
-- Every pod that a plan evicts is one of a known workload, so its eviction is counted.
use mathlib.Core.List.{Memᴰ}
use slumlord.Prelude.{
  ◌≡◌, inl, inr, Bool, true, some, List, [], ◌∷◌, String, ◌==◌, lookup, All, arith, Bool-cases,
  Option-cases, is_empty,
}
use slumlord.Prelude.Int.{pos}
use slumlord.Change.{or_else}
use slumlord.Prelude.Every.{All-of_Mem, Mem-All, All-either, All-append_one}
use slumlord.Packer.Types.{
  BinPackerThresholds, PlannedEviction, BinPacker, Pod, Node, NodeInfo, WorkloadRef, SafetyContext,
}
use slumlord.Packer.Client.{PackerClient}
use slumlord.Packer.Owners.{object_key, ReplicaSets, resolve_workload, is_evictable}
use slumlord.Packer.Analysis.{
  excluded_namespaces, running_on, evictable, below_thresholds, info_of, infos_of,
  find_candidate_nodes,
}
use slumlord.Packer.Safety.Found.{IsKnown, IsReplicated}
use slumlord.Packer.Plan.{
  Planning, is_exhausted, planned_eviction, find_target_node, plan_target, plan_pod, consolidate,
  initial_planning, build_consolidation_plan,
}
use slumlord.Packer.Plan.Loops.{Holds-plan_candidates}

module _ {Q : Type 0} (p : BinPacker) (m : ReplicaSets) where
  is_evictable-IsReplicated :
      (pod : Pod Q) (excluded included : List String)
      → is_evictable pod excluded included m ≡ true
      → IsReplicated m pod
  unfolding is_evictable
  is_evictable-IsReplicated pod excluded included h = elim (Option-cases (resolve_workload pod m)) [
    | inl e ↦ ground (arith, h, e)
    | inr found ↦ found
  ]

  IsReplicated-evictable : (pods : List (Pod Q)) → All (IsReplicated m) (evictable p m pods)
  unfolding evictable
  IsReplicated-evictable [] = tt
  IsReplicated-evictable (x ∷ xs) =
      elim (Bool-cases (is_evictable x (excluded_namespaces p) p.spec.namespaces m)) [
        | inl e ↦ rw e (is_evictable-IsReplicated x _ _ e, IsReplicated-evictable xs)
        | inr e ↦ rw e (IsReplicated-evictable xs)
      ]

-- The pods of a node that can be evicted have workloads.
abbrev pub HasReplicatedPods : {Q : Type 0} → ReplicaSets → NodeInfo Q → Type 0
HasReplicatedPods m x = All (IsReplicated m) x.evictable_pods

module _ (c : PackerClient) where
  open c use {Quantity, sort_slice}

  -- `sort.Slice` adds no item.
  abbrev pub SortAddsNone : Type 0
  SortAddsNone =
      (less : NodeInfo Quantity → NodeInfo Quantity → Bool) (xs : List (NodeInfo Quantity))
      (x : NodeInfo Quantity)
      → Memᴰ x (sort_slice less xs)
      → Memᴰ x xs

  HasReplicatedPods-infos_of :
      (p : BinPacker) (m : ReplicaSets) (pods : List (Pod Quantity)) (nodes : List (Node Quantity))
      → All (HasReplicatedPods m) (infos_of c p m pods nodes)
  unfolding infos_of info_of
  HasReplicatedPods-infos_of p m pods [] = tt
  HasReplicatedPods-infos_of p m pods (node ∷ nodes) =
      let rest = HasReplicatedPods-infos_of p m pods nodes in
      All-either (HasReplicatedPods m) node.unschedulable _ _ rest (
        All-either (HasReplicatedPods m) _ _ (info_of c p m pods node ∷ infos_of c p m pods nodes)
          rest (IsReplicated-evictable p m (running_on node.name pods), rest))

  All-below_thresholds :
      (P : NodeInfo Quantity → Type 0) (t : BinPackerThresholds) (xs : List (NodeInfo Quantity))
      → All P xs
      → All P (below_thresholds t xs)
  unfolding below_thresholds
  All-below_thresholds P t [] h = tt
  All-below_thresholds P t (x ∷ xs) h =
      let rest = All-below_thresholds P t xs h.1 in
      All-either P (is_empty x.evictable_pods) _ _ rest
        (All-either P _ (x ∷ below_thresholds t xs) _ (h.0, rest) rest)

  -- What holds of every node holds of the candidates.
  pub All-find_candidate_nodes :
      (P : NodeInfo Quantity → Type 0) (t : BinPackerThresholds) (xs : List (NodeInfo Quantity))
      → SortAddsNone
      → All P xs
      → All P (find_candidate_nodes c t xs)
  unfolding find_candidate_nodes
  All-find_candidate_nodes P t xs sorts h =
      All-of_Mem P _ (λ x at. Mem-All P _ x (All-below_thresholds P t xs h) (sorts _ _ x at))

  pub HasReplicatedPods-candidates :
      (p : BinPacker) (m : ReplicaSets) (pods : List (Pod Quantity)) (nodes : List (Node Quantity))
      → SortAddsNone
      → All
          (HasReplicatedPods m)
          (find_candidate_nodes c p.spec.thresholds (infos_of c p m pods nodes))
  HasReplicatedPods-candidates p m pods nodes sorts =
      All-find_candidate_nodes (HasReplicatedPods m) p.spec.thresholds _ sorts
        (HasReplicatedPods-infos_of p m pods nodes)

  module _ (safety : SafetyContext) where
    -- The workload of an evicted pod is known.
    abbrev pub IsCounted : PlannedEviction → Type 0
    IsCounted x =
        (wl : WorkloadRef) × (lookup (object_key x.namespace x.pod_name) safety.pod_workloads
          ≡ some wl)

    IsCounted-plan_pod :
        (candidate : NodeInfo Quantity) (pod : Pod Quantity)
        → IsKnown safety.pod_workloads pod
        → (s : Planning Quantity) → All IsCounted s.plan
        → All IsCounted (plan_pod c safety candidate pod s).plan
    unfolding plan_pod plan_target planned_eviction
    IsCounted-plan_pod candidate pod known s h =
        let owner = lookup (object_key pod.namespace pod.name) safety.pod_workloads in
        let (name, targets) = find_target_node c pod s.targets in
        elim (Bool-cases (is_exhausted owner s.budgets)) [
          | inl e ↦ rw e h
          | inr e ↦ rw e (elim (Bool-cases (name == "")) [
            | inl e' ↦ rw e' h
            | inr e' ↦ rw e' (All-append_one IsCounted s.plan _ h known)
          ])
        ]

    pub IsCounted-consolidate :
        (candidates all_nodes : List (NodeInfo Quantity)) (p : BinPacker)
        → ((x : NodeInfo Quantity) (pod : Pod Quantity)
            → Memᴰ x candidates
            → Memᴰ pod x.evictable_pods
            → IsKnown safety.pod_workloads pod)
        → All IsCounted (build_consolidation_plan c candidates all_nodes p safety)
    unfolding consolidate
    IsCounted-consolidate candidates all_nodes p known =
        Holds-plan_candidates c safety (or_else p.spec.max_evictions_per_cycle (pos 0))
          (λ (s : Planning Quantity). All IsCounted s.plan) candidates
          (λ x pod at at' s _. IsCounted-plan_pod x pod (known x pod at at') s)
          (initial_planning c candidates all_nodes safety) tt
