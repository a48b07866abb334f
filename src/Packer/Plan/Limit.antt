-- ===== src/Packer/Plan/Limit.antt =====
-- How long a plan can be.
use slumlord.Prelude.{
  ℕ, suc, ◌^◌, ◌≤◌, ◌<◌, ◌≡◌, refl, inl, inr, false, some, List, [], ◌∷◌, ◌++◌, ◌==◌, lookup,
  length, arith, Bool-cases,
}
use slumlord.Prelude.Int.{pos, to_int32-eq_of_IsInt32}
use slumlord.Packer.Types.{PlannedEviction, BinPacker, Pod, NodeInfo, SafetyContext}
use slumlord.Packer.Client.{PackerClient}
use slumlord.Packer.Owners.{object_key}
use slumlord.Packer.Plan.{
  Planning, is_exhausted, is_full, find_target_node, plan_target, plan_pod, consolidate,
  initial_planning, build_consolidation_plan,
}
use slumlord.Packer.Plan.Loops.{Holds-plan_candidates}

length-append_one : {A : Type 0} (xs : List A) (y : A) → length (xs ++ y ∷ []) ≡ suc (length xs)
length-append_one [] y = refl
length-append_one (x ∷ xs) y = ground (arith, length-append_one xs y)

-- Below the limit there is room for one more.
is_full_lem :
    (k : ℕ) (plan : List PlannedEviction)
    → suc k < 2 ^ 31
    → length plan ≤ suc k
    → is_full (pos (suc k)) plan ≡ false
    → length plan ≤ k
is_full_lem k plan small le below =
    let exact =
      to_int32-eq_of_IsInt32 (pos (length plan)) (omega (arith, small, le), omega arith) in
    ground (arith, exact, below)

module _ (c : PackerClient) (safety : SafetyContext) where
  open c use {Quantity}

  plan_pod_grows :
      (x : NodeInfo Quantity) (pod : Pod Quantity) (s : Planning Quantity)
      → length (plan_pod c safety x pod s).plan ≤ suc (length s.plan)
  unfolding plan_pod plan_target
  plan_pod_grows x pod s =
      let owner = lookup (object_key pod.namespace pod.name) safety.pod_workloads in
      elim (Bool-cases (is_exhausted owner s.budgets)) [
        | inl e ↦ rw e (omega arith)
        | inr e ↦
            let (name, targets) = find_target_node c pod s.targets in
            rw e (elim (Bool-cases (name == "")) [
              | inl e' ↦ rw e' (omega arith)
              | inr e' ↦ rw (e', length-append_one s.plan _) (omega arith)
            ])
      ]

  -- A limit on the evictions of a cycle that is at least one bounds the plan.
  pub plan_limit :
      (candidates all_nodes : List (NodeInfo Quantity)) (p : BinPacker) (k : ℕ)
      → p.spec.max_evictions_per_cycle ≡ some (pos (suc k))
      → suc k < 2 ^ 31
      → length (build_consolidation_plan c candidates all_nodes p safety) ≤ suc k
  unfolding consolidate
  plan_limit candidates all_nodes p k e small = rw e (
      Holds-plan_candidates c safety (pos (suc k))
        (λ (s : Planning Quantity). length s.plan ≤ suc k) candidates
        (λ x pod _ _ s below le.
          omega (arith, plan_pod_grows x pod s, is_full_lem k s.plan small le below))
        (initial_planning c candidates all_nodes safety) (omega arith))
