-- ===== src/Packer/Plan/Budget.antt =====
-- How many pods of one workload a plan evicts.
use slumlord.Prelude.{
  ℕ, ◌+◌, ◌≤◌, ◌≡◌, refl, ap, inl, inr, Bool, true, false, Option, none, some, List, [], ◌∷◌, ◌++◌,
  String, ◌==◌, eq_iff, lookup, arith, Bool-cases, if◌then◌else◌,
}
use slumlord.Prelude.Int.{ℤ, pos, negsuc, pos_part, sub_ℤ, leb_ℤ, to_int32}
use slumlord.Change.{or_else}
use slumlord.Packer.Types.{PlannedEviction, BinPacker, Pod, NodeInfo, WorkloadRef, SafetyContext}
use slumlord.Packer.Client.{PackerClient}
use slumlord.Packer.Owners.{object_key}
use slumlord.Packer.Safety.{same_workload, Budgets, budget_of, set_budget}
use slumlord.Packer.Plan.Loops.{Holds-plan_candidates}
use slumlord.Packer.Plan.{
  initial_planning, Planning, is_exhausted, spend, planned_eviction, find_target_node, plan_target,
  plan_pod, consolidate, build_consolidation_plan,
}

same_workload-left :
    (a b v : WorkloadRef) → same_workload a b ≡ true → same_workload a v ≡ same_workload b v
same_workload-left a b v h =
    ground (arith, eq_iff a.namespace b.namespace, eq_iff a.kind b.kind, eq_iff a.name b.name)

same_workload-apart :
    (a b v : WorkloadRef)
    → same_workload a b ≡ false
    → same_workload b v ≡ true
    → same_workload a v ≡ false
same_workload-apart a b v h k =
    ground (arith, eq_iff b.namespace v.namespace, eq_iff b.kind v.kind, eq_iff b.name v.name)

if_same :
    {A : Type 0} (t : Bool) (x y z : A)
    → (if t then x else y) ≡ (if t then x else if t then z else y)
if_same true x y z = refl
if_same false x y z = refl

if_swap :
    {A : Type 0} (s t : Bool) (x y z : A)
    → (t ≡ true → s ≡ false)
    → (if s then x else if t then y else z) ≡ (if t then y else if s then x else z)
if_swap false t x y z h = refl
if_swap true false x y z h = refl
if_swap true true x y z h = ground (arith, h refl)

pub budget_of-set_budget :
    (v wl : WorkloadRef) (b : ℤ) (bs : Budgets)
    → budget_of v (set_budget wl b bs) ≡ (if same_workload wl v then b else budget_of v bs)
unfolding budget_of set_budget
budget_of-set_budget v wl b [] = refl
budget_of-set_budget v wl b ((u, old) ∷ bs) = elim (Bool-cases (same_workload u wl)) [
  | inl e ↦
      rw (e, same_workload-left u wl v e) (if_same (same_workload wl v) b (budget_of v bs) old)
  | inr e ↦
      rw (e, budget_of-set_budget v wl b bs)
        (if_swap (same_workload u v) (same_workload wl v) old b (budget_of v bs)
          (same_workload-apart u wl v e))
]

-- Does a pod belong to a workload?
abbrev pub is_owner : WorkloadRef → Option WorkloadRef → Bool
is_owner wl none = false
is_owner wl (some v) = same_workload v wl

-- The number of the planned evictions whose pods belong to a workload.
unfoldable pub evictions_of : List (String × WorkloadRef) → WorkloadRef → List PlannedEviction → ℕ
evictions_of by_pod wl [] = 0
evictions_of by_pod wl (x ∷ xs) =
    let rest = evictions_of by_pod wl xs in
    if is_owner wl (lookup (object_key x.namespace x.pod_name) by_pod) then rest + 1 else rest

evictions_of-append :
    (by_pod : List (String × WorkloadRef)) (wl : WorkloadRef) (xs : List PlannedEviction)
    (y : PlannedEviction)
    → evictions_of by_pod wl (xs ++ y ∷ []) ≡ (
        if is_owner wl (lookup (object_key y.namespace y.pod_name) by_pod)
        then evictions_of by_pod wl xs + 1
        else evictions_of by_pod wl xs)
unfolding evictions_of
evictions_of-append by_pod wl [] y = refl
evictions_of-append by_pod wl (x ∷ xs) y = rw (evictions_of-append by_pod wl xs y) (ground arith)

-- A budget that is not exhausted loses one.
spend_step :
    (b : ℤ) → leb_ℤ b (pos 0) ≡ false → pos_part (to_int32 (sub_ℤ b (pos 1))) + 1 ≤ pos_part b
unfolding to_int32
spend_step (pos n) h = ground arith
spend_step (negsuc n) h = ground arith

same_workload-right :
    (a b v : WorkloadRef) → same_workload a b ≡ true → same_workload v a ≡ same_workload v b
same_workload-right a b v h =
    ground (arith, eq_iff a.namespace b.namespace, eq_iff a.kind b.kind, eq_iff a.name b.name)

pub budget_of_same :
    (v wl : WorkloadRef) (bs : Budgets)
    → same_workload v wl ≡ true
    → budget_of v bs ≡ budget_of wl bs
unfolding budget_of
budget_of_same v wl [] h = refl
budget_of_same v wl ((u, b) ∷ bs) h =
    rw (same_workload-right v wl u h, budget_of_same v wl bs h) refl

spend_lem :
    (wl : WorkloadRef) (owner : Option WorkloadRef) (bs : Budgets)
    → is_exhausted owner bs ≡ false
    → pos_part (budget_of wl (spend owner bs)) + (if is_owner wl owner then 1 else 0)
      ≤ pos_part (budget_of wl bs)
unfolding is_exhausted spend
spend_lem wl none bs h = omega arith
spend_lem wl (some v) bs h = elim (Bool-cases (same_workload v wl)) [
  | inl e ↦
      rw (budget_of-set_budget wl v (to_int32 (sub_ℤ (budget_of v bs) (pos 1))) bs, e)
        (omega (arith, spend_step (budget_of v bs) h, ap pos_part (budget_of_same v wl bs e)))
  | inr e ↦
      rw (budget_of-set_budget wl v (to_int32 (sub_ℤ (budget_of v bs) (pos 1))) bs, e) (omega arith)
]

add_step :
    (b : Bool) (n left before total : ℕ)
    → left + (if b then 1 else 0) ≤ before
    → n + before ≤ total
    → (if b then n + 1 else n) + left ≤ total
add_step b n left before total h k = ground arith

module _ (c : PackerClient) (safety : SafetyContext) (wl : WorkloadRef) where
  open c use {Quantity}

  -- What has been planned and what is left are within the budget.
  abbrev IsWithin : Planning Quantity → Type 0
  IsWithin s =
      evictions_of safety.pod_workloads wl s.plan + pos_part (budget_of wl s.budgets)
      ≤ pos_part (budget_of wl safety.disruption_budget)

  IsWithin-plan_pod :
      (candidate : NodeInfo Quantity) (pod : Pod Quantity) (s : Planning Quantity)
      → IsWithin s
      → IsWithin (plan_pod c safety candidate pod s)
  unfolding plan_pod plan_target planned_eviction
  IsWithin-plan_pod candidate pod s h =
      let owner = lookup (object_key pod.namespace pod.name) safety.pod_workloads in
      elim (Bool-cases (is_exhausted owner s.budgets)) [
        | inl e ↦ rw e h
        | inr e ↦
            let (name, targets) = find_target_node c pod s.targets in
            rw e (elim (Bool-cases (name == "")) [
              | inl e' ↦ rw e' h
              | inr e' ↦
                  rw
                    (
                      e',
                      evictions_of-append safety.pod_workloads wl s.plan
                          (planned_eviction c candidate pod name),
                    )
                    (add_step (is_owner wl owner) _ _ _ _ (spend_lem wl owner s.budgets e) h)
            ])
      ]

  -- The plan evicts at most as many pods of a workload as its budget allows.
  pub consolidate_within_budget :
      (candidates all_nodes : List (NodeInfo Quantity)) (p : BinPacker)
      → evictions_of safety.pod_workloads wl
          (build_consolidation_plan c candidates all_nodes p safety)
        ≤ pos_part (budget_of wl safety.disruption_budget)
  unfolding consolidate evictions_of
  consolidate_within_budget candidates all_nodes p =
      let s = initial_planning c candidates all_nodes safety in
      omega (
        arith,
        Holds-plan_candidates c safety (or_else p.spec.max_evictions_per_cycle (pos 0)) IsWithin
            candidates (λ x pod _ _ s _. IsWithin-plan_pod x pod s) s (omega arith),
      )
