-- ===== src/Packer/Plan/Loops.antt =====
-- What the loops of `buildConsolidationPlan` keep, where one round keeps it.
use mathlib.Core.List.{Memᴰ}
use mathlib.Core.List.Memᴰ.{head, tail}
use slumlord.Prelude.{◌≡◌, refl, inl, inr, false, List, [], ◌∷◌, Bool-cases}
use slumlord.Prelude.Int.{ℤ}
use slumlord.Packer.Types.{Pod, NodeInfo, SafetyContext}
use slumlord.Packer.Client.{PackerClient}
use slumlord.Packer.Plan.{Planning, is_full, plan_pod, plan_pods, plan_candidates}

module _ (c : PackerClient) (safety : SafetyContext) (max_evictions : ℤ)
    (P : Planning c.Quantity → Type 0) where
  open c use {Quantity}

  -- A round that starts below the limit.
  abbrev KeptBy : NodeInfo Quantity → Pod Quantity → Type 0
  KeptBy x pod =
      (s : Planning Quantity)
      → is_full max_evictions s.plan ≡ false
      → P s
      → P (plan_pod c safety x pod s)

  Holds-plan_pods :
      (x : NodeInfo Quantity) (pods : List (Pod Quantity))
      → ((pod : Pod Quantity) → Memᴰ pod pods → KeptBy x pod)
      → (s : Planning Quantity) → P s
      → P (plan_pods c safety max_evictions x pods s).1
  unfolding plan_pods
  Holds-plan_pods x [] keep s h = h
  Holds-plan_pods x (pod ∷ pods) keep s h = elim (Bool-cases (is_full max_evictions s.plan)) [
    | inl e ↦ rw e h
    | inr e ↦ rw e (
        Holds-plan_pods x pods (λ y m. keep y (tail m)) (plan_pod c safety x pod s)
          (keep pod (head refl) s e h))
  ]

  pub Holds-plan_candidates :
      (xs : List (NodeInfo Quantity))
      → ((x : NodeInfo Quantity) (pod : Pod Quantity)
          → Memᴰ x xs
          → Memᴰ pod x.evictable_pods
          → KeptBy x pod)
      → (s : Planning Quantity) → P s
      → P (plan_candidates c safety max_evictions xs s)
  unfolding plan_candidates
  Holds-plan_candidates [] keep s h = h
  Holds-plan_candidates (x ∷ xs) keep s h =
      let after = plan_pods c safety max_evictions x x.evictable_pods s in
      let h' = Holds-plan_pods x x.evictable_pods (λ pod m. keep x pod (head refl) m) s h in
      elim (Bool-cases after.0) [
        | inl e ↦ rw e h'
        | inr e ↦ rw e (Holds-plan_candidates xs (λ y pod m. keep y pod (tail m)) after.1 h')
      ]
