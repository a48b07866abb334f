-- ===== src/Packer/Safety/Allowed.antt =====
-- What the budget of a workload allows: as much as each of its PodDisruptionBudgets, and without one
-- all ready replicas but one.
use slumlord.Prelude.{
  ℕ, ◌-◌, ◌≤◌, ◌≡◌, refl, ◌⊎◌, inl, inr, Bool, true, false, ◌&&◌, ◌||◌, List, [], ◌∷◌, Option, All,
  any_of, arith, Bool-cases, true-or, false-or, if◌then◌else◌,
}
use slumlord.Prelude.Every.{All-imp}
use slumlord.Prelude.Int.{ℤ, pos, negsuc, pos_part, sub_ℤ, ltb_ℤ, leb_ℤ, eqb_ℤ, to_int32}
use slumlord.Action.{Reply}
use slumlord.Cluster.{Labels}
use slumlord.Policy.Types.{LabelSelector}
use slumlord.Packer.Types.{Replicated, DisruptionBudget, WorkloadRef}
use slumlord.Packer.Safety.{
  template_labels_of, ready_replicas_of, guards, least_allowed, disruption_budget_of,
}

abbrev pub IsNatural : ℤ → Type 0
IsNatural z = leb_ℤ (pos 0) z ≡ true

-- One round of the loop over the PodDisruptionBudgets.
abbrev round : Bool → ℤ → ℤ → ℤ
round guarding allowed budget =
    if guarding && (eqb_ℤ budget (negsuc 0) || ltb_ℤ allowed budget) then allowed else budget

round_le :
    (g : Bool) (a b : ℤ)
    → IsNatural a
    → IsNatural b
    → IsNatural (round g a b) × (pos_part (round g a b) ≤ pos_part b)
round_le g a b h k = ground arith

round_guarding :
    (a b : ℤ)
    → IsNatural a
    → (b ≡ negsuc 0) ⊎ IsNatural b
    → IsNatural (round true a b) × (pos_part (round true a b) ≤ pos_part a)
round_guarding a b h (inl e) = rw e (ground arith)
round_guarding a b h (inr k) = ground arith

round_kept :
    (g : Bool) (a b : ℤ)
    → IsNatural a
    → (b ≡ negsuc 0) ⊎ IsNatural b
    → (round g a b ≡ negsuc 0) ⊎ IsNatural (round g a b)
round_kept true a b h k = inr (round_guarding a b h k).0
round_kept false a b h k = k

module _ (selects : LabelSelector → Labels → Reply Bool) (wl : WorkloadRef) (ls : Labels) where
  abbrev AllNatural : List DisruptionBudget → Type 0
  AllNatural = All (λ x. IsNatural x.disruptions_allowed)

  least_allowed_le :
      (xs : List DisruptionBudget) (b : ℤ)
      → AllNatural xs
      → IsNatural b
      → IsNatural (least_allowed selects wl ls b xs)
        × (pos_part (least_allowed selects wl ls b xs) ≤ pos_part b)
  unfolding least_allowed
  least_allowed_le [] b h k = (k, omega arith)
  least_allowed_le (x ∷ xs) b h k =
      let step = round_le (guards selects x wl ls) x.disruptions_allowed b h.0 k in
      let rest = least_allowed_le xs _ h.1 step.0 in (rest.0, omega (arith, rest.1, step.1))

  least_allowed_guarding :
      (xs : List DisruptionBudget) (b : ℤ)
      → AllNatural xs
      → (b ≡ negsuc 0) ⊎ IsNatural b
      → All
          (λ x.
            guards selects x wl ls ≡ true
            → IsNatural (least_allowed selects wl ls b xs)
              × (pos_part (least_allowed selects wl ls b xs) ≤ pos_part x.disruptions_allowed))
          xs
  unfolding least_allowed
  least_allowed_guarding [] b h k = tt
  least_allowed_guarding (x ∷ xs) b h k = (
    (λ g. rw g (
        let step = round_guarding x.disruptions_allowed b h.0 k in
        let rest = least_allowed_le xs _ h.1 step.0 in (rest.0, omega (arith, rest.1, step.1)))),
    least_allowed_guarding xs _ h.1
        (round_kept (guards selects x wl ls) x.disruptions_allowed b h.0 k),
  )

  least_allowed_unguarded :
      (xs : List DisruptionBudget) (b : ℤ)
      → any_of (λ x. guards selects x wl ls) xs ≡ false
      → least_allowed selects wl ls b xs ≡ b
  unfolding least_allowed
  least_allowed_unguarded [] b h = refl
  least_allowed_unguarded (x ∷ xs) b h = elim (Bool-cases (guards selects x wl ls)) [
    | inl e ↦ ground (arith, h, e)
    | inr e ↦ rw e (least_allowed_unguarded xs b (ground (arith, h, e)))
  ]

module _ (selects : LabelSelector → Labels → Reply Bool) where
  -- So many evictions of a workload's pods are no more than each of its PodDisruptionBudgets
  -- allows, and leave a ready replica where it has none.
  abbrev pub Allows : List DisruptionBudget → Option Replicated → WorkloadRef → ℕ → Type 0
  Allows pdbs object wl n =
      All
        (λ x.
          (guards selects x wl (template_labels_of object) ≡ false)
          ⊎ (n ≤ pos_part x.disruptions_allowed))
        pdbs
      × ((any_of (λ x. guards selects x wl (template_labels_of object)) pdbs ≡ true)
          ⊎ (n ≤ pos_part (ready_replicas_of object) - 1))

  pub Allows-le :
      (pdbs : List DisruptionBudget) (object : Option Replicated) (wl : WorkloadRef) {n k : ℕ}
      → n ≤ k
      → Allows pdbs object wl k
      → Allows pdbs object wl n
  Allows-le pdbs object wl {n} {k} le h =
      (All-imp pdbs (λ x. lower (pos_part x.disruptions_allowed)) h.0, lower _ h.1)
    where
      lower : {P : Type 0} (b : ℕ) → P ⊎ (k ≤ b) → P ⊎ (n ≤ b)
      lower b (inl p) = inl p
      lower b (inr fits) = inr (omega (arith, le, fits))

  spare_le : (z : ℤ) → IsNatural z → pos_part (to_int32 (sub_ℤ z (pos 1))) ≤ pos_part z - 1
  unfolding to_int32
  spare_le (pos n) h = ground arith
  spare_le (negsuc n) h = ground arith

  pub Allows-disruption_budget_of :
      (pdbs : List DisruptionBudget) (object : Option Replicated) (wl : WorkloadRef) (n : ℕ)
      → All (λ x. IsNatural x.disruptions_allowed) pdbs
      → IsNatural (ready_replicas_of object)
      → n ≤ pos_part (disruption_budget_of selects pdbs object wl)
      → Allows pdbs object wl n
  unfolding disruption_budget_of
  Allows-disruption_budget_of pdbs object wl n natural ready h =
      let ls = template_labels_of object in
      (
        All-imp pdbs
            (λ x le. true-or (guards selects x wl ls) (λ g. omega (
              arith,
              (le g).1,
              within (least_allowed selects wl ls (negsuc 0) pdbs) _ n (le g).0 h,
            )))
            (least_allowed_guarding selects wl ls pdbs (negsuc 0) natural (inl refl)),
        false-or (any_of (λ x. guards selects x wl ls) pdbs) (λ none. omega (
          arith,
          spare_le (ready_replicas_of object) ready,
          beyond (least_allowed selects wl ls (negsuc 0) pdbs) _ n
              (least_allowed_unguarded selects wl ls pdbs (negsuc 0) none) h,
        )),
      )
    where
      within :
          (b spare : ℤ) (n : ℕ)
          → IsNatural b
          → n ≤ pos_part (if leb_ℤ (pos 0) b then b else spare)
          → n ≤ pos_part b
      within b spare n e h = ground arith

      beyond :
          (b spare : ℤ) (n : ℕ)
          → b ≡ negsuc 0
          → n ≤ pos_part (if leb_ℤ (pos 0) b then b else spare)
          → n ≤ pos_part spare
      beyond b spare n e h = ground arith
