-- ===== src/Drain/Limit.antt =====
-- The limit on the candidates, and the ready nodes that it is computed from.
use slumlord.Prelude.{
  ℕ, zero, suc, ◌+◌, ◌-◌, ◌^◌, ◌≤◌, ◌<◌, ◌≡◌, refl, inl, inr, false, Option, none, some, List, [],
  ◌∷◌, String, length, All, ltb, arith, Bool-cases, if◌then◌else◌,
}
use slumlord.Prelude.Every.{All-either}
use slumlord.Prelude.Int.{pos, sub_ℤ, to_int32-eq_of_IsInt32}
use slumlord.Drain.Types.{DrainThresholds, DrainSafety, DrainNodeInfo}
use slumlord.Drain.Analysis.{
  is_node_ready, find_drain_candidates, ready_count, or_one, max_drainable,
}
use slumlord.Drain.Choice.{take_nat, limit_candidates}

length-take_nat : {A : Type 0} (n : ℕ) (xs : List A) → length (take_nat n xs) ≤ n
unfolding take_nat
length-take_nat zero xs = omega arith
length-take_nat (suc n) [] = omega arith
length-take_nat (suc n) (x ∷ xs) = omega (arith, length-take_nat n xs)

All-take_nat :
    {A : Type 0} (P : A → Type 0) (n : ℕ) (xs : List A) → All P xs → All P (take_nat n xs)
unfolding take_nat
All-take_nat P zero xs h = tt
All-take_nat P (suc n) [] h = tt
All-take_nat P (suc n) (x ∷ xs) h = (h.0, All-take_nat P n xs h.1)

-- What the limit leaves.
abbrev pub IsLimited : {A : Type 0} → (A → Type 0) → ℕ → Option (List A) → Type 0
IsLimited P n none = Unit {0}
IsLimited P n (some ys) = (length ys ≤ n) × All P ys

pub IsLimited-limit_candidates :
    {A : Type 0} (P : A → Type 0) (n : ℕ) (xs : List A)
    → length xs < 2 ^ 31
    → All P xs
    → IsLimited P n (limit_candidates (pos n) xs)
unfolding limit_candidates
IsLimited-limit_candidates P n xs small h =
    rw (to_int32-eq_of_IsInt32 (pos (length xs)) (small, omega arith))
      (elim (Bool-cases (ltb (n + 0) (length xs + 0))) [
        | inl more ↦ rw (more, not_negative) (length-take_nat n xs, All-take_nat P n xs h)
        | inr le ↦ rw le (ground arith, h)
      ])
  where
    not_negative : ltb (n + 0) 0 ≡ false
    not_negative = ground arith

-- The limit is a natural number: at most what the ready nodes exceed the minimum by.
pub max_drainable_lem :
    (safety : DrainSafety) (ready k m : ℕ)
    → ready < 2 ^ 31
    → m < 2 ^ 31
    → or_one safety.max_nodes_per_run ≡ pos k
    → or_one safety.min_ready_nodes ≡ pos m
    → (n : ℕ) × (max_drainable safety (pos ready) ≡ pos n) × (n ≤ ready - m)
unfolding max_drainable
max_drainable_lem safety ready k m small small' max min = (
  (if ltb k (ready - m) then k else ready - m),
  rw (max, min, to_int32-eq_of_IsInt32 (sub_ℤ (pos ready) (pos m)) (ground arith)) (ground arith),
  ground arith,
)

module _ {Q : Type 0} where
  -- The names of the ready nodes.
  unfoldable pub ready_names : List (DrainNodeInfo Q) → List String
  ready_names [] = []
  ready_names (x ∷ xs) =
      let rest = ready_names xs in if is_node_ready x.node then x.name ∷ rest else rest

  pub ready_count_lem :
      (xs : List (DrainNodeInfo Q))
      → length xs < 2 ^ 31
      → (ready_count xs ≡ pos (length (ready_names xs))) × (length (ready_names xs) ≤ length xs)
  unfolding ready_count ready_names
  ready_count_lem [] small = (refl, omega arith)
  ready_count_lem (x ∷ xs) small =
      let ih = ready_count_lem xs (omega (arith, small)) in
      elim (Bool-cases (is_node_ready x.node)) [
        | inl ready ↦
            rw
              (
                ready,
                ih.0,
                to_int32-eq_of_IsInt32 (pos (length (ready_names xs) + 1))
                    (omega (arith, ih.1, small), omega arith),
              )
              (ground arith, omega (arith, ih.1))
        | inr not_ready ↦ rw (not_ready) (ih.0, omega (arith, ih.1))
      ]

  pub All-find_drain_candidates :
      (P : DrainNodeInfo Q → Type 0) (t : DrainThresholds) (xs : List (DrainNodeInfo Q))
      → All P xs
      → All P (find_drain_candidates t xs)
  unfolding find_drain_candidates
  All-find_drain_candidates P t [] h = tt
  All-find_drain_candidates P t (x ∷ xs) h =
      let rest = All-find_drain_candidates P t xs h.1 in
      All-either P _ (x ∷ find_drain_candidates t xs) (find_drain_candidates t xs) (h.0, rest) rest
