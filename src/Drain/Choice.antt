-- ===== src/Drain/Choice.antt =====
-- Whether a run is due, and the limit on its candidates.
use slumlord.Prelude.{
  ℕ, zero, suc, Bool, ◌&&◌, Option, none, some, List, [], ◌∷◌, ltb, leb, length, if◌then◌else◌,
}
use slumlord.Prelude.Int.{ℤ, pos, pos_part, ltb_ℤ, to_int32}
use slumlord.Drain.Types.{DrainRunStatus}

-- Is a run due? `tick` is the first tick after two minutes ago.
unfoldable pub should_run : Option DrainRunStatus → ℕ → ℕ → Bool
should_run none tick now = leb tick now
should_run (some last) tick now = ltb last.start_time tick && leb tick now

-- `xs[:n]`, where `n` is at most the length: none for a negative `n`, which panics.
unfoldable pub take_nat : {A : Type 0} → ℕ → List A → List A
take_nat zero xs = []
take_nat (suc n) [] = []
take_nat (suc n) (x ∷ xs) = x ∷ take_nat n xs

pub take_int : {A : Type 0} → ℤ → List A → Option (List A)
unfolding take_nat
take_int n xs = if ltb_ℤ n (pos 0) then none else some (take_nat (pos_part n) xs)

-- `if int32(len(candidates)) > maxDrainable { candidates = candidates[:maxDrainable] }`
unfoldable pub limit_candidates : {A : Type 0} → ℤ → List A → Option (List A)
unfolding take_int
limit_candidates n xs = if ltb_ℤ n (to_int32 (pos (length xs))) then take_int n xs else some xs
