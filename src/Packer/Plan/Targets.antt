-- ===== src/Packer/Plan/Targets.antt =====
-- The nodes that are no candidates.
use mathlib.Core.List.{Memᴰ}
use mathlib.Core.List.Memᴰ.{head, tail}
use slumlord.Prelude.{
  ◌≡◌, refl, inl, inr, Bool, true, false, List, [], ◌∷◌, String, contains, arith, Bool-cases,
  if◌then◌else◌,
}
use slumlord.Drain.Count.{IsDistinct}
use slumlord.Packer.Types.{NodeInfo}
use slumlord.Packer.Plan.{target_nodes}
use slumlord.Packer.Plan.Loads.{names_of}

module _ {Q : Type 0} where
  pub names_of-target_nodes :
      (k : String) (names : List String) (xs : List (NodeInfo Q))
      → contains k (names_of xs) ≡ false
      → contains k (names_of (target_nodes names xs)) ≡ false
  unfolding target_nodes
  names_of-target_nodes k names [] h = refl
  names_of-target_nodes k names (x ∷ xs) h =
      ground (arith, names_of-target_nodes k names xs (ground (arith, h)), h)

  pub IsDistinct-target_nodes :
      (names : List String) (xs : List (NodeInfo Q))
      → IsDistinct (names_of xs)
      → IsDistinct (names_of (target_nodes names xs))
  unfolding target_nodes
  IsDistinct-target_nodes names [] h = tt
  IsDistinct-target_nodes names (x ∷ xs) h = elim (Bool-cases (contains x.name names)) [
    | inl e ↦ rw e (IsDistinct-target_nodes names xs h.1)
    | inr e ↦ rw e (names_of-target_nodes x.name names xs h.0, IsDistinct-target_nodes names xs h.1)
  ]

  pub Mem-target_nodes :
      (names : List String) (xs : List (NodeInfo Q)) (x : NodeInfo Q)
      → Memᴰ x (target_nodes names xs)
      → Memᴰ x xs × (contains x.name names ≡ false)
  unfolding target_nodes
  Mem-target_nodes names [] x at = elim at [ ]
  Mem-target_nodes names (y ∷ xs) x at =
      go (contains y.name names) refl (Mem-target_nodes names xs x) at
    where
      go :
          (b : Bool)
          → contains y.name names ≡ b
          → (Memᴰ x (target_nodes names xs) → Memᴰ x xs × (contains x.name names ≡ false))
          → Memᴰ x (if b then target_nodes names xs else y ∷ target_nodes names xs)
          → Memᴰ x (y ∷ xs) × (contains x.name names ≡ false)
      go true e ih m = (tail (ih m).0, (ih m).1)
      go false e ih (head same) = (head same, rw same e)
      go false e ih (tail m) = (tail (ih m).0, (ih m).1)
