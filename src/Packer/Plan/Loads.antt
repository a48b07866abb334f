-- ===== src/Packer/Plan/Loads.antt =====
-- What a plan puts on the nodes, told from the placements that it makes.
use slumlord.Prelude.{
  ◌≡◌, refl, Bool, true, false, ◌||◌, List, [], ◌∷◌, ◌++◌, map, String, ◌==◌, any_of, arith,
  if◌then◌else◌,
}
use slumlord.Packer.Types.{Pod, NodeInfo, PlannedEviction}
use slumlord.Packer.Client.{PackerClient}
use slumlord.Packer.Plan.{requests_of, planned_eviction}

-- A pod of a candidate, and the node that it is to go to.
pub record Placement (Q : Type 0) : Type 0 where
  pub candidate : NodeInfo Q
  pub pod : Pod Q
  pub target : String

abbrev pub names_of : {Q : Type 0} → List (NodeInfo Q) → List String
names_of xs = map (λ x. x.name) xs

module _ (c : PackerClient) where
  open c use {Quantity, add, exceeds}

  abbrev pub eviction_of : Placement Quantity → PlannedEviction
  eviction_of x = planned_eviction c x.candidate x.pod x.target

  -- A sum and the parts of the placements on one node, in their order.
  unfoldable pub load :
      (Placement Quantity → Quantity) → String → Quantity → List (Placement Quantity) → Quantity
  load part name q [] = q
  load part name q (x ∷ xs) = load part name (if x.target == name then add q (part x) else q) xs

  pub load-append_one :
      (part : Placement Quantity → Quantity) (name : String) (xs : List (Placement Quantity))
      (y : Placement Quantity) (q : Quantity)
      → load part name q (xs ++ y ∷ [])
        ≡ (if y.target == name then add (load part name q xs) (part y) else load part name q xs)
  unfolding load
  load-append_one part name [] y q = refl
  load-append_one part name (x ∷ xs) y q = load-append_one part name xs y _

  abbrev pub cpu_part : Placement Quantity → Quantity
  cpu_part x = (requests_of c x.pod).0

  abbrev pub mem_part : Placement Quantity → Quantity
  mem_part x = (requests_of c x.pod).1

  -- The requests on a node with the placements.
  abbrev pub cpu_load : List (Placement Quantity) → NodeInfo Quantity → Quantity
  cpu_load ps x = load cpu_part x.name x.scheduled_requests.cpu ps

  abbrev pub mem_load : List (Placement Quantity) → NodeInfo Quantity → Quantity
  mem_load ps x = load mem_part x.name x.scheduled_requests.mem ps

  abbrev pub with_load : List (Placement Quantity) → NodeInfo Quantity → NodeInfo Quantity
  with_load ps x = record x {
    scheduled_requests = record { cpu = cpu_load ps x; mem = mem_load ps x };
  }

  abbrev pub receives : List (Placement Quantity) → NodeInfo Quantity → Bool
  receives ps x = any_of (λ y. y.target == x.name) ps

  -- A node that is to receive pods has room for all of them.
  abbrev pub HasRoom : List (Placement Quantity) → NodeInfo Quantity → Type 0
  HasRoom ps x =
      receives ps x ≡ true
      → (exceeds (cpu_load ps x) x.cpu_allocatable ≡ false)
        × (exceeds (mem_load ps x) x.mem_allocatable ≡ false)

  receives-append_one :
      (ps : List (Placement Quantity)) (y : Placement Quantity) (x : NodeInfo Quantity)
      → receives (ps ++ y ∷ []) x ≡ (receives ps x || y.target == x.name)
  receives-append_one [] y x = ground arith
  receives-append_one (z ∷ ps) y x = rw (receives-append_one ps y x) (ground arith)

  -- A placement on another node changes nothing.
  pub with_load-elsewhere :
      (ps : List (Placement Quantity)) (y : Placement Quantity) (x : NodeInfo Quantity)
      → (y.target == x.name) ≡ false
      → with_load ps x ≡ with_load (ps ++ y ∷ []) x
  with_load-elsewhere ps y x e =
      rw
        (
          load-append_one cpu_part x.name ps y x.scheduled_requests.cpu,
          load-append_one mem_part x.name ps y x.scheduled_requests.mem,
          e,
        )
        refl

  pub HasRoom-elsewhere :
      (ps : List (Placement Quantity)) (y : Placement Quantity) (x : NodeInfo Quantity)
      → (y.target == x.name) ≡ false
      → HasRoom ps x
      → HasRoom (ps ++ y ∷ []) x
  HasRoom-elsewhere ps y x e h r =
      rw
        (
          load-append_one cpu_part x.name ps y x.scheduled_requests.cpu,
          load-append_one mem_part x.name ps y x.scheduled_requests.mem,
          e,
        )
        (h (ground (arith, receives-append_one ps y x, e, r)))
