-- ===== src/Packer/Plan/Capacity.antt =====
-- The plan puts no more on a node than it can hold.
use mathlib.Core.List.{Memᴰ}
use slumlord.Prelude.{
  ◌≡◌, refl, sym, ap, ◌∙◌, inl, inr, Bool, true, false, List, [], ◌∷◌, ◌++◌, map, eq_iff, ◌⊎◌,
  contains, lookup, All, arith, Bool-cases, true-or, if◌then◌else◌,
}
use slumlord.Prelude.Every.{All-append_one, All-imp}
use slumlord.Prelude.Int.{pos}
use slumlord.Change.{or_else}
use slumlord.Drain.Count.{IsDistinct}
use slumlord.Packer.Types.{BinPacker, Pod, NodeInfo, SafetyContext}
use slumlord.Packer.Client.{PackerClient}
use slumlord.Packer.Owners.{object_key}
use slumlord.Packer.Plan.{
  Planning, is_exhausted, target_nodes, find_target_node, plan_target, plan_pod, consolidate,
  initial_planning, build_consolidation_plan,
}
use slumlord.Packer.Plan.Loops.{Holds-plan_candidates}
use slumlord.Packer.Plan.Loads.{
  Placement, names_of, eviction_of, load, with_load, HasRoom, receives, cpu_load, mem_load,
}
use slumlord.Packer.Plan.Targets.{names_of-target_nodes, IsDistinct-target_nodes, Mem-target_nodes}
use slumlord.Packer.Plan.FirstFit.{absent-Mem, Takes, placement_on, find_target_node_lem}

map_append_one :
    {A B : Type 0} (f : A → B) (xs : List A) (y : A) → map f (xs ++ y ∷ []) ≡ map f xs ++ f y ∷ []
map_append_one f [] y = refl
map_append_one f (x ∷ xs) y = ap (λ ys. f x ∷ ys) (map_append_one f xs y)

module _ (c : PackerClient) where
  open c use {Quantity, exceeds}

  -- A pod that a candidate could give away goes to a target that takes it.
  abbrev pub IsPlaced :
      List (NodeInfo Quantity) → List (NodeInfo Quantity) → Placement Quantity → Type 0
  IsPlaced candidates targets y =
      Memᴰ y.candidate candidates
      × Memᴰ y.pod y.candidate.evictable_pods
      × (x : NodeInfo Quantity) × Memᴰ x targets
      × (y.target ≡ x.name)
      × Takes c y.pod x

  module _ (safety : SafetyContext) (candidates ts : List (NodeInfo Quantity)) where
    -- The state of the loops, told from the placements.
    abbrev IsPacked : Planning Quantity → Type 0
    IsPacked s =
        (ps : List (Placement Quantity)) × (s.plan ≡ map (eviction_of c) ps)
        × (s.targets ≡ map (with_load c ps) ts)
        × All (IsPlaced candidates ts) ps
        × All (HasRoom c ps) ts

    module _ (distinct : IsDistinct (names_of ts)) (named : contains "" (names_of ts) ≡ false) where
      IsPacked-plan_target :
          (candidate : NodeInfo Quantity) (pod : Pod Quantity) (s : Planning Quantity)
          → Memᴰ candidate candidates
          → Memᴰ pod candidate.evictable_pods
          → IsPacked s
          → IsPacked (
              plan_target c candidate pod
                (lookup (object_key pod.namespace pod.name) safety.pod_workloads)
                (find_target_node c pod s.targets)
                s)
      unfolding plan_target
      IsPacked-plan_target candidate pod s at at' (ps, plan, targets, placed, rooms) =
          elim (find_target_node_lem c candidate pod ps ts distinct rooms) [
            | inl none ↦ rw (targets, none) (ps, plan, refl, placed, rooms)
            | inr (x, at'', takes, found, rooms') ↦
                rw (targets, found, absent-Mem "" ts x named at'')
                  (
                    ps ++ placement_on c candidate pod ps x ∷ [],
                    ap (λ xs. xs ++ eviction_of c (placement_on c candidate pod ps x) ∷ []) plan
                        ∙ sym
                            (map_append_one (eviction_of c) ps (placement_on c candidate pod ps x)),
                    refl,
                    All-append_one (IsPlaced candidates ts) ps _ placed
                        (at, at', x, at'', refl, takes),
                    rooms',
                  )
          ]

      IsPacked-plan_pod :
          (candidate : NodeInfo Quantity) (pod : Pod Quantity)
          → Memᴰ candidate candidates
          → Memᴰ pod candidate.evictable_pods
          → (s : Planning Quantity) → IsPacked s
          → IsPacked (plan_pod c safety candidate pod s)
      unfolding plan_pod
      IsPacked-plan_pod candidate pod at at' s h =
          let owner = lookup (object_key pod.namespace pod.name) safety.pod_workloads in
          elim (Bool-cases (is_exhausted owner s.budgets)) [
            | inl e ↦ rw e h
            | inr e ↦ rw e (IsPacked-plan_target candidate pod s at at' h)
          ]

  nothing_placed :
      (ts : List (NodeInfo Quantity)) → (ts ≡ map (with_load c []) ts) × All (HasRoom c []) ts
  unfolding load
  nothing_placed [] = (refl, tt)
  nothing_placed (t ∷ ts) =
      let rest = nothing_placed ts in (ap (λ xs. t ∷ xs) rest.0, ((λ e. ground (arith, e)), rest.1))

  -- The same, of a node among all of them that has not the name of a candidate.
  abbrev pub IsPlacedOutside :
      List (NodeInfo Quantity) → List (NodeInfo Quantity) → Placement Quantity → Type 0
  IsPlacedOutside candidates all_nodes y =
      (contains y.target (names_of candidates) ≡ false) × IsPlaced candidates all_nodes y

  IsPlacedOutside-of_target :
      (candidates all_nodes : List (NodeInfo Quantity)) (y : Placement Quantity)
      → IsPlaced candidates (target_nodes (names_of candidates) all_nodes) y
      → IsPlacedOutside candidates all_nodes y
  IsPlacedOutside-of_target candidates all_nodes y (at, at', x, at'', e, takes) =
      let (m, outside) = Mem-target_nodes (names_of candidates) all_nodes x at'' in
      (rw e outside, (at, at', x, m, e, takes))

  -- A candidate receives nothing.
  receives-candidate :
      (candidates all_nodes : List (NodeInfo Quantity)) (x : NodeInfo Quantity)
      (ps : List (Placement Quantity))
      → contains x.name (names_of candidates) ≡ true
      → All (IsPlacedOutside candidates all_nodes) ps
      → receives c ps x ≡ false
  receives-candidate candidates all_nodes x [] h placed = refl
  receives-candidate candidates all_nodes x (y ∷ ps) h placed = ground (
    arith,
    eq_iff y.target x.name,
    receives-candidate candidates all_nodes x ps h placed.1,
    placed.0.0,
    h,
  )

  HasRoom-all :
      (candidates all_nodes xs : List (NodeInfo Quantity)) (ps : List (Placement Quantity))
      → All (IsPlacedOutside candidates all_nodes) ps
      → All (HasRoom c ps) (target_nodes (names_of candidates) xs)
      → All (HasRoom c ps) xs
  unfolding target_nodes
  HasRoom-all candidates all_nodes [] ps placed rooms = tt
  HasRoom-all candidates all_nodes (x ∷ xs) ps placed rooms =
      go (contains x.name (names_of candidates)) refl
        (HasRoom-all candidates all_nodes xs ps placed) rooms
    where
      go :
          (b : Bool)
          → contains x.name (names_of candidates) ≡ b
          → (All (HasRoom c ps) (target_nodes (names_of candidates) xs) → All (HasRoom c ps) xs)
          → All (HasRoom c ps) (
              if b
              then target_nodes (names_of candidates) xs
              else x ∷ target_nodes (names_of candidates) xs)
          → HasRoom c ps x × All (HasRoom c ps) xs
      go true e ih h =
          ((λ r. ground (arith, receives-candidate candidates all_nodes x ps e placed, r)), ih h)
      go false e ih h = (h.0, ih h.1)

  -- A node receives no pod, or has room for all that it receives.
  abbrev pub HoldsAll : List (Placement Quantity) → NodeInfo Quantity → Type 0
  HoldsAll ps x =
      (receives c ps x ≡ false)
      ⊎ ((exceeds (cpu_load c ps x) x.cpu_allocatable ≡ false)
          × (exceeds (mem_load c ps x) x.mem_allocatable ≡ false))

  -- The names of the nodes are distinct and none is empty. Then the plan is that of a list of
  -- placements, each of a pod that a candidate can give away on a node that is no candidate, that
  -- has the labels that the pod asks for and whose taints it tolerates; and on each node that
  -- receives pods, the requests on it before and those of all that it receives, CPU and memory, do not
  -- exceed what is allocatable.
  pub plan_fits :
      (candidates all_nodes : List (NodeInfo Quantity)) (p : BinPacker) (safety : SafetyContext)
      → IsDistinct (names_of all_nodes)
      → contains "" (names_of all_nodes) ≡ false
      → (ps : List (Placement Quantity)) × (build_consolidation_plan c candidates all_nodes p safety
          ≡ map (eviction_of c) ps)
        × All (IsPlacedOutside candidates all_nodes) ps
        × All (HoldsAll ps) all_nodes
  unfolding consolidate
  plan_fits candidates all_nodes p safety distinct named =
      let names = names_of candidates in
      let ts = target_nodes names all_nodes in
      let (ps, plan, targets, placed, rooms) =
        Holds-plan_candidates c safety (or_else p.spec.max_evictions_per_cycle (pos 0))
          (IsPacked safety candidates ts) candidates
          (λ x pod at at' s _.
            IsPacked-plan_pod safety candidates ts
              (IsDistinct-target_nodes names all_nodes distinct)
              (names_of-target_nodes "" names all_nodes named) x pod at at' s)
          (initial_planning c candidates all_nodes safety)
          ([], refl, (nothing_placed ts).0, tt, (nothing_placed ts).1) in
      let outside = All-imp ps (IsPlacedOutside-of_target candidates all_nodes) placed in
      (
        ps,
        plan,
        outside,
        All-imp all_nodes (λ x. true-or (receives c ps x))
            (HasRoom-all candidates all_nodes all_nodes ps outside rooms),
      )
