-- ===== src/Packer/Plan/FirstFit.antt =====
-- What `findTargetNode` finds, told from the placements so far.
use mathlib.Core.List.{Memᴰ}
use mathlib.Core.List.Memᴰ.{head, tail}
use slumlord.Prelude.{
  ◌≡◌, refl, ◌⊎◌, inl, inr, true, false, List, [], ◌∷◌, ◌++◌, map, String, ◌==◌, eq_iff, eq_refl,
  contains, All, arith, Bool-cases,
}
use slumlord.Policy.{labels_within}
use slumlord.Drain.Count.{IsDistinct}
use slumlord.Packer.{tolerates_taints}
use slumlord.Packer.Types.{Pod, NodeInfo}
use slumlord.Packer.Client.{PackerClient}
use slumlord.Packer.Plan.{can_fit_on_node, schedule_on, first_fit, requests_of, find_target_node}
use slumlord.Packer.Plan.Loads.{
  Placement, names_of, load-append_one, cpu_part, mem_part, with_load, HasRoom, with_load-elsewhere,
  HasRoom-elsewhere,
}

-- A name that is in no item is not that of an item.
pub absent-Mem :
    {Q : Type 0} (name : String) (xs : List (NodeInfo Q)) (x : NodeInfo Q)
    → contains name (names_of xs) ≡ false
    → Memᴰ x xs
    → (x.name == name) ≡ false
absent-Mem name [] x h at = elim at [ ]
absent-Mem name (y ∷ xs) x h (head e) = rw e (ground (arith, h))
absent-Mem name (y ∷ xs) x h (tail at) = absent-Mem name xs x (ground (arith, h)) at

module _ (c : PackerClient) where
  open c use {Quantity, add, exceeds}

  -- The node takes the pod by its labels and taints.
  abbrev pub Takes : Pod Quantity → NodeInfo Quantity → Type 0
  Takes pod x =
      (labels_within pod.node_selector x.node.labels ≡ true)
      × (tolerates_taints pod.tolerations x.node.taints ≡ true)

  -- What a positive test of `canFitOnNode` says.
  can_fit_lem :
      (pod : Pod Quantity) (x : NodeInfo Quantity) (cpu mem : Quantity)
      → can_fit_on_node c pod x cpu mem ≡ true
      → (exceeds (add x.scheduled_requests.cpu cpu) x.cpu_allocatable ≡ false)
        × (exceeds (add x.scheduled_requests.mem mem) x.mem_allocatable ≡ false)
        × Takes pod x
  unfolding can_fit_on_node
  can_fit_lem pod x cpu mem h = ground (arith, h)

  module _ (candidate : NodeInfo Quantity) (pod : Pod Quantity)
      (ps : List (Placement Quantity)) where
    abbrev pub placement_on : NodeInfo Quantity → Placement Quantity
    placement_on x = record { candidate = candidate; pod = pod; target = x.name }

    abbrev after : NodeInfo Quantity → List (Placement Quantity)
    after x = ps ++ placement_on x ∷ []

    -- The node that is found has room for the pod too.
    HasRoom-found :
        (x : NodeInfo Quantity)
        → can_fit_on_node c pod (with_load c ps x) (requests_of c pod).0 (requests_of c pod).1
          ≡ true
        → HasRoom c (after x) x
    HasRoom-found x h r =
        let fits = can_fit_lem pod (with_load c ps x) _ _ h in
        rw
          (
            load-append_one c (cpu_part c) x.name ps (placement_on x) x.scheduled_requests.cpu,
            load-append_one c (mem_part c) x.name ps (placement_on x) x.scheduled_requests.mem,
            eq_refl x.name,
          )
          (fits.0, fits.1)

    with_load-found :
        (x : NodeInfo Quantity)
        → schedule_on c (requests_of c pod).0 (requests_of c pod).1 (with_load c ps x)
          ≡ with_load c (after x) x
    with_load-found x =
        rw
          (
            load-append_one c (cpu_part c) x.name ps (placement_on x) x.scheduled_requests.cpu,
            load-append_one c (mem_part c) x.name ps (placement_on x) x.scheduled_requests.mem,
            eq_refl x.name,
          )
          refl

    -- The nodes with another name are as they were.
    others :
        (x : NodeInfo Quantity) (ts : List (NodeInfo Quantity))
        → contains x.name (names_of ts) ≡ false
        → All (HasRoom c ps) ts
        → (map (with_load c ps) ts ≡ map (with_load c (after x)) ts) × All (HasRoom c (after x)) ts
    others x [] h rooms = (refl, tt)
    others x (t ∷ ts) h rooms =
        let elsewhere : (x.name == t.name) ≡ false =
          ground (arith, h, eq_iff x.name t.name, eq_iff t.name x.name) in
        let rest = others x ts (ground (arith, h)) rooms.1 in
        (
          (λ i. with_load-elsewhere c ps (placement_on x) t elsewhere i ∷ rest.0 i),
          (HasRoom-elsewhere c ps (placement_on x) t elsewhere rooms.0, rest.1),
        )

    -- A node was found: it takes the pod, and all nodes still have room.
    abbrev pub Found : List (NodeInfo Quantity) → Type 0
    Found ts =
        (x : NodeInfo Quantity) × Memᴰ x ts
        × Takes pod x
        × (find_target_node c pod (map (with_load c ps) ts)
            ≡ (x.name, map (with_load c (after x)) ts))
        × All (HasRoom c (after x)) ts

    abbrev pub NotFound : List (NodeInfo Quantity) → Type 0
    NotFound ts = find_target_node c pod (map (with_load c ps) ts) ≡ ("", map (with_load c ps) ts)

    pub find_target_node_lem :
        (ts : List (NodeInfo Quantity))
        → IsDistinct (names_of ts)
        → All (HasRoom c ps) ts
        → NotFound ts ⊎ Found ts
    unfolding find_target_node first_fit
    find_target_node_lem [] distinct rooms = inl refl
    find_target_node_lem (t ∷ ts) distinct rooms =
        elim (Bool-cases
          (can_fit_on_node c pod (with_load c ps t) (requests_of c pod).0 (requests_of c pod).1)) [
            | inl e ↦ inr (
                let behind = others t ts distinct.0 rooms.1 in
                (
                  t,
                  head refl,
                  (can_fit_lem pod (with_load c ps t) _ _ e).2,
                  rw e (λ i. (t.name, with_load-found t i ∷ behind.0 i)),
                  (HasRoom-found t e, behind.1),
                ))
            | inr e ↦ elim (find_target_node_lem ts distinct.1 rooms.1) [
              | inl none ↦ inl (rw e (λ i. ((none i).0, with_load c ps t ∷ (none i).1)))
              | inr (x, at, takes, found, rooms') ↦
                  let elsewhere : (x.name == t.name) ≡ false =
                    absent-Mem t.name ts x distinct.0 at in
                  inr (
                    x,
                    tail at,
                    takes,
                    rw e (λ i. (
                      (found i).0,
                      with_load-elsewhere c ps (placement_on x) t elsewhere i ∷ (found i).1,
                    )),
                    (HasRoom-elsewhere c ps (placement_on x) t elsewhere rooms.0, rooms'),
                  )
            ]
          ]
