-- ===== src/Drain/Stuck.antt =====
-- Pods that a drain waits for and does not choose for eviction.
use mathlib.Core.List.{Memᴰ}
use mathlib.Core.List.Memᴰ.{head, tail}
use slumlord.Prelude.{
  ℕ, zero, suc, ◌⊎◌, ◌≡◌, refl, ap, ◌∙◌, sym, Bool, true, false, List, [], ◌∷◌, String, lookup,
  contains, any_of, ltb, arith, eq_refl, Bool-cases, inl, inr,
}
use slumlord.Prelude.Int.{ℤ, pos_part}
use slumlord.Action.{Reply, value, error, ok, M}
use slumlord.Cluster.{Labels}
use slumlord.Change.{or_else}
use slumlord.Drain.Types.{NodeDrainPolicy, Pod, Node}
use slumlord.Drain.Client.{DrainClient, DrainRun}
use slumlord.Drain.Analysis.{
  mirror_annotation, is_some, is_drainable, is_remaining, pods_on, drainable, node_info,
}
use slumlord.Drain.Node.{deadline, after_listing, poll, wait_for_drain}

-- A running pod on the node, with an emptyDir volume; not a mirror pod, nor a DaemonSet's, nor
-- being deleted.
pub record KeepsData {Q : Type 0} (name : String) (pod : Pod Q) : Type 0 where
  pub on_node : pod.node_name ≡ name
  pub running : pod.phase ≡ "Running"
  pub not_deleting : pod.deleting ≡ false
  pub not_daemon : contains "DaemonSet" pod.owner_kinds ≡ false
  pub not_mirror : is_some (lookup mirror_annotation pod.annotations) ≡ false
  pub has_data : any_of (λ b. b) pod.empty_dirs ≡ true

is_remaining-KeepsData :
    {Q : Type 0} (name : String) (pod : Pod Q) → KeepsData name pod → is_remaining name pod ≡ true
unfolding is_remaining
is_remaining-KeepsData name pod h =
    simp (h.on_node, h.running, h.not_deleting, h.not_daemon, h.not_mirror, eq_refl name)

is_drainable-KeepsData :
    {Q : Type 0} (name : String) (pod : Pod Q) (ignore : Bool) (selector : Labels)
    → KeepsData name pod
    → is_drainable pod ignore false selector ≡ false
unfolding is_drainable
is_drainable-KeepsData name pod ignore selector h =
    ground (arith, h.not_mirror, h.not_deleting, h.has_data)

-- The server keeps answering with the pod.
abbrev IsListed : {Q W : Type 0} → Pod Q → Reply (List (Pod Q)) × W → Type 0
IsListed pod (error e, w) = Unit {0}
IsListed pod (value pods, w) = Memᴰ pod pods

any_of-Mem :
    {A : Type 0} (t : A → Bool) (x : A) (xs : List A) → Memᴰ x xs → t x ≡ true → any_of t xs ≡ true
any_of-Mem t x [] m e = elim m [ ]
any_of-Mem t x (y ∷ ys) (head here) e = let at : t y ≡ true = ap t (sym here) ∙ e in ground arith
any_of-Mem t x (y ∷ ys) (tail m) e = ground (arith, any_of-Mem t x ys m e)

module _ (c : DrainClient) where
  after_listing-stuck :
      (again : M (DrainRun c.World) Bool) (name : String) (pod : Pod c.Quantity)
      (r : DrainRun c.World)
      → KeepsData name pod
      → ((q : DrainRun c.World) → (again q).0 ≡ ok false)
      → (answer : Reply (List (Pod c.Quantity))) → IsListed pod (answer, r.world)
      → (after_listing c name again answer r).0 ≡ ok false
  unfolding after_listing
  after_listing-stuck again name pod r h rest (error e) listed = refl
  after_listing-stuck again name pod r h rest (value pods) listed =
      rw (any_of-Mem (is_remaining name) pod pods listed (is_remaining-KeepsData name pod h))
        (elim (Bool-cases (c.pause r.world).0) [
          | inl cancelled ↦ rw cancelled refl
          | inr waited ↦ rw waited (rest (record r { world = (c.pause r.world).1 }))
        ])

  poll-stuck :
      (n : ℕ) (name : String) (until : ℕ) (pod : Pod c.Quantity) (r : DrainRun c.World)
      → KeepsData name pod
      → ((w : c.World) → IsListed pod (c.list_pods w))
      → (poll c n name until r).0 ≡ ok false
  unfolding poll
  poll-stuck zero name until pod r h stays = refl
  poll-stuck (suc n) name until pod r h stays = elim (Bool-cases (ltb (c.clock r.world).0 until)) [
    | inr late ↦ rw late refl
    | inl early ↦ rw early (
        after_listing-stuck (poll c n name until) name pod
          (record r { world = (c.list_pods (c.clock r.world).1).1 }) h
          (λ q. poll-stuck n name until pod q h stays) (c.list_pods (c.clock r.world).1).0
          (stays (c.clock r.world).1))
  ]

  drainable-Mem :
      (p : NodeDrainPolicy) (pod : Pod c.Quantity) (pods : List (Pod c.Quantity))
      → Memᴰ pod (drainable c p pods)
      → is_drainable pod
          (or_else p.spec.drain.ignore_daemon_sets true)
          p.spec.drain.delete_empty_dir_data
          p.spec.drain.pod_selector
        ≡ true
  unfolding drainable
  drainable-Mem p pod [] m = elim m [ ]
  drainable-Mem p pod (x ∷ xs) m =
      elim (Bool-cases (
        is_drainable x (or_else p.spec.drain.ignore_daemon_sets true)
          p.spec.drain.delete_empty_dir_data p.spec.drain.pod_selector)) [
            | inl e ↦ elim (uncons x (drainable c p xs) (rw e at m)) [
              | inl here ↦ rw here e
              | inr later ↦ drainable-Mem p pod xs later
            ]
            | inr e ↦ drainable-Mem p pod xs (rw e at m)
          ]
    where
      uncons :
          (x : Pod c.Quantity) (ys : List (Pod c.Quantity))
          → Memᴰ pod (x ∷ ys)
          → (pod ≡ x) ⊎ Memᴰ pod ys
      uncons x ys (head e) = inl e
      uncons x ys (tail n) = inr n

  -- Take a running pod on a node that has an emptyDir volume, is not being deleted, belongs to no
  -- DaemonSet and is no mirror pod. Where the policy does not allow the deletion of such data, the pod
  -- is not among the pods that the analysis of the node chooses for eviction, whichever pods were
  -- listed then; but it is waited for: if every list of pods that the server answers with has it, the
  -- wait for the drain of its node ends without success.
  pub wait_for_drain-undrainable :
      (p : NodeDrainPolicy) (pods : List (Pod c.Quantity)) (node : Node c.Quantity) (timeout : ℤ)
      (pod : Pod c.Quantity) (r : DrainRun c.World)
      → p.spec.drain.delete_empty_dir_data ≡ false
      → KeepsData node.name pod
      → ((w : c.World) → IsListed pod (c.list_pods w))
      → (¬ Memᴰ pod (node_info c p pods node).drainable_pods)
        × ((wait_for_drain c node.name timeout r).0 ≡ ok false)
  unfolding wait_for_drain node_info
  wait_for_drain-undrainable p pods node timeout pod r kept h stays = (
    (λ m.
        let chosen = drainable-Mem p pod (pods_on node.name pods) m in
        let refused =
          is_drainable-KeepsData node.name pod (or_else p.spec.drain.ignore_daemon_sets true)
            p.spec.drain.pod_selector h in
        let chosen' = rw kept at chosen in ground (arith, chosen', refused)),
    poll-stuck (pos_part timeout) node.name (deadline (c.clock r.world).0 timeout) pod
        (record r { world = (c.clock r.world).1 }) h stays,
  )
