-- ===== src/Drain/Reserve.antt =====
-- How many ready nodes a run leaves.
use mathlib.Core.List.{Memᴰ}
use slumlord.Prelude.{
  ℕ, suc, ◌+◌, ◌-◌, ◌^◌, ◌≤◌, ◌<◌, ◌≡◌, refl, ap, ◌∙◌, ◌⊎◌, inl, inr, Bool, true, false, Option,
  none, some, List, [], ◌∷◌, String, contains, length, All, ltb, arith,
}
use slumlord.Prelude.Int.{ℤ, pos}
use slumlord.Action.{M, or_return}
use slumlord.Action.Keeps.{Keeps-continue, Keeps-bind, Keeps-if, Keeps-or_return}
use slumlord.Change.{or_else}
use slumlord.Drain.Types.{DrainThresholds, NodeDrainPolicy, Pod, Node, DrainNodeInfo}
use slumlord.Drain.Client.{DrainClient, DrainRun, put_policy}
use slumlord.Drain.Analysis.{find_drain_candidates, less_utilized, or_one, node_info, node_infos}
use slumlord.Drain.Node.{process_candidates}
use slumlord.Drain.Status.{
  the_interval, parse_cron_schedule, next_after, compute_next_run, set_next_run, store_status,
  delay_until,
}
use slumlord.Drain.Handler.{chosen_candidates, finish_run, drain_candidates, drain_analyzed}
use slumlord.Drain.Fleet.{Fleet, sees, KeepsNode, IsNamed, names, Keeps-process_candidates}
use slumlord.Drain.Count.{count, IsDistinct, count-All, count-touched}
use slumlord.Prelude.Every.{All-either, All-of_Mem, Mem-All}
use slumlord.Drain.Limit.{
  IsLimited, IsLimited-limit_candidates, max_drainable_lem, ready_count_lem,
  All-find_drain_candidates, ready_names,
}

module _ (default : ℤ) (c : DrainClient) (s : Fleet c) where
  abbrev KeepsAll : {A : Type 0} → M (DrainRun c.World) A → Type 0
  KeepsAll f = (m : String) → KeepsNode c s m f

  Keeps-store_status : (m : String) → KeepsNode c s m (store_status default c)
  unfolding store_status
  Keeps-store_status m r =
      let (answer, w) = c.update_policy_status r.policy r.world in
      Keeps-continue (sees c s m) (sees c s m r) (or_return answer (record r { world = w }))
        put_policy
        (Keeps-or_return (sees c s m) answer (record r { world = w })
          ∙ ap (λ f. f m) (s.status r.policy r.world))
        (λ p q. refl)

  Keeps-delay_until : (t : ℕ) (m : String) → KeepsNode c s m (delay_until default c t)
  unfolding delay_until
  Keeps-delay_until t m r =
      Keeps-if (sees c s m) (ltb t (c.clock r.world).0) (the_interval default c) _ (λ q. refl)
        (λ q. refl) (record r { world = (c.clock r.world).1 })
      ∙ ap (λ f. f m) (s.clock_lem r.world)

  Keeps-next_after :
      (x : String ⊎ (c.Cron × c.Location)) (m : String) → KeepsNode c s m (next_after default c x)
  unfolding next_after
  Keeps-next_after (inl e) m = λ r. refl
  Keeps-next_after (inr (cron, loc)) m = λ r. ap (λ f. f m) (s.clock_lem r.world)

  Keeps-compute_next_run :
      (p : NodeDrainPolicy) (m : String) → KeepsNode c s m (compute_next_run default c p)
  unfolding compute_next_run
  Keeps-compute_next_run p m = Keeps-next_after (parse_cron_schedule default c p.spec.schedule) m

  Keeps-set_next_run : (o : Option ℕ) (m : String) → KeepsNode c s m (set_next_run default c o)
  unfolding set_next_run
  Keeps-set_next_run none m = λ r. refl
  Keeps-set_next_run (some t) m = λ r. refl

  Keeps-finish_run : (m : String) → KeepsNode c s m (finish_run default c)
  unfolding finish_run
  Keeps-finish_run m r =
      Keeps-bind (sees c s m) (compute_next_run default c r.policy) _
        (Keeps-compute_next_run r.policy m)
        (λ after.
          Keeps-bind (sees c s m) (set_next_run default c after) _ (Keeps-set_next_run after m)
            (λ u q.
              Keeps-bind (sees c s m) (store_status default c) _ (Keeps-store_status m)
                (λ u'. Keeps-delay_until (or_else after 0) m) (record q { policy = _ })))
        (record r { policy = _; status = _; world = (c.clock r.world).1 })
      ∙ ap (λ f. f m) (s.clock_lem r.world)

  All-IsNamed-node_infos :
      (p : NodeDrainPolicy) (pods : List (Pod c.Quantity)) (nodes : List (Node c.Quantity))
      → All IsNamed (node_infos c p pods nodes)
  unfolding node_infos
  All-IsNamed-node_infos p pods [] = tt
  All-IsNamed-node_infos p pods (node ∷ nodes) =
      let rest = All-IsNamed-node_infos p pods nodes in
      All-either IsNamed node.unschedulable _ _ rest (
        All-either IsNamed _ (node_infos c p pods nodes)
          (node_info c p pods node ∷ node_infos c p pods nodes) rest (refl, rest))

  -- The nodes that may be touched, and the rest of the run.
  Keeps-drain_candidates :
      (p : NodeDrainPolicy) (xs : List (DrainNodeInfo c.Quantity)) (m : String)
      → All IsNamed xs
      → contains m (names xs) ≡ false
      → KeepsNode c s m (drain_candidates default c p (some xs))
  unfolding drain_candidates
  Keeps-drain_candidates p xs m named other =
      Keeps-bind (sees c s m)
        (process_candidates c p.spec.safety.dry_run (or_else p.spec.drain.timeout_seconds (pos 300))
          xs)
        _
        (Keeps-process_candidates c s m p.spec.safety.dry_run
          (or_else p.spec.drain.timeout_seconds (pos 300)) xs named other)
        (λ u. Keeps-finish_run m)

  length-names : (xs : List (DrainNodeInfo c.Quantity)) → length (names xs) ≡ length xs
  length-names [] = refl
  length-names (x ∷ xs) = ap suc (length-names xs)

  length-find_drain_candidates :
      (t : DrainThresholds) (xs : List (DrainNodeInfo c.Quantity))
      → length (find_drain_candidates t xs) ≤ length xs
  unfolding find_drain_candidates
  length-find_drain_candidates t [] = omega arith
  length-find_drain_candidates t (x ∷ xs) = ground (arith, length-find_drain_candidates t xs)

  -- The chosen candidates decide how many ready nodes can be lost.
  Reserved-drain_candidates :
      (p : NodeDrainPolicy) (o : Option (List (DrainNodeInfo c.Quantity))) (n m : ℕ)
      (rn : List String) (r : DrainRun c.World)
      → IsLimited IsNamed n o
      → n ≤ length rn - m
      → IsDistinct rn
      → All (λ x. s.available r.world x ≡ true) rn
      → (m ≤ count (s.available (drain_candidates default c p o r).1.world) rn)
        ⊎ (length rn ≤ count (s.available (drain_candidates default c p o r).1.world) rn)
  unfolding drain_candidates
  Reserved-drain_candidates p none n m rn r limited le distinct before =
      inr (omega (arith, count-All (s.available r.world) rn before))
  Reserved-drain_candidates p (some xs) n m rn r limited le distinct before =
      let after = s.available (drain_candidates default c p (some xs) r).1.world in
      let lost : count (s.available r.world) rn ≤ count after rn + length (names xs) =
        count-touched (s.available r.world) after (names xs) rn distinct
          (λ x other. Keeps-drain_candidates p xs x limited.1 other r) in
      let all = count-All (s.available r.world) rn before in
      ground (arith, lost, all, length-names xs, limited.0, le)

  -- However a run ends, at least the minimum of ready nodes is still available, or all of the ready
  -- nodes are that were, where: the nodes' names are distinct and the ready ones were available
  -- before, there are less than 2 ^ 31 of them, the two limits are natural numbers, the minimum in 32
  -- bits, the sort keeps the number of the items and adds none, and only this handler changes nodes
  -- (`Fleet`).
  pub drain_analyzed_keeps_ready :
      (r : DrainRun c.World) (pods : List (Pod c.Quantity)) (nodes : List (Node c.Quantity))
      (k m : ℕ)
      → ((less : DrainNodeInfo c.Quantity → DrainNodeInfo c.Quantity → Bool)
            (xs : List (DrainNodeInfo c.Quantity))
          → (length (c.sort_slice less xs) ≡ length xs)
            × ((x : DrainNodeInfo c.Quantity) → Memᴰ x (c.sort_slice less xs) → Memᴰ x xs))
      → length (node_infos c r.policy pods nodes) < 2 ^ 31
      → IsDistinct (ready_names (node_infos c r.policy pods nodes))
      → All (λ x. s.available r.world x ≡ true) (ready_names (node_infos c r.policy pods nodes))
      → or_one r.policy.spec.safety.max_nodes_per_run ≡ pos k
      → or_one r.policy.spec.safety.min_ready_nodes ≡ pos m
      → m < 2 ^ 31
      → (m
          ≤ count
              (s.available (drain_analyzed default c (node_infos c r.policy pods nodes) r).1.world)
              (ready_names (node_infos c r.policy pods nodes)))
        ⊎ (length (ready_names (node_infos c r.policy pods nodes))
            ≤ count
                (s.available
                  (drain_analyzed default c (node_infos c r.policy pods nodes) r).1.world)
                (ready_names (node_infos c r.policy pods nodes)))
  unfolding drain_analyzed
  drain_analyzed_keeps_ready r pods nodes k m sorts small distinct before max min small' =
      let infos = node_infos c r.policy pods nodes in
      let found = find_drain_candidates r.policy.spec.thresholds infos in
      let counted = ready_count_lem infos small in
      let (n, limit, le) =
        max_drainable_lem r.policy.spec.safety (length (ready_names infos)) k m
          (omega (arith, counted.1, small)) small' max min in
      let named : All IsNamed (c.sort_slice less_utilized found) =
        All-of_Mem IsNamed (c.sort_slice less_utilized found) (λ x i.
          Mem-All IsNamed found x
            (All-find_drain_candidates IsNamed r.policy.spec.thresholds infos
              (All-IsNamed-node_infos r.policy pods nodes))
            ((sorts less_utilized found).1 x i)) in
      let limited : IsLimited IsNamed n (chosen_candidates default c r.policy infos) =
        rw (chosen_candidates, counted.0, limit)
          (IsLimited-limit_candidates IsNamed n (c.sort_slice less_utilized found)
            (omega (
              arith,
              (sorts less_utilized found).0,
              length-find_drain_candidates r.policy.spec.thresholds infos,
              small,
            ))
            named) in
      Reserved-drain_candidates r.policy (chosen_candidates default c r.policy infos) n m
        (ready_names infos) _ limited le distinct before
