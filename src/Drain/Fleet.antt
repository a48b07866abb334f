-- ===== src/Drain/Fleet.antt =====
-- A server whose nodes only this handler changes: which of them can take pods, by their names.
use slumlord.Prelude.{
  ℕ, zero, suc, ap, ◌≡◌, refl, sym, ◌∙◌, Bool, true, false, Option, List, [], ◌∷◌, String, ◌==◌,
  contains, any_of, not, ltb, All, arith,
}
use slumlord.Prelude.Int.{ℤ, pos, pos_part}
use slumlord.Action.{Reply, value, error, M, pure, ◌>>=◌}
use slumlord.Action.Keeps.{Keeps, Keeps-bind, Keeps-if}
use slumlord.Drain.Types.{NodeDrainPolicy, Pod, Node, DrainNodeInfo}
use slumlord.Drain.Client.{DrainClient, DrainRun, ask}
use slumlord.Drain.Analysis.{is_remaining}
use slumlord.Drain.Node.{
  Evictions, deadline, count_eviction, uncordon_found, deleted_or_drained, cordon_node,
  uncordon_node, evict_pods, after_listing, poll, wait_for_drain, dry_run, drain_timed_out,
  delete_drained, persist_run, drain_completed, drain_cordoned, process_candidate,
  process_candidates,
}

-- `available w name` says that the node is ready and schedulable.
pub record Fleet (c : DrainClient) : Type 0 where
  pub available : c.World → String → Bool
  pub nodes : (w : c.World) → available (c.list_nodes w).1 ≡ available w
  pub pods : (w : c.World) → available (c.list_pods w).1 ≡ available w
  pub got : (name : String) (w : c.World) → available (c.get_node name w).1 ≡ available w
  pub got_name :
      (name : String) (w w' : c.World) (node : Node c.Quantity)
      → c.get_node name w ≡ (value node, w')
      → node.name ≡ name
  pub evicted :
      (namespace name : String) (grace : Option ℤ) (w : c.World)
      → available (c.evict namespace name grace w).1 ≡ available w
  pub status :
      (p : NodeDrainPolicy) (w : c.World) → available (c.update_policy_status p w).1 ≡ available w
  pub clock_lem : (w : c.World) → available (c.clock w).1 ≡ available w
  pub paused : (w : c.World) → available (c.pause w).1 ≡ available w
  pub patched :
      (node : Node c.Quantity) (w : c.World) (m : String)
      → (node.name == m) ≡ false
      → available (c.patch_node node w).1 m ≡ available w m
  pub deleted :
      (name : String) (w : c.World) (m : String)
      → (name == m) ≡ false
      → available (c.delete_node name w).1 m ≡ available w m

module _ {Q : Type 0} where
  abbrev pub IsNamed : DrainNodeInfo Q → Type 0
  IsNamed x = x.node.name ≡ x.name

  abbrev pub names : List (DrainNodeInfo Q) → List String
  names [] = []
  names (x ∷ xs) = x.name ∷ names xs

module _ (c : DrainClient) (s : Fleet c) (m : String) where
  abbrev pub sees : DrainRun c.World → Bool
  sees r = s.available r.world m

  abbrev pub KeepsNode : {A : Type 0} → M (DrainRun c.World) A → Type 0
  KeepsNode f = Keeps sees f

  Keeps-poll : (rounds : ℕ) (name : String) (until : ℕ) → KeepsNode (poll c rounds name until)
  unfolding poll
  Keeps-poll zero name until = λ r. ap (λ f. f m) (s.clock_lem r.world)
  Keeps-poll (suc n) name until = λ r.
      Keeps-if sees (not (ltb (c.clock r.world).0 until)) (pure false) _ (λ q. refl)
        (λ q.
          listed (Keeps-poll n name until) (c.list_pods q.world).0
            (record q { world = (c.list_pods q.world).1 })
          ∙ ap (λ f. f m) (s.pods q.world))
        (record r { world = (c.clock r.world).1 })
      ∙ ap (λ f. f m) (s.clock_lem r.world)
    where
      listed :
          KeepsNode (poll c n name until)
          → (answer : Reply (List (Pod c.Quantity)))
          → KeepsNode (after_listing c name (poll c n name until) answer)
      listed rest (error e) = λ q. refl
      listed rest (value pods) =
          Keeps-if sees (not (any_of (is_remaining name) pods)) (pure true) _ (λ q. refl)
            (λ q.
              Keeps-if sees (c.pause q.world).0 (pure false) (poll c n name until) (λ q'. refl) rest
                (record q { world = (c.pause q.world).1 })
              ∙ ap (λ f. f m) (s.paused q.world))

  Keeps-wait_for_drain : (name : String) (t : ℤ) → KeepsNode (wait_for_drain c name t)
  unfolding wait_for_drain
  Keeps-wait_for_drain name t r =
      Keeps-poll (pos_part t) name (deadline (c.clock r.world).0 t)
        (record r { world = (c.clock r.world).1 })
      ∙ ap (λ f. f m) (s.clock_lem r.world)

  Keeps-evict_pods :
      (grace : Option ℤ) (pods : List (Pod c.Quantity)) (n : Evictions)
      → KeepsNode (evict_pods c grace pods n)
  unfolding evict_pods
  Keeps-evict_pods grace [] n = λ r. refl
  Keeps-evict_pods grace (x ∷ xs) n = λ r.
      Keeps-evict_pods grace xs (count_eviction c (c.evict x.namespace x.name grace r.world).0 n)
        (record r { world = (c.evict x.namespace x.name grace r.world).1 })
      ∙ ap (λ f. f m) (s.evicted x.namespace x.name grace r.world)

  Keeps-uncordon_node : (name : String) → (name == m) ≡ false → KeepsNode (uncordon_node c name)
  unfolding uncordon_node
  Keeps-uncordon_node name other r = go (c.get_node name r.world).0 (c.get_node name r.world).1 refl
    where
      go :
          (answer : Reply (Node c.Quantity)) (w : c.World)
          → c.get_node name r.world ≡ (answer, w)
          → sees (uncordon_found c answer (record r { world = w })).1 ≡ sees r
      go (error e) w eq = ap (λ q. s.available q.1 m) (sym eq) ∙ ap (λ f. f m) (s.got name r.world)
      go (value node) w eq =
          s.patched (record node { unschedulable = false }) w m
            (ap (λ k. k == m) (s.got_name name r.world w node eq) ∙ other)
          ∙ ap (λ q. s.available q.1 m) (sym eq)
          ∙ ap (λ f. f m) (s.got name r.world)

  Keeps-drain_timed_out :
      (x : DrainNodeInfo c.Quantity) (n : Evictions)
      → (x.name == m) ≡ false
      → KeepsNode (drain_timed_out c x n)
  unfolding drain_timed_out
  Keeps-drain_timed_out x n other =
      Keeps-bind sees (uncordon_node c x.name) _ (Keeps-uncordon_node x.name other)
        (λ answer r. refl)

  Keeps-deleted_or_drained : (answer : Reply (Unit {0})) → KeepsNode (deleted_or_drained c answer)
  unfolding deleted_or_drained
  Keeps-deleted_or_drained (value u) = λ r. refl
  Keeps-deleted_or_drained (error e) = λ r. refl

  Keeps-delete_drained :
      (x : DrainNodeInfo c.Quantity) → (x.name == m) ≡ false → KeepsNode (delete_drained c x)
  unfolding delete_drained
  Keeps-delete_drained x other r =
      Keeps-if sees r.policy.spec.drain.delete_node_after_drain
        (ask (c.delete_node x.name) >>= deleted_or_drained c) (pure "drained")
        (λ q.
          Keeps-deleted_or_drained (c.delete_node x.name q.world).0
            (record q { world = (c.delete_node x.name q.world).1 })
          ∙ s.deleted x.name q.world m other)
        (λ q. refl) r

  Keeps-persist_run : KeepsNode (persist_run c)
  unfolding persist_run
  Keeps-persist_run r = ap (λ f. f m) (s.status _ r.world)

  Keeps-drain_completed :
      (x : DrainNodeInfo c.Quantity) (n : Evictions)
      → (x.name == m) ≡ false
      → KeepsNode (drain_completed c x n)
  unfolding drain_completed
  Keeps-drain_completed x n other r =
      Keeps-bind sees (delete_drained c x) _ (Keeps-delete_drained x other)
        (λ action q. ap (λ f. f m) (s.status _ q.world)) (record r { status = _ })

  Keeps-drain_cordoned :
      (t : ℤ) (x : DrainNodeInfo c.Quantity) (answer : Reply (Unit {0}))
      → (x.name == m) ≡ false
      → KeepsNode (drain_cordoned c t x answer)
  unfolding drain_cordoned
  Keeps-drain_cordoned t x (error e) other r = refl
  Keeps-drain_cordoned t x (value u) other r =
      Keeps-bind sees
        (evict_pods c r.policy.spec.drain.grace_period_seconds x.drainable_pods
          (record { evicted = pos 0; failures = 0 }))
        _
        (Keeps-evict_pods r.policy.spec.drain.grace_period_seconds x.drainable_pods
          (record { evicted = pos 0; failures = 0 }))
        (λ n. Keeps-bind sees (wait_for_drain c x.name t) _ (Keeps-wait_for_drain x.name t) (λ done.
          Keeps-if sees done (drain_completed c x n) (drain_timed_out c x n)
            (Keeps-drain_completed x n other) (Keeps-drain_timed_out x n other)))
        (record r { events = _ })

  Keeps-process_candidate :
      (dry : Bool) (t : ℤ) (x : DrainNodeInfo c.Quantity)
      → IsNamed x
      → (x.name == m) ≡ false
      → KeepsNode (process_candidate c dry t x)
  unfolding process_candidate
  Keeps-process_candidate dry t x named other =
      Keeps-if sees dry (dry_run c x) _ (λ r. refl)
        (Keeps-bind sees (cordon_node c x.node) (drain_cordoned c t x)
          (λ r.
            s.patched (record x.node { unschedulable = true }) r.world m
              (ap (λ k. k == m) named ∙ other))
          (λ answer. Keeps-drain_cordoned t x answer other))

  -- A node that is not among the candidates stays as it is.
  pub Keeps-process_candidates :
      (dry : Bool) (t : ℤ) (xs : List (DrainNodeInfo c.Quantity))
      → All IsNamed xs
      → contains m (names xs) ≡ false
      → KeepsNode (process_candidates c dry t xs)
  unfolding process_candidates
  Keeps-process_candidates dry t [] named other = λ r. refl
  Keeps-process_candidates dry t (x ∷ xs) named other =
      Keeps-bind sees (process_candidate c dry t x) _
        (Keeps-process_candidate dry t x named.0 (ground arith))
        (λ u. Keeps-process_candidates dry t xs named.1 (ground arith))
