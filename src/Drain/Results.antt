-- ===== src/Drain/Results.antt =====
-- The results and counts of a drain run.
use mathlib.Core.List.{append-nil, append_assoc}
use mathlib.Core.Path.{subst}
use slumlord.Prelude.{
  ℕ, zero, suc, ◌≡◌, refl, sym, ◌∙◌, inl, inr, Bool, true, false, not, Option, List, [], ◌∷◌, ◌++◌,
  String, any_of, ltb, if◌then◌else◌,
}
use slumlord.Prelude.Int.{ℤ, pos, pos_part, to_int32}
use slumlord.Action.{Reply, value, error, Outcome, ok, err, panic, M, pure}
use slumlord.Action.Yields.{Yields, Yields-continue}
use slumlord.Drain.Types.{Pod, Node, DrainNodeInfo}
use slumlord.Drain.Client.{DrainClient, DrainRun}
use slumlord.Drain.Analysis.{is_remaining}
use slumlord.Drain.Fleet.{names}
use slumlord.Drain.Node.{
  Evictions, deadline, count_eviction, cordon_node, uncordon_found, uncordon_node, evict_pods,
  after_listing, poll, wait_for_drain, dry_run, cordon_failed, drain_timed_out, deleted_or_drained,
  delete_drained, persist_run, drain_completed, drain_cordoned, result_of, process_candidate,
  process_candidates,
}
use slumlord.Drain.Report.{
  Extends, Extends-undrained, count_drained, IsDeletion, Extends-counted, Reports, no_count,
  Reports-Extends, result_names, count_results, is_drained, is_deleted,
}

module _ (c : DrainClient) where
  abbrev Never : DrainRun c.World → Type 0
  Never r = ⊥

  abbrev Quiet : {A : Type 0} → M (DrainRun c.World) A → Type 0
  Quiet f = (r : DrainRun c.World) → Yields (λ a r'. r'.status ≡ r.status) Never (f r)

  Yields-if :
      {A : Type 0} (Q : A → DrainRun c.World → Type 0) (b : Bool) (m k : M (DrainRun c.World) A)
      (r : DrainRun c.World)
      → Yields Q Never (m r)
      → Yields Q Never (k r)
      → Yields Q Never ((if b then m else k) r)
  Yields-if Q true m k r h i = h
  Yields-if Q false m k r h i = i

  Quiet-evict_pods :
      (grace : Option ℤ) (pods : List (Pod c.Quantity)) (n : Evictions)
      → Quiet (evict_pods c grace pods n)
  unfolding evict_pods
  Quiet-evict_pods grace [] n = λ r. refl
  Quiet-evict_pods grace (x ∷ xs) n = λ r.
      Quiet-evict_pods grace xs (count_eviction c (c.evict x.namespace x.name grace r.world).0 n)
        (record r { world = (c.evict x.namespace x.name grace r.world).1 })

  Quiet-after_listing :
      (name : String) (again : M (DrainRun c.World) Bool) (answer : Reply (List (Pod c.Quantity)))
      → Quiet again
      → Quiet (after_listing c name again answer)
  unfolding after_listing
  Quiet-after_listing name again (error e) h = λ r. refl
  Quiet-after_listing name again (value pods) h = λ r.
      Yields-if (λ a r'. r'.status ≡ r.status) (not (any_of (is_remaining name) pods)) (pure true) _
        r refl
        (Yields-if (λ a r'. r'.status ≡ r.status) (c.pause r.world).0 (pure false) again
          (record r { world = (c.pause r.world).1 }) refl
          (h (record r { world = (c.pause r.world).1 })))

  Quiet-poll : (n : ℕ) (name : String) (until : ℕ) → Quiet (poll c n name until)
  unfolding poll
  Quiet-poll zero name until = λ r. refl
  Quiet-poll (suc n) name until = λ r.
      let q : DrainRun c.World = record r { world = (c.clock r.world).1 } in
      Yields-if (λ a r'. r'.status ≡ r.status) (not (ltb (c.clock r.world).0 until)) (pure false) _
        q refl
        (Quiet-after_listing name (poll c n name until) (c.list_pods q.world).0
          (Quiet-poll n name until) (record q { world = (c.list_pods q.world).1 }))

  Quiet-uncordon_found : (answer : Reply (Node c.Quantity)) → Quiet (uncordon_found c answer)
  unfolding uncordon_found
  Quiet-uncordon_found (error e) = λ r. refl
  Quiet-uncordon_found (value node) = λ r. refl

  abbrev Extended :
      DrainNodeInfo c.Quantity → DrainRun c.World → {A : Type 0} → A → DrainRun c.World → Type 0
  Extended x r a r' = Extends x.name r.status r'.status

  Extends-drain_timed_out :
      (x : DrainNodeInfo c.Quantity) (n : Evictions) (r r0 : DrainRun c.World)
      → r.status ≡ r0.status
      → Yields
          (λ (u : Unit {0}) r'. Extends x.name r0.status r'.status)
          Never
          (drain_timed_out c x n r)
  unfolding drain_timed_out uncordon_node result_of
  Extends-drain_timed_out x n r r0 e =
      Yields-continue (λ a r'. r'.status ≡ r.status) _ Never (uncordon_node c x.name r) _
        (Quiet-uncordon_found (c.get_node x.name r.world).0
          (record r { world = (c.get_node x.name r.world).1 }))
        (λ a q e'. Extends-undrained x.name _ r0.status q.status (e' ∙ e) refl refl refl)

  IsDeletion-deleted_or_drained :
      (answer : Reply (Unit {0})) (r : DrainRun c.World)
      → Yields
          (λ action r'. IsDeletion r.status action r'.status)
          Never
          (deleted_or_drained c answer r)
  unfolding deleted_or_drained
  IsDeletion-deleted_or_drained (value u) r = inr (refl, refl)
  IsDeletion-deleted_or_drained (error e) r = inl (refl, refl)

  IsDeletion-delete_drained :
      (x : DrainNodeInfo c.Quantity) (r : DrainRun c.World)
      → Yields (λ action r'. IsDeletion r.status action r'.status) Never (delete_drained c x r)
  unfolding delete_drained
  IsDeletion-delete_drained x r =
      Yields-if (λ action r'. IsDeletion r.status action r'.status)
        r.policy.spec.drain.delete_node_after_drain _ (pure "drained") r
        (IsDeletion-deleted_or_drained (c.delete_node x.name r.world).0
          (record r { world = (c.delete_node x.name r.world).1 }))
        (inl (refl, refl))

  Extends-drain_completed :
      (x : DrainNodeInfo c.Quantity) (n : Evictions) (r : DrainRun c.World)
      → Yields
          (λ (u : Unit {0}) r'. Extends x.name r.status r'.status)
          Never
          (drain_completed c x n r)
  unfolding drain_completed persist_run result_of to_int32
  Extends-drain_completed x n r =
      let q : DrainRun c.World = record r { status = count_drained r.status } in
      Yields-continue (λ action r'. IsDeletion q.status action r'.status) _ Never
        (delete_drained c x q) _ (IsDeletion-delete_drained x q)
        (λ action q' d. Extends-counted x.name _ r.status q'.status d refl)

  Extends-drain_cordoned :
      (t : ℤ) (x : DrainNodeInfo c.Quantity) (answer : Reply (Unit {0})) (r : DrainRun c.World)
      → Yields
          (λ (u : Unit {0}) r'. Extends x.name r.status r'.status)
          Never
          (drain_cordoned c t x answer r)
  unfolding drain_cordoned cordon_failed result_of wait_for_drain
  Extends-drain_cordoned t x (error e) r =
      Extends-undrained x.name _ r.status r.status refl refl refl refl
  Extends-drain_cordoned t x (value u) r =
      Yields-continue (λ a r'. r'.status ≡ r.status) _ Never
        (evict_pods c r.policy.spec.drain.grace_period_seconds x.drainable_pods
          (record { evicted = pos 0; failures = 0 }) _)
        _
        (Quiet-evict_pods r.policy.spec.drain.grace_period_seconds x.drainable_pods
          (record { evicted = pos 0; failures = 0 }) (record r { events = _ }))
        (λ n q e.
          Yields-continue (λ a r'. r'.status ≡ q.status) _ Never
            (poll c (pos_part t) x.name (deadline (c.clock q.world).0 t)
              (record q { world = (c.clock q.world).1 }))
            _
            (Quiet-poll (pos_part t) x.name (deadline (c.clock q.world).0 t)
              (record q { world = (c.clock q.world).1 }))
            (λ done q' e'.
              Yields-if (λ (u : Unit {0}) r'. Extends x.name r.status r'.status) done _ _ q'
                (subst
                  (λ k.
                    Yields (λ (u : Unit {0}) r'. Extends x.name k r'.status) Never
                      (drain_completed c x n q'))
                  (e' ∙ e) (Extends-drain_completed x n q'))
                (Extends-drain_timed_out x n q' r (e' ∙ e))))

  Extends-process_candidate :
      (dry : Bool) (t : ℤ) (x : DrainNodeInfo c.Quantity) (r : DrainRun c.World)
      → Yields
          (λ (u : Unit {0}) r'. Extends x.name r.status r'.status)
          Never
          (process_candidate c dry t x r)
  unfolding process_candidate dry_run cordon_node result_of
  Extends-process_candidate true t x r =
      Extends-undrained x.name _ r.status r.status refl refl refl refl
  Extends-process_candidate false t x r =
      Extends-drain_cordoned t x (c.patch_node (record x.node { unschedulable = true }) r.world).0
        (record r { world = (c.patch_node (record x.node { unschedulable = true }) r.world).1 })

  Reports-process_candidates :
      (dry : Bool) (t : ℤ) (xs : List (DrainNodeInfo c.Quantity)) (done : List String)
      (r : DrainRun c.World)
      → Reports done r.status
      → Yields
          (λ (u : Unit {0}) r'. Reports (done ++ names xs) r'.status)
          Never
          (process_candidates c dry t xs r)
  unfolding process_candidates
  Reports-process_candidates dry t [] done r h =
      subst (λ k. Reports k r.status) (sym (append-nil done)) h
  Reports-process_candidates dry t (x ∷ xs) done r h =
      Yields-continue (λ (u : Unit {0}) q. Extends x.name r.status q.status) _ Never
        (process_candidate c dry t x r) _ (Extends-process_candidate dry t x r)
        (λ u q e.
          subst
            (λ k.
              Yields (λ (u' : Unit {0}) r'. Reports k r'.status) Never
                (process_candidates c dry t xs q))
            (append_assoc done (x.name ∷ []) (names xs))
            (Reports-process_candidates dry t xs (done ++ x.name ∷ []) q
              (Reports-Extends done x.name r.status q.status h e)))

  -- The loop over the candidates ends without an error, however the server answers, with one result
  -- for each candidate in their order; started without results, the counts of drained and of deleted
  -- nodes are the numbers of results with such an action, in 32 bits.
  pub process_candidates_results :
      (dry : Bool) (t : ℤ) (xs : List (DrainNodeInfo c.Quantity)) (r : DrainRun c.World)
      → r.status.node_results ≡ []
      → r.status.nodes_drained ≡ pos 0
      → r.status.nodes_deleted ≡ pos 0
      → ((process_candidates c dry t xs r).0 ≡ ok tt)
        × (result_names (process_candidates c dry t xs r).1.status.node_results ≡ names xs)
        × ((process_candidates c dry t xs r).1.status.nodes_drained
            ≡ to_int32 (
                pos (
                  count_results is_drained
                    (process_candidates c dry t xs r).1.status.node_results)))
        × ((process_candidates c dry t xs r).1.status.nodes_deleted
            ≡ to_int32 (
                pos (
                  count_results is_deleted
                    (process_candidates c dry t xs r).1.status.node_results)))
  process_candidates_results dry t xs r none drained deleted =
      read_off (process_candidates c dry t xs r) (
        Reports-process_candidates dry t xs [] r (record {
          reported = rw none refl;
          drained = drained ∙ rw none (no_count is_drained);
          deleted = deleted ∙ rw none (no_count is_deleted);
        }))
    where
      read_off :
          (p : Outcome (Unit {0}) × DrainRun c.World)
          → Yields (λ (u : Unit {0}) r'. Reports (names xs) r'.status) Never p
          → (p.0 ≡ ok tt)
            × (result_names p.1.status.node_results ≡ names xs)
            × (p.1.status.nodes_drained
                ≡ to_int32 (pos (count_results is_drained p.1.status.node_results)))
            × (p.1.status.nodes_deleted
                ≡ to_int32 (pos (count_results is_deleted p.1.status.node_results)))
      read_off (ok u, r') h = (refl, h.reported, h.drained, h.deleted)
      read_off (err e, r') h = absurd h
      read_off (panic, r') h = absurd h
