-- ===== src/Drain/Node.antt =====
-- One candidate node: cordon, evict, wait, uncordon, delete.
use slumlord.Prelude.{
  ℕ, zero, suc, ◌+◌, ◌-◌, ◌*◌, Bool, true, false, not, Option, some, List, [], ◌∷◌, ◌++◌, String,
  ltb, length, any_of, if◌then◌else◌,
}
use slumlord.Prelude.Int.{ℤ, pos, pos_part, neg_part, suc_ℤ, to_int32, to_int64}
use slumlord.Action.{Error, not_found, Reply, value, error, M, pure, gets, ◌>>=◌, ◌>>◌}
use slumlord.Clock.{second_ns}
use slumlord.Drain.Types.{
  DrainNodeResult, DrainRunStatus, NodeDrainPolicy, Pod, Node, DrainNodeInfo,
}
use slumlord.Drain.Client.{
  Argument, number, failure, DrainClient, DrainRun, ask, read, the_policy, put_policy,
  change_status, event,
}
use slumlord.Drain.Analysis.{is_remaining}

-- The evicted pods, and the number of errors.
pub record Evictions : Type 0 where
  pub evicted : ℤ
  pub failures : ℕ

-- `now.Add(timeout)`
abbrev pub deadline : ℕ → ℤ → ℕ
deadline now timeout_seconds =
    (now + pos_part timeout_seconds * second_ns) - neg_part timeout_seconds * second_ns

abbrev pub add_result : DrainNodeResult → DrainRunStatus → DrainRunStatus
add_result x s = record s { node_results = s.node_results ++ x ∷ [] }

-- After an error the policy in memory is the one that was sent.
abbrev pub stored_or_sent : NodeDrainPolicy → Reply NodeDrainPolicy → NodeDrainPolicy
stored_or_sent sent (value stored) = stored
stored_or_sent sent (error e) = sent

module _ (c : DrainClient) where
  open c use {
    World, Quantity, sprintf, update_policy_status, list_pods, get_node, patch_node, evict,
    delete_node, clock, pause,
  }

  abbrev pub Handler : Type 0 → Type 0
  Handler = M (DrainRun World)

  unfoldable pub cordon_node : Node Quantity → Handler (Reply (Unit {0}))
  cordon_node node = ask (patch_node (record node { unschedulable = true }))

  unfoldable pub uncordon_found : Reply (Node Quantity) → Handler (Reply (Unit {0}))
  uncordon_found (error e) = pure (error e)
  uncordon_found (value node) = ask (patch_node (record node { unschedulable = false }))

  unfoldable pub uncordon_node : String → Handler (Reply (Unit {0}))
  unfolding uncordon_found
  uncordon_node name = ask (get_node name) >>= uncordon_found

  pub count_eviction : Reply (Unit {0}) → Evictions → Evictions
  unfolding to_int32
  count_eviction (value u) n = record n { evicted = to_int32 (suc_ℤ n.evicted) }
  count_eviction (error not_found) n = n
  count_eviction (error e) n = record n { failures = n.failures + 1 }

  -- The loop over the drainable pods.
  unfoldable pub evict_pods : Option ℤ → List (Pod Quantity) → Evictions → Handler Evictions
  unfolding count_eviction
  evict_pods grace [] n = pure n
  evict_pods grace (pod ∷ pods) n = do
    answer ← ask (evict pod.namespace pod.name grace)
    evict_pods grace pods (count_eviction answer n)

  -- A round of `waitForDrain` once the pods were asked for; `again` is the next round.
  unfoldable pub after_listing : String → Handler Bool → Reply (List (Pod Quantity)) → Handler Bool
  after_listing name again (error e) = pure false
  after_listing name again (value pods) =
      if not (any_of (is_remaining name) pods)
      then pure true
      else (read pause >>= λ cancelled. (if cancelled then pure false else again))

  -- `waitForDrain` from the loop on, for at most so many rounds.
  unfoldable pub poll : ℕ → String → ℕ → Handler Bool
  unfolding after_listing
  poll zero name until = do now ← read clock; pure false
  poll (suc rounds) name until = do
    now ← read clock
    if not (ltb now until)
        then pure false
        else (ask list_pods >>= after_listing name (poll rounds name until))

  -- A round takes two seconds at least.
  unfoldable pub wait_for_drain : String → ℤ → Handler Bool
  unfolding poll
  wait_for_drain name timeout_seconds = do
    now ← read clock
    poll (pos_part timeout_seconds) name (deadline now timeout_seconds)

  unfoldable pub result_of : DrainNodeInfo Quantity → String → String → ℤ → DrainNodeResult
  result_of x action reason pods_evicted = record {
    name = x.name;
    cpu_request_percent = x.cpu_request_percent;
    memory_request_percent = x.mem_request_percent;
    action = action;
    reason = reason;
    pods_evicted = pods_evicted;
  }

  abbrev pub percents : DrainNodeInfo Quantity → List Argument
  percents x = number x.cpu_request_percent ∷ number x.mem_request_percent ∷ []

  append_result : DrainNodeResult → Handler (Unit {0})
  append_result x = change_status (add_result x)

  unfoldable pub dry_run : DrainNodeInfo Quantity → Handler (Unit {0})
  unfolding append_result result_of to_int32
  dry_run x = append_result (
      result_of x "dry-run" (sprintf "Would drain node (cpu=%d%%, mem=%d%%)" (percents x))
        (to_int32 (pos (length x.drainable_pods))))

  unfoldable pub cordon_failed : DrainNodeInfo Quantity → Error → Handler (Unit {0})
  unfolding append_result result_of
  cordon_failed x e = do
    append_result (result_of x "failed" (sprintf "cordon failed: %v" (failure e ∷ [])) (pos 0))
    event "CordonFailed"

  unfoldable pub drain_timed_out : DrainNodeInfo Quantity → Evictions → Handler (Unit {0})
  unfolding append_result result_of uncordon_node
  drain_timed_out x n = do
    uncordon_node x.name
    append_result (
        result_of x "failed"
          (if ltb 0 n.failures
            then sprintf "eviction failed for %d pods and drain timed out"
                (number (pos n.failures) ∷ [])
            else "drain timed out")
          n.evicted)
    event "DrainFailed"

  -- The action of the result: "deleted" or "drained".
  unfoldable pub deleted_or_drained : Reply (Unit {0}) → Handler String
  unfolding to_int32
  deleted_or_drained (error e) = event "NodeDeleteFailed" >> pure "drained"
  deleted_or_drained (value u) = do
    change_status (λ s. record s { nodes_deleted = to_int32 (suc_ℤ s.nodes_deleted) })
    event "NodeDeleted"
    pure "deleted"

  unfoldable pub delete_drained : DrainNodeInfo Quantity → Handler String
  unfolding deleted_or_drained
  delete_drained x = do
    p ← the_policy
    if p.spec.drain.delete_node_after_drain
        then ask (delete_node x.name) >>= deleted_or_drained
        else pure "drained"

  -- The policy is stored after each drained node; an error is only logged.
  unfoldable pub persist_run : Handler (Unit {0})
  unfolding to_int64
  persist_run = do
    p ← the_policy
    status ← gets (λ (r : DrainRun World). r.status)
    let sent = record p {
      status = record p.status {
        last_run = some status;
        total_nodes_drained = to_int64 (suc_ℤ p.status.total_nodes_drained);
      };
    }
    answer ← ask (update_policy_status sent)
    put_policy (stored_or_sent sent answer)

  unfoldable pub drain_completed : DrainNodeInfo Quantity → Evictions → Handler (Unit {0})
  unfolding append_result result_of delete_drained persist_run to_int32
  drain_completed x n = do
    change_status (λ s. record s { nodes_drained = to_int32 (suc_ℤ s.nodes_drained) })
    action ← delete_drained x
    append_result
        (result_of x action (sprintf "Node drained (cpu=%d%%, mem=%d%%)" (percents x)) n.evicted)
    event "DrainCompleted"
    persist_run

  -- Once the node was asked to be cordoned.
  unfoldable pub drain_cordoned : ℤ → DrainNodeInfo Quantity → Reply (Unit {0}) → Handler (Unit {0})
  unfolding cordon_failed evict_pods wait_for_drain drain_timed_out drain_completed
  drain_cordoned timeout x (error e) = cordon_failed x e
  drain_cordoned timeout x (value u) = do
    event "DrainStarted"
    p ← the_policy
    n ←
        evict_pods p.spec.drain.grace_period_seconds x.drainable_pods
          (record { evicted = pos 0; failures = 0 })
    done ← wait_for_drain x.name timeout
    if done then drain_completed x n else drain_timed_out x n

  unfoldable pub process_candidate : Bool → ℤ → DrainNodeInfo Quantity → Handler (Unit {0})
  unfolding dry_run cordon_node drain_cordoned
  process_candidate dry timeout x =
      if dry then dry_run x else (cordon_node x.node >>= drain_cordoned timeout x)

  unfoldable pub process_candidates : Bool → ℤ → List (DrainNodeInfo Quantity) → Handler (Unit {0})
  unfolding process_candidate
  process_candidates dry timeout [] = pure tt
  process_candidates dry timeout (x ∷ xs) =
      process_candidate dry timeout x >> process_candidates dry timeout xs
