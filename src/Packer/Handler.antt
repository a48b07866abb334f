-- ===== src/Packer/Handler.antt =====
-- `Reconcile`, `analyzeNodes` and `executePlan` of internal/controller/binpacker_controller.go.
use slumlord.Prelude.{
  ℕ, suc, ◌*◌, not, Option, none, some, List, [], ◌∷◌, ◌++◌, map, String, ◌==◌, length, ltb,
  contains, if◌then◌else◌,
}
use slumlord.Prelude.Int.{ℤ, pos, add_ℤ, ltb_ℤ, to_int32, to_int64}
use slumlord.Action.{
  Error, not_found, no_match, failed, Reply, value, error, Outcome, ok, err, M, pure, when, ◌>>=◌,
  ◌>>◌,
}
use slumlord.Clock.{minute_ns}
use slumlord.Api.Schedule.{SleepWindow}
use slumlord.Policy.Client.{remove_text}
use slumlord.Packer.{is_in_consolidation_window}
use slumlord.Packer.Types.{CandidateNode, PlannedEviction, BinPackerStatus, BinPacker, NodeInfo}
use slumlord.Packer.Client.{
  PackerClient, PackerRun, ask, ask_or_return, read, the_packer, put_packer,
}
use slumlord.Packer.Owners.{ReplicaSets, replica_sets_from}
use slumlord.Packer.Analysis.{infos_of, find_candidate_nodes}
use slumlord.Packer.Safety.{build_safety_context}
use slumlord.Packer.Plan.{build_consolidation_plan}

abbrev pub bin_packer_finalizer : String
bin_packer_finalizer = "slumlord.io/binpacker-finalizer"

abbrev pub default_bin_packer_interval : ℕ
default_bin_packer_interval = 6 * minute_ns

abbrev pub with_status : (BinPackerStatus → BinPackerStatus) → BinPacker → BinPacker
with_status f p = record p { status = f p.status }

candidate_node : {Q : Type 0} → NodeInfo Q → CandidateNode
candidate_node x = record {
  name = x.name;
  cpu_request_percent = x.cpu_request_percent;
  memory_request_percent = x.mem_request_percent;
  pod_count = to_int32 (pos (length x.evictable_pods));
}

-- The fields of the status that the analysis sets.
pub analyzed :
    {Q : Type 0} → ℕ → List (NodeInfo Q) → List (NodeInfo Q) → BinPackerStatus → BinPackerStatus
unfolding candidate_node
analyzed now infos candidates s = record s {
  last_analysis_time = some now;
  nodes_analyzed = to_int32 (pos (length infos));
  candidate_nodes = map candidate_node candidates;
  candidate_node_count = to_int32 (pos (length candidates));
}

-- The fields that are set after the evictions.
unfoldable pub executed : ℕ → ℕ → BinPackerStatus → BinPackerStatus
executed now evicted s = record s {
  pods_evicted_this_cycle = to_int32 (pos evicted);
  total_pods_evicted = to_int64 (add_ℤ s.total_pods_evicted (pos evicted));
  last_consolidation_time = if ltb 0 evicted then some now else s.last_consolidation_time;
}

module _ (default_reconcile_interval : ℤ) (c : PackerClient) where
  open c use {
    World, Quantity, zones, get_packer, update_packer, update_packer_status, list_nodes, list_pods,
    list_replica_sets, evict, clock,
  }

  abbrev pub Handler : Type 0 → Type 0
  Handler = M (PackerRun World)

  unfoldable pub reconcile_interval : BinPacker → ℤ
  reconcile_interval p = elim p.spec.reconcile_interval [
    | some own ↦ own
    | none ↦
        if ltb_ℤ (pos 0) default_reconcile_interval
        then default_reconcile_interval
        else pos default_bin_packer_interval
  ]

  abbrev pub the_interval : Handler ℤ
  the_interval = the_packer >>= λ p. pure (reconcile_interval p)

  -- `if err := r.Status().Update(ctx, &packer); err != nil { return ... }`
  unfoldable pub store_status : Handler (Unit {0})
  store_status = the_packer >>= λ p. ask_or_return (update_packer_status p) >>= put_packer

  -- The nodes, and the ReplicaSets by their keys.
  unfoldable pub analyze_nodes : BinPacker → Handler (List (NodeInfo Quantity) × ReplicaSets)
  unfolding infos_of replica_sets_from
  analyze_nodes p = do
    nodes ← ask_or_return list_nodes
    pods ← ask_or_return list_pods
    sets ← ask_or_return list_replica_sets
    let m = replica_sets_from [] sets
    pure (infos_of c p m pods nodes, m)

  -- An update of the status whose error is only logged.
  unfoldable pub put_stored : Reply BinPacker → Handler (Unit {0})
  put_stored (error e) = pure tt
  put_stored (value p) = put_packer p

  -- An eviction that failed: the progress is stored.
  unfoldable pub eviction_failed : ℕ → Error → Handler (ℕ × Option Error)
  unfolding put_stored
  eviction_failed evicted e = do
    p ← the_packer
    let p' = with_status (λ s. record s { pods_evicted_this_cycle = to_int32 (pos evicted) }) p
    put_packer p'
    answer ← ask (update_packer_status p')
    put_stored answer
    pure (evicted, some e)

  -- What follows the answer to an eviction; a pod that is gone is passed over.
  unfoldable pub after_eviction :
      ℕ → (ℕ → Handler (ℕ × Option Error)) → Reply (Unit {0}) → Handler (ℕ × Option Error)
  unfolding eviction_failed
  after_eviction evicted next (value u) = next (suc evicted)
  after_eviction evicted next (error not_found) = next evicted
  after_eviction evicted next (error no_match) = eviction_failed evicted no_match
  after_eviction evicted next (error failed) = eviction_failed evicted failed

  -- `executePlan`: the number of evicted pods, and the error that ended the loop.
  unfoldable pub execute_plan : ℕ → List PlannedEviction → Handler (ℕ × Option Error)
  unfolding after_eviction
  execute_plan evicted [] = pure (evicted, none)
  execute_plan evicted (x ∷ xs) =
      ask (evict x.namespace x.pod_name) >>= after_eviction evicted (λ n. execute_plan n xs)

  -- The evictions and what follows them; their error is only logged.
  unfoldable pub run_plan : ℕ → List PlannedEviction → Handler ℤ
  unfolding execute_plan executed store_status reconcile_interval
  run_plan now plan = do
    (evicted, failure) ← execute_plan 0 plan
    p ← the_packer
    put_packer (with_status (executed now evicted) p)
    store_status
    the_interval

  -- No pod has been evicted in this cycle.
  unfoldable pub store_unchanged : BinPacker → Handler ℤ
  unfolding store_status reconcile_interval
  store_unchanged p = do
    put_packer (with_status (λ s. record s { pods_evicted_this_cycle = pos 0 }) p)
    store_status
    the_interval

  -- What follows the making of the plan.
  unfoldable pub carry_out : ℕ → List PlannedEviction → Handler ℤ
  unfolding store_unchanged run_plan
  carry_out now plan = do
    p ← the_packer
    let p' = with_status (λ s. record s { consolidation_plan = plan }) p
    put_packer p'
    if p.spec.dry_run then store_unchanged p' else run_plan now plan

  -- From `buildSafetyContext` on.
  unfoldable pub consolidate_candidates :
      ℕ → List (NodeInfo Quantity) → List (NodeInfo Quantity) → ReplicaSets → Handler ℤ
  unfolding build_safety_context carry_out
  consolidate_candidates now infos candidates m = do
    safety ← build_safety_context c candidates m
    p ← the_packer
    carry_out now (build_consolidation_plan c candidates infos p safety)

  -- From `analyzeNodes` on.
  unfoldable pub reconcile_analyzed : Handler ℤ
  unfolding analyze_nodes find_candidate_nodes analyzed store_unchanged consolidate_candidates
  reconcile_analyzed = do
    p ← the_packer
    (infos, m) ← analyze_nodes p
    let candidates = find_candidate_nodes c p.spec.thresholds infos
    now ← read clock
    let p' = with_status (analyzed now infos candidates) p
    put_packer p'
    if p.spec.action == "report"
        then store_unchanged (with_status (λ s. record s { consolidation_plan = [] }) p')
        else consolidate_candidates now infos candidates m

  -- The test of the schedule, where there is one.
  unfoldable pub reconcile_in_window : Option SleepWindow → Handler ℤ
  unfolding reconcile_analyzed reconcile_interval
  reconcile_in_window none = reconcile_analyzed
  reconcile_in_window (some window) = do
    now ← read clock
    if is_in_consolidation_window zones (some window) now then reconcile_analyzed else the_interval

  unfoldable pub reconcile_live : Handler ℤ
  unfolding reconcile_in_window
  reconcile_live = the_packer >>= λ p. reconcile_in_window p.spec.schedule

  unfoldable pub reconcile_packer : Handler ℤ
  unfolding reconcile_live remove_text
  reconcile_packer = do
    p ← the_packer
    let has = contains bin_packer_finalizer p.finalizers
    if p.deleting
        then (when has (
              ask_or_return (
                update_packer
                  (record p { finalizers = remove_text bin_packer_finalizer p.finalizers }))
              >>= put_packer)
            >> pure (pos 0))
        else (when (not has) (
              ask_or_return (
                update_packer (record p { finalizers = p.finalizers ++ bin_packer_finalizer ∷ [] }))
              >>= put_packer)
            >> reconcile_live)

  ignore_not_found : Error → Outcome ℤ
  ignore_not_found not_found = ok (pos 0)
  ignore_not_found no_match = err no_match
  ignore_not_found failed = err failed

  unfoldable pub reconcile_found : Reply BinPacker → World → Outcome ℤ × World
  unfolding reconcile_packer ignore_not_found
  reconcile_found (error e) w = (ignore_not_found e, w)
  reconcile_found (value p) w =
      let (outcome, r) = reconcile_packer (record { packer = p; world = w }) in (outcome, r.world)

  -- A reconciliation request: the time until the next one (0 for none), and the world after it.
  unfoldable pub reconcile : String → World → Outcome ℤ × World
  unfolding reconcile_found
  reconcile name w = let (answer, w') = get_packer name w in reconcile_found answer w'
