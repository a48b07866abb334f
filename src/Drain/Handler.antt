-- ===== src/Drain/Handler.antt =====
-- `Reconcile` of internal/controller/nodedrainpolicy_controller.go.
use slumlord.Prelude.{
  ◌-◌, ◌*◌, not, inl, inr, Option, none, some, List, [], ◌∷◌, ◌++◌, String, length, contains,
  if◌then◌else◌,
}
use slumlord.Prelude.Int.{ℤ, pos, to_int32}
use slumlord.Action.{
  Error, not_found, no_match, failed, Reply, value, error, Outcome, ok, err, M, pure, raise, crash,
  when, gets, ◌>>=◌, ◌>>◌,
}
use slumlord.Clock.{minute_ns}
use slumlord.Change.{or_else}
use slumlord.Policy.Client.{remove_text}
use slumlord.Drain.Types.{DrainRunStatus, NodeDrainPolicy, DrainNodeInfo}
use slumlord.Drain.Client.{
  number, failure, DrainClient, DrainRun, ask, ask_or_return, read, the_policy, put_policy,
  change_status,
}
use slumlord.Drain.Analysis.{
  find_drain_candidates, less_utilized, ready_count, max_drainable, node_infos,
}
use slumlord.Drain.Node.{process_candidates}
use slumlord.Drain.Choice.{should_run, limit_candidates}
use slumlord.Drain.Status.{
  parse_cron_schedule, compute_next_run, set_condition, store_status, the_interval, delay_until,
  set_next_run, schedule_next,
}

abbrev pub node_drain_finalizer : String
node_drain_finalizer = "slumlord.io/nodedrain-finalizer"

abbrev pub no_run : DrainRunStatus
no_run = record {
  start_time = 0;
  completion_time = none;
  nodes_evaluated = pos 0;
  nodes_candidates = pos 0;
  nodes_drained = pos 0;
  nodes_deleted = pos 0;
  node_results = [];
}

module _ (default_reconcile_interval : ℤ) (c : DrainClient) where
  open c use {
    World, Quantity, Location, Cron, next, sort_slice, sprintf, get_policy, update_policy,
    list_nodes, list_pods, clock,
  }

  abbrev pub Handler : Type 0 → Type 0
  Handler = M (DrainRun World)

  -- `analyzeNodes`
  pub analyze_nodes : NodeDrainPolicy → Handler (Reply (List (DrainNodeInfo Quantity)))
  unfolding node_infos
  analyze_nodes p = ask list_nodes >>= λ answer. elim answer [
    | error e ↦ pure (error e)
    | value nodes ↦ ask list_pods >>= λ answer'. elim answer' [
      | error e ↦ pure (error e)
      | value pods ↦ pure (value (node_infos c p pods nodes))
    ]
  ]

  pub analysis_failed : Error → Handler ℤ
  unfolding set_condition store_status
  analysis_failed e = do
    set_condition default_reconcile_interval c "False" "AnalysisFailed"
        (sprintf "%v" (failure e ∷ []))
    store_status default_reconcile_interval c
    raise e

  -- The candidates in the order of their use, cut to the number that may be drained.
  pub chosen_candidates :
      NodeDrainPolicy → List (DrainNodeInfo Quantity) → Option (List (DrainNodeInfo Quantity))
  unfolding limit_candidates
  chosen_candidates p infos =
      limit_candidates (max_drainable p.spec.safety (ready_count infos))
        (sort_slice less_utilized (find_drain_candidates p.spec.thresholds infos))

  unfoldable pub finish_run : Handler ℤ
  unfolding compute_next_run set_next_run set_condition store_status delay_until
  finish_run = do
    now ← read clock
    change_status (λ s. record s { completion_time = some now })
    status ← gets (λ (r : DrainRun World). r.status)
    p ← the_policy
    put_policy (record p { status = record p.status { last_run = some status } })
    after ← compute_next_run default_reconcile_interval c p
    set_next_run default_reconcile_interval c after
    set_condition default_reconcile_interval c "True" "RunCompleted" (
        sprintf "Drained %d/%d candidate nodes"
          (number status.nodes_drained ∷ number status.nodes_candidates ∷ []))
    store_status default_reconcile_interval c
    delay_until default_reconcile_interval c (or_else after 0)

  -- The loop over the candidates and the end of the run.
  unfoldable pub drain_candidates :
      NodeDrainPolicy → Option (List (DrainNodeInfo Quantity)) → Handler ℤ
  unfolding finish_run
  drain_candidates p none = crash
  drain_candidates p (some candidates) = do
    process_candidates c p.spec.safety.dry_run (or_else p.spec.drain.timeout_seconds (pos 300))
        candidates
    finish_run

  unfoldable pub drain_analyzed : List (DrainNodeInfo Quantity) → Handler ℤ
  unfolding chosen_candidates drain_candidates
  drain_analyzed infos = do
    p ← the_policy
    change_status (λ s. record s {
      nodes_evaluated = to_int32 (pos (length infos));
      nodes_candidates = to_int32 (pos (length (find_drain_candidates p.spec.thresholds infos)));
    })
    drain_candidates p (chosen_candidates p infos)

  pub execute_run : Handler ℤ
  unfolding analyze_nodes analysis_failed drain_analyzed
  execute_run = do
    start ← read clock
    change_status (λ s. record no_run { start_time = start })
    p ← the_policy
    analyze_nodes p >>= λ answer. elim answer [
      | error e ↦ analysis_failed e
      | value infos ↦ drain_analyzed infos
    ]

  -- Whether a run is due is decided by the first tick after two minutes ago.
  pub reconcile_scheduled : Cron → Location → Handler ℤ
  unfolding should_run schedule_next execute_run
  reconcile_scheduled cron loc = do
    now ← read clock
    p ← the_policy
    if should_run p.status.last_run (next cron loc (now - 2 * minute_ns)) now
        then execute_run
        else schedule_next default_reconcile_interval c (next cron loc now)

  unfoldable pub reconcile_live : Handler ℤ
  unfolding set_condition store_status the_interval parse_cron_schedule reconcile_scheduled
  reconcile_live = do
    p ← the_policy
    if p.spec.suspend
        then set_condition default_reconcile_interval c "False" "Suspended" "Policy is suspended"
          >> store_status default_reconcile_interval c
          >> the_interval default_reconcile_interval c
        else elim (parse_cron_schedule default_reconcile_interval c p.spec.schedule) [
          | inl message ↦
              set_condition default_reconcile_interval c "False" "InvalidCron" message
              >> store_status default_reconcile_interval c
              >> the_interval default_reconcile_interval c
          | inr (cron, loc) ↦ reconcile_scheduled cron loc
        ]

  unfoldable pub reconcile_policy : Handler ℤ
  unfolding reconcile_live remove_text
  reconcile_policy = do
    p ← the_policy
    let has = contains node_drain_finalizer p.finalizers
    if p.deleting
        then (when has (
              ask_or_return (
                update_policy
                  (record p { finalizers = remove_text node_drain_finalizer p.finalizers }))
              >>= put_policy)
            >> pure (pos 0))
        else (when (not has) (
              ask_or_return (
                update_policy (record p { finalizers = p.finalizers ++ node_drain_finalizer ∷ [] }))
              >>= put_policy)
            >> reconcile_live)

  ignore_not_found : Error → Outcome ℤ
  ignore_not_found not_found = ok (pos 0)
  ignore_not_found no_match = err no_match
  ignore_not_found failed = err failed

  -- A reconciliation request: the time until the next one (0 for none), and the world after it.
  unfoldable pub reconcile : String → World → Outcome ℤ × World
  unfolding reconcile_policy ignore_not_found
  reconcile name w =
      let (answer, w') = get_policy name w in
      elim answer [
        | error e ↦ (ignore_not_found e, w')
        | value p ↦
            let (outcome, r) =
              reconcile_policy (record { policy = p; status = no_run; events = []; world = w' }) in
            (outcome, r.world)
      ]
