-- ===== src/Policy/Handler.antt =====
-- `Reconcile` of internal/controller/autoschedulepolicy_controller.go and its helpers.
pub mod Overlap
pub mod Partition
pub mod Store
pub mod Settle
pub mod Loop
pub mod Taken
pub mod Prune
pub mod Refined
pub mod Final
use slumlord.Prelude.{
  ℕ, ◌*◌, not, ◌||◌, Option, none, some, List, [], ◌∷◌, ◌++◌, String, ◌==◌, lookup, contains,
  is_empty, length, if◌then◌else◌,
}
use slumlord.Prelude.Int.{ℤ, pos, ltb_ℤ, to_int32}
use slumlord.Action.{
  Error, not_found, no_match, failed, Reply, value, error, Outcome, ok, err, M, pure, raise, gets,
  when, or_return, ◌>>=◌, ◌>>◌,
}
use slumlord.Clock.{minute_ns}
use slumlord.Change.{or_else}
use slumlord.Policy.{AutoScheduleProfile, build_sleep_schedule_spec, sleep_spec_equal}
use slumlord.Policy.Client.{
  PolicyClient, PolicyRun, Tally, no_tally, with_conflict, with_missing, with_generated, sort_by,
  remove_text, with_finalizers, ask, ask_or_return, put_policy,
}
use slumlord.Policy.Match.{other_policies, overlapping_policies, matched_namespaces}
use slumlord.Policy.Removal.{delete_orphaned_schedules, delete_all_managed_schedules}
use slumlord.Policy.Types.{
  AutoSchedulePolicy, NamespaceConflict, MissingProfile, StampedCondition, Namespace, Child,
  managed_by_label, auto_schedule_policy_finalizer, resolved_profile_label, resolved_generated_name,
}

abbrev pub default_auto_schedule_interval : ℕ
default_auto_schedule_interval = 5 * minute_ns

module _ (default_reconcile_interval : ℤ) (c : PolicyClient) where
  open c use {
    World, get_policy, update_policy, update_policy_status, list_namespaces, list_policies,
    get_child, create_child, update_child, clock, count_message, manual_message,
  }

  abbrev pub Handler : Type 0 → Type 0
  Handler = M (PolicyRun World)

  -- The rest of the second loop's body, once the child was asked for.
  pub settle_child :
      AutoSchedulePolicy → AutoScheduleProfile → Namespace → Tally → Reply Child → Handler Tally
  settle_child p profile ns t (value existing) =
      if not (or_else (lookup managed_by_label existing.labels) "" == p.name)
      then pure (
          with_conflict
            (record {
              namespace = ns.name;
              reason = "ManualScheduleExists";
              with_policies = [];
              message = manual_message (resolved_generated_name p);
            })
            t)
      else do
        let desired = build_sleep_schedule_spec profile
        when (not (sleep_spec_equal existing.spec desired))
            (ask_or_return (update_child (record existing { spec = desired })))
        pure (with_generated ns.name t)
  settle_child p profile ns t (error not_found) = do
    ask_or_return (
        create_child (record {
          namespace = ns.name;
          name = resolved_generated_name p;
          labels = (managed_by_label, p.name) ∷ [];
          spec = build_sleep_schedule_spec profile;
        }))
    pure (with_generated ns.name t)
  settle_child p profile ns t (error no_match) = raise no_match
  settle_child p profile ns t (error failed) = raise failed

  -- The profile of the namespace, by its label.
  pub settle_profile :
      AutoSchedulePolicy → Namespace → Tally → Option AutoScheduleProfile → Handler Tally
  unfolding settle_child
  settle_profile p ns t none = pure (
      with_missing
        (record {
          namespace = ns.name;
          profile = or_else (lookup (resolved_profile_label p) ns.labels) "";
        })
        t)
  settle_profile p ns t (some profile) = do
    answer ← ask (get_child ns.name (resolved_generated_name p))
    settle_child p profile ns t answer

  pub settle_namespace :
      AutoSchedulePolicy → List AutoSchedulePolicy → Namespace → Tally → Handler Tally
  unfolding overlapping_policies settle_profile
  settle_namespace p others ns t =
      let overlap = overlapping_policies c others ns in
      if not (is_empty overlap)
      then pure (
          with_conflict
            (record {
              namespace = ns.name;
              reason = "PolicyOverlap";
              with_policies = overlap;
              message = "another SlumlordAutoSchedulePolicy also matches this namespace";
            })
            t)
      else settle_profile p ns t
          (lookup (or_else (lookup (resolved_profile_label p) ns.labels) "") p.spec.profiles)

  pub settle_namespaces :
      AutoSchedulePolicy → List AutoSchedulePolicy → List Namespace → Tally → Handler Tally
  unfolding settle_namespace
  settle_namespaces p others [] t = pure t
  settle_namespaces p others (ns ∷ rest) t =
      settle_namespace p others ns t >>= settle_namespaces p others rest

  pub policy_condition : AutoSchedulePolicy → ℤ → ℕ → Tally → StampedCondition
  policy_condition p matched now t =
      let partial = not (is_empty t.conflicts) || not (is_empty t.missing) in
      record {
        condition = record {
          condition_type = "Ready";
          status = if partial then "False" else "True";
          observed_generation = p.generation;
          reason = if partial then "PartialReconcile" else "Reconciled";
          message = count_message matched t.generated;
        };
        last_transition_time = now;
      }

  pub update_status : ℤ → Tally → Handler (Unit {0})
  unfolding policy_condition sort_by
  update_status matched t = do
    p ← gets (λ (r : PolicyRun World). r.policy)
    now ← λ r. (let (n, w) = clock r.world in (ok n, record r { world = w }))
    let reported = record p {
      status = record {
        observed_generation = p.generation;
        matched_namespaces = matched;
        generated_schedules = t.generated;
        conflicts = sort_by (λ (x : NamespaceConflict). x.namespace) t.conflicts;
        missing_profiles = sort_by (λ (x : MissingProfile). x.namespace) t.missing;
        conditions = policy_condition p matched now t ∷ [];
      };
    }
    stored ← ask_or_return (update_policy_status reported)
    put_policy stored

  pub policy_requeue : AutoSchedulePolicy → ℤ
  policy_requeue p = elim p.spec.reconcile_interval [
    | some own ↦ own
    | none ↦
        if ltb_ℤ (pos 0) default_reconcile_interval
        then default_reconcile_interval
        else pos default_auto_schedule_interval
  ]

  -- A policy that is being deleted: its children first, then the finalizer.
  pub finalize : AutoSchedulePolicy → Handler (Unit {0})
  unfolding delete_all_managed_schedules remove_text
  finalize p = when (contains auto_schedule_policy_finalizer p.finalizers) (do
    delete_all_managed_schedules c p
    stored ← ask_or_return (
        update_policy (with_finalizers (remove_text auto_schedule_policy_finalizer p.finalizers) p))
    put_policy stored)

  pub ensure_finalizer : AutoSchedulePolicy → Handler (Unit {0})
  ensure_finalizer p = when (not (contains auto_schedule_policy_finalizer p.finalizers)) (do
    stored ←
        ask_or_return
          (update_policy (with_finalizers (p.finalizers ++ auto_schedule_policy_finalizer ∷ []) p))
    put_policy stored)

  -- From the listing of namespaces on.
  pub reconcile_children : Handler ℤ
  unfolding other_policies matched_namespaces settle_namespaces delete_orphaned_schedules
      update_status policy_requeue
  reconcile_children = do
    p ← gets (λ (r : PolicyRun World). r.policy)
    namespaces ← ask_or_return list_namespaces
    policies ← ask_or_return list_policies
    matched ← or_return (matched_namespaces c p namespaces)
    t ← settle_namespaces p (other_policies p.name policies) matched no_tally
    delete_orphaned_schedules c p t.desired
    update_status (to_int32 (pos (length matched))) t
    pure (policy_requeue p)

  pub reconcile_live : Handler ℤ
  unfolding reconcile_children
  reconcile_live = do
    p ← gets (λ (r : PolicyRun World). r.policy)
    if p.spec.suspend then pure (policy_requeue p) else reconcile_children

  pub reconcile_policy : Handler ℤ
  unfolding finalize ensure_finalizer reconcile_live
  reconcile_policy = do
    p ← gets (λ (r : PolicyRun World). r.policy)
    if p.deleting then finalize p >> pure (pos 0) else ensure_finalizer p >> reconcile_live

  ignore_not_found : Error → Outcome ℤ
  ignore_not_found not_found = ok (pos 0)
  ignore_not_found no_match = err no_match
  ignore_not_found failed = err failed

  -- A reconciliation request: the time until the next one (0 for none), and the world after it.
  unfoldable pub reconcile : String → World → Outcome ℤ × World
  unfolding reconcile_policy ignore_not_found
  reconcile name w =
      let (answer, w') = get_policy name w in
      elim answer [
        | error e ↦ (ignore_not_found e, w')
        | value p ↦
            let (outcome, r) = reconcile_policy (record { policy = p; world = w' }) in
            (outcome, r.world)
      ]
