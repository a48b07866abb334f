-- ===== src/Drain/Status.antt =====
-- The cron schedule, the condition and the times of the next run.
use slumlord.Prelude.{
  ℕ, ◌+◌, ◌-◌, ◌*◌, ◌⊎◌, inl, inr, Option, none, some, [], ◌∷◌, String, ◌==◌, ltb, if◌then◌else◌,
}
use slumlord.Prelude.Int.{ℤ, pos, ltb_ℤ}
use slumlord.Action.{failed, M, pure, gets, ◌>>=◌, ◌>>◌}
use slumlord.Clock.{second_ns, minute_ns}
use slumlord.Drain.Types.{DrainSchedule, NodeDrainPolicy}
use slumlord.Drain.Client.{
  text, failure, instant, DrainClient, DrainRun, ask_or_return, read, the_policy, put_policy,
}

abbrev pub default_node_drain_interval : ℕ
default_node_drain_interval = 6 * minute_ns + 30 * second_ns

module _ (default_reconcile_interval : ℤ) (c : DrainClient) where
  open c use {
    World, Location, Cron, utc, load_location, parse_cron, next, sprintf, update_policy_status,
    set_status_condition, clock,
  }

  abbrev pub Handler : Type 0 → Type 0
  Handler = M (DrainRun World)

  pub reconcile_interval : NodeDrainPolicy → ℤ
  reconcile_interval p = elim p.spec.reconcile_interval [
    | some own ↦ own
    | none ↦
        if ltb_ℤ (pos 0) default_reconcile_interval
        then default_reconcile_interval
        else pos default_node_drain_interval
  ]

  -- The message of the error, or the schedule with its location.
  unfoldable pub parse_cron_schedule : DrainSchedule → String ⊎ (Cron × Location)
  parse_cron_schedule s = elim (if s.timezone == "" then some utc else load_location s.timezone) [
    | none ↦ inl (sprintf "invalid timezone %q: %w" (text s.timezone ∷ failure failed ∷ []))
    | some loc ↦ elim (parse_cron s.cron) [
      | none ↦ inl (sprintf "invalid cron expression %q: %w" (text s.cron ∷ failure failed ∷ []))
      | some cron ↦ inr (cron, loc)
    ]
  ]

  unfoldable pub next_after : String ⊎ (Cron × Location) → Handler (Option ℕ)
  next_after (inl message) = pure none
  next_after (inr (cron, loc)) = read clock >>= λ now. pure (some (next cron loc now))

  -- No time if the schedule cannot be read.
  unfoldable pub compute_next_run : NodeDrainPolicy → Handler (Option ℕ)
  unfolding parse_cron_schedule next_after
  compute_next_run p = next_after (parse_cron_schedule p.spec.schedule)

  unfoldable pub set_condition : String → String → String → Handler (Unit {0})
  set_condition status reason message = do
    p ← the_policy
    put_policy (record p {
      status = record p.status {
        conditions = set_status_condition p.status.conditions (record {
          condition_type = "Ready";
          status = status;
          observed_generation = p.generation;
          reason = reason;
          message = message;
        });
      };
    })

  -- `if err := r.Status().Update(ctx, &policy); err != nil { return ... }`
  unfoldable pub store_status : Handler (Unit {0})
  store_status = the_policy >>= λ p. ask_or_return (update_policy_status p) >>= put_policy

  unfoldable pub the_interval : Handler ℤ
  unfolding reconcile_interval
  the_interval = gets (λ (r : DrainRun World). reconcile_interval r.policy)

  -- `time.Until(t)`, the interval if it is negative.
  unfoldable pub delay_until : ℕ → Handler ℤ
  unfolding the_interval
  delay_until t = do now ← read clock; if ltb t now then the_interval else pure (pos (t - now))

  unfoldable pub set_next_run : Option ℕ → Handler (Unit {0})
  set_next_run none = pure tt
  set_next_run (some t) =
      the_policy >>= λ p. put_policy (record p { status = record p.status { next_run = some t } })

  unfoldable pub schedule_next : ℕ → Handler ℤ
  unfolding set_next_run set_condition store_status delay_until
  schedule_next t = do
    set_next_run (some t)
    set_condition "True" "Scheduled" (sprintf "Next run at %s" (instant t ∷ []))
    store_status
    delay_until t
