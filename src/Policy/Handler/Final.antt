-- ===== src/Policy/Handler/Final.antt =====
-- The end of a policy that is being deleted.
use mathlib.Core.Bool.{false≢true}
use slumlord.Prelude.{
  ◌≡◌, refl, sym, ap, ◌∙◌, Bool, true, false, none, String, contains, if◌then◌else◌,
}
use slumlord.Prelude.Int.{ℤ, pos}
use slumlord.Action.{value, Outcome, ok, err, panic, M, pure, ◌>>◌}
use slumlord.Action.Yields.{Yields, Yields-continue, Yields-ok}
use slumlord.Policy.Types.{AutoSchedulePolicy, auto_schedule_policy_finalizer}
use slumlord.Policy.Client.{PolicyClient, PolicyRun, with_finalizers, remove_text}
use slumlord.Policy.Removal.{delete_all_managed_schedules}
use slumlord.Policy.Handler.{finalize, reconcile_policy, reconcile}
use slumlord.Policy.Handler.Store.{Children, Store, is_labelled}
use slumlord.Policy.Handler.Prune.{
  Nothing, Yields-ask_or_return, Cleared-delete_all_managed_schedules,
}

module _ (default : ℤ) (c : PolicyClient) (s : Store c) where
  abbrev Cleared : String → Children → Children → Type 0
  Cleared name v v' = (a b : String) → v' a b ≡ (if is_labelled name (v a b) then none else v a b)

  Cleared-finalize :
      (p : AutoSchedulePolicy) (r : PolicyRun c.World)
      → contains auto_schedule_policy_finalizer p.finalizers ≡ true
      → Yields
          (λ u r'. Cleared p.name (s.view r.world) (s.view r'.world))
          (Nothing c)
          (finalize default c p r)
  unfolding finalize
  Cleared-finalize p r has = rw has (
      Yields-continue (λ u q. Cleared p.name (s.view r.world) (s.view q.world))
        (λ u r'. Cleared p.name (s.view r.world) (s.view r'.world)) (Nothing c)
        (delete_all_managed_schedules c p r) _ (Cleared-delete_all_managed_schedules c s p r)
        (λ u q cleared.
          Yields-ask_or_return c
            (c.update_policy
              (with_finalizers (remove_text auto_schedule_policy_finalizer p.finalizers) p))
            _ (λ u r'. Cleared p.name (s.view r.world) (s.view r'.world)) q
            (λ stored w e a b.
              ap (λ f. f a b) (s.policy_updated _ stored q.world w e) ∙ cleared a b)))

  if_true :
      {A : Type 0} (P : A → Type 0) (b : Bool) (x y : A) → b ≡ true → P x → P (if b then x else y)
  if_true P true x y e h = h
  if_true P false x y e h = absurd (false≢true e)

  Cleared-reconcile_policy :
      (p : AutoSchedulePolicy) (w : c.World)
      → p.deleting ≡ true
      → contains auto_schedule_policy_finalizer p.finalizers ≡ true
      → Yields
          (λ u r'. (u ≡ pos 0) × Cleared p.name (s.view w) (s.view r'.world))
          (Nothing c)
          (reconcile_policy default c (record { policy = p; world = w }))
  unfolding reconcile_policy
  Cleared-reconcile_policy p w deleting has =
      let r : PolicyRun c.World = record { policy = p; world = w } in
      let Q : ℤ → PolicyRun c.World → Type 0 =
        λ u r'. (u ≡ pos 0) × Cleared p.name (s.view w) (s.view r'.world) in
      if_true (λ (m : M (PolicyRun c.World) ℤ). Yields Q (Nothing c) (m r)) p.deleting
        (finalize default c p >> pure (pos 0)) _ deleting
        (Yields-continue (λ u r'. Cleared p.name (s.view w) (s.view r'.world)) Q (Nothing c)
          (finalize default c p r) (λ u. pure (pos 0)) (Cleared-finalize p r has)
          (λ u q cleared. (refl, cleared)))

  -- The policy in memory is dropped at the end.
  Yields-world :
      (Q : ℤ → c.World → Type 0) (x : Outcome ℤ × PolicyRun c.World)
      → Yields (λ u r'. Q u r'.world) (Nothing c) x
      → Yields Q (λ w. Unit {0}) (x.0, x.1.world)
  Yields-world Q (ok u, r) h = h
  Yields-world Q (err e, r) h = tt
  Yields-world Q (panic, r) h = tt

  reconcile-value :
      (name : String) (w w1 : c.World) (p : AutoSchedulePolicy)
      → c.get_policy name w ≡ (value p, w1)
      → reconcile default c name w ≡ (
        (reconcile_policy default c (record { policy = p; world = w1 })).0,
        (reconcile_policy default c (record { policy = p; world = w1 })).1.world,
      )
  unfolding reconcile
  reconcile-value name w w1 p got = rw (got, reconcile, got) refl

  -- Against a server that keeps the children as a map and that only this handler changes (`Store`):
  -- when the policy is being deleted and still has the finalizer, and its reconciliation ends without
  -- an error, then no child with the policy's label is left in the
  -- store, every other child is as it was, and no further reconciliation is asked for.
  pub reconcile-deleting :
      (name : String) (w w1 w' : c.World) (p : AutoSchedulePolicy) (after : ℤ)
      → c.get_policy name w ≡ (value p, w1)
      → p.deleting ≡ true
      → contains auto_schedule_policy_finalizer p.finalizers ≡ true
      → reconcile default c name w ≡ (ok after, w')
      → (after ≡ pos 0)
        × ((a b : String)
            → s.view w' a b ≡ (if is_labelled p.name (s.view w1 a b) then none else s.view w1 a b))
  reconcile-deleting name w w1 w' p after got deleting has e =
      let Q : ℤ → c.World → Type 0 = λ u q. (u ≡ pos 0) × Cleared p.name (s.view w1) (s.view q) in
      Yields-ok Q (λ q. Unit {0})
        (
          (reconcile_policy default c (record { policy = p; world = w1 })).0,
          (reconcile_policy default c (record { policy = p; world = w1 })).1.world,
        )
        after w'
        (Yields-world Q (reconcile_policy default c (record { policy = p; world = w1 }))
          (Cleared-reconcile_policy p w1 deleting has))
        (sym (reconcile-value name w w1 p got) ∙ e)
