-- ===== src/Reconcile/Expired.antt =====
-- An awake schedule whose verification window is over: its entries are forgotten, and no workload is
-- touched.
use mathlib.Core.Path.{subst}
use slumlord.Prelude.{
  ℕ, ◌≡◌, refl, ◌∙◌, Bool, true, false, not, ◌==◌, String, differ, List, [], ◌∷◌, length, is_empty,
  Option, none, some, Bool-cases, inl, inr, arith,
}
use slumlord.Prelude.Int.{ℤ}
use slumlord.Action.{continue_with, ◌>>◌, answer_cases}
use slumlord.Action.Post.{Post, Post-continue}
use slumlord.Clock.{Zones}
use slumlord.Api.Schedule.{SleepSchedule, get_windows}
use slumlord.Cluster.{Client, RestatesUpdates, Run, gauge_set}
use slumlord.Window.{should_be_sleeping_at}
use slumlord.Window.Requeue.{should_verify_workloads}
use slumlord.Days.{aggregate_days_display}
use slumlord.Sleep.{persist_status}
use slumlord.Reconcile.{
  change_schedule, read_clock, set_schedule_condition, clear_managed, clear_expired, steady_awake,
  displayed, act, ready_condition, finish_status, conclude, reconcile_active,
}

-- What reading the clock and updating a schedule's status leave alone.
pub record IsUntouchedByStatus (c : Client) (I : c.World → Type 0) : Type 0 where
  pub by_clock : (w : c.World) → I w → I (c.clock w).1
  pub by_status : (s : SleepSchedule) (w : c.World) → I w → I (c.update_status s w).1

is_empty-eq : {A : Type 0} (xs : List A) → is_empty xs ≡ true → xs ≡ []
is_empty-eq [] e = refl
is_empty-eq (x ∷ xs) e = ground arith

module _ (z : Zones) (default : ℤ) (c : Client) (I : c.World → Type 0)
    (restates : RestatesUpdates c) (untouched : IsUntouchedByStatus c I) where
  abbrev Untouched : Run c.World → Type 0
  Untouched r = I r.world

  abbrev Forgotten : Run c.World → Type 0
  Forgotten r = (r.schedule.status.managed_workloads ≡ []) × I r.world

  Forgotten-persist_status :
      (r : Run c.World) → Forgotten r → Post Forgotten Untouched (persist_status c r)
  unfolding persist_status
  Forgotten-persist_status r i = elim (answer_cases (c.update_status r.schedule r.world)) [
    | inl (s', w', e) ↦
        let same = restates r.schedule s' r.world w' e in
        let kept = subst (λ p. I p.1) e (untouched.by_status r.schedule r.world i.1) in
        rw e (same.managed_workloads ∙ i.0, kept)
    | inr (x, w', e) ↦
        let kept = subst (λ p. I p.1) e (untouched.by_status r.schedule r.world i.1) in rw e kept
  ]

  Forgotten-clear_expired :
      (r : Run c.World) → Untouched r → Post Forgotten Untouched (clear_expired z default c r)
  unfolding clear_expired change_schedule
  Forgotten-clear_expired r i =
      Post-continue Forgotten Forgotten Untouched
        (persist_status c (record r { schedule = clear_managed r.schedule })) _
        (Forgotten-persist_status (record r { schedule = clear_managed r.schedule }) (refl, i))
        (λ u t j. j)

  Forgotten-steady_awake :
      (now : ℕ) (r : Run c.World)
      → should_verify_workloads r.schedule now ≡ false
      → Untouched r
      → Post Forgotten Untouched (steady_awake z default c now r)
  unfolding steady_awake
  Forgotten-steady_awake now r expired i =
      elim (Bool-cases (is_empty r.schedule.status.managed_workloads)) [
        | inl none_left ↦ rw (expired, none_left) (is_empty-eq _ none_left, i)
        | inr some_left ↦ rw (expired, some_left) (Forgotten-clear_expired r i)
      ]

  Forgotten-finish_status :
      (days_changed : Bool) (display : String) (r : Run c.World)
      → Forgotten r
      → Post Forgotten Untouched (finish_status z default c false false days_changed display r)
  unfolding finish_status change_schedule
  Forgotten-finish_status true display r i = i
  Forgotten-finish_status false display r i = i

  Forgotten-conclude :
      (days_changed : Bool) (display : String) (now : ℕ) (r : Run c.World)
      → Forgotten r
      → Post Forgotten Untouched (conclude z default c false false days_changed display now r)
  unfolding conclude ready_condition set_schedule_condition change_schedule
  Forgotten-conclude days_changed display now r i =
      let r' = record r {
        reports = gauge_set (length r.schedule.status.managed_workloads) ∷ r.reports;
      } in
      let (o, ready) = ready_condition z default c false r' in
      Post-continue Forgotten Forgotten Untouched
        (finish_status z default c false false days_changed display ready) _
        (Forgotten-finish_status days_changed display ready i)
        (λ u t j.
          Post-continue Forgotten Forgotten Untouched (persist_status c t) _
            (Forgotten-persist_status t j) (λ v t' j'. j'))

  Forgotten-displayed :
      (o : Option String) (wanted sleeping : Bool) (now : ℕ) (old : String) (r : Run c.World)
      → wanted ≡ false
      → sleeping ≡ false
      → should_verify_workloads r.schedule now ≡ false
      → Untouched r
      → Post Forgotten Untouched (
          continue_with (displayed z default c o r) (λ display.
            act z default c wanted sleeping now
            >> conclude z default c wanted
                (differ wanted sleeping)
                (not (old == display))
                display
                now))
  unfolding displayed act
  Forgotten-displayed o true sleeping now old r h awake expired i = ground arith
  Forgotten-displayed o false true now old r h awake expired i = ground arith
  Forgotten-displayed none false false now old r h awake expired i = i
  Forgotten-displayed (some display) false false now old r h awake expired i =
      Post-continue Forgotten Forgotten Untouched (steady_awake z default c now r) _
        (Forgotten-steady_awake now r expired i)
        (λ u t j. Forgotten-conclude (not (old == display)) display now t j)

-- Where an active schedule is stored as awake, is to be awake now, and its verification window is
-- over, the handler calls nothing but the clock and the schedule's own status update, so whatever
-- those leave alone stays as it was, however the handler ends; and where it ends well, no entry is
-- left. An answer to a status update restates what was sent.
pub reconcile_active_forgets :
    (z : Zones) (default : ℤ) (c : Client) (I : c.World → Type 0) (r : Run c.World)
    → RestatesUpdates c
    → IsUntouchedByStatus c I
    → r.schedule.status.sleeping ≡ false
    → should_be_sleeping_at z r.schedule (c.clock r.world).0 ≡ false
    → should_verify_workloads r.schedule (c.clock r.world).0 ≡ false
    → I r.world
    → Post
        (λ t. (t.schedule.status.managed_workloads ≡ []) × I t.world)
        (λ t. I t.world)
        (reconcile_active z default c r)
unfolding reconcile_active read_clock
reconcile_active_forgets z default c I r restates untouched awake wanted expired i =
    let (now, w) = c.clock r.world in
    Forgotten-displayed z default c I restates untouched
      (aggregate_days_display (get_windows r.schedule.spec))
      (should_be_sleeping_at z r.schedule now) r.schedule.status.sleeping now
      r.schedule.status.days_display (record r { world = w }) wanted awake expired
      (untouched.by_clock r.world i)
