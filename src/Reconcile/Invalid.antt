-- ===== src/Reconcile/Invalid.antt =====
-- An active schedule with a day that is no weekday.
use slumlord.Prelude.{◌≡◌, refl, ◌∙◌, false, ◌||◌, Option, none, some, String, arith}
use slumlord.Prelude.Int.{ℤ}
use slumlord.Action.{M, panic, continue_with}
use slumlord.Clock.{Zones}
use slumlord.Api.Schedule.{get_windows}
use slumlord.Cluster.{Client, Run}
use slumlord.Days.{aggregate_days_display}
use slumlord.Days.Range.{is_shown, every_day, valid_days, is_shown-aggregate_days_display}
use slumlord.Reconcile.{displayed, read_clock, reconcile_active}

displayed-panic :
    (z : Zones) (default : ℤ) (c : Client) (o : Option String) (r : Run c.World)
    (f : String → M (Run c.World) ℤ)
    → is_shown o ≡ false
    → continue_with (displayed z default c o r) f ≡ (panic, r)
unfolding displayed
displayed-panic z default c none r f h = refl
displayed-panic z default c (some d) r f h = ground arith

-- Where every window has days and some day is not a number from 0 to 6, the handler of an active
-- schedule ends in a run-time panic before any call but the reading of the clock: no workload is put
-- to sleep or woken, and no status is stored.
pub reconcile_active-panic :
    (z : Zones) (default : ℤ) (c : Client) (r : Run c.World)
    → (every_day (get_windows r.schedule.spec) || valid_days (get_windows r.schedule.spec)) ≡ false
    → reconcile_active z default c r ≡ (panic, record r { world = (c.clock r.world).1 })
unfolding reconcile_active read_clock
reconcile_active-panic z default c r invalid =
    displayed-panic z default c (aggregate_days_display (get_windows r.schedule.spec))
      (record r { world = (c.clock r.world).1 }) _
      (is_shown-aggregate_days_display (get_windows r.schedule.spec) ∙ invalid)
