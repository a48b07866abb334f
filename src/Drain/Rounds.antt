-- ===== src/Drain/Rounds.antt =====
-- The bound on the rounds of `waitForDrain`.
use slumlord.Prelude.{
  ℕ, zero, suc, ◌+◌, ◌*◌, ◌≤◌, ◌≡◌, refl, Bool, false, List, String, any_of, ltb, arith, Bool-cases,
  inl, inr,
}
use slumlord.Prelude.Int.{ℤ, pos_part}
use slumlord.Action.{Reply, value, error, M}
use slumlord.Clock.{second_ns}
use slumlord.Drain.Types.{Pod}
use slumlord.Drain.Client.{DrainClient, DrainRun}
use slumlord.Drain.Analysis.{is_remaining}
use slumlord.Drain.Node.{deadline, after_listing, poll, wait_for_drain}

-- Time does not go back, and a pause that is not cut short takes two seconds at least.
pub record Timed (c : DrainClient) : Type 0 where
  pub time : c.World → ℕ
  pub read : (w : c.World) → time w ≤ (c.clock w).0
  pub answered : (w : c.World) → (c.clock w).0 ≤ time (c.clock w).1
  pub listed : (w : c.World) → time w ≤ time (c.list_pods w).1
  pub paused : (w : c.World) → (c.pause w).0 ≡ false → time w + 2 * second_ns ≤ time (c.pause w).1

module _ (c : DrainClient) (s : Timed c) where
  after_listing_same :
      (name : String) (again again' : M (DrainRun c.World) Bool)
      (answer : Reply (List (Pod c.Quantity))) (r : DrainRun c.World)
      → ((c.pause r.world).0 ≡ false
          → again (record r { world = (c.pause r.world).1 })
            ≡ again' (record r { world = (c.pause r.world).1 }))
      → after_listing c name again answer r ≡ after_listing c name again' answer r
  unfolding after_listing
  after_listing_same name again again' (error e) r h = refl
  after_listing_same name again again' (value pods) r h =
      elim (Bool-cases (any_of (is_remaining name) pods)) [
        | inr none_left ↦ rw none_left refl
        | inl some_left ↦ elim (Bool-cases (c.pause r.world).0) [
          | inl cancelled ↦ rw (some_left, cancelled) refl
          | inr waited ↦ rw (some_left, waited) (h waited)
        ]
      ]

  poll_enough :
      (n m : ℕ) (name : String) (until : ℕ) (r : DrainRun c.World)
      → n ≤ m
      → until ≤ s.time r.world + n * (2 * second_ns)
      → poll c m name until r ≡ poll c n name until r
  unfolding poll
  poll_enough zero zero name until r le enough = refl
  poll_enough zero (suc m) name until r le enough =
      let late : ltb (c.clock r.world).0 until ≡ false = ground (arith, s.read r.world) in
      rw late refl
  poll_enough (suc n) zero name until r le enough = absurd (omega arith)
  poll_enough (suc n) (suc m) name until r le enough =
      elim (Bool-cases (ltb (c.clock r.world).0 until)) [
        | inr late ↦ rw late refl
        | inl early ↦ rw early (
            after_listing_same name (poll c m name until) (poll c n name until)
              (c.list_pods (c.clock r.world).1).0
              (record r { world = (c.list_pods (c.clock r.world).1).1 })
              (λ waited. poll_enough n m name until _ (omega arith) (
                omega (
                  arith,
                  enough,
                  s.read r.world,
                  s.answered r.world,
                  s.listed (c.clock r.world).1,
                  s.paused (c.list_pods (c.clock r.world).1).1 waited,
                ))))
      ]

  -- Where time does not go back and a pause that is not cut short takes two seconds, `waitForDrain`
  -- ends by its own deadline: any larger bound on the rounds gives the same.
  pub wait_for_drain_enough :
      (name : String) (timeout : ℤ) (more : ℕ) (r : DrainRun c.World)
      → pos_part timeout ≤ more
      → poll c more name
          (deadline (c.clock r.world).0 timeout)
          (record r { world = (c.clock r.world).1 })
        ≡ wait_for_drain c name timeout r
  unfolding wait_for_drain
  wait_for_drain_enough name timeout more r le =
      poll_enough (pos_part timeout) more name (deadline (c.clock r.world).0 timeout)
        (record r { world = (c.clock r.world).1 }) le (omega (arith, s.answered r.world))
