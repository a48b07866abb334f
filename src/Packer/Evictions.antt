-- ===== src/Packer/Evictions.antt =====
-- How evictions are made and counted: `executePlan`, and the status after it.
use mathlib.Core.List.{Sublistᴰ, reverse_aux}
use mathlib.Core.List.Sublistᴰ.{slnil, cons, cons-cons, nil-sublist}
use slumlord.Prelude.{
  ℕ, suc, ◌+◌, ◌≡◌, ◌≢◌, refl, sym, ap, ◌∙◌, Option, none, some, List, [], ◌∷◌, map, String, length,
  arith, inl, inr,
}
use slumlord.Prelude.Int.{ℤ, pos, add_ℤ, to_int32, to_int64}
use slumlord.Action.{
  Error, not_found, no_match, failed, value, error, Outcome, ok, err, answer_cases,
}
use slumlord.Packer.Types.{BinPackerStatus, PlannedEviction}
use slumlord.Packer.Client.{PackerClient, PackerRun}
use slumlord.Packer.Handler.{
  with_status, executed, put_stored, eviction_failed, after_eviction, execute_plan, run_plan,
  store_status, reconcile_interval,
}
use slumlord.Packer.Journal.{Journal}

abbrev pub keys : List PlannedEviction → List (String × String)
keys plan = map (λ (x : PlannedEviction). (x.namespace, x.pod_name)) plan

err≢ok : {A : Type 0} (e : Error) (a : A) → err e ≢ ok a
err≢ok e a h = ground (arith, h)

module _ (default_reconcile_interval : ℤ) (c : PackerClient) (j : Journal c) where
  open c use {World}

  -- After some evictions of a plan: they are in the log, and the total in the status is as before.
  abbrev pub Evicts : List (String × String) → PackerRun World → PackerRun World → Type 0
  Evicts news r r' =
      (j.evicted r'.world ≡ reverse_aux news (j.evicted r.world))
      × (r'.packer.status.total_pods_evicted ≡ r.packer.status.total_pods_evicted)

  -- The plan is carried out in part, in its order, and the number of evictions is answered.
  abbrev pub Executes : ℕ → List PlannedEviction → PackerRun World → Type 0
  Executes n plan r =
      (news : List (String × String)) × (failure : Option Error) × (r' : PackerRun World)
      × (execute_plan default_reconcile_interval c n plan r ≡ (ok (n + length news, failure), r'))
      × Sublistᴰ news (keys plan)
      × Evicts news r r'

  eviction_failed_lem :
      (n : ℕ) (e : Error) (r : PackerRun World)
      → (r' : PackerRun World) × (eviction_failed default_reconcile_interval c n e r
          ≡ (ok (n, some e), r'))
        × Evicts [] r r'
  unfolding eviction_failed put_stored
  eviction_failed_lem n e r =
      let p' =
        with_status (λ s. record s { pods_evicted_this_cycle = to_int32 (pos n) }) r.packer in
      elim (answer_cases (c.update_packer_status p' r.world)) [
        | inl (p'', w, eq) ↦ (
          record { packer = p''; world = w },
          rw eq refl,
          (
            (rw eq at (j.stored p' r.world)),
            ap (λ (s : BinPackerStatus). s.total_pods_evicted)
                (j.restated_status p' p'' r.world w eq).1,
          ),
        )
        | inr (e', w, eq) ↦ (
          record { packer = p'; world = w },
          rw eq refl,
          ((rw eq at (j.stored p' r.world)), refl),
        )
      ]

  -- An eviction that fails ends the loop.
  execute_plan-stopped :
      (x : PlannedEviction) (xs : List PlannedEviction) (n : ℕ) (r : PackerRun World) (e : Error)
      (w : World)
      → c.evict x.namespace x.pod_name r.world ≡ (error e, w)
      → execute_plan default_reconcile_interval c n (x ∷ xs) r
        ≡ eviction_failed default_reconcile_interval c n e (record r { world = w })
      → Executes n (x ∷ xs) r
  execute_plan-stopped x xs n r e w eq ends =
      let (r', fails, (log, total)) = eviction_failed_lem n e (record r { world = w }) in
      (
        [],
        some e,
        r',
        ends ∙ fails ∙ ap (λ k. (ok (k, some e), r')) (omega arith),
        nil-sublist _,
        (log ∙ j.refused x.namespace x.pod_name r.world w e eq, total),
      )

  pub execute_plan_lem :
      (plan : List PlannedEviction) (n : ℕ) (r : PackerRun World) → Executes n plan r
  unfolding execute_plan after_eviction
  execute_plan_lem [] n r =
      ([], none, r, ap (λ k. (ok (k, none), r)) (omega arith), slnil, (refl, refl))
  execute_plan_lem (x ∷ xs) n r = elim (answer_cases (c.evict x.namespace x.pod_name r.world)) [
    | inl (u, w, eq) ↦
        let (news, failure, r', runs, part, (log, total)) =
          execute_plan_lem xs (suc n) (record r { world = w }) in
        (
          (x.namespace, x.pod_name) ∷ news,
          failure,
          r',
          rw eq (runs ∙ ap (λ k. (ok (k, failure), r')) (omega arith)),
          cons-cons refl part,
          (
            log ∙ ap (λ l. reverse_aux news l) (j.done x.namespace x.pod_name r.world w u eq),
            total,
          ),
        )
    | inr (not_found, w, eq) ↦
        let (news, failure, r', runs, part, (log, total)) =
          execute_plan_lem xs n (record r { world = w }) in
        (
          news,
          failure,
          r',
          rw eq runs,
          cons part,
          (
            log
                ∙ ap (λ l. reverse_aux news l)
                    (j.refused x.namespace x.pod_name r.world w not_found eq),
            total,
          ),
        )
    | inr (no_match, w, eq) ↦ execute_plan-stopped x xs n r no_match w eq (rw eq refl)
    | inr (failed, w, eq) ↦ execute_plan-stopped x xs n r failed w eq (rw eq refl)
  ]

  -- When the part of a reconciliation after the making of a plan ends without an error, some of the
  -- planned pods have been evicted, in the order of the plan, and no others; the status says how
  -- many in this cycle, in 32 bits, and adds that to the total, in 64 bits. An update of the status
  -- answers with the status that was sent, and only this handler evicts pods.
  pub run_plan_counts :
      (now : ℕ) (plan : List PlannedEviction) (r r' : PackerRun World) (i : ℤ)
      → run_plan default_reconcile_interval c now plan r ≡ (ok i, r')
      → (news : List (String × String)) × Sublistᴰ news (keys plan)
        × (j.evicted r'.world ≡ reverse_aux news (j.evicted r.world))
        × (r'.packer.status.pods_evicted_this_cycle ≡ to_int32 (pos (length news)))
        × (r'.packer.status.total_pods_evicted
            ≡ to_int64 (add_ℤ r.packer.status.total_pods_evicted (pos (length news))))
  unfolding run_plan executed store_status reconcile_interval
  run_plan_counts now plan r r' i ends =
      let (news, failure, q, runs, part, (log, total)) = execute_plan_lem plan 0 r in
      let zero_add : 0 + length news ≡ length news = omega arith in
      let runs' = runs ∙ ap (λ k. (ok (k, failure), q)) zero_add in
      let p' = with_status (executed now (length news)) q.packer in
      elim (answer_cases (c.update_packer_status p' q.world)) [
        | inl (p'', w, eq) ↦
            let s : PackerRun World = record { packer = p''; world = w } in
            let stored : run_plan default_reconcile_interval c now plan r
                ≡ (ok (reconcile_interval default_reconcile_interval c p''), s) =
              rw (runs', eq) refl in
            let same : s ≡ r' = ap (λ (x : Outcome ℤ × PackerRun World). x.1) (sym stored ∙ ends) in
            let status : p''.status ≡ p'.status = (j.restated_status p' p'' q.world w eq).1 in
            let log' : j.evicted w ≡ reverse_aux news (j.evicted r.world) =
              (rw eq at (j.stored p' q.world)) ∙ log in
            rw⁻¹ same (
              news,
              part,
              log',
              ap (λ (x : BinPackerStatus). x.pods_evicted_this_cycle) status,
              ap (λ (x : BinPackerStatus). x.total_pods_evicted) status
                  ∙ ap (λ t. to_int64 (add_ℤ t (pos (length news)))) total,
            )
        | inr (e, w, eq) ↦
            let stored : run_plan default_reconcile_interval c now plan r
                ≡ (err e, record { packer = p'; world = w }) =
              rw (runs', eq) refl in
            absurd (err≢ok e i (ap (λ (x : Outcome ℤ × PackerRun World). x.0) (sym stored ∙ ends)))
      ]

  -- Where the server carries out every eviction, the whole plan is carried out, in its order, and
  -- the number of its evictions is answered without an error. Only this handler evicts pods.
  pub execute_plan_all :
      (plan : List PlannedEviction) (n : ℕ) (r : PackerRun World)
      → ((namespace name : String) (w : World)
          → (w' : World) × (c.evict namespace name w ≡ (value tt, w')))
      → (r' : PackerRun World) × (execute_plan default_reconcile_interval c n plan r
          ≡ (ok (n + length plan, none), r'))
        × (j.evicted r'.world ≡ reverse_aux (keys plan) (j.evicted r.world))
  unfolding execute_plan after_eviction
  execute_plan_all [] n r serves = (r, ap (λ k. (ok (k, none), r)) (omega arith), refl)
  execute_plan_all (x ∷ xs) n r serves =
      let (w, eq) = serves x.namespace x.pod_name r.world in
      let (r', runs, log) = execute_plan_all xs (suc n) (record r { world = w }) serves in
      (
        r',
        rw eq (runs ∙ ap (λ k. (ok (k, none), r')) (omega arith)),
        log ∙ ap (λ l. reverse_aux (keys xs) l) (j.done x.namespace x.pod_name r.world w tt eq),
      )
