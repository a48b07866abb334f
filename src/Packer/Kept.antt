-- ===== src/Packer/Kept.antt =====
-- What one cycle evicts respects PodDisruptionBudgets and ready replicas.
use mathlib.Core.List.{Sublistᴰ, reverse_aux}
use mathlib.Core.List.Sublistᴰ.{slnil, cons, cons-cons, nil-sublist}
use mathlib.Core.Path.{subst}
use slumlord.Prelude.{
  ℕ, ◌+◌, ◌≤◌, ◌≡◌, refl, sym, ap, ◌∙◌, Bool, true, false, some, List, [], ◌∷◌, String, lookup, All,
  arith, if◌then◌else◌, length,
}
use slumlord.Prelude.Every.{All-imp}
use slumlord.Prelude.Int.{ℤ}
use slumlord.Action.{Outcome, M}
use slumlord.Action.Post.{Post_same, Post-ok, Keeps-bind}
use slumlord.Packer.Types.{
  NodeInfo, PlannedEviction, BinPacker, Pod, Node, Replicated, DisruptionBudget, WorkloadRef,
  SafetyContext,
}
use slumlord.Packer.Client.{PackerClient, PackerRun}
use slumlord.Packer.Owners.{object_key, ReplicaSets}
use slumlord.Packer.Analysis.{infos_of, find_candidate_nodes}
use slumlord.Packer.Safety.{
  ready_replicas_of, replicated_of, collect_workloads, build_safety_context,
}
use slumlord.Packer.Safety.Allowed.{IsNatural, Allows, Allows-le}
use slumlord.Packer.Safety.Traced.{IsTraced, IsTraced-of_lookup}
use slumlord.Packer.Plan.{build_consolidation_plan}
use slumlord.Packer.Plan.Budget.{is_owner, evictions_of}
use slumlord.Packer.Plan.Known.{SortAddsNone, IsCounted}
use slumlord.Packer.Handler.{
  with_status, executed, store_status, store_unchanged, run_plan, carry_out, consolidate_candidates,
}
use slumlord.Packer.Journal.{Journal}
use slumlord.Packer.Quiet.{
  Same, Quiet-store_status, Quiet-store_unchanged, Quiet-build_safety_context,
}
use slumlord.Packer.Evictions.{keys, execute_plan_lem}
use slumlord.Packer.Available.{Lists, plan_keeps_available}

-- The workload of a pod is known.
abbrev IsKey : List (String × WorkloadRef) → String → String → Type 0
IsKey by_pod namespace name =
    (wl : WorkloadRef) × (lookup (object_key namespace name) by_pod ≡ some wl)

-- The pod with this namespace and name is counted for a workload, which is that of a pod with them
-- that a candidate can give away.
abbrev pub HasWorkload : {Q : Type 0} → ReplicaSets → List (NodeInfo Q) → String × String → Type 0
HasWorkload m candidates k =
    (wl : WorkloadRef) × (lookup (object_key k.0 k.1) (collect_workloads m candidates ([], [])).0
      ≡ some wl)
    × IsTraced m candidates (object_key k.0 k.1) wl

-- The number of the evicted pods that belong to a workload.
pub evicted_of : List (String × WorkloadRef) → WorkloadRef → List (String × String) → ℕ
evicted_of by_pod wl [] = 0
evicted_of by_pod wl ((namespace, name) ∷ xs) =
    let rest = evicted_of by_pod wl xs in
    if is_owner wl (lookup (object_key namespace name) by_pod) then rest + 1 else rest

evicted_of-le :
    (by_pod : List (String × WorkloadRef)) (wl : WorkloadRef) (plan : List PlannedEviction)
    {news : List (String × String)}
    → Sublistᴰ news (keys plan)
    → evicted_of by_pod wl news ≤ evictions_of by_pod wl plan
unfolding evicted_of evictions_of
evicted_of-le by_pod wl [] slnil = omega arith
evicted_of-le by_pod wl (x ∷ xs) (cons part) = ground (arith, evicted_of-le by_pod wl xs part)
evicted_of-le by_pod wl (x ∷ xs) (cons-cons {a = k} e part) = ground (
  arith,
  evicted_of-le by_pod wl xs part,
  ap (λ (q : String × String). q.0) e,
  ap (λ (q : String × String). q.1) e,
)

module _ (d : ℤ) (c : PackerClient) (j : Journal c) where
  open c use {World, Quantity, selects}

  -- However the status is stored, the log is that of the evictions.
  run_plan_log :
      (now : ℕ) (plan : List PlannedEviction) (r : PackerRun World)
      → (news : List (String × String)) × Sublistᴰ news (keys plan)
        × (j.evicted (run_plan d c now plan r).1.world ≡ reverse_aux news (j.evicted r.world))
  unfolding run_plan
  run_plan_log now plan r =
      let (news, failure, q, runs, part, (log, total)) = execute_plan_lem d c j plan 0 r in
      let p' = with_status (executed now (0 + length news)) q.packer in
      let stored =
        Keeps-bind (Same c j (j.evicted q.world) p'.spec) (Same c j (j.evicted q.world) p'.spec)
          (store_status d c) _ (Quiet-store_status c j (j.evicted q.world) p'.spec d) (λ _ s k. k)
          (record q { packer = p' }) (refl, refl) in
      (news, part, rw runs ((Post_same (Same c j (j.evicted q.world) p'.spec) _ stored).0 ∙ log))

  -- Some of the planned pods are evicted, in the order of the plan.
  abbrev EvictsPart :
      {A : Type 0} → List PlannedEviction → PackerRun World → Outcome A × PackerRun World → Type 0
  EvictsPart plan r o =
      (news : List (String × String)) × Sublistᴰ news (keys plan)
      × (j.evicted o.1.world ≡ reverse_aux news (j.evicted r.world))

  EvictsPart-either :
      {A : Type 0} (plan : List PlannedEviction) (r q : PackerRun World) (b : Bool)
      (m k : M (PackerRun World) A)
      → EvictsPart plan r (m q)
      → EvictsPart plan r (k q)
      → EvictsPart plan r ((if b then m else k) q)
  EvictsPart-either plan r q true m k h h' = h
  EvictsPart-either plan r q false m k h h' = h'

  carry_out_log :
      (now : ℕ) (plan : List PlannedEviction) (r : PackerRun World)
      → EvictsPart plan r (carry_out d c now plan r)
  unfolding carry_out
  carry_out_log now plan r =
      let p' = with_status (λ s. record s { consolidation_plan = plan }) r.packer in
      let q : PackerRun World = record r { packer = p' } in
      let Held = Same c j (j.evicted r.world) p'.spec in
      EvictsPart-either plan r q r.packer.spec.dry_run (store_unchanged d c p')
        (run_plan d c now plan)
        (
          [],
          nil-sublist (keys plan),
          (Post_same Held (store_unchanged d c p' q)
              (Quiet-store_unchanged c j (j.evicted r.world) p'.spec d p' refl q (refl, refl))).0,
        )
        (run_plan_log now plan q)

  IsCounted-part :
      (safety : SafetyContext) (plan : List PlannedEviction) {news : List (String × String)}
      → Sublistᴰ news (keys plan)
      → All (IsCounted c safety) plan
      → All (λ (x : String × String). IsKey safety.pod_workloads x.0 x.1) news
  IsCounted-part safety [] slnil h = tt
  IsCounted-part safety (x ∷ xs) (cons part) h = IsCounted-part safety xs part h.1
  IsCounted-part safety (x ∷ xs) (cons-cons e part) h = (
    subst (λ (k : String × String). IsKey safety.pod_workloads k.0 k.1) (sym e) h.0,
    IsCounted-part safety xs part h.1,
  )

  -- The candidates are those that the analysis of the nodes finds, the three lists of
  -- `buildSafetyContext` are answered, no PodDisruptionBudget allows a negative number of
  -- disruptions, and the workload's ready replicas are no negative number; `sort.Slice` adds no
  -- item, and only this handler evicts pods. A pod's workload is the one that `buildSafetyContext`
  -- notes for it. However the rest of the reconciliation ends, the pods of the workload that it
  -- evicts are no more than each PodDisruptionBudget that selects them allows, and leave one ready
  -- replica where there is none; and each evicted pod has such a workload, and its namespace and
  -- name are those of a pod that a candidate can give away and that resolves to this workload.
  pub consolidate_candidates_allowed :
      (now : ℕ) (p : BinPacker) (m : ReplicaSets) (pods : List (Pod Quantity))
      (nodes : List (Node Quantity)) (r : PackerRun World) (pdbs : List DisruptionBudget)
      (deployments stateful_sets : List Replicated) (wl : WorkloadRef)
      → SortAddsNone c
      → Lists c pdbs deployments stateful_sets r.world
      → All (λ x. IsNatural x.disruptions_allowed) pdbs
      → IsNatural (ready_replicas_of (replicated_of deployments stateful_sets wl))
      → let infos = infos_of c p m pods nodes in
        let candidates = find_candidate_nodes c p.spec.thresholds infos in
        let by_pod = (collect_workloads m candidates ([], [])).0 in
        (news : List (String × String)) × (j.evicted
            (consolidate_candidates d c now infos candidates m r).1.world
          ≡ reverse_aux news (j.evicted r.world))
        × Allows selects pdbs
            (replicated_of deployments stateful_sets wl)
            wl
            (evicted_of by_pod wl news)
        × All (HasWorkload m candidates) news
  unfolding consolidate_candidates
  consolidate_candidates_allowed now p m pods nodes r pdbs deployments stateful_sets wl sorts lists
        natural ready =
      let infos = infos_of c p m pods nodes in
      let candidates = find_candidate_nodes c p.spec.thresholds infos in
      let (safety, q, built, by_pod, kept) =
        plan_keeps_available c p m pods nodes r pdbs deployments stateful_sets wl sorts lists
          natural ready in
      let Held = Same c j (j.evicted r.world) r.packer.spec in
      let before : Held q =
        Post-ok Held Held (build_safety_context c candidates m r) safety q
          (Quiet-build_safety_context c j (j.evicted r.world) r.packer.spec d candidates m r
            (refl, refl))
          built in
      let plan = build_consolidation_plan c candidates infos q.packer safety in
      let (news, part, log) = carry_out_log now plan q in
      let object = replicated_of deployments stateful_sets wl in
      (
        news,
        rw built (log ∙ ap (λ l. reverse_aux news l) before.0),
        Allows-le selects pdbs object wl
            (subst (λ b. evicted_of b wl news ≤ evictions_of safety.pod_workloads wl plan) by_pod
              (evicted_of-le safety.pod_workloads wl plan part))
            (kept q.packer).0,
        All-imp news
            (λ k known.
              let (v, e) = subst (λ b. IsKey b k.0 k.1) by_pod known in
              (v, e, IsTraced-of_lookup m candidates (object_key k.0 k.1) v e))
            (IsCounted-part safety plan part (kept q.packer).1),
      )
