-- ===== src/Packer/Quiet.antt =====
-- When the bin packer evicts nothing.
use slumlord.Prelude.{
  ℕ, ◌≡◌, refl, sym, ap, ◌∙◌, inl, inr, Bool, true, false, ◌||◌, Option, none, some, List, [], ◌∷◌,
  String, ◌==◌, arith, if◌then◌else◌,
}
use slumlord.Prelude.Int.{ℤ}
use slumlord.Action.{Reply, value, M, or_return, ◌>>=◌, answer_cases}
use slumlord.Action.Post.{Post, Keeps, Keeps-bind, Keeps-or_return}
use slumlord.Packer.Types.{BinPackerSpec, BinPacker, PlannedEviction, NodeInfo, WorkloadRef}
use slumlord.Packer.Client.{PackerClient, PackerRun, ask, ask_or_return, put_packer}
use slumlord.Api.Schedule.{SleepWindow}
use slumlord.Packer.{is_in_consolidation_window}
use slumlord.Packer.Analysis.{find_candidate_nodes}
use slumlord.Packer.Owners.{ReplicaSets}
use slumlord.Packer.Safety.{budgets_of_workloads, build_safety_context}
use slumlord.Packer.Handler.{
  with_status, analyzed, carry_out, run_plan, reconcile_in_window, store_status, analyze_nodes,
  store_unchanged, consolidate_candidates, reconcile_analyzed, reconcile_live,
}
use slumlord.Packer.Journal.{Journal}

module _ (c : PackerClient) (j : Journal c) (log : List (String × String))
    (spec : BinPackerSpec) where
  open c use {World}

  -- The log and the spec are as they were.
  abbrev pub Same : PackerRun World → Type 0
  Same r = (j.evicted r.world ≡ log) × (r.packer.spec ≡ spec)

  abbrev pub Quiet : {A : Type 0} → M (PackerRun World) A → Type 0
  Quiet m = Keeps Same Same m

  Quiet-ask :
      {A : Type 0} (op : World → Reply A × World)
      → ((w : World) → j.evicted (op w).1 ≡ j.evicted w)
      → Quiet (ask op)
  Quiet-ask op h r i = (h r.world ∙ i.0, i.1)

  Quiet-ask_or_return :
      {A : Type 0} (op : World → Reply A × World)
      → ((w : World) → j.evicted (op w).1 ≡ j.evicted w)
      → Quiet (ask_or_return op)
  Quiet-ask_or_return op h =
      Keeps-bind Same Same (ask op) or_return (Quiet-ask op h)
        (λ answer. Keeps-or_return Same Same (λ s i. i) answer)

  pub Post-either :
      {A : Type 0} (b : Bool) (m k : M (PackerRun World) A) (r : PackerRun World)
      → (b ≡ true → Post Same Same (m r))
      → (b ≡ false → Post Same Same (k r))
      → Post Same Same ((if b then m else k) r)
  Post-either true m k r f g = f refl
  Post-either false m k r f g = g refl

  -- An update of the packer by which the spec stays.
  pub Quiet-update :
      (op : BinPacker → World → Reply BinPacker × World) (p : BinPacker)
      → ((w : World) → j.evicted (op p w).1 ≡ j.evicted w)
      → ((p' : BinPacker) (w w' : World) → op p w ≡ (value p', w') → p'.spec ≡ p.spec)
      → p.spec ≡ spec
      → Quiet (ask_or_return (op p) >>= put_packer)
  Quiet-update op p h same e r i = elim (answer_cases (op p r.world)) [
    | inl (p', w', eq) ↦ rw eq ((rw eq at (h r.world)) ∙ i.0, same p' r.world w' eq ∙ e)
    | inr (e', w', eq) ↦ rw eq ((rw eq at (h r.world)) ∙ i.0, i.1)
  ]

  module _ (default_reconcile_interval : ℤ) where
    pub Quiet-store_status : Quiet (store_status default_reconcile_interval c)
    unfolding store_status
    Quiet-store_status r i =
        Quiet-update c.update_packer_status r.packer (j.stored r.packer)
          (λ p' w w' eq. (j.restated_status r.packer p' w w' eq).0) i.1 r i

    pub Quiet-store_unchanged :
        (p : BinPacker) → p.spec ≡ spec → Quiet (store_unchanged default_reconcile_interval c p)
    unfolding store_unchanged
    Quiet-store_unchanged p e r i =
        Keeps-bind Same Same (store_status default_reconcile_interval c) _ Quiet-store_status
          (λ _ s k. k) _ (i.0, e)

    Quiet-budgets_of_workloads :
        (by_pod : List (String × WorkloadRef)) (wls : List WorkloadRef)
        → Quiet (budgets_of_workloads c by_pod wls)
    unfolding budgets_of_workloads
    Quiet-budgets_of_workloads by_pod [] = λ r i. i
    Quiet-budgets_of_workloads by_pod (wl ∷ wls) =
        Keeps-bind Same Same (ask_or_return c.list_disruption_budgets) _
          (Quiet-ask_or_return c.list_disruption_budgets j.disruption_budgets)
          (λ pdbs.
            Keeps-bind Same Same (ask_or_return c.list_deployments) _
              (Quiet-ask_or_return c.list_deployments j.deployments)
              (λ deployments.
                Keeps-bind Same Same (ask_or_return c.list_stateful_sets) _
                  (Quiet-ask_or_return c.list_stateful_sets j.stateful_sets)
                  (λ stateful_sets r i. i)))

    pub Quiet-build_safety_context :
        (xs : List (NodeInfo c.Quantity)) (m : ReplicaSets) → Quiet (build_safety_context c xs m)
    unfolding build_safety_context
    Quiet-build_safety_context xs m = Quiet-budgets_of_workloads _ _

    pub Quiet-analyze_nodes : (p : BinPacker) → Quiet (analyze_nodes default_reconcile_interval c p)
    unfolding analyze_nodes
    Quiet-analyze_nodes p =
        Keeps-bind Same Same (ask_or_return c.list_nodes) _
          (Quiet-ask_or_return c.list_nodes j.nodes)
          (λ nodes.
            Keeps-bind Same Same (ask_or_return c.list_pods) _
              (Quiet-ask_or_return c.list_pods j.pods)
              (λ pods.
                Keeps-bind Same Same (ask_or_return c.list_replica_sets) _
                  (Quiet-ask_or_return c.list_replica_sets j.replica_sets) (λ sets r i. i)))

    module _ (held : (spec.action == "report" || spec.dry_run) ≡ true) where
      Quiet-carry_out :
          (spec.action == "report") ≡ false
          → (now : ℕ) (plan : List PlannedEviction)
          → Quiet (carry_out default_reconcile_interval c now plan)
      unfolding carry_out
      Quiet-carry_out action now plan r i =
          let p' = with_status (λ s. record s { consolidation_plan = plan }) r.packer in
          let here : Same (record r { packer = p' }) = i in
          Post-either r.packer.spec.dry_run (store_unchanged default_reconcile_interval c p')
            (run_plan default_reconcile_interval c now plan) (record r { packer = p' })
            (λ _. Quiet-store_unchanged p' i.1 (record r { packer = p' }) here)
            (λ e. ground (arith, held, action, ap (λ (s : BinPackerSpec). s.dry_run) i.1, e))

      Quiet-consolidate_candidates :
          (spec.action == "report") ≡ false
          → (now : ℕ) (infos candidates : List (NodeInfo c.Quantity)) (m : ReplicaSets)
          → Quiet (consolidate_candidates default_reconcile_interval c now infos candidates m)
      unfolding consolidate_candidates
      Quiet-consolidate_candidates action now infos candidates m =
          Keeps-bind Same Same (build_safety_context c candidates m) _
            (Quiet-build_safety_context candidates m)
            (λ safety r i. Quiet-carry_out action now _ r i)

      Quiet-reconcile_analyzed : Quiet (reconcile_analyzed default_reconcile_interval c)
      unfolding reconcile_analyzed
      Quiet-reconcile_analyzed r i =
          Keeps-bind Same Same (analyze_nodes default_reconcile_interval c r.packer) _
            (Quiet-analyze_nodes r.packer)
            (λ found q k.
              let candidates = find_candidate_nodes c r.packer.spec.thresholds found.0 in
              let (now, w) = c.clock q.world in
              let p' = with_status (analyzed now found.0 candidates) r.packer in
              let q' : PackerRun World = record { packer = p'; world = w } in
              let here : Same q' = (j.read_clock q.world ∙ k.0, i.1) in
              let p'' = with_status (λ s. record s { consolidation_plan = [] }) p' in
              Post-either (r.packer.spec.action == "report")
                (store_unchanged default_reconcile_interval c p'')
                (consolidate_candidates default_reconcile_interval c now found.0 candidates found.1)
                q' (λ _. Quiet-store_unchanged p'' i.1 q' here)
                (λ e.
                  Quiet-consolidate_candidates
                    (ap (λ (s : BinPackerSpec). s.action == "report") (sym i.1) ∙ e) now found.0
                    candidates found.1 q' here))
            r i

      Quiet-reconcile_in_window :
          (o : Option SleepWindow) → Quiet (reconcile_in_window default_reconcile_interval c o)
      unfolding reconcile_in_window
      Quiet-reconcile_in_window none r i = Quiet-reconcile_analyzed r i
      Quiet-reconcile_in_window (some window) r i =
          let (now, w) = c.clock r.world in
          let r' : PackerRun World = record r { world = w } in
          let here : Same r' = (j.read_clock r.world ∙ i.0, i.1) in
          Post-either (is_in_consolidation_window c.zones (some window) now) _ _ r'
            (λ _. Quiet-reconcile_analyzed r' here) (λ _. here)

      pub Quiet-reconcile_live : Quiet (reconcile_live default_reconcile_interval c)
      unfolding reconcile_live
      Quiet-reconcile_live r i = Quiet-reconcile_in_window r.packer.spec.schedule r i
