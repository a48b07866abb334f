-- ===== src/Packer/Held.antt =====
-- A reconciliation of a packer that only reports, or runs dry, or is being deleted.
use slumlord.Prelude.{
  ◌≡◌, refl, Bool, true, not, ◌||◌, List, [], ◌∷◌, ◌++◌, String, ◌==◌, contains, arith,
}
use slumlord.Prelude.Int.{ℤ, pos}
use slumlord.Action.{value, M, pure, when, ◌>>=◌, ◌>>◌}
use slumlord.Action.Post.{Keeps-then, Keeps-when, Post_same}
use slumlord.Policy.Client.{remove_text}
use slumlord.Packer.Types.{BinPacker}
use slumlord.Packer.Client.{PackerClient, PackerRun, ask_or_return, put_packer}
use slumlord.Packer.Handler.{
  bin_packer_finalizer, reconcile_live, reconcile_packer, reconcile_found, reconcile,
}
use slumlord.Packer.Journal.{Journal}
use slumlord.Packer.Quiet.{Same, Quiet, Post-either, Quiet-update, Quiet-reconcile_live}

module _ (default_reconcile_interval : ℤ) (c : PackerClient) (j : Journal c) where
  open c use {World}

  module _ (log : List (String × String)) (p : BinPacker) where
    -- The finalizer is set or taken away first.
    Quiet-finalizers :
        {A : Type 0} (b : Bool) (finalizers : List String) (k : M (PackerRun World) A)
        → Quiet c j log p.spec k
        → Quiet c j log p.spec (
            when b (
              ask_or_return (c.update_packer (record p { finalizers = finalizers })) >>= put_packer)
            >> k)
    Quiet-finalizers b finalizers k h =
        let p' = record p { finalizers = finalizers } in
        let Held = Same c j log p.spec in
        let update = ask_or_return (c.update_packer p') >>= put_packer in
        Keeps-then Held Held (when b update) k
          (Keeps-when Held Held b update (
            Quiet-update c j log p.spec c.update_packer p' (j.updated p')
              (λ q w w' e. j.restated p' q w w' e) refl))
          h

  -- The reconciliation of a packer that is found and that is being deleted, or has the action report,
  -- or runs dry, evicts no pod. Only this handler evicts pods, and an update answers with the spec
  -- that was sent.
  pub reconcile_held :
      (name : String) (w w' : World) (p : BinPacker)
      → c.get_packer name w ≡ (value p, w')
      → (p.deleting || (p.spec.action == "report" || p.spec.dry_run)) ≡ true
      → j.evicted (reconcile default_reconcile_interval c name w).1 ≡ j.evicted w
  unfolding reconcile reconcile_found reconcile_packer
  reconcile_held name w w' p e held =
      let start : j.evicted w' ≡ j.evicted w = rw e at (j.got name w) in
      let r : PackerRun World = record { packer = p; world = w' } in
      let has = contains bin_packer_finalizer p.finalizers in
      rw e (
        (Post_same (Same c j (j.evicted w) p.spec) (reconcile_packer default_reconcile_interval c r)
          (Post-either c j (j.evicted w) p.spec p.deleting _ _ r
            (λ _.
              Quiet-finalizers (j.evicted w) p has (remove_text bin_packer_finalizer p.finalizers)
                (pure (pos 0)) (λ s i. i) r (start, refl))
            (λ d.
              Quiet-finalizers (j.evicted w) p (not has) (p.finalizers ++ bin_packer_finalizer ∷ [])
                (reconcile_live default_reconcile_interval c)
                (Quiet-reconcile_live c j (j.evicted w) p.spec default_reconcile_interval
                  (ground (arith, held, d)))
                r (start, refl)))).0)
