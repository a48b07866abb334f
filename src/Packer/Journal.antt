-- ===== src/Packer/Journal.antt =====
-- A server whose pods only this handler evicts: the evictions that it made, the latest first.
use slumlord.Prelude.{◌≡◌, List, ◌∷◌, String}
use slumlord.Action.{Error, value, error}
use slumlord.Packer.Types.{BinPacker}
use slumlord.Packer.Client.{PackerClient}

-- An update of the packer answers with the spec, and an update of its status with the status too,
-- that were sent.
pub record Journal (c : PackerClient) : Type 0 where
  pub evicted : c.World → List (String × String)
  pub done :
      (namespace name : String) (w w' : c.World) (u : Unit {0})
      → c.evict namespace name w ≡ (value u, w')
      → evicted w' ≡ (namespace, name) ∷ evicted w
  pub refused :
      (namespace name : String) (w w' : c.World) (e : Error)
      → c.evict namespace name w ≡ (error e, w')
      → evicted w' ≡ evicted w
  pub got : (name : String) (w : c.World) → evicted (c.get_packer name w).1 ≡ evicted w
  pub updated : (p : BinPacker) (w : c.World) → evicted (c.update_packer p w).1 ≡ evicted w
  pub stored : (p : BinPacker) (w : c.World) → evicted (c.update_packer_status p w).1 ≡ evicted w
  pub nodes : (w : c.World) → evicted (c.list_nodes w).1 ≡ evicted w
  pub pods : (w : c.World) → evicted (c.list_pods w).1 ≡ evicted w
  pub replica_sets : (w : c.World) → evicted (c.list_replica_sets w).1 ≡ evicted w
  pub disruption_budgets : (w : c.World) → evicted (c.list_disruption_budgets w).1 ≡ evicted w
  pub deployments : (w : c.World) → evicted (c.list_deployments w).1 ≡ evicted w
  pub stateful_sets : (w : c.World) → evicted (c.list_stateful_sets w).1 ≡ evicted w
  pub read_clock : (w : c.World) → evicted (c.clock w).1 ≡ evicted w
  pub restated :
      (p p' : BinPacker) (w w' : c.World) → c.update_packer p w ≡ (value p', w') → p'.spec ≡ p.spec
  pub restated_status :
      (p p' : BinPacker) (w w' : c.World)
      → c.update_packer_status p w ≡ (value p', w')
      → (p'.spec ≡ p.spec) × (p'.status ≡ p.status)
