-- ===== src/Packer/Client.antt =====
-- What the bin packer calls, and the state of its handler.
use slumlord.Prelude.{ℕ, Bool, List, String}
use slumlord.Prelude.Int.{ℤ}
use slumlord.Action.{Reply, ok, M, gets, modify, or_return, ◌>>=◌}
use slumlord.Clock.{Zones}
use slumlord.Cluster.{Labels}
use slumlord.Policy.Types.{LabelSelector}
use slumlord.Drain.Client.{Argument}
use slumlord.Packer.Types.{BinPacker, Pod, Node, ReplicaSet, Replicated, DisruptionBudget, NodeInfo}

-- The API server, time zones, resource quantities (`exceeds a b` is `a.Cmp(b) > 0`), the evaluation of
-- a label selector, which can find it invalid, `sort.Slice` by its `less`, and `fmt.Sprintf`. An update of the packer answers with the object that the
-- server stored, which replaces the one in memory. `evict` takes a pod's namespace and name.
pub record PackerClient : Type 1 where
  pub World : Type 0
  pub Quantity : Type 0
  pub zones : Zones
  pub zero : Quantity
  pub add : Quantity → Quantity → Quantity
  pub exceeds : Quantity → Quantity → Bool
  pub milli_value : Quantity → ℤ
  pub value_of : Quantity → ℤ
  pub selects : LabelSelector → Labels → Reply Bool
  pub sort_slice :
      (NodeInfo Quantity → NodeInfo Quantity → Bool)
      → List (NodeInfo Quantity)
      → List (NodeInfo Quantity)
  pub sprintf : String → List Argument → String
  pub get_packer : String → World → Reply BinPacker × World
  pub update_packer : BinPacker → World → Reply BinPacker × World
  pub update_packer_status : BinPacker → World → Reply BinPacker × World
  pub list_nodes : World → Reply (List (Node Quantity)) × World
  pub list_pods : World → Reply (List (Pod Quantity)) × World
  pub list_replica_sets : World → Reply (List ReplicaSet) × World
  pub list_disruption_budgets : World → Reply (List DisruptionBudget) × World
  pub list_deployments : World → Reply (List Replicated) × World
  pub list_stateful_sets : World → Reply (List Replicated) × World
  pub evict : String → String → World → Reply (Unit {0}) × World
  pub clock : World → ℕ × World

-- The state of one reconciliation: the packer in memory, and the world.
pub record PackerRun (W : Type 0) : Type 0 where
  pub packer : BinPacker
  pub world : W

module _ {W : Type 0} where
  -- A call with its error as a value, one whose error ends the handler, and one without errors.
  abbrev pub ask : {A : Type 0} → (W → Reply A × W) → M (PackerRun W) (Reply A)
  ask op r = let (answer, w) = op r.world in (ok answer, record r { world = w })

  abbrev pub ask_or_return : {A : Type 0} → (W → Reply A × W) → M (PackerRun W) A
  ask_or_return op = ask op >>= or_return

  abbrev pub read : {A : Type 0} → (W → A × W) → M (PackerRun W) A
  read op r = let (a, w) = op r.world in (ok a, record r { world = w })

  abbrev pub the_packer : M (PackerRun W) BinPacker
  the_packer = gets (λ (r : PackerRun W). r.packer)

  abbrev pub put_packer : BinPacker → M (PackerRun W) (Unit {0})
  put_packer p = modify (λ (r : PackerRun W). record r { packer = p })
