-- ===== src/Drain/Client.antt =====
-- What the node drain controller calls, and the state of its handler.
use slumlord.Prelude.{ℕ, Bool, Option, List, ◌∷◌, String}
use slumlord.Prelude.Int.{ℤ}
use slumlord.Action.{Error, Reply, ok, M, gets, modify, or_return, ◌>>=◌}
use slumlord.Api.Schedule.{Condition}
use slumlord.Drain.Types.{DrainRunStatus, NodeDrainPolicy, Pod, Node, DrainNodeInfo}

-- The arguments of `fmt.Sprintf`.
pub data Argument : Type 0 where
  number : ℤ → Argument
  text : String → Argument
  failure : Error → Argument
  instant : ℕ → Argument

-- The API server, resource quantities (`exceeds a b` is `a.Cmp(b) > 0`), the cron library, `sort.Slice`
-- by its `less`, and `fmt.Sprintf`. A location or a cron expression that cannot be read
-- is `none`; `next` is the next tick after a time, in a location, or 0 for the library's zero time
-- where it finds none. An update of the policy answers
-- with the object that the server stored, which replaces the one in memory. `pause` waits for two
-- seconds, or until the context is done, which it answers.
pub record DrainClient : Type 1 where
  pub World : Type 0
  pub Quantity : Type 0
  pub Location : Type 0
  pub Cron : Type 0
  pub zero : Quantity
  pub add : Quantity → Quantity → Quantity
  pub exceeds : Quantity → Quantity → Bool
  pub milli_value : Quantity → ℤ
  pub value_of : Quantity → ℤ
  pub utc : Location
  pub load_location : String → Option Location
  pub parse_cron : String → Option Cron
  pub next : Cron → Location → ℕ → ℕ
  pub sort_slice :
      (DrainNodeInfo Quantity → DrainNodeInfo Quantity → Bool)
      → List (DrainNodeInfo Quantity)
      → List (DrainNodeInfo Quantity)
  pub sprintf : String → List Argument → String
  pub get_policy : String → World → Reply NodeDrainPolicy × World
  pub update_policy : NodeDrainPolicy → World → Reply NodeDrainPolicy × World
  pub update_policy_status : NodeDrainPolicy → World → Reply NodeDrainPolicy × World
  pub set_status_condition : List Condition → Condition → List Condition
  pub list_nodes : World → Reply (List (Node Quantity)) × World
  pub list_pods : World → Reply (List (Pod Quantity)) × World
  pub get_node : String → World → Reply (Node Quantity) × World
  pub patch_node : Node Quantity → World → Reply (Unit {0}) × World
  pub evict : String → String → Option ℤ → World → Reply (Unit {0}) × World
  pub delete_node : String → World → Reply (Unit {0}) × World
  pub clock : World → ℕ × World
  pub pause : World → Bool × World

-- The state of one reconciliation: the policy in memory, `runStatus`, the recorded events (latest
-- first), and the world.
pub record DrainRun (W : Type 0) : Type 0 where
  pub policy : NodeDrainPolicy
  pub status : DrainRunStatus
  pub events : List String
  pub world : W

module _ {W : Type 0} where
  -- A call with its error as a value, one whose error ends the handler, and one without errors.
  abbrev pub ask : {A : Type 0} → (W → Reply A × W) → M (DrainRun W) (Reply A)
  ask op r = let (answer, w) = op r.world in (ok answer, record r { world = w })

  abbrev pub ask_or_return : {A : Type 0} → (W → Reply A × W) → M (DrainRun W) A
  ask_or_return op = ask op >>= or_return

  abbrev pub read : {A : Type 0} → (W → A × W) → M (DrainRun W) A
  read op r = let (a, w) = op r.world in (ok a, record r { world = w })

  abbrev pub the_policy : M (DrainRun W) NodeDrainPolicy
  the_policy = gets (λ (r : DrainRun W). r.policy)

  abbrev pub put_policy : NodeDrainPolicy → M (DrainRun W) (Unit {0})
  put_policy p = modify (λ (r : DrainRun W). record r { policy = p })

  abbrev pub change_status : (DrainRunStatus → DrainRunStatus) → M (DrainRun W) (Unit {0})
  change_status f = modify (λ (r : DrainRun W). record r { status = f r.status })

  abbrev pub event : String → M (DrainRun W) (Unit {0})
  event e = modify (λ (r : DrainRun W). record r { events = e ∷ r.events })
