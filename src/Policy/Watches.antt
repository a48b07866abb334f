-- ===== src/Policy/Watches.antt =====
-- The maps from events to policies of internal/controller/autoschedulepolicy_controller.go. A
-- request is the name of the policy to reconcile.
use slumlord.Prelude.{List, [], ◌∷◌, String, ◌==◌, lookup, if◌then◌else◌}
use slumlord.Prelude.Int.{ℤ}
use slumlord.Action.{value, error}
use slumlord.Change.{or_else}
use slumlord.Policy.Types.{AutoSchedulePolicy, Namespace, Child, managed_by_label}
use slumlord.Policy.Client.{PolicyClient}
use slumlord.Policy.Match.{matching_names}

-- `out` without the policy of the event.
pub peer_names : String → List AutoSchedulePolicy → List String
peer_names self [] = []
peer_names self (p ∷ ps) =
    let rest = peer_names self ps in if p.name == self then rest else p.name ∷ rest

pub sleep_schedule_to_policy : Child → List String
sleep_schedule_to_policy x =
    let name = or_else (lookup managed_by_label x.labels) "" in if name == "" then [] else name ∷ []

module _ (default_reconcile_interval : ℤ) (c : PolicyClient) where
  open c use {World, list_policies}

  -- In the order of the list that the server answers; none if the list cannot be read.
  pub namespace_to_policy : Namespace → World → List String × World
  unfolding matching_names
  namespace_to_policy ns w =
      let (answer, w') = list_policies w in
      elim answer [ error e ↦ ([], w') | value policies ↦ (matching_names c policies ns, w') ]

  pub peer_policy_to_policy : AutoSchedulePolicy → World → List String × World
  unfolding peer_names
  peer_policy_to_policy p w =
      let (answer, w') = list_policies w in
      elim answer [ error e ↦ ([], w') | value policies ↦ (peer_names p.name policies, w') ]
