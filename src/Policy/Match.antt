-- ===== src/Policy/Match.antt =====
-- Which namespaces a policy takes, and which policies take the same one.
use slumlord.Prelude.{Bool, false, none, some, List, [], ◌∷◌, String, ◌==◌, if◌then◌else◌}
use slumlord.Action.{Reply, value, error}
use slumlord.Policy.Client.{PolicyClient, sort_by}
use slumlord.Policy.Types.{AutoSchedulePolicy, Namespace, resolved_profile_label}

-- Without the policy itself and those that are being deleted.
unfoldable pub other_policies : String → List AutoSchedulePolicy → List AutoSchedulePolicy
other_policies self [] = []
other_policies self (p ∷ ps) =
    let rest = other_policies self ps in
    if p.name == self then rest else if p.deleting then rest else p ∷ rest

unfoldable pub matches_without_error : Reply Bool → Bool
matches_without_error (value b) = b
matches_without_error (error e) = false

module _ (c : PolicyClient) where
  open c use {selects}

  -- The selector of a policy, by default that the profile label exists.
  pub namespace_matches_policy : AutoSchedulePolicy → Namespace → Reply Bool
  namespace_matches_policy p ns = elim p.spec.namespace_selector [
    | some s ↦ selects s ns.labels
    | none ↦
        selects
          (record {
            match_labels = [];
            match_expressions =
                record { key = resolved_profile_label p; operator = "Exists"; values = [] } ∷ [];
          })
          ns.labels
  ]

  unfoldable pub matching_names : List AutoSchedulePolicy → Namespace → List String
  unfolding namespace_matches_policy matches_without_error
  matching_names [] ns = []
  matching_names (p ∷ ps) ns =
      let rest = matching_names ps ns in
      if matches_without_error (namespace_matches_policy p ns) then p.name ∷ rest else rest

  unfoldable pub overlapping_policies : List AutoSchedulePolicy → Namespace → List String
  unfolding matching_names sort_by
  overlapping_policies others ns = sort_by (λ s. s) (matching_names others ns)

  -- The first loop: an invalid selector of the policy itself ends the handler.
  unfoldable pub matched_namespaces : AutoSchedulePolicy → List Namespace → Reply (List Namespace)
  unfolding namespace_matches_policy
  matched_namespaces p [] = value []
  matched_namespaces p (ns ∷ rest) = elim (namespace_matches_policy p ns) [
    | error e ↦ error e
    | value b ↦ elim (matched_namespaces p rest) [
      | error e ↦ error e
      | value found ↦ value (if b then ns ∷ found else found)
    ]
  ]
