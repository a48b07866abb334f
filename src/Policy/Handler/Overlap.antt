-- ===== src/Policy/Handler/Overlap.antt =====
-- Which policies are reported as overlapping.
use slumlord.Prelude.{
  ◌≡◌, refl, ◌∙◌, Bool, false, not, ◌&&◌, ◌||◌, List, [], ◌∷◌, String, ◌==◌, contains, any_of,
  arith,
}
use slumlord.Action.{Reply, value, error}
use slumlord.Policy.Types.{AutoSchedulePolicy, Namespace}
use slumlord.Policy.Client.{PolicyClient, insert_by, sort_by}
use slumlord.Policy.Match.{
  namespace_matches_policy, other_policies, matches_without_error, matching_names,
  overlapping_policies,
}

any_of-insert_by :
    {A : Type 0} (key : A → String) (test : A → Bool) (x : A) (xs : List A)
    → any_of test (insert_by key x xs) ≡ test x || any_of test xs
unfolding insert_by
any_of-insert_by key test x [] = refl
any_of-insert_by key test x (y ∷ ys) = ground (arith, any_of-insert_by key test x ys)

pub any_of-sort_by :
    {A : Type 0} (key : A → String) (test : A → Bool) (xs : List A)
    → any_of test (sort_by key xs) ≡ any_of test xs
unfolding sort_by
any_of-sort_by key test [] = refl
any_of-sort_by key test (x ∷ xs) =
    any_of-insert_by key test x (sort_by key xs) ∙ rw (any_of-sort_by key test xs)

contains-any_of : (k : String) (xs : List String) → contains k xs ≡ any_of (λ x. x == k) xs
contains-any_of k [] = refl
contains-any_of k (x ∷ xs) = rw (contains-any_of k xs)

module _ (c : PolicyClient) where
  -- The policy's selector can be evaluated, and takes the namespace.
  abbrev pub matches_namespace : AutoSchedulePolicy → Namespace → Bool
  matches_namespace p ns = elim (namespace_matches_policy c p ns) [ value b ↦ b | error e ↦ false ]

  matches_lem :
      (a : Reply Bool) → matches_without_error a ≡ (elim a [ value b ↦ b | error e ↦ false ])
  unfolding matches_without_error
  matches_lem (value b) = refl
  matches_lem (error e) = refl

  matching_names_lem :
      (k self : String) (ns : Namespace) (all : List AutoSchedulePolicy)
      → any_of (λ x. x == k) (matching_names c (other_policies self all) ns)
        ≡ any_of
            (λ q.
              q.name == k && (not (q.name == self) && (not q.deleting && matches_namespace q ns)))
            all
  unfolding matching_names other_policies
  matching_names_lem k self ns [] = refl
  matching_names_lem k self ns (q ∷ all) =
      ground
        (arith, matches_lem (namespace_matches_policy c q ns), matching_names_lem k self ns all)

  -- A policy is reported as overlapping with the policy `self` in a namespace exactly if some listed
  -- policy has its name, has another name than `self`, is not being deleted, and has a valid selector
  -- that takes the namespace.
  pub contains-overlapping_policies :
      (k self : String) (ns : Namespace) (all : List AutoSchedulePolicy)
      → contains k (overlapping_policies c (other_policies self all) ns)
        ≡ any_of
            (λ q.
              q.name == k && (not (q.name == self) && (not q.deleting && matches_namespace q ns)))
            all
  unfolding overlapping_policies
  contains-overlapping_policies k self ns all =
      contains-any_of k _
      ∙ any_of-sort_by (λ s. s) (λ x. x == k) (matching_names c (other_policies self all) ns)
      ∙ matching_names_lem k self ns all
