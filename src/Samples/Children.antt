-- ===== src/Samples/Children.antt =====
-- A server that keeps the children of policies in a list, the newest first, and that lists two
-- namespaces and two policies.
use mathlib.Core.Path.{subst, ap₂}
use slumlord.Prelude.{
  ◌≡◌, refl, sym, ap, ◌∙◌, inl, inr, Bool, true, false, ◌&&◌, Option, none, some, List, [], ◌∷◌,
  String, ◌==◌, eq_iff, arith, lookup, any_of, Bool-cases, if◌then◌else◌,
}
use slumlord.Action.{Reply, value, error, not_found}
use slumlord.Cluster.{Labels}
use slumlord.Change.{or_else}
use slumlord.Policy.Types.{
  Requirement, LabelSelector, AutoSchedulePolicy, Namespace, Child, managed_by_label,
}
use slumlord.Policy.Client.{PolicyClient}
use slumlord.Policy.Handler.Store.{Store, is_at, is_labelled}

unfoldable pub find : String → String → List Child → Option Child
find a b [] = none
find a b (x ∷ xs) = if is_at a b x then some x else find a b xs

unfoldable pub remove : Child → List Child → List Child
remove x [] = []
remove x (y ∷ ys) = let rest = remove x ys in if is_at x.namespace x.name y then rest else y ∷ rest

-- The children with a policy's label, as `all` has them.
unfoldable pub labelled : String → List Child → List Child → List Child
unfolding find
labelled name all [] = []
labelled name all (x ∷ xs) =
    let rest = labelled name all xs in
    if is_labelled name (find x.namespace x.name all) then x ∷ rest else rest

abbrev StandsAt : String → String → Option Child → Type 0
StandsAt a b none = Unit {0}
StandsAt a b (some x) = (x.namespace ≡ a) × (x.name ≡ b)

StandsAt-find : (a b : String) (xs : List Child) → StandsAt a b (find a b xs)
unfolding find
StandsAt-find a b [] = tt
StandsAt-find a b (x ∷ xs) = elim (Bool-cases (is_at a b x)) [
  | inl at ↦ rw at ((eq_iff x.namespace a).0 (ground arith), (eq_iff x.name b).0 (ground arith))
  | inr other ↦ rw other (StandsAt-find a b xs)
]

find-remove :
    (x : Child) (xs : List Child) (a b : String)
    → find a b (remove x xs) ≡ (if is_at a b x then none else find a b xs)
unfolding find remove
find-remove x [] a b = ground arith
find-remove x (y ∷ ys) a b = ground (
  arith,
  find-remove x ys a b,
  eq_iff x.namespace a,
  eq_iff x.name b,
  eq_iff y.namespace x.namespace,
  eq_iff y.name x.name,
  eq_iff y.namespace a,
  eq_iff y.name b,
)

any_of-labelled :
    (name : String) (all xs : List Child) (a b : String)
    → any_of (is_at a b) (labelled name all xs)
      ≡ any_of (is_at a b) xs && is_labelled name (find a b all)
unfolding labelled
any_of-labelled name all [] a b = refl
any_of-labelled name all (x ∷ xs) a b = elim (Bool-cases (is_at a b x)) [
  | inl at ↦
      let same : find x.namespace x.name all ≡ find a b all =
        ap₂ (λ k l. find k l all) ((eq_iff x.namespace a).0 (ground arith))
          ((eq_iff x.name b).0 (ground arith)) in
      ground (arith, same, any_of-labelled name all xs a b)
  | inr other ↦ ground (arith, any_of-labelled name all xs a b)
]

any_of-found :
    (name : String) (xs : List Child) (a b : String)
    → any_of (is_at a b) xs && is_labelled name (find a b xs) ≡ is_labelled name (find a b xs)
unfolding find
any_of-found name [] a b = refl
any_of-found name (x ∷ xs) a b = ground (arith, any_of-found name xs a b)

unfoldable pub find_policy : String → List AutoSchedulePolicy → Reply AutoSchedulePolicy
find_policy name [] = error not_found
find_policy name (p ∷ ps) = if p.name == name then value p else find_policy name ps

-- Selectors by the keys that exist and the labels that are equal.
unfoldable pub has_keys : LabelSelector → Labels → Bool
has_keys s ls = all_in s.match_labels && all_keys s.match_expressions
  where
    all_in : Labels → Bool
    all_in [] = true
    all_in ((k, v) ∷ m) = or_else (lookup k ls) "" == v && all_in m

    all_keys : List Requirement → Bool
    all_keys [] = true
    all_keys (q ∷ qs) = elim (lookup q.key ls) [ none ↦ false | some v ↦ all_keys qs ]

abbrev found_child : Option Child → Reply Child
found_child none = error not_found
found_child (some x) = value x

abbrev to_option : {A : Type 0} → Reply A → Option A
to_option (value x) = some x
to_option (error e) = none

to_option-found_child : (o : Option Child) → to_option (found_child o) ≡ o
to_option-found_child none = refl
to_option-found_child (some x) = refl

abbrev IsValue : {A : Type 0} → Reply A → Type 0
IsValue (value x) = Unit {0}
IsValue (error e) = ⊥

abbrev values : {A : Type 0} → Reply (List A) → List A
values (value xs) = xs
values (error e) = []

-- The newest child comes first.
module _ (policies : List AutoSchedulePolicy) (namespaces : List Namespace) where
  abbrev pub server : PolicyClient
  server = record {
    World = List Child;
    get_policy = λ name w. (find_policy name policies, w);
    update_policy = λ p w. (value p, w);
    update_policy_status = λ p w. (value p, w);
    list_namespaces = λ w. (value namespaces, w);
    list_policies = λ w. (value policies, w);
    get_child = λ a b w. (found_child (find a b w), w);
    create_child = λ x w. (value tt, x ∷ w);
    update_child = λ x w. (value tt, x ∷ w);
    delete_child = λ x w. (value tt, remove x w);
    list_children = λ ls w. (value (labelled (or_else (lookup managed_by_label ls) "") w w), w);
    clock = λ w. (0, w);
    selects = λ s ls. value (has_keys s ls);
    count_message = λ m g. "";
    manual_message = λ name. name;
  }

  pub server-Store : Store server
  unfolding find remove labelled
  server-Store = record {
    view = λ w a b. find a b w;
    clock_lem = λ w. refl;
    namespaces = λ w w' xs e. ap (λ q a b. find a b q.1) (sym e);
    policies = λ w w' xs e. ap (λ q a b. find a b q.1) (sym e);
    status = λ p p' w w' e. ap (λ q a b. find a b q.1) (sym e);
    policy_updated = λ p p' w w' e. ap (λ q a b. find a b q.1) (sym e);
    found = λ a b w w' x e.
        let here : find a b w ≡ some x =
          sym (to_option-found_child (find a b w)) ∙ ap (λ q. to_option q.0) e in
        let stands = subst (StandsAt a b) here (StandsAt-find a b w) in
        (ap (λ q k l. find k l q.1) (sym e), here, stands.0, stands.1);
    missing = λ a b w w' e. ap (λ q k l. find k l q.1) (sym e);
    created = λ x w w' a b e. ap (λ q. find a b q.1) (sym e);
    updated = λ x w w' a b e. ap (λ q. find a b q.1) (sym e);
    deleted = λ x w w' a b e. ap (λ q. find a b q.1) (sym e) ∙ find-remove x w a b;
    gone = λ x w w' a b e. absurd (subst (λ q. IsValue q.0) e tt);
    listed = λ name w w' xs e. ap (λ q a b. find a b q.1) (sym e);
    listed_at = λ name w w' xs a b e.
        ap (λ q. any_of (is_at a b) (values q.0)) (sym e)
        ∙ any_of-labelled name w w a b
        ∙ any_of-found name w a b;
  }
