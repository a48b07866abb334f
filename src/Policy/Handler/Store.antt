-- ===== src/Policy/Handler/Store.antt =====
-- A server whose children are a map from namespace and name, which only this controller changes.
use slumlord.Prelude.{
  ◌≡◌, Bool, false, ◌&&◌, Option, none, some, List, [], ◌∷◌, String, ◌==◌, lookup, any_of,
  if◌then◌else◌,
}
use slumlord.Action.{value, error, not_found}
use slumlord.Policy.Types.{AutoSchedulePolicy, Namespace, Child, managed_by_label}
use slumlord.Policy.Client.{PolicyClient}

abbrev pub Children : Type 0
Children = String → String → Option Child

abbrev pub is_at : String → String → Child → Bool
is_at a b x = x.namespace == a && x.name == b

-- Is there a child that has the label of the policy `name`?
abbrev pub is_labelled : String → Option Child → Bool
is_labelled name none = false
is_labelled name (some x) = elim (lookup managed_by_label x.labels) [
  | none ↦ false
  | some v ↦ v == name
]

-- What each call that succeeds says of the children.
pub record Store (c : PolicyClient) : Type 1 where
  pub view : c.World → Children
  pub clock_lem : (w : c.World) → view (c.clock w).1 ≡ view w
  pub namespaces :
      (w w' : c.World) (xs : List Namespace)
      → c.list_namespaces w ≡ (value xs, w')
      → view w' ≡ view w
  pub policies :
      (w w' : c.World) (xs : List AutoSchedulePolicy)
      → c.list_policies w ≡ (value xs, w')
      → view w' ≡ view w
  pub status :
      (p p' : AutoSchedulePolicy) (w w' : c.World)
      → c.update_policy_status p w ≡ (value p', w')
      → view w' ≡ view w
  pub policy_updated :
      (p p' : AutoSchedulePolicy) (w w' : c.World)
      → c.update_policy p w ≡ (value p', w')
      → view w' ≡ view w
  pub found :
      (a b : String) (w w' : c.World) (x : Child)
      → c.get_child a b w ≡ (value x, w')
      → (view w' ≡ view w) × (view w a b ≡ some x) × (x.namespace ≡ a) × (x.name ≡ b)
  pub missing :
      (a b : String) (w w' : c.World) → c.get_child a b w ≡ (error not_found, w') → view w' ≡ view w
  pub created :
      (x : Child) (w w' : c.World) (a b : String)
      → c.create_child x w ≡ (value tt, w')
      → view w' a b ≡ (if is_at a b x then some x else view w a b)
  pub updated :
      (x : Child) (w w' : c.World) (a b : String)
      → c.update_child x w ≡ (value tt, w')
      → view w' a b ≡ (if is_at a b x then some x else view w a b)
  pub deleted :
      (x : Child) (w w' : c.World) (a b : String)
      → c.delete_child x w ≡ (value tt, w')
      → view w' a b ≡ (if is_at a b x then none else view w a b)
  pub gone :
      (x : Child) (w w' : c.World) (a b : String)
      → c.delete_child x w ≡ (error not_found, w')
      → view w' a b ≡ (if is_at a b x then none else view w a b)
  pub listed :
      (name : String) (w w' : c.World) (xs : List Child)
      → c.list_children ((managed_by_label, name) ∷ []) w ≡ (value xs, w')
      → view w' ≡ view w
  pub listed_at :
      (name : String) (w w' : c.World) (xs : List Child) (a b : String)
      → c.list_children ((managed_by_label, name) ∷ []) w ≡ (value xs, w')
      → any_of (is_at a b) xs ≡ is_labelled name (view w a b)
