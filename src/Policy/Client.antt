-- ===== src/Policy/Client.antt =====
-- What internal/controller/autoschedulepolicy_controller.go calls, and the state of its handler.
use Prim.Native.String.{compare}
use Prim.Native.Nat.{Ordering}
use slumlord.Prelude.{ℕ, Bool, true, false, List, [], ◌∷◌, ◌++◌, String, ◌==◌, if◌then◌else◌}
use slumlord.Prelude.Int.{ℤ, pos, suc_ℤ, to_int32}
use slumlord.Action.{Reply, ok, M, modify, or_return, ◌>>=◌}
use slumlord.Cluster.{Labels}
use slumlord.Policy.Types.{
  LabelSelector, AutoSchedulePolicy, NamespaceConflict, MissingProfile, Namespace, Child,
}

-- The API server as this controller calls it, the evaluation of a label selector, which can find
-- the selector invalid, and the printing of two messages. An update of the
-- policy answers with the object that the server stored, which replaces the one in memory.
pub record PolicyClient : Type 1 where
  pub World : Type 0
  pub get_policy : String → World → Reply AutoSchedulePolicy × World
  pub update_policy : AutoSchedulePolicy → World → Reply AutoSchedulePolicy × World
  pub update_policy_status : AutoSchedulePolicy → World → Reply AutoSchedulePolicy × World
  pub list_namespaces : World → Reply (List Namespace) × World
  pub list_policies : World → Reply (List AutoSchedulePolicy) × World
  pub get_child : String → String → World → Reply Child × World
  pub create_child : Child → World → Reply (Unit {0}) × World
  pub update_child : Child → World → Reply (Unit {0}) × World
  pub delete_child : Child → World → Reply (Unit {0}) × World
  pub list_children : Labels → World → Reply (List Child) × World
  pub clock : World → ℕ × World
  pub selects : LabelSelector → Labels → Reply Bool
  pub count_message : ℤ → ℤ → String
  pub manual_message : String → String

-- The state of one reconciliation: the policy in memory, and the world.
pub record PolicyRun (W : Type 0) : Type 0 where
  pub policy : AutoSchedulePolicy
  pub world : W

-- The results of the loop over the matched namespaces.
pub record Tally : Type 0 where
  pub conflicts : List NamespaceConflict
  pub missing : List MissingProfile
  pub generated : ℤ
  pub desired : List String

abbrev pub no_tally : Tally
no_tally = record { conflicts = []; missing = []; generated = pos 0; desired = [] }

-- `conflicts = append(conflicts, x)` and the like.
abbrev pub with_conflict : NamespaceConflict → Tally → Tally
with_conflict x t = record t { conflicts = t.conflicts ++ x ∷ [] }

abbrev pub with_missing : MissingProfile → Tally → Tally
with_missing x t = record t { missing = t.missing ++ x ∷ [] }

abbrev pub with_generated : String → Tally → Tally
with_generated ns t = record t {
  generated = to_int32 (suc_ℤ t.generated);
  desired = ns ∷ t.desired;
}

-- `a <= b`, byte by byte.
abbrev pub text_le : String → String → Bool
text_le a b = elim (compare a b) [ Ordering.gt ↦ false | _ ↦ true ]

-- `sort.Strings`, and `sort.Slice` by a text that differs from item to item.
module _ {A : Type 0} (key : A → String) where
  unfoldable pub insert_by : A → List A → List A
  insert_by x [] = x ∷ []
  insert_by x (y ∷ ys) =
      let rest = insert_by x ys in if text_le (key x) (key y) then x ∷ y ∷ ys else y ∷ rest

  unfoldable pub sort_by : List A → List A
  unfolding insert_by
  sort_by [] = []
  sort_by (x ∷ xs) = insert_by x (sort_by xs)

-- `controllerutil.ContainsFinalizer`, `AddFinalizer` and `RemoveFinalizer`.
unfoldable pub remove_text : String → List String → List String
remove_text k [] = []
remove_text k (x ∷ xs) = let rest = remove_text k xs in if x == k then rest else x ∷ rest

abbrev pub with_finalizers : List String → AutoSchedulePolicy → AutoSchedulePolicy
with_finalizers f p = record p { finalizers = f }

-- A call with its error as a value, and one whose error ends the handler.
module _ {W A : Type 0} where
  abbrev pub ask : (W → Reply A × W) → M (PolicyRun W) (Reply A)
  ask op r = let (answer, w) = op r.world in (ok answer, record r { world = w })

  abbrev pub ask_or_return : (W → Reply A × W) → M (PolicyRun W) A
  ask_or_return op = ask op >>= or_return

abbrev pub put_policy : {W : Type 0} → AutoSchedulePolicy → M (PolicyRun W) (Unit {0})
put_policy {W} p = modify (λ (r : PolicyRun W). record r { policy = p })
