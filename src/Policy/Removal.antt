-- ===== src/Policy/Removal.antt =====
-- The deletion of child schedules: `deleteOrphanedSchedules`, `deleteAllManagedSchedules`.
use slumlord.Prelude.{◌&&◌, List, [], ◌∷◌, String, ◌==◌, contains, if◌then◌else◌}
use slumlord.Action.{not_found, no_match, failed, Reply, value, error, M, pure, raise, ◌>>=◌, ◌>>◌}
use slumlord.Policy.Client.{PolicyClient, PolicyRun, ask, ask_or_return}
use slumlord.Policy.Types.{AutoSchedulePolicy, Child, managed_by_label, resolved_generated_name}

-- `if err := r.Delete(ctx, ss); err != nil && !apierrors.IsNotFound(err) { return ... }`
pub gone_or_return : {S : Type 0} → Reply (Unit {0}) → M S (Unit {0})
gone_or_return (value u) = pure tt
gone_or_return (error not_found) = pure tt
gone_or_return (error no_match) = raise no_match
gone_or_return (error failed) = raise failed

-- The children that the loop of `deleteOrphanedSchedules` does not pass over.
unfoldable pub orphans : AutoSchedulePolicy → List String → List Child → List Child
orphans p keep [] = []
orphans p keep (x ∷ xs) =
    let rest = orphans p keep xs in
    if contains x.namespace keep && x.name == resolved_generated_name p then rest else x ∷ rest

module _ (c : PolicyClient) where
  open c use {World, list_children, delete_child}

  unfoldable pub delete_schedules : List Child → M (PolicyRun World) (Unit {0})
  unfolding gone_or_return
  delete_schedules [] = pure tt
  delete_schedules (x ∷ xs) = do
    answer ← ask (delete_child x)
    gone_or_return answer
    delete_schedules xs

  unfoldable pub delete_orphaned_schedules :
      AutoSchedulePolicy → List String → M (PolicyRun World) (Unit {0})
  unfolding delete_schedules orphans
  delete_orphaned_schedules p keep = do
    owned ← ask_or_return (list_children ((managed_by_label, p.name) ∷ []))
    delete_schedules (orphans p keep owned)

  unfoldable pub delete_all_managed_schedules : AutoSchedulePolicy → M (PolicyRun World) (Unit {0})
  unfolding delete_schedules
  delete_all_managed_schedules p = do
    owned ← ask_or_return (list_children ((managed_by_label, p.name) ∷ []))
    delete_schedules owned
