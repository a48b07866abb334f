-- ===== src/Policy/Handler/Prune.antt =====
-- The deletion of child schedules against the store.
use slumlord.Prelude.{
  ◌≡◌, refl, ap, inl, inr, not, ◌&&◌, none, List, [], ◌∷◌, String, ◌==◌, eq_iff, contains, any_of,
  arith, if◌then◌else◌,
}
use slumlord.Action.{
  Reply, value, error, not_found, no_match, failed, M, continue_with, ◌>>=◌, answer_cases,
}
use slumlord.Action.Yields.{Yields, Yields-weaken}
use slumlord.Policy.Types.{AutoSchedulePolicy, Child, managed_by_label, resolved_generated_name}
use slumlord.Policy.Client.{PolicyClient, PolicyRun, ask_or_return}
use slumlord.Policy.Removal.{
  gone_or_return, delete_schedules, orphans, delete_orphaned_schedules,
  delete_all_managed_schedules,
}
use slumlord.Policy.Handler.Store.{Children, Store, is_at, is_labelled}

module _ (c : PolicyClient) where
  abbrev pub Nothing : PolicyRun c.World → Type 0
  Nothing r = Unit {0}

  pub Yields-ask_or_return :
      {A B : Type 0} (op : c.World → Reply A × c.World) (f : A → M (PolicyRun c.World) B)
      (R : B → PolicyRun c.World → Type 0) (r : PolicyRun c.World)
      → ((a : A) (w : c.World)
          → op r.world ≡ (value a, w)
          → Yields R Nothing (f a (record r { world = w })))
      → Yields R Nothing ((ask_or_return op >>= f) r)
  Yields-ask_or_return op f R r h = elim (answer_cases (op r.world)) [
    | inl (a, w, e) ↦ rw e (h a w e)
    | inr (x, w, e) ↦ rw e tt
  ]

  any_of-orphans :
      (p : AutoSchedulePolicy) (keep : List String) (a b : String) (xs : List Child)
      → any_of (is_at a b) (orphans p keep xs)
        ≡ any_of (is_at a b) xs && not (contains a keep && resolved_generated_name p == b)
  unfolding orphans
  any_of-orphans p keep a b [] = refl
  any_of-orphans p keep a b (x ∷ xs) = ground (
    arith,
    any_of-orphans p keep a b xs,
    eq_iff x.namespace a,
    eq_iff x.name b,
    eq_iff x.name (resolved_generated_name p),
    eq_iff (resolved_generated_name p) b,
  )

  module _ (s : Store c) where
    -- The children `v` without those at the places of the list.
    abbrev Without : Children → List Child → Children → Type 0
    Without v xs v' = (a b : String) → v' a b ≡ (if any_of (is_at a b) xs then none else v a b)

    Without-cons :
        (x : Child) (xs : List Child) (r : PolicyRun c.World) (w : c.World)
        → ((a b : String) → s.view w a b ≡ (if is_at a b x then none else s.view r.world a b))
        → Yields
            (λ u r'. Without (s.view w) xs (s.view r'.world))
            Nothing
            (delete_schedules c xs (record r { world = w }))
        → Yields
            (λ u r'. Without (s.view r.world) (x ∷ xs) (s.view r'.world))
            Nothing
            (delete_schedules c xs (record r { world = w }))
    Without-cons x xs r w h k =
        Yields-weaken (λ u r'. Without (s.view w) xs (s.view r'.world))
          (λ u r'. Without (s.view r.world) (x ∷ xs) (s.view r'.world)) Nothing
          (delete_schedules c xs (record r { world = w })) k
          (λ u r' q a b. ground (arith, q a b, h a b))

    Without-delete_schedules :
        (xs : List Child) (r : PolicyRun c.World)
        → Yields
            (λ u r'. Without (s.view r.world) xs (s.view r'.world))
            Nothing
            (delete_schedules c xs r)
    unfolding delete_schedules
    Without-delete_schedules [] r = λ a b. refl
    Without-delete_schedules (x ∷ xs) r =
        go (λ w. Without-delete_schedules xs (record r { world = w })) (c.delete_child x r.world).0
          (c.delete_child x r.world).1 refl
      where
        go :
            ((w : c.World)
              → Yields
                  (λ u r'. Without (s.view w) xs (s.view r'.world))
                  Nothing
                  (delete_schedules c xs (record r { world = w })))
            → (answer : Reply (Unit {0})) (w : c.World) → c.delete_child x r.world ≡ (answer, w)
            → Yields
                (λ u r'. Without (s.view r.world) (x ∷ xs) (s.view r'.world))
                Nothing
                (continue_with
                  (gone_or_return answer (record r { world = w }))
                  (λ _. delete_schedules c xs))
        go ih (value tt) w e = Without-cons x xs r w (λ a b. s.deleted x r.world w a b e) (ih w)
        go ih (error not_found) w e = Without-cons x xs r w (λ a b. s.gone x r.world w a b e) (ih w)
        go ih (error no_match) w e = tt
        go ih (error failed) w e = tt

    -- The store after the orphans were deleted.
    abbrev pub Pruned : AutoSchedulePolicy → List String → Children → Children → Type 0
    Pruned p keep v v' =
        (a b : String)
        → v' a b ≡ (
            if is_labelled p.name (v a b) && not (contains a keep && resolved_generated_name p == b)
            then none
            else v a b)

    pub Pruned-delete_orphaned_schedules :
        (p : AutoSchedulePolicy) (keep : List String) (r : PolicyRun c.World)
        → Yields
            (λ u r'. Pruned p keep (s.view r.world) (s.view r'.world))
            Nothing
            (delete_orphaned_schedules c p keep r)
    unfolding delete_orphaned_schedules
    Pruned-delete_orphaned_schedules p keep r =
        Yields-ask_or_return (c.list_children ((managed_by_label, p.name) ∷ []))
          (λ owned. delete_schedules c (orphans p keep owned))
          (λ u r'. Pruned p keep (s.view r.world) (s.view r'.world)) r
          (λ owned w e.
            Yields-weaken (λ u r'. Without (s.view w) (orphans p keep owned) (s.view r'.world))
              (λ u r'. Pruned p keep (s.view r.world) (s.view r'.world)) Nothing
              (delete_schedules c (orphans p keep owned) (record r { world = w }))
              (Without-delete_schedules (orphans p keep owned) (record r { world = w }))
              (λ u r' q a b. ground (
                arith,
                q a b,
                any_of-orphans p keep a b owned,
                s.listed_at p.name r.world w owned a b e,
                ap (λ f. f a b) (s.listed p.name r.world w owned e),
              )))

    -- A deleted policy leaves none of its children.
    pub Cleared-delete_all_managed_schedules :
        (p : AutoSchedulePolicy) (r : PolicyRun c.World)
        → Yields
            (λ u r'.
              (a b : String)
              → s.view r'.world a b
                ≡ (if is_labelled p.name (s.view r.world a b) then none else s.view r.world a b))
            Nothing
            (delete_all_managed_schedules c p r)
    unfolding delete_all_managed_schedules
    Cleared-delete_all_managed_schedules p r =
        Yields-ask_or_return (c.list_children ((managed_by_label, p.name) ∷ []))
          (delete_schedules c) _ r
          (λ owned w e.
            Yields-weaken (λ u r'. Without (s.view w) owned (s.view r'.world)) _ Nothing
              (delete_schedules c owned (record r { world = w }))
              (Without-delete_schedules owned (record r { world = w }))
              (λ u r' q a b. ground (
                arith,
                q a b,
                s.listed_at p.name r.world w owned a b e,
                ap (λ f. f a b) (s.listed p.name r.world w owned e),
              )))
