-- ===== src/Policy/Handler/Refined.antt =====
-- What `Reconcile` makes of the children, as an operation on the map of them.
use mathlib.Core.Bool.{false≢true}
use mathlib.Core.Path.{subst}
use slumlord.Prelude.{
  ℕ, ◌≡◌, refl, sym, ◌∙◌, ap, ◌⊎◌, inl, inr, true, false, ◌&&◌, none, List, [], ◌∷◌, String, ◌==◌,
  eq_iff, contains, length, All, arith, Bool-cases, if◌then◌else◌,
}
use slumlord.Prelude.Int.{ℤ, pos, to_int32}
use slumlord.Action.{Reply, value, error, ok, pure, or_return, ◌>>=◌}
use slumlord.Action.Yields.{Yields, Yields-continue, Yields-ok}
use slumlord.Policy.Types.{
  AutoSchedulePolicy, Namespace, NamespaceConflict, MissingProfile, resolved_generated_name,
}
use slumlord.Policy.Client.{PolicyClient, PolicyRun, Tally, no_tally, sort_by}
use slumlord.Policy.Match.{namespace_matches_policy, other_policies, matched_namespaces}
use slumlord.Policy.Removal.{delete_orphaned_schedules}
use slumlord.Policy.Handler.{
  settle_namespaces, policy_condition, update_status, policy_requeue, reconcile_children,
}
use slumlord.Policy.Handler.Store.{Children, Store, is_labelled}
use slumlord.Policy.Handler.Settle.{IsSettled, Kept, IsAccounted}
use slumlord.Policy.Handler.Loop.{AllLead, AllLead-settle_namespaces}
use slumlord.Policy.Handler.Taken.{IsMatched, All-matched_namespaces, All-unmatched}
use slumlord.Policy.Handler.Prune.{
  Nothing, Yields-ask_or_return, Pruned, Pruned-delete_orphaned_schedules,
}

module _ (default : ℤ) (c : PolicyClient) (s : Store c) where
  -- The child at a place, before and after: a kept one, or what was there unless it was the policy's.
  abbrev pub IsSynced :
      AutoSchedulePolicy
      → List AutoSchedulePolicy
      → List Namespace
      → List String
      → Children
      → Children
      → String
      → String
      → Type 0
  IsSynced p others nss keep v v' a b =
      (((contains a keep && resolved_generated_name p == b) ≡ true)
        × IsSettled default c p others (IsMatched c p nss) a (v' a b))
      ⊎ (((contains a keep && resolved_generated_name p == b) ≡ false)
          × (v' a b ≡ (if is_labelled p.name (v a b) then none else v a b)))

  -- The worlds before and after, by the namespaces and the policies that the server lists and by the
  -- namespaces `keep` in which the policy has its child.
  pub record IsReconciled (p : AutoSchedulePolicy) (w w' : c.World) : Type 0 where
    pub namespaces : List Namespace
    pub policies : List AutoSchedulePolicy
    pub keep : List String
    pub w1 : c.World
    pub w2 : c.World
    pub listed : c.list_namespaces w ≡ (value namespaces, w1)
    pub listed_policies : c.list_policies w1 ≡ (value policies, w2)
    pub synced :
        (a b : String)
        → IsSynced p (other_policies p.name policies) namespaces keep (s.view w) (s.view w') a b
    pub accounted :
        All
          (λ ns.
            (namespace_matches_policy c p ns ≡ value false)
            ⊎ IsAccounted default c p
                (other_policies p.name policies)
                (IsMatched c p namespaces)
                (s.view w)
                keep
                ns)
          namespaces

  IsSynced-Pruned :
      (p : AutoSchedulePolicy) (others : List AutoSchedulePolicy) (nss : List Namespace)
      (keep : List String) (v v1 v' : Children)
      → Kept default c p others (IsMatched c p nss) v v1 keep
      → Pruned c s p keep v1 v'
      → (a b : String) → IsSynced p others nss keep v v' a b
  IsSynced-Pruned p others nss keep v v1 v' kept pruned a b =
      elim (Bool-cases (contains a keep && resolved_generated_name p == b)) [
        | inl here ↦ inl (
          here,
          subst (IsSettled default c p others (IsMatched c p nss) a)
              (ap (v1 a) ((eq_iff (resolved_generated_name p) b).0 (ground arith))
                ∙ sym (pruned a b ∙ ground arith))
              (kept.settled a (ground arith)),
        )
        | inr there ↦ inr (there, pruned a b ∙ ground (arith, kept.rest a b there))
      ]

  Same-update_status :
      (matched : ℤ) (t : Tally) (r : PolicyRun c.World)
      → Yields
          (λ u r'. s.view r'.world ≡ s.view r.world)
          (Nothing c)
          (update_status default c matched t r)
  unfolding update_status
  Same-update_status matched t r =
      let (now, w) = c.clock r.world in
      Yields-ask_or_return c (c.update_policy_status (reported r.policy now)) _
        (λ u r'. s.view r'.world ≡ s.view r.world) (record r { world = w })
        (λ stored w' e. s.status (reported r.policy now) stored w w' e ∙ s.clock_lem r.world)
    where
      reported : AutoSchedulePolicy → ℕ → AutoSchedulePolicy
      reported p now = record p {
        status = record {
          observed_generation = p.generation;
          matched_namespaces = matched;
          generated_schedules = t.generated;
          conflicts = sort_by (λ (x : NamespaceConflict). x.namespace) t.conflicts;
          missing_profiles = sort_by (λ (x : MissingProfile). x.namespace) t.missing;
          conditions = policy_condition default c p matched now t ∷ [];
        };
      }

  -- From the listed namespaces on.
  Reconciled-tail :
      (p : AutoSchedulePolicy) (w : c.World) (namespaces : List Namespace)
      (policies : List AutoSchedulePolicy) (w1 w2 : c.World)
      → c.list_namespaces w ≡ (value namespaces, w1)
      → c.list_policies w1 ≡ (value policies, w2)
      → (m : Reply (List Namespace)) → matched_namespaces c p namespaces ≡ m
      → Yields
          (λ u r'. IsReconciled p w r'.world)
          (Nothing c)
          ((or_return m >>= λ matched.
              settle_namespaces default c p (other_policies p.name policies) matched no_tally
              >>= λ t.
                  (delete_orphaned_schedules c p t.desired >>= λ _.
                  (update_status default c (to_int32 (pos (length matched))) t >>= λ _.
                  pure (policy_requeue default c p))))
            (record { policy = p; world = w2 }))
  Reconciled-tail p w namespaces policies w1 w2 e1 e2 (error x) em = tt
  Reconciled-tail p w namespaces policies w1 w2 e1 e2 (value matched) em =
      let others = other_policies p.name policies in
      let r2 : PolicyRun c.World = record { policy = p; world = w2 } in
      Yields-continue
        (AllLead default c p others (IsMatched c p namespaces) s (s.view w) no_tally matched)
        (λ u r'. IsReconciled p w r'.world) (Nothing c)
        (settle_namespaces default c p others matched no_tally r2) _
        (AllLead-settle_namespaces default c p others (IsMatched c p namespaces) s (s.view w)
          matched no_tally r2 (All-matched_namespaces c p namespaces matched em)
          (record {
            settled = λ a h. absurd (false≢true h);
            rest = λ a b h.
                ap (λ f. f a b) (s.policies w1 w2 policies e2 ∙ s.namespaces w w1 namespaces e1);
          }))
        (λ t r3 q.
          Yields-continue (λ u r4. Pruned c s p t.desired (s.view r3.world) (s.view r4.world))
            (λ u r'. IsReconciled p w r'.world) (Nothing c)
            (delete_orphaned_schedules c p t.desired r3) _
            (Pruned-delete_orphaned_schedules c s p t.desired r3)
            (λ u r4 pruned.
              Yields-continue (λ u r5. s.view r5.world ≡ s.view r4.world)
                (λ u r'. IsReconciled p w r'.world) (Nothing c)
                (update_status default c (to_int32 (pos (length matched))) t r4) _
                (Same-update_status (to_int32 (pos (length matched))) t r4)
                (λ u' r5 same. record {
                  namespaces = namespaces;
                  policies = policies;
                  keep = t.desired;
                  w1 = w1;
                  w2 = w2;
                  listed = e1;
                  listed_policies = e2;
                  synced =
                      IsSynced-Pruned p others namespaces t.desired (s.view w) (s.view r3.world)
                        (s.view r5.world) q.0
                        (subst (Pruned c s p t.desired (s.view r3.world)) (sym same) pruned);
                  accounted = All-unmatched c p _ namespaces matched em q.1;
                })))

  -- When the part of `Reconcile` from the listing of namespaces on ends without an error, there is a
  -- list `keep` of namespaces such that: in each of them the policy's child stands as `IsSettled` says
  -- (the namespace is listed, the policy takes it and no other does, the child has the policy's label,
  -- its spec has the profile's suspension, types, names and windows, and it has the profile's labels or
  -- as many labels that each read the same there, a missing one as empty); at every other place a child with the policy's label is gone and
  -- any other is as it was before; and each listed namespace that the policy takes is in `keep`, or
  -- overlaps, or has no known profile, or had a child of another hand there. The server keeps the
  -- children as a map that only this handler changes (`Store`).
  pub reconcile_children_refines :
      (r r' : PolicyRun c.World) (after : ℤ)
      → reconcile_children default c r ≡ (ok after, r')
      → IsReconciled r.policy r.world r'.world
  unfolding reconcile_children
  reconcile_children_refines r r' after e =
      Yields-ok (λ u q. IsReconciled r.policy r.world q.world) (Nothing c)
        (reconcile_children default c r) after r'
        (Yields-ask_or_return c c.list_namespaces _ (λ u q. IsReconciled r.policy r.world q.world) r
          (λ namespaces w1 e1.
            Yields-ask_or_return c c.list_policies _ (λ u q. IsReconciled r.policy r.world q.world)
              (record { policy = r.policy; world = w1 })
              (λ policies w2 e2.
                Reconciled-tail r.policy r.world namespaces policies w1 w2 e1 e2
                  (matched_namespaces c r.policy namespaces) refl)))
        e
