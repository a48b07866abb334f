-- ===== src/Policy/Handler/Loop.antt =====
-- The loop over the matched namespaces against the store.
use slumlord.Prelude.{
  ◌≡◌, refl, sym, ◌∙◌, ap, inl, inr, false, Option, none, some, List, [], ◌∷◌, lookup, eq_iff,
  contains, is_empty, All, arith, Bool-cases,
}
use slumlord.Prelude.Int.{ℤ}
use slumlord.Action.{Reply, value, error, not_found, no_match, failed}
use slumlord.Action.Yields.{Yields, Yields-continue, Yields-weaken}
use slumlord.Policy.{AutoScheduleProfile, build_sleep_schedule_spec, sleep_spec_equal}
use slumlord.Policy.Types.{
  AutoSchedulePolicy, Namespace, Child, managed_by_label, resolved_generated_name,
}
use slumlord.Policy.Client.{PolicyClient, PolicyRun, Tally}
use slumlord.Policy.Match.{overlapping_policies}
use slumlord.Policy.Handler.{settle_child, settle_profile, settle_namespace, settle_namespaces}
use slumlord.Policy.Handler.Store.{Children, Store}
use slumlord.Policy.Handler.Settle.{
  AgreesWith-build, AgreesWith-equal, profile_name, is_marked, IsAlone, IsAccounted, Kept-found,
  Kept-same, Grows, IsAccounted-Grows, Seen, After, Grows-cons, contains-cons_self, settle_write,
}

module _ (default : ℤ) (c : PolicyClient) (p : AutoSchedulePolicy)
    (others : List AutoSchedulePolicy) (Takes : Namespace → Type 0) (s : Store c)
    (v0 : Children) where
  abbrev Sees : Tally → PolicyRun c.World → Type 0
  Sees = Seen default c p others Takes s v0

  abbrev Leads : Tally → Namespace → Tally → PolicyRun c.World → Type 0
  Leads = After default c p others Takes s v0

  abbrev Nothing : PolicyRun c.World → Type 0
  Nothing r = Unit {0}

  -- A child that another hand has put there.
  manual :
      (existing : Child) (ns : Namespace) (t : Tally) (r : PolicyRun c.World)
      → Sees t r
      → s.view r.world ns.name (resolved_generated_name p) ≡ some existing
      → is_marked p.name existing ≡ false
      → IsAccounted default c p others Takes v0 t.desired ns
  manual existing ns t r kept here unmarked = elim (Bool-cases (contains ns.name t.desired)) [
    | inl before ↦ inl before
    | inr fresh ↦ inr (
        inr (
          inr (
            existing,
            sym (kept.rest ns.name (resolved_generated_name p) (ground arith)) ∙ here,
            unmarked,
          )))
  ]

  Leads-settle_child :
      (profile : AutoScheduleProfile) (ns : Namespace) (t : Tally) (w : c.World)
      (r : PolicyRun c.World)
      → Takes ns
      → IsAlone default c p others Takes ns
      → lookup (profile_name p ns) p.spec.profiles ≡ some profile
      → Sees t (record r { world = w })
      → (answer : Reply Child) (w' : c.World)
      → c.get_child ns.name (resolved_generated_name p) w ≡ (answer, w')
      → Yields
          (Leads t ns)
          Nothing
          (settle_child default c p profile ns t answer (record r { world = w' }))
  unfolding settle_child
  Leads-settle_child profile ns t w r taken alone chosen kept (value existing) w' e =
      let (same, here, at, named) = s.found ns.name (resolved_generated_name p) w w' existing e in
      let kept' =
        Kept-same default c p others Takes v0 (s.view w) (s.view w') t.desired same kept in
      let here' : s.view w' ns.name (resolved_generated_name p) ≡ some existing =
        ap (λ f. f ns.name (resolved_generated_name p)) same ∙ here in
      elim (Bool-cases (is_marked p.name existing)) [
        | inr unmarked ↦
            rw unmarked
              (kept', manual existing ns t (record r { world = w' }) kept' here' unmarked, λ a h. h)
        | inl marked ↦
            elim (Bool-cases (sleep_spec_equal existing.spec (build_sleep_schedule_spec profile))) [
              | inl equal ↦
                  rw (marked, equal)
                    (
                      Kept-found default c p others Takes v0 (s.view w') (s.view w') t.desired
                          ns.name existing kept' refl here'
                          (record {
                            ns = ns;
                            profile = profile;
                            child = existing;
                            named = refl;
                            taken = taken;
                            alone = alone;
                            chosen = chosen;
                            present = refl;
                            marked = marked;
                            agrees = AgreesWith-equal existing.spec profile equal;
                          }),
                      inl (contains-cons_self default c p others Takes s v0 ns.name t.desired),
                      Grows-cons default c p others Takes s v0 ns.name t.desired,
                    )
              | inr differs ↦
                  let x = record existing { spec = build_sleep_schedule_spec profile } in
                  rw (marked, differs)
                    (settle_write default c p others Takes s v0 (c.update_child x) x ns t
                      (record r { world = w' }) (λ w'' a b. s.updated x w' w'' a b) kept' at named
                      (record {
                        ns = ns;
                        profile = profile;
                        child = x;
                        named = refl;
                        taken = taken;
                        alone = alone;
                        chosen = chosen;
                        present = refl;
                        marked = marked;
                        agrees = AgreesWith-build profile;
                      }))
            ]
      ]
  Leads-settle_child profile ns t w r taken alone chosen kept (error not_found) w' e =
      let same = s.missing ns.name (resolved_generated_name p) w w' e in
      let kept' =
        Kept-same default c p others Takes v0 (s.view w) (s.view w') t.desired same kept in
      let x : Child = record {
        namespace = ns.name;
        name = resolved_generated_name p;
        labels = (managed_by_label, p.name) ∷ [];
        spec = build_sleep_schedule_spec profile;
      } in
      settle_write default c p others Takes s v0 (c.create_child x) x ns t (record r { world = w' })
        (λ w'' a b. s.created x w' w'' a b) kept' refl refl
        (record {
          ns = ns;
          profile = profile;
          child = x;
          named = refl;
          taken = taken;
          alone = alone;
          chosen = chosen;
          present = refl;
          marked = ground (arith, eq_iff managed_by_label managed_by_label, eq_iff p.name p.name);
          agrees = AgreesWith-build profile;
        })
  Leads-settle_child profile ns t w r taken alone chosen kept (error no_match) w' e = tt
  Leads-settle_child profile ns t w r taken alone chosen kept (error failed) w' e = tt

  Leads-settle_profile :
      (ns : Namespace) (t : Tally) (r : PolicyRun c.World)
      → Takes ns
      → IsAlone default c p others Takes ns
      → Sees t r
      → (o : Option AutoScheduleProfile) → lookup (profile_name p ns) p.spec.profiles ≡ o
      → Yields (Leads t ns) Nothing (settle_profile default c p ns t o r)
  unfolding settle_profile
  Leads-settle_profile ns t r taken alone kept none e = (kept, inr (inr (inl e)), λ a h. h)
  Leads-settle_profile ns t r taken alone kept (some profile) e =
      let (answer, w) = c.get_child ns.name (resolved_generated_name p) r.world in
      Leads-settle_child profile ns t r.world r taken alone e kept answer w refl

  Leads-settle_namespace :
      (ns : Namespace) (t : Tally) (r : PolicyRun c.World)
      → Takes ns
      → Sees t r
      → Yields (Leads t ns) Nothing (settle_namespace default c p others ns t r)
  unfolding settle_namespace
  Leads-settle_namespace ns t r taken kept =
      elim (Bool-cases (is_empty (overlapping_policies c others ns))) [
        | inl alone ↦ rw alone (Leads-settle_profile ns t r taken alone kept _ refl)
        | inr overlap ↦ rw overlap (kept, inr (inl overlap), λ a h. h)
      ]

  abbrev pub AllLead : Tally → List Namespace → Tally → PolicyRun c.World → Type 0
  AllLead t nss t' r' =
      Sees t' r'
      × All (IsAccounted default c p others Takes v0 t'.desired) nss
      × Grows default c p others Takes t.desired t'.desired

  pub AllLead-settle_namespaces :
      (nss : List Namespace) (t : Tally) (r : PolicyRun c.World)
      → All Takes nss
      → Sees t r
      → Yields (AllLead t nss) Nothing (settle_namespaces default c p others nss t r)
  unfolding settle_namespaces
  AllLead-settle_namespaces [] t r taken kept = (kept, tt, λ a h. h)
  AllLead-settle_namespaces (ns ∷ rest) t r taken kept =
      Yields-continue (Leads t ns) (AllLead t (ns ∷ rest)) Nothing
        (settle_namespace default c p others ns t r) (settle_namespaces default c p others rest)
        (Leads-settle_namespace ns t r taken.0 kept)
        (λ t1 r1 q.
          Yields-weaken (AllLead t1 rest) (AllLead t (ns ∷ rest)) Nothing
            (settle_namespaces default c p others rest t1 r1)
            (AllLead-settle_namespaces rest t1 r1 taken.1 q.0)
            (λ t2 r2 q2. (
              q2.0,
              (
                IsAccounted-Grows default c p others Takes v0 t1.desired t2.desired ns q2.2 q.1,
                q2.1,
              ),
              λ a h. q2.2 a (q.2 a h),
            )))
