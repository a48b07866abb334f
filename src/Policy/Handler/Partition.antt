-- ===== src/Policy/Handler/Partition.antt =====
-- Every matched namespace is accounted for exactly as often as it is matched: as a conflict, as a missing profile, or as one with
-- a generated schedule.
use mathlib.Core.Path.{subst, fun_ext}
use slumlord.Prelude.{
  ℕ, suc, if◌then◌else◌, ◌+◌, ◌≡◌, refl, ap, ◌∙◌, Option, none, some, List, [], ◌∷◌, ◌++◌, String,
  ◌==◌, lookup, length, is_empty, arith, Bool-cases, inl, inr,
}
use slumlord.Prelude.Int.{ℤ, pos, suc_ℤ, to_int32, to_int32-suc}
use slumlord.Action.{Reply, value, error, not_found, no_match, failed, ok, ◌>>=◌, answer_cases}
use slumlord.Action.Yields.{Yields, Yields-continue, Yields-ok}
use slumlord.Change.{or_else}
use slumlord.Policy.{AutoScheduleProfile, build_sleep_schedule_spec, sleep_spec_equal}
use slumlord.Policy.Types.{
  AutoSchedulePolicy, Namespace, NamespaceConflict, MissingProfile, Child, managed_by_label,
  resolved_generated_name,
}
use slumlord.Policy.Client.{
  PolicyClient, PolicyRun, Tally, no_tally, with_conflict, with_missing, ask_or_return,
}
use slumlord.Policy.Match.{overlapping_policies}
use slumlord.Policy.Handler.{settle_child, settle_profile, settle_namespace, settle_namespaces}

-- How often a name is that of an item.
abbrev pub times : {A : Type 0} → (A → String) → String → List A → ℕ
times name a [] = 0
times name a (x ∷ xs) = let rest = times name a xs in if name x == a then suc rest else rest

times-snoc :
    {A : Type 0} (name : A → String) (a : String) (xs : List A) (x : A)
    → times name a (xs ++ x ∷ []) ≡ (if name x == a then suc (times name a xs) else times name a xs)
times-snoc name a [] x = refl
times-snoc name a (y ∷ xs) x = ground (arith, times-snoc name a xs x)

-- How often a name stands in the three lists together.
abbrev pub settled_times : String → Tally → ℕ
settled_times a t =
    times (λ x. x.namespace) a t.conflicts
    + times (λ x. x.namespace) a t.missing
    + times (λ x. x) a t.desired

-- Each name is accounted for as often as `n` says, and the number of generated schedules is that of
-- the namespaces noted as desired, in 32 bits.
pub record Accounts (n : String → ℕ) (t : Tally) : Type 0 where
  pub settled : (a : String) → settled_times a t ≡ n a
  pub generated : t.generated ≡ to_int32 (pos (length t.desired))

-- One more occurrence of a name.
abbrev one_more : String → (String → ℕ) → String → ℕ
one_more name n a = if name == a then suc (n a) else n a

Accounts-conflict :
    (n : String → ℕ) (x : NamespaceConflict) (t : Tally)
    → Accounts n t
    → Accounts (one_more x.namespace n) (with_conflict x t)
Accounts-conflict n x t a = record {
  settled = λ k. ground (arith, a.settled k, times-snoc (λ y. y.namespace) k t.conflicts x);
  generated = a.generated;
}

Accounts-missing :
    (n : String → ℕ) (x : MissingProfile) (t : Tally)
    → Accounts n t
    → Accounts (one_more x.namespace n) (with_missing x t)
Accounts-missing n x t a = record {
  settled = λ k. ground (arith, a.settled k, times-snoc (λ y. y.namespace) k t.missing x);
  generated = a.generated;
}

module _ (default : ℤ) (c : PolicyClient) where
  abbrev Counted : (String → ℕ) → Tally → PolicyRun c.World → Type 0
  Counted n t r = Accounts n t

  abbrev Any : PolicyRun c.World → Type 0
  Any r = Unit {0}

  Accounts-generated :
      (n : String → ℕ) (ns : String) (t : Tally)
      → Accounts n t
      → Accounts
          (one_more ns n)
          (record t { generated = to_int32 (suc_ℤ t.generated); desired = ns ∷ t.desired })
  Accounts-generated n ns t a = record {
    settled = λ k. ground (arith, a.settled k);
    generated = ap (λ g. to_int32 (suc_ℤ g)) a.generated ∙ to_int32-suc (length t.desired);
  }

  after_write :
      (write : c.World → Reply (Unit {0}) × c.World) (n : String → ℕ) (t : Tally)
      (r : PolicyRun c.World)
      → Accounts n t
      → Yields (Counted n) Any ((ask_or_return write >>= λ _ s. (ok t, s)) r)
  after_write write n t r a = elim (answer_cases (write r.world)) [
    | inl (u, w, e) ↦ rw e a
    | inr (x, w, e) ↦ rw e tt
  ]

  Counted-settle_child :
      (p : AutoSchedulePolicy) (profile : AutoScheduleProfile) (ns : Namespace) (n : String → ℕ)
      (t : Tally) (answer : Reply Child) (r : PolicyRun c.World)
      → Accounts n t
      → Yields (Counted (one_more ns.name n)) Any (settle_child default c p profile ns t answer r)
  unfolding settle_child
  Counted-settle_child p profile ns n t (value existing) r a =
      elim (Bool-cases (or_else (lookup managed_by_label existing.labels) "" == p.name)) [
        | inr manual ↦ rw manual (Accounts-conflict n _ t a)
        | inl owned ↦
            elim (Bool-cases (sleep_spec_equal existing.spec (build_sleep_schedule_spec profile))) [
              | inl same ↦ rw (owned, same) (Accounts-generated n ns.name t a)
              | inr differs ↦
                  rw (owned, differs)
                    (after_write
                      (c.update_child
                        (record existing { spec = build_sleep_schedule_spec profile }))
                      (one_more ns.name n) _ r (Accounts-generated n ns.name t a))
            ]
      ]
  Counted-settle_child p profile ns n t (error not_found) r a =
      after_write
        (c.create_child (record {
          namespace = ns.name;
          name = resolved_generated_name p;
          labels = (managed_by_label, p.name) ∷ [];
          spec = build_sleep_schedule_spec profile;
        }))
        (one_more ns.name n) _ r (Accounts-generated n ns.name t a)
  Counted-settle_child p profile ns n t (error no_match) r a = tt
  Counted-settle_child p profile ns n t (error failed) r a = tt

  Counted-settle_profile :
      (p : AutoSchedulePolicy) (ns : Namespace) (n : String → ℕ) (t : Tally)
      (o : Option AutoScheduleProfile) (r : PolicyRun c.World)
      → Accounts n t
      → Yields (Counted (one_more ns.name n)) Any (settle_profile default c p ns t o r)
  unfolding settle_profile
  Counted-settle_profile p ns n t none r a = Accounts-missing n _ t a
  Counted-settle_profile p ns n t (some profile) r a =
      let (answer, w) = c.get_child ns.name (resolved_generated_name p) r.world in
      Counted-settle_child p profile ns n t answer (record r { world = w }) a

  Counted-settle_namespace :
      (p : AutoSchedulePolicy) (others : List AutoSchedulePolicy) (ns : Namespace) (n : String → ℕ)
      (t : Tally) (r : PolicyRun c.World)
      → Accounts n t
      → Yields (Counted (one_more ns.name n)) Any (settle_namespace default c p others ns t r)
  unfolding settle_namespace
  Counted-settle_namespace p others ns n t r a =
      elim (Bool-cases (is_empty (overlapping_policies c others ns))) [
        | inl alone ↦ rw alone (Counted-settle_profile p ns n t _ r a)
        | inr overlap ↦ rw overlap (Accounts-conflict n _ t a)
      ]

  Counted-settle_namespaces :
      (p : AutoSchedulePolicy) (others : List AutoSchedulePolicy) (nss : List Namespace)
      (n : String → ℕ) (t : Tally) (r : PolicyRun c.World)
      → Accounts n t
      → Yields
          (Counted (λ a. n a + times (λ ns. ns.name) a nss))
          Any
          (settle_namespaces default c p others nss t r)
  unfolding settle_namespaces
  Counted-settle_namespaces p others [] n t r a = record {
    settled = λ k. omega (arith, a.settled k);
    generated = a.generated;
  }
  Counted-settle_namespaces p others (ns ∷ rest) n t r a =
      Yields-continue (Counted (one_more ns.name n))
        (Counted (λ k. n k + times (λ x. x.name) k (ns ∷ rest))) Any
        (settle_namespace default c p others ns t r) (settle_namespaces default c p others rest)
        (Counted-settle_namespace p others ns n t r a)
        (λ t' r' a'.
          subst (λ k. Yields (Counted k) Any (settle_namespaces default c p others rest t' r'))
            (fun_ext (λ k. ground arith))
            (Counted-settle_namespaces p others rest (one_more ns.name n) t' r' a'))

  -- However the API server answers, when the loop over the matched namespaces ends without an error,
  -- every name stands in three lists together, those of the conflicts, of the missing profiles and of
  -- the namespaces whose generated schedule is kept, exactly as often as it is the name of a matched
  -- namespace; so where these have different names, each of them is in exactly one of the lists, and
  -- nothing else is in any. The number of the last list, in 32 bits, is the count of generated
  -- schedules.
  pub settle_namespaces_partition :
      (p : AutoSchedulePolicy) (others : List AutoSchedulePolicy) (nss : List Namespace)
      (r r' : PolicyRun c.World) (t : Tally)
      → settle_namespaces default c p others nss no_tally r ≡ (ok t, r')
      → ((a : String)
          → times (λ x. x.namespace) a t.conflicts
              + times (λ x. x.namespace) a t.missing
              + times (λ x. x) a t.desired
            ≡ times (λ ns. ns.name) a nss)
        × (t.generated ≡ to_int32 (pos (length t.desired)))
  unfolding to_int32
  settle_namespaces_partition p others nss r r' t e =
      let counted =
        Yields-ok (Counted (λ a. 0 + times (λ ns. ns.name) a nss)) Any
          (settle_namespaces default c p others nss no_tally r) t r'
          (Counted-settle_namespaces p others nss (λ a. 0) no_tally r
            (record { settled = λ a. refl; generated = refl }))
          e in
      ((λ a. omega (arith, counted.settled a)), counted.generated)
