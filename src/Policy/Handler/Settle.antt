-- ===== src/Policy/Handler/Settle.antt =====
-- What the loop over the matched namespaces leaves in the store.
use mathlib.Core.Path.{subst}
use slumlord.Prelude.{
  ◌≡◌, refl, sym, ◌∙◌, ap, ◌⊎◌, inl, inr, Bool, true, false, ◌&&◌, Option, none, some, List, ◌∷◌,
  String, ◌==◌, eq_iff, lookup, length, [], All, contains, is_empty, arith, Bool-cases,
  if◌then◌else◌,
}
use slumlord.Prelude.Int.{ℤ}
use slumlord.Action.{Reply, value, ok, ◌>>=◌, answer_cases}
use slumlord.Action.Yields.{Yields}
use slumlord.Change.{or_else}
use slumlord.Api.Schedule.{SleepScheduleSpec}
use slumlord.Policy.{
  AutoScheduleProfile, labels_within, build_sleep_schedule_spec, sleep_spec_equal,
}
use slumlord.Policy.Synced.{sleep_spec_equal_iff}
use slumlord.Policy.Types.{
  AutoSchedulePolicy, Namespace, Child, managed_by_label, resolved_profile_label,
  resolved_generated_name,
}
use slumlord.Policy.Client.{PolicyClient, PolicyRun, Tally, with_generated, ask_or_return}
use slumlord.Policy.Match.{overlapping_policies}
use slumlord.Policy.Handler.Store.{Children, Store, is_at}

-- As many labels, and each label of `a` reads the same in `b`, where a missing one reads as empty.
abbrev pub ReadsAs : List (String × String) → List (String × String) → Type 0
ReadsAs a b = (length a ≡ length b) × All (λ kv. or_else (lookup kv.0 b) "" ≡ kv.1) a

labels_within-All :
    (a b : List (String × String))
    → labels_within a b ≡ true
    → All (λ kv. or_else (lookup kv.0 b) "" ≡ kv.1) a
unfolding labels_within
labels_within-All [] b h = tt
labels_within-All ((k, v) ∷ a) b h =
    ((eq_iff (or_else (lookup k b) "") v).0 (ground arith), labels_within-All a b (ground arith))

-- The spec has the profile's fields; its labels are the profile's, or read as these do.
pub record AgreesWith (spec : SleepScheduleSpec) (profile : AutoScheduleProfile) : Type 0 where
  pub suspend : spec.suspend ≡ profile.suspend
  pub types : spec.selector.types ≡ profile.selector.types
  pub match_names : spec.selector.match_names ≡ profile.selector.match_names
  pub match_labels :
      (spec.selector.match_labels ≡ profile.selector.match_labels)
      ⊎ ReadsAs spec.selector.match_labels profile.selector.match_labels
  pub schedules : spec.schedules ≡ profile.schedules

pub AgreesWith-build :
    (profile : AutoScheduleProfile) → AgreesWith (build_sleep_schedule_spec profile) profile
unfolding build_sleep_schedule_spec
AgreesWith-build profile = record {
  suspend = refl;
  types = refl;
  match_names = refl;
  match_labels = inl refl;
  schedules = refl;
}

pub AgreesWith-equal :
    (spec : SleepScheduleSpec) (profile : AutoScheduleProfile)
    → sleep_spec_equal spec (build_sleep_schedule_spec profile) ≡ true
    → AgreesWith spec profile
unfolding build_sleep_schedule_spec
AgreesWith-equal spec profile e =
    let (suspend, types, names, labels, schedules) =
      (sleep_spec_equal_iff spec (build_sleep_schedule_spec profile)).0 e in
    record {
      suspend = suspend;
      types = types;
      match_names = names;
      match_labels = inr (
        ground arith,
        labels_within-All spec.selector.match_labels profile.selector.match_labels (ground arith),
      );
      schedules = schedules;
    }

abbrev pub profile_name : AutoSchedulePolicy → Namespace → String
profile_name p ns = or_else (lookup (resolved_profile_label p) ns.labels) ""

abbrev pub is_marked : String → Child → Bool
is_marked name x = or_else (lookup managed_by_label x.labels) "" == name

module _ (default : ℤ) (c : PolicyClient) (p : AutoSchedulePolicy)
    (others : List AutoSchedulePolicy) (Takes : Namespace → Type 0) where
  abbrev pub IsAlone : Namespace → Type 0
  IsAlone ns = is_empty (overlapping_policies c others ns) ≡ true

  -- In the namespace `a` stands the policy's child: `Takes` holds of the namespace, no other policy
  -- takes it, and the child has the policy's label and the fields of the namespace's profile.
  pub record IsSettled (a : String) (o : Option Child) : Type 0 where
    pub ns : Namespace
    pub profile : AutoScheduleProfile
    pub child : Child
    pub named : ns.name ≡ a
    pub taken : Takes ns
    pub alone : IsAlone ns
    pub chosen : lookup (profile_name p ns) p.spec.profiles ≡ some profile
    pub present : o ≡ some child
    pub marked : is_marked p.name child ≡ true
    pub agrees : AgreesWith child.spec profile

  -- The state of the store in the loop, against the children `v0` before it.
  pub record Kept (v0 v : Children) (desired : List String) : Type 0 where
    pub settled :
        (a : String) → contains a desired ≡ true → IsSettled a (v a (resolved_generated_name p))
    pub rest :
        (a b : String)
        → (contains a desired && resolved_generated_name p == b) ≡ false
        → v a b ≡ v0 a b

  -- Why a namespace was passed over, if it was.
  abbrev pub IsAccounted : Children → List String → Namespace → Type 0
  IsAccounted v0 desired ns =
      (contains ns.name desired ≡ true)
      ⊎ ((is_empty (overlapping_policies c others ns) ≡ false)
          ⊎ ((lookup (profile_name p ns) p.spec.profiles ≡ none)
              ⊎ ((x : Child) × (v0 ns.name (resolved_generated_name p) ≡ some x)
                  × (is_marked p.name x ≡ false))))

  -- One more settled namespace, where the store changed at its child alone.
  Kept-step :
      (v0 v v' : Children) (desired : List String) (ns : String) (x : Child)
      → Kept v0 v desired
      → x.namespace ≡ ns
      → x.name ≡ resolved_generated_name p
      → ((a b : String) → v' a b ≡ (if is_at a b x then some x else v a b))
      → IsSettled ns (some x)
      → Kept v0 v' (ns ∷ desired)
  Kept-step v0 v v' desired ns x kept at named wrote done = record {
    settled = λ a h. elim (Bool-cases (ns == a)) [
      | inl here ↦
          subst (IsSettled a)
            (sym (
              ground (
                arith,
                wrote a (resolved_generated_name p),
                eq_iff ns a,
                eq_iff (resolved_generated_name p) (resolved_generated_name p),
              )))
            (subst (λ k. IsSettled k (some x)) ((eq_iff ns a).0 here) done)
      | inr there ↦
          subst (IsSettled a) (sym (ground (arith, wrote a (resolved_generated_name p))))
            (kept.settled a (ground arith))
    ];
    rest = λ a b h. wrote a b ∙ ground (arith, kept.rest a b);
  }

  -- The child was found as it should be.
  pub Kept-found :
      (v0 v v' : Children) (desired : List String) (ns : String) (x : Child)
      → Kept v0 v desired
      → v' ≡ v
      → v ns (resolved_generated_name p) ≡ some x
      → IsSettled ns (some x)
      → Kept v0 v' (ns ∷ desired)
  Kept-found v0 v v' desired ns x kept same here done = record {
    settled = λ a h. elim (Bool-cases (ns == a)) [
      | inl at ↦
          subst (λ k. IsSettled k (v' k (resolved_generated_name p))) ((eq_iff ns a).0 at)
            (subst (IsSettled ns) (sym (ap (λ f. f ns (resolved_generated_name p)) same ∙ here))
              done)
      | inr there ↦
          subst (IsSettled a) (sym (ap (λ f. f a (resolved_generated_name p)) same))
            (kept.settled a (ground arith))
    ];
    rest = λ a b h. ap (λ f. f a b) same ∙ kept.rest a b (ground arith);
  }

  pub Kept-same :
      (v0 v v' : Children) (desired : List String) → v' ≡ v → Kept v0 v desired → Kept v0 v' desired
  Kept-same v0 v v' desired same kept = subst (λ f. Kept v0 f desired) (sym same) kept

  abbrev pub Grows : List String → List String → Type 0
  Grows before after = (a : String) → contains a before ≡ true → contains a after ≡ true

  pub IsAccounted-Grows :
      (v0 : Children) (before after : List String) (ns : Namespace)
      → Grows before after
      → IsAccounted v0 before ns
      → IsAccounted v0 after ns
  IsAccounted-Grows v0 before after ns grows (inl h) = inl (grows ns.name h)
  IsAccounted-Grows v0 before after ns grows (inr h) = inr h

  module _ (s : Store c) (v0 : Children) where
    abbrev pub Seen : Tally → PolicyRun c.World → Type 0
    Seen t r = Kept v0 (s.view r.world) t.desired

    abbrev pub Any : PolicyRun c.World → Type 0
    Any r = Unit {0}

    -- What one namespace yields.
    abbrev pub After : Tally → Namespace → Tally → PolicyRun c.World → Type 0
    After t ns t' r' = Seen t' r' × IsAccounted v0 t'.desired ns × Grows t.desired t'.desired

    pub Grows-cons : (ns : String) (desired : List String) → Grows desired (ns ∷ desired)
    Grows-cons ns desired a h = ground arith

    pub contains-cons_self :
        (ns : String) (desired : List String) → contains ns (ns ∷ desired) ≡ true
    contains-cons_self ns desired = ground (arith, eq_iff ns ns)

    pub settle_write :
        (write : c.World → Reply (Unit {0}) × c.World) (x : Child) (ns : Namespace) (t : Tally)
        (r : PolicyRun c.World)
        → ((w' : c.World) (a b : String)
            → write r.world ≡ (value tt, w')
            → s.view w' a b ≡ (if is_at a b x then some x else s.view r.world a b))
        → Seen t r
        → x.namespace ≡ ns.name
        → x.name ≡ resolved_generated_name p
        → IsSettled ns.name (some x)
        → Yields
            (After t ns)
            Any
            ((ask_or_return write >>= λ _ q. (ok (with_generated ns.name t), q)) r)
    settle_write write x ns t r wrote kept at named done = elim (answer_cases (write r.world)) [
      | inl (tt, w', e) ↦ rw e (
        Kept-step v0 (s.view r.world) (s.view w') t.desired ns.name x kept at named
            (λ a b. wrote w' a b e) done,
        inl (contains-cons_self ns.name t.desired),
        Grows-cons ns.name t.desired,
      )
      | inr (x', w', e) ↦ rw e tt
    ]
