-- ===== src/Sleep/Keys.antt =====
-- The entries of managed workloads and their keys: what one more entry does to them.
use slumlord.Prelude.{
  ◌≡◌, refl, sym, ◌∙◌, ap, true, false, ◌||◌, List, [], ◌∷◌, ◌++◌, map, String, ◌==◌, eq_iff,
  eq_refl, contains, arith, All,
}
use mathlib.Core.List.{append_assoc}
use mathlib.Core.Path.{subst}
use slumlord.Api.Schedule.{ManagedWorkload, SleepSchedule}
use slumlord.Cluster.{RestatesStatus}
use slumlord.Sleep.{append_managed, key_of}

-- No key occurs twice.
abbrev pub Distinct : List String → Type 0
Distinct [] = Unit
Distinct (k ∷ ks) = (contains k ks ≡ false) × Distinct ks

-- Every key of `ks` is marked in `marked`.
abbrev pub Marked : List String → List String → Type 0
Marked marked = All (λ k. contains k marked ≡ true)

contains-snoc :
    (k j : String) (ks : List String) → contains k (ks ++ j ∷ []) ≡ (contains k ks || j == k)
contains-snoc k j [] = ground arith
contains-snoc k j (x ∷ ks) = ground (arith, contains-snoc k j ks)

Distinct-snoc :
    (k : String) (ks : List String) → Distinct ks → contains k ks ≡ false → Distinct (ks ++ k ∷ [])
Distinct-snoc k [] d h = (refl, tt)
Distinct-snoc k (x ∷ ks) d h = (
  ground (arith, contains-snoc x k ks, eq_iff x k, eq_iff k x),
  Distinct-snoc k ks d.1 (ground arith),
)

pub Marked-fresh :
    (marked : List String) (k : String) (ks : List String)
    → Marked marked ks
    → contains k marked ≡ false
    → contains k ks ≡ false
Marked-fresh marked k [] m h = refl
Marked-fresh marked k (x ∷ ks) m h = ground (arith, eq_iff x k, Marked-fresh marked k ks m.1 h, m.0)

pub Marked-snoc :
    (marked : List String) (k : String) (ks : List String)
    → Marked marked ks
    → Marked (k ∷ marked) (ks ++ k ∷ [])
Marked-snoc marked k [] m = (ground (arith, eq_refl k), tt)
Marked-snoc marked k (x ∷ ks) m = (ground arith, Marked-snoc marked k ks m.1)

-- The entries of `base`, in their order, followed by new ones; no key twice; and the rest of the
-- schedule that later decisions read is untouched.
pub record IsJournal (base s : SleepSchedule) : Type 0 where
  pub later : List ManagedWorkload
  pub entries : s.status.managed_workloads ≡ base.status.managed_workloads ++ later
  pub distinct : Distinct (map key_of s.status.managed_workloads)
  pub spec : s.spec ≡ base.spec
  pub sleeping : s.status.sleeping ≡ base.status.sleeping

abbrev pub keys : SleepSchedule → List String
keys s = map key_of s.status.managed_workloads

pub IsJournal-restated :
    (base s s' : SleepSchedule) → RestatesStatus s s' → IsJournal base s → IsJournal base s'
IsJournal-restated base s s' same j = record {
  later = j.later;
  entries = same.managed_workloads ∙ j.entries;
  distinct = subst (λ l. Distinct (map key_of l)) (sym same.managed_workloads) j.distinct;
  spec = same.spec ∙ j.spec;
  sleeping = same.sleeping ∙ j.sleeping;
}

pub map-snoc :
    (mw : ManagedWorkload) (l : List ManagedWorkload)
    → map key_of (l ++ mw ∷ []) ≡ map key_of l ++ key_of mw ∷ []
map-snoc mw [] = refl
map-snoc mw (x ∷ l) = ap (◌∷◌ (key_of x)) (map-snoc mw l)

pub IsJournal-append :
    (base s : SleepSchedule) (mw : ManagedWorkload)
    → contains (key_of mw) (keys s) ≡ false
    → IsJournal base s
    → IsJournal base (append_managed mw s)
unfolding append_managed
IsJournal-append base s mw fresh j = record {
  later = j.later ++ mw ∷ [];
  entries =
      ap (λ l. l ++ mw ∷ []) j.entries
      ∙ append_assoc base.status.managed_workloads j.later (mw ∷ []);
  distinct =
      rw map-snoc
        (Distinct-snoc (key_of mw) (map key_of s.status.managed_workloads) j.distinct fresh);
  spec = j.spec;
  sleeping = j.sleeping;
}

Marked-cons : (k : String) (marked ks : List String) → Marked marked ks → Marked (k ∷ marked) ks
Marked-cons k marked [] m = tt
Marked-cons k marked (x ∷ ks) m = (ground arith, Marked-cons k marked ks m.1)

pub Marked-self : (ks : List String) → Marked ks ks
Marked-self [] = tt
Marked-self (k ∷ ks) = (ground (arith, eq_refl k), Marked-cons k ks ks (Marked-self ks))
