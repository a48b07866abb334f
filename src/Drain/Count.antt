-- ===== src/Drain/Count.antt =====
-- Counting the names at which a test holds, before and after a few of them were touched.
use slumlord.Prelude.{
  ℕ, ◌+◌, ◌≤◌, ◌≡◌, refl, inl, inr, Bool, true, false, ◌||◌, List, [], ◌∷◌, String, ◌==◌, eq_iff,
  contains, length, All, arith, Bool-cases, if◌then◌else◌,
}

pub count : (String → Bool) → List String → ℕ
count t [] = 0
count t (x ∷ xs) = let rest = count t xs in if t x then rest + 1 else rest

abbrev pub IsDistinct : List String → Type 0
IsDistinct [] = Unit {0}
IsDistinct (x ∷ xs) = (contains x xs ≡ false) × IsDistinct xs

pub count-≤-length : (t : String → Bool) (xs : List String) → count t xs ≤ length xs
unfolding count
count-≤-length t [] = omega arith
count-≤-length t (x ∷ xs) = ground (arith, count-≤-length t xs)

pub count-or :
    (t u : String → Bool) (xs : List String) → count (λ x. t x || u x) xs ≤ count t xs + count u xs
unfolding count
count-or t u [] = omega arith
count-or t u (x ∷ xs) = ground (arith, count-or t u xs)

pub count_mono :
    (t u : String → Bool) (xs : List String)
    → ((x : String) → t x ≡ true → u x ≡ true)
    → count t xs ≤ count u xs
unfolding count
count_mono t u [] h = omega arith
count_mono t u (x ∷ xs) h = ground (arith, count_mono t u xs h, h x)

count-absent : (a : String) (xs : List String) → contains a xs ≡ false → count (λ x. a == x) xs ≡ 0
unfolding count
count-absent a [] h = refl
count-absent a (x ∷ xs) h = ground (arith, count-absent a xs, eq_iff a x, eq_iff x a)

count-one : (a : String) (xs : List String) → IsDistinct xs → count (λ x. a == x) xs ≤ 1
unfolding count
count-one a [] d = omega arith
count-one a (x ∷ xs) d = elim (Bool-cases (a == x)) [
  | inl e ↦ ground (arith, count-absent x xs d.0, (eq_iff a x).0 e)
  | inr e ↦ ground (arith, count-one a xs d.1)
]

count-none : (xs : List String) → count (λ x. false) xs ≡ 0
unfolding count
count-none [] = refl
count-none (x ∷ xs) = count-none xs

-- At most as many of distinct names are in a list as it is long.
count-contains :
    (touched xs : List String) → IsDistinct xs → count (λ x. contains x touched) xs ≤ length touched
count-contains [] xs d = omega (arith, count-none xs)
count-contains (a ∷ touched) xs d = omega (
  arith,
  count-or (λ x. a == x) (λ x. contains x touched) xs,
  count-one a xs d,
  count-contains touched xs d,
)

-- Where only touched names lose the property, as many are lost as were touched at most.
pub count-touched :
    (before after : String → Bool) (touched xs : List String)
    → IsDistinct xs
    → ((x : String) → contains x touched ≡ false → after x ≡ before x)
    → count before xs ≤ count after xs + length touched
count-touched before after touched xs d h = omega (
  arith,
  count-contains touched xs d,
  count-or after (λ x. contains x touched) xs,
  count_mono before (λ x. after x || contains x touched) xs (λ x e. ground (arith, h x)),
)

pub count-All :
    (t : String → Bool) (xs : List String) → All (λ x. t x ≡ true) xs → count t xs ≡ length xs
unfolding count
count-All t [] h = refl
count-All t (x ∷ xs) h = rw h.0 (omega (arith, count-All t xs h.1))
