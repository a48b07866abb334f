-- ===== src/Action.antt =====
-- Effectful Go code: a function that reads and writes a state and ends in a value, in an `error`,
-- or in a run-time panic. What was written before an error stays written.
pub mod Post
pub mod Yields
pub mod Keeps
use slumlord.Prelude.{Bool, true, false, List, [], ◌∷◌, ◌≡◌, refl, ◌⊎◌, inl, inr}

-- An `error` as the code tells it apart: by `client.IgnoreNotFound` and `apimeta.IsNoMatchError`.
pub data Error : Type 0 where
  not_found no_match failed : Error

-- The pair `(value, err)` of a call to the API server.
pub data Reply (A : Type 0) : Type 0 where
  value : A → Reply A
  error : Error → Reply A

pub data Outcome (A : Type 0) : Type 0 where
  ok : A → Outcome A
  err : Error → Outcome A
  panic : Outcome A

abbrev pub M : Type 0 → Type 0 → Type 0
M S A = S → Outcome A × S

module _ {S : Type 0} where
  abbrev pub pure : {A : Type 0} → A → M S A
  pure a s = (ok a, s)

  abbrev pub raise : {A : Type 0} → Error → M S A
  raise e s = (err e, s)

  abbrev pub crash : {A : Type 0} → M S A
  crash s = (panic, s)

  abbrev pub continue_with : {A B : Type 0} → Outcome A × S → (A → M S B) → Outcome B × S
  continue_with (ok a, s) f = f a s
  continue_with (err e, s) f = (err e, s)
  continue_with (panic, s) f = (panic, s)

infixl 5 ◌>>=◌ ◌>>◌
abbrev pub ◌>>=◌ : {S A B : Type 0} → M S A → (A → M S B) → M S B
◌>>=◌ m f s = continue_with (m s) f

abbrev pub ◌>>◌ : {S A B : Type 0} → M S A → M S B → M S B
m >> k = m >>= λ _. k

module _ {S : Type 0} where
  abbrev pub gets : {A : Type 0} → (S → A) → M S A
  gets f s = (ok (f s), s)

  abbrev pub modify : (S → S) → M S (Unit {0})
  modify f s = (ok tt, f s)

  -- `if c { ... }`
  abbrev pub when : Bool → M S (Unit {0}) → M S (Unit {0})
  when true m = m
  when false m = pure tt

  -- `if err != nil { return err }`
  abbrev pub or_return : {A : Type 0} → Reply A → M S A
  or_return (value a) = pure a
  or_return (error e) = raise e

  -- `for _, x := range xs { ... }`
  unfoldable pub for_each : {A : Type 0} → (A → M S (Unit {0})) → List A → M S (Unit {0})
  for_each body [] = pure tt
  for_each body (x ∷ xs) = body x >> for_each body xs

-- The two ways in which a call can have ended.
pub answer_cases :
    {A W : Type 0} (x : Reply A × W)
    → ((a : A) × (w : W) × (x ≡ (value a, w))) ⊎ ((e : Error) × (w : W) × (x ≡ (error e, w)))
answer_cases (value a, w) = inl (a, w, refl)
answer_cases (error e, w) = inr (e, w, refl)
