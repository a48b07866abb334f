-- ===== src/Action/Yields.antt =====
-- Postconditions that speak of the value and the state of a good end, and of the state of a bad one.
use mathlib.Core.Path.{subst}
use slumlord.Prelude.{◌≡◌}
use slumlord.Action.{Outcome, ok, err, panic, M, continue_with}

module _ {S : Type 0} where
  abbrev pub Yields : {A : Type 0} → (A → S → Type 0) → (S → Type 0) → Outcome A × S → Type 0
  Yields Q E (ok a, s) = Q a s
  Yields Q E (err e, s) = E s
  Yields Q E (panic, s) = E s

  -- The rule for a bind.
  pub Yields-continue :
      {A B : Type 0} (Q : A → S → Type 0) (R : B → S → Type 0) (E : S → Type 0) (p : Outcome A × S)
      (f : A → M S B)
      → Yields Q E p
      → ((a : A) (s : S) → Q a s → Yields R E (f a s))
      → Yields R E (continue_with p f)
  Yields-continue Q R E (ok a, s) f h k = k a s h
  Yields-continue Q R E (err e, s) f h k = h
  Yields-continue Q R E (panic, s) f h k = h

  pub Yields-weaken :
      {A : Type 0} (Q R : A → S → Type 0) (E : S → Type 0) (p : Outcome A × S)
      → Yields Q E p
      → ((a : A) (s : S) → Q a s → R a s)
      → Yields R E p
  Yields-weaken Q R E (ok a, s) h k = k a s h
  Yields-weaken Q R E (err e, s) h k = h
  Yields-weaken Q R E (panic, s) h k = h

  -- Reading it off a call that ended well.
  pub Yields-ok :
      {A : Type 0} (Q : A → S → Type 0) (E : S → Type 0) (p : Outcome A × S) (a : A) (s : S)
      → Yields Q E p
      → p ≡ (ok a, s)
      → Q a s
  Yields-ok Q E p a s h e = subst (Yields Q E) e h
