-- ===== src/Action/Keeps.antt =====
-- Actions that leave a reading of the state as it was, however they end.
use slumlord.Prelude.{◌≡◌, refl, ◌∙◌, Bool, true, false, if◌then◌else◌}
use slumlord.Action.{
  Reply, value, error, Outcome, ok, err, panic, M, continue_with, or_return, ◌>>=◌,
}

module _ {S X : Type 0} (g : S → X) where
  abbrev pub Keeps : {A : Type 0} → M S A → Type 0
  Keeps f = (s : S) → g (f s).1 ≡ g s

  pub Keeps-continue :
      {A B : Type 0} (x : X) (p : Outcome A × S) (f : A → M S B)
      → g p.1 ≡ x
      → ((a : A) → Keeps (f a))
      → g (continue_with p f).1 ≡ x
  Keeps-continue x (ok a, s) f h k = k a s ∙ h
  Keeps-continue x (err e, s) f h k = h
  Keeps-continue x (panic, s) f h k = h

  pub Keeps-bind :
      {A B : Type 0} (m : M S A) (f : A → M S B)
      → Keeps m
      → ((a : A) → Keeps (f a))
      → Keeps (m >>= f)
  Keeps-bind m f h k s = Keeps-continue (g s) (m s) f (h s) k

  pub Keeps-or_return : {A : Type 0} (a : Reply A) → Keeps (or_return a)
  Keeps-or_return (value a) s = refl
  Keeps-or_return (error e) s = refl

  pub Keeps-if :
      {A : Type 0} (b : Bool) (m k : M S A) → Keeps m → Keeps k → Keeps (if b then m else k)
  Keeps-if true m k h i = h
  Keeps-if false m k h i = i
