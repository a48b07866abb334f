-- ===== src/Action/Post.antt =====
-- Invariants of effectful code: what holds after a call that ends well, and what holds after one
-- that ends in an error or a panic.
use mathlib.Core.Path.{subst}
use slumlord.Prelude.{◌≡◌, Bool, true, false, List, [], ◌∷◌}
use slumlord.Action.{
  Reply, value, error, Outcome, ok, err, panic, M, continue_with, ◌>>=◌, ◌>>◌, gets, when,
  or_return, for_each,
}

module _ {S : Type 0} (I E : S → Type 0) where
  abbrev pub Post : {A : Type 0} → Outcome A × S → Type 0
  Post (ok a, s) = I s
  Post (err e, s) = E s
  Post (panic, s) = E s

  abbrev pub Keeps : {A : Type 0} → M S A → Type 0
  Keeps m = (s : S) → I s → Post (m s)

  pub Post-bind :
      {A B : Type 0} (o : Outcome A) (s : S) (f : A → M S B)
      → Post (o, s)
      → ((a : A) → Keeps (f a))
      → Post (continue_with (o, s) f)
  Post-bind (ok a) s f h k = k a s h
  Post-bind (err e) s f h k = h
  Post-bind panic s f h k = h

  pub Keeps-bind :
      {A B : Type 0} (m : M S A) (f : A → M S B)
      → Keeps m
      → ((a : A) → Keeps (f a))
      → Keeps (m >>= f)
  Keeps-bind m f h k s i = Post-bind (m s).0 (m s).1 f (h s i) k

  pub Keeps-then : {A B : Type 0} (m : M S A) (n : M S B) → Keeps m → Keeps n → Keeps (m >> n)
  Keeps-then m n h k = Keeps-bind m (λ _. n) h (λ _. k)

  pub Keeps-when : (b : Bool) (m : M S (Unit {0})) → Keeps m → Keeps (when b m)
  Keeps-when true m h s i = h s i
  Keeps-when false m h s i = i

  pub Keeps-for_each :
      {A : Type 0} (body : A → M S (Unit {0})) (xs : List A)
      → ((x : A) → Keeps (body x))
      → Keeps (for_each body xs)
  unfolding for_each
  Keeps-for_each body [] h s i = i
  Keeps-for_each body (x ∷ xs) h s i =
      Keeps-then (body x) (for_each body xs) (h x) (Keeps-for_each body xs h) s i

  pub Keeps-or_return : ((s : S) → I s → E s) → {A : Type 0} (r : Reply A) → Keeps (or_return r)
  Keeps-or_return weaken (value a) s i = i
  Keeps-or_return weaken (error e) s i = weaken s i

  pub Keeps-gets : {A : Type 0} (f : S → A) → Keeps (gets f)
  Keeps-gets f s i = i

-- Where the same holds after every ending, it holds of the state.
pub Post_same : {S A : Type 0} (I : S → Type 0) (p : Outcome A × S) → Post I I p → I p.1
Post_same I (ok a, s) i = i
Post_same I (err e, s) i = i
Post_same I (panic, s) i = i

-- What holds of the state however a call ends holds in particular after a good end.
pub Post-of_state :
    {S A : Type 0} (I : S → Type 0) (p : Outcome A × S) → I p.1 → Post I (λ _. Unit {0}) p
Post-of_state I (ok a, s) i = i
Post-of_state I (err e, s) i = tt
Post-of_state I (panic, s) i = tt

-- Reading a postcondition off a call that ended well.
pub Post-ok :
    {S A : Type 0} (I E : S → Type 0) (p : Outcome A × S) (a : A) (s : S)
    → Post I E p
    → p ≡ (ok a, s)
    → I s
Post-ok I E p a s h e = subst (Post I E) e h

-- A step from one condition to another.
pub Post-continue :
    {S A B : Type 0} (I J E : S → Type 0) (p : Outcome A × S) (f : A → M S B)
    → Post I E p
    → ((a : A) (s : S) → I s → Post J E (f a s))
    → Post J E (continue_with p f)
Post-continue I J E (ok a, s) f h k = k a s h
Post-continue I J E (err e, s) f h k = h
Post-continue I J E (panic, s) f h k = h
