-- ===== src/Prelude/Every.antt =====
-- A predicate that holds of every item of a list.
use mathlib.Core.List.{Memᴰ}
use mathlib.Core.List.Memᴰ.{head, tail}
use mathlib.Core.Path.{refl, sym, subst}
use mathlib.Core.Bool.{Bool, true, false}
use mathlib.Core.List.{List, [], ◌∷◌, ◌++◌}
use slumlord.Prelude.Lists.{All}
use slumlord.Prelude.Tests.{if◌then◌else◌}

pub All-either :
    {A : Type 0} (P : A → Type 0) (b : Bool) (xs ys : List A)
    → All P xs
    → All P ys
    → All P (if b then xs else ys)
All-either P true xs ys h k = h
All-either P false xs ys h k = k

pub All-of_Mem :
    {A : Type 0} (P : A → Type 0) (xs : List A) → ((x : A) → Memᴰ x xs → P x) → All P xs
All-of_Mem P [] h = tt
All-of_Mem P (x ∷ xs) h = (h x (head refl), All-of_Mem P xs (λ y m. h y (tail m)))

pub Mem-All : {A : Type 0} (P : A → Type 0) (xs : List A) (x : A) → All P xs → Memᴰ x xs → P x
Mem-All P [] x h m = elim m [ ]
Mem-All P (y ∷ ys) x h (head e) = subst P (sym e) h.0
Mem-All P (y ∷ ys) x h (tail m) = Mem-All P ys x h.1 m

pub All-append_one :
    {A : Type 0} (P : A → Type 0) (xs : List A) (y : A) → All P xs → P y → All P (xs ++ y ∷ [])
All-append_one P [] y h k = (k, tt)
All-append_one P (x ∷ xs) y h k = (h.0, All-append_one P xs y h.1 k)

pub All-imp :
    {A : Type 0} {P R : A → Type 0} (xs : List A) → ((x : A) → P x → R x) → All P xs → All R xs
All-imp [] f h = tt
All-imp (x ∷ xs) f h = (f x h.0, All-imp xs f h.1)
