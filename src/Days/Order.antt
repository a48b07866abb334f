-- ===== src/Days/Order.antt =====
-- The summary does not depend on the order in which the days come, so not on the random order in
-- which Go ranges over the map of days seen.
use mathlib.Core.List.{Permᴰ}
use mathlib.Core.Path.{ap₂}
use slumlord.Prelude.{◌≡◌, refl, ◌∙◌, List, [], ◌∷◌, ap, arith}
use slumlord.Prelude.Int.{ℤ}
use slumlord.Days.{insert_sorted, sort_ints, display_sorted, days_to_display}

insert_sorted_comm :
    (a b : ℤ) (xs : List ℤ)
    → insert_sorted a (insert_sorted b xs) ≡ insert_sorted b (insert_sorted a xs)
unfolding insert_sorted
insert_sorted_comm a b [] = ground arith
insert_sorted_comm a b (x ∷ xs) = ground (arith, insert_sorted_comm a b xs)

sort_ints-perm : {xs ys : List ℤ} → Permᴰ xs ys → sort_ints xs ≡ sort_ints ys
unfolding sort_ints
sort_ints-perm Permᴰ.nil = refl
sort_ints-perm (Permᴰ.cons e p) = ap₂ insert_sorted e (sort_ints-perm p)
sort_ints-perm (Permᴰ.swap {a = a} {b = b} {l = l} e f) =
    insert_sorted_comm a b (sort_ints l)
    ∙ ap₂ (λ x y. insert_sorted x (insert_sorted y (sort_ints l))) f e
sort_ints-perm (Permᴰ.trans p q) = sort_ints-perm p ∙ sort_ints-perm q

-- Any two orders of the same days are displayed alike, a panic included.
pub days_to_display-perm :
    (days days' : List ℤ) → Permᴰ days days' → days_to_display days ≡ days_to_display days'
unfolding days_to_display
days_to_display-perm days days' p = ap display_sorted (sort_ints-perm p)
