-- ===== src/Change/NodeSets.antt =====
-- Elasticsearch: the counts captured before scaling down restore every node set.
use slumlord.Prelude.{
  ◌≡◌, refl, ◌∙◌, ap, Bool, false, ◌||◌, Option, none, some, List, [], ◌∷◌, String, ◌==◌, eq_iff,
  eq_refl, lookup, insert, if◌then◌else◌, arith,
}
use slumlord.Prelude.Int.{ℤ, pos, eqb_ℤ, IsInt32, to_int32-eq_of_IsInt32}
use slumlord.Api.Json.{
  int64, object, Items, nil, item, Fields, set_field, as_object, get_field-set_field,
}
use slumlord.Change.{
  node_set_name, node_set_count, capture_counts, zero_counts, restore_node_set, restore_counts,
  any_zero_count,
}

-- Name and count of each node set, `none` for an entry that is no map.
abbrev pub node_sets_of : Items → List (Option (String × ℤ))
node_sets_of nil = []
node_sets_of (item v rest) =
    elim (as_object v) [ none ↦ none | some m ↦ some (node_set_name m, node_set_count m) ]
    ∷ node_sets_of rest

abbrev pub has_name : String → Items → Bool
has_name k nil = false
has_name k (item v rest) = elim (as_object v) [
  | none ↦ has_name k rest
  | some m ↦ node_set_name m == k || has_name k rest
]

-- The names are distinct, and every count is one that an `int32` holds.
abbrev pub IsValid : Items → Type 0
IsValid nil = Unit
IsValid (item v rest) =
    elim (as_object v) as (λ _. Type 0) [
      | none ↦ Unit
      | some m ↦ (has_name (node_set_name m) rest ≡ false) × IsInt32 (node_set_count m)
    ]
    × IsValid rest

-- The captured map holds the count of every node set.
abbrev Agrees : List (String × ℤ) → Items → Type 0
Agrees counts nil = Unit
Agrees counts (item v rest) =
    elim (as_object v) as (λ _. Type 0) [
      | none ↦ Unit
      | some m ↦ lookup (node_set_name m) counts ≡ some (node_set_count m)
    ]
    × Agrees counts rest

lookup-insert :
    (k j : String) (v : ℤ) (m : List (String × ℤ))
    → lookup j (insert k v m) ≡ (if k == j then some v else lookup j m)
lookup-insert k j v [] = refl
lookup-insert k j v ((i, w) ∷ m) =
    ground (arith, eq_iff k j, eq_iff i k, eq_iff i j, lookup-insert k j v m)

node_set-set_count :
    (n : ℤ) (m : Fields)
    → IsInt32 n
    → (node_set_name (set_field "count" (int64 n) m) ≡ node_set_name m)
      × (node_set_count (set_field "count" (int64 n) m) ≡ n)
unfolding node_set_name node_set_count
node_set-set_count n m h = (
  rw (get_field-set_field "count" "name" (int64 n) m),
  rw (get_field-set_field "count" "count" (int64 n) m) (to_int32-eq_of_IsInt32 n h),
)

lookup-capture_counts :
    (k : String) (counts : List (String × ℤ)) (sets : Items)
    → has_name k sets ≡ false
    → lookup k (capture_counts counts sets) ≡ lookup k counts
unfolding capture_counts
lookup-capture_counts k counts nil h = refl
lookup-capture_counts k counts (item (object m) rest) h = ground (
  arith,
  lookup-capture_counts k (insert (node_set_name m) (node_set_count m) counts) rest,
  lookup-insert (node_set_name m) k (node_set_count m) counts,
)
lookup-capture_counts k counts (item _ rest) h = lookup-capture_counts k counts rest h

Agrees-capture_counts :
    (counts : List (String × ℤ)) (sets : Items)
    → IsValid sets
    → Agrees (capture_counts counts sets) sets
unfolding capture_counts
Agrees-capture_counts counts nil h = tt
Agrees-capture_counts counts (item (object m) rest) h =
    let counts' = insert (node_set_name m) (node_set_count m) counts in
    (
      ground (
        arith,
        eq_refl (node_set_name m),
        lookup-capture_counts (node_set_name m) counts' rest h.0.0,
        lookup-insert (node_set_name m) (node_set_name m) (node_set_count m) counts,
      ),
      Agrees-capture_counts counts' rest h.1,
    )
Agrees-capture_counts counts (item _ rest) h = (tt, Agrees-capture_counts counts rest h.1)

-- One node set that was scaled down and restored.
abbrev zeroed : Fields → Fields
zeroed m = set_field "count" (int64 (pos 0)) m

restore_zeroed :
    (counts : List (String × ℤ)) (m : Fields)
    → lookup (node_set_name m) counts ≡ some (node_set_count m)
    → restore_node_set counts (object (zeroed m))
      ≡ object (set_field "count" (int64 (node_set_count m)) (zeroed m))
unfolding restore_node_set
restore_zeroed counts m e =
    let same_name = (node_set-set_count (pos 0) m (omega arith)).0 in ground (arith, same_name, e)

restored_node_set :
    (m : Fields)
    → IsInt32 (node_set_count m)
    → let m' = set_field "count" (int64 (node_set_count m)) (zeroed m) in
      (node_set_name m' ≡ node_set_name m) × (node_set_count m' ≡ node_set_count m)
restored_node_set m h =
    let (name', count') = node_set-set_count (node_set_count m) (zeroed m) h in
    (name' ∙ (node_set-set_count (pos 0) m (omega arith)).0, count')

node_sets_of-restore_counts :
    (counts : List (String × ℤ)) (sets : Items)
    → IsValid sets
    → Agrees counts sets
    → node_sets_of (restore_counts counts (zero_counts sets)) ≡ node_sets_of sets
unfolding restore_counts zero_counts
node_sets_of-restore_counts counts nil h a = refl
node_sets_of-restore_counts counts (item (object m) rest) h a =
    let (same_name, same_count) = restored_node_set m h.0.1 in
    rw (restore_zeroed counts m a.0)
      (cc (same_name, same_count, node_sets_of-restore_counts counts rest h.1 a.1))
node_sets_of-restore_counts counts (item _ rest) h a =
    ap (◌∷◌ none) (node_sets_of-restore_counts counts rest h.1 a.1)

-- For node sets with distinct names, whose counts fit an `int32`, the captured counts restore the
-- name and the count of every node set of the scaled down list, in its place.
pub restore_captured_counts :
    (sets : Items)
    → IsValid sets
    → node_sets_of (restore_counts (capture_counts [] sets) (zero_counts sets)) ≡ node_sets_of sets
restore_captured_counts sets h =
    node_sets_of-restore_counts (capture_counts [] sets) sets h (Agrees-capture_counts [] sets h)

-- Had some node set no nodes before it was put to sleep?
abbrev pub had_zero_count : Items → Bool
had_zero_count nil = false
had_zero_count (item v rest) = elim (as_object v) [
  | none ↦ had_zero_count rest
  | some m ↦ eqb_ℤ (node_set_count m) (pos 0) || had_zero_count rest
]

any_zero_count-restored :
    (counts : List (String × ℤ)) (sets : Items)
    → IsValid sets
    → Agrees counts sets
    → any_zero_count (restore_counts counts (zero_counts sets)) ≡ had_zero_count sets
unfolding restore_counts zero_counts any_zero_count
any_zero_count-restored counts nil h a = refl
any_zero_count-restored counts (item (object m) rest) h a =
    let n = node_set_count m in
    rw (restore_zeroed counts m a.0) (
      rw (
        get_field-set_field "count" "count" (int64 n) (zeroed m),
        any_zero_count-restored counts rest h.1 a.1,
      ))
any_zero_count-restored counts (item _ rest) h a = any_zero_count-restored counts rest h.1 a.1

-- After a wake that restored every node set, an Elasticsearch is still found desynced exactly if
-- one of its node sets had no nodes before it was put to sleep.
pub any_zero_count-restore_counts :
    (sets : Items)
    → IsValid sets
    → any_zero_count (restore_counts (capture_counts [] sets) (zero_counts sets))
      ≡ had_zero_count sets
any_zero_count-restore_counts sets h =
    any_zero_count-restored (capture_counts [] sets) sets h (Agrees-capture_counts [] sets h)
