-- ===== src/Api/Json.antt =====
-- Unstructured objects, `map[string]interface{}`: what the type assertions of
-- internal/controller/sleepschedule_controller.go tell apart, and the map operations on them.
use slumlord.Prelude.{
  ◌≡◌, refl, Bool, Option, none, some, String, ◌==◌, eq_iff, arith, if◌then◌else◌,
}
use slumlord.Prelude.Int.{ℤ}

-- A `float64` is held by what `int64(v)` and `int32(v)` give for it, which is all the code asks.
mutual
  pub data Value : Type 0 where
    null : Value
    boolean : Bool → Value
    int64 : ℤ → Value
    float64 : ℤ → ℤ → Value
    text : String → Value
    array : Items → Value
    object : Fields → Value

  pub data Items : Type 0 where
    nil : Items
    item : Value → Items → Items

  pub data Fields : Type 0 where
    blank : Fields
    field : String → Value → Fields → Fields

-- `m[k]`; a missing key reads as nil.
unfoldable pub get_field : String → Fields → Option Value
get_field k blank = none
get_field k (field j v m) = if j == k then some v else get_field k m

-- `m[k] = v`
unfoldable pub set_field : String → Value → Fields → Fields
set_field k v blank = field k v blank
set_field k v (field j w m) = if j == k then field j v m else field j w (set_field k v m)

-- `delete(m, k)`
pub delete_field : String → Fields → Fields
delete_field k blank = blank
delete_field k (field j w m) =
    let rest = delete_field k m in if j == k then rest else field j w rest

-- The type assertions `v.(bool)`, `v.(string)`, `v.([]interface{})`, `v.(map[string]interface{})`.
abbrev pub as_bool : Option Value → Option Bool
as_bool (some (boolean b)) = some b
as_bool _ = none

abbrev pub as_text : Option Value → Option String
as_text (some (text s)) = some s
as_text _ = none

abbrev pub as_array : Option Value → Option Items
as_array (some (array xs)) = some xs
as_array _ = none

abbrev pub as_object : Value → Option Fields
as_object (object m) = some m
as_object _ = none

-- The type switch on a number that takes `int32(v)`, and the one that takes `int64(v)`.
abbrev pub as_int32 : (ℤ → ℤ) → Option Value → Option ℤ
as_int32 narrow (some (int64 v)) = some (narrow v)
as_int32 narrow (some (float64 _ v)) = some v
as_int32 narrow _ = none

abbrev pub as_int64 : Option Value → Option ℤ
as_int64 (some (int64 v)) = some v
as_int64 (some (float64 v _)) = some v
as_int64 _ = none

pub get_field-set_field :
    (k j : String) (v : Value) (m : Fields)
    → get_field j (set_field k v m) ≡ (if k == j then some v else get_field j m)
unfolding get_field set_field
get_field-set_field k j v blank = refl
get_field-set_field k j v (field i w m) =
    ground (arith, eq_iff k j, eq_iff i k, eq_iff i j, get_field-set_field k j v m)

pub get_field-blank : (k : String) → get_field k blank ≡ none
unfolding get_field
get_field-blank k = refl
