-- ===== src/Tlv/Map.antt =====
-- `Map` of src/tlv.rs: an insertion-ordered list of entries with unique keys.
pub mod Lookup
pub mod Keys
use hush_rs.Base.{
  ℕ, zero, suc, ◌+◌, ◌≤◌, ◌≡◌, refl, sym, ap, ◌∙◌, ◌≢◌, ◌↔◌, inl, inr, Bool, true, false, ◌&&◌,
  List, [], ◌∷◌, Option, none, some, arith, ◌==◌, if◌then◌else◌, Bool-cases, ==_iff,
}
use hush_rs.Std.Words.{Bytes}
use hush_rs.Std.Eq.{bytes_eq}
use hush_rs.Tlv.Value.{Value, Items, Map, end, entry}

-- `Map::new`
unfoldable pub new : Map
new = end

-- `Map::set`: the first entry of that key is overwritten, or a new one is pushed.
unfoldable pub set : Bytes → Value → Map → Map
set key value end = entry key value end
set key value (entry k v m) =
    if bytes_eq k key then entry k value m else entry k v (set key value m)

-- `Map::get`
unfoldable pub get : Bytes → Map → Option Value
get key end = none
get key (entry k v m) = if bytes_eq k key then some v else get key m

abbrev as_string : Value → Option Bytes
as_string (Value.string s) = some s
as_string _ = none

abbrev as_uint64 : Value → Option ℕ
as_uint64 (Value.uint64 n) = some n
as_uint64 _ = none

abbrev as_bytes : Value → Option Bytes
as_bytes (Value.bytes b) = some b
as_bytes _ = none

abbrev as_map : Value → Option Map
as_map (Value.map m) = some m
as_map _ = none

-- `?` on an option.
abbrev and_then {ℓ κ} : {A : Type ℓ} {B : Type κ} → Option A → (A → Option B) → Option B
and_then none f = none
and_then (some a) f = f a

-- `Map::get_string`, `get_uint64`, `get_bytes`, `get_map`
unfoldable pub get_string : Bytes → Map → Option Bytes
unfolding get
get_string key m = and_then (get key m) as_string

unfoldable pub get_uint64 : Bytes → Map → Option ℕ
unfolding get
get_uint64 key m = and_then (get key m) as_uint64

unfoldable pub get_bytes : Bytes → Map → Option Bytes
unfolding get
get_bytes key m = and_then (get key m) as_bytes

unfoldable pub get_map : Bytes → Map → Option Map
unfolding get
get_map key m = and_then (get key m) as_map

-- `Map::len`
unfoldable pub len : Map → ℕ
len end = 0
len (entry k v m) = suc (len m)

-- `Map::is_empty`
unfoldable pub is_empty : Map → Bool
is_empty end = true
is_empty (entry k v m) = false

-- `Map::into_iter` and `iter`: the entries in order.
unfoldable pub to_list : Map → List (Bytes × Value)
to_list end = []
to_list (entry k v m) = (k, v) ∷ to_list m

-- `map_value`
unfoldable pub map_value : Map → Value
map_value m = Value.map m
