-- ===== src/Tlv/Map/Lookup.antt =====
-- `Map::set` and `Map::get` together.
use hush_rs.Base.{ℕ, ◌+◌, ◌≡◌, refl, Option, none, some, arith, if◌then◌else◌}
use hush_rs.Std.Words.{Bytes}
use hush_rs.Tlv.Value.{Value, Map, end, entry}
use hush_rs.Std.Eq.{bytes_eq, bytes_eq_iff}
use hush_rs.Tlv.Map.{set, get, len}

-- After `set`, the key has the value, and every other key has the value that it had.
pub get-set :
    (key j : Bytes) (v : Value) (m : Map)
    → get j (set key v m) ≡ (if bytes_eq key j then some v else get j m)
unfolding get set
get-set key j v end = refl
get-set key j v (entry k w m) =
    ground (arith, bytes_eq_iff k key, bytes_eq_iff k j, bytes_eq_iff key j, get-set key j v m)

-- How many entries `set` pushes, by what `get` finds.
abbrev pub pushed : Option Value → ℕ
pushed none = 1
pushed (some v) = 0

-- `set` adds an entry exactly when the key is not there.
pub len-set : (key : Bytes) (v : Value) (m : Map) → len (set key v m) ≡ len m + pushed (get key m)
unfolding len set get
len-set key v end = omega arith
len-set key v (entry k w m) = ground (arith, len-set key v m)
