-- ===== src/Tlv/Map/Keys.antt =====
-- The keys of a `Map` of src/tlv.rs, and a map that is rebuilt by setting its entries in order.
use hush_rs.Base.{◌≡◌, refl, sym, ap, ◌∙◌, inl, inr, false, arith, Bool-cases}
use hush_rs.Std.Words.{Bytes}
use hush_rs.Tlv.Value.{Value, Map, end, entry}
use hush_rs.Std.Eq.{bytes_eq, bytes_eq_iff}
use hush_rs.Tlv.Map.{new, set}

-- No entry has the key.
abbrev pub IsFresh : Bytes → Map → Type 0
IsFresh key end = Unit
IsFresh key (entry k v m) = (bytes_eq k key ≡ false) × IsFresh key m

-- No two entries have the same key.
abbrev pub HasUniqueKeys : Map → Type 0
HasUniqueKeys end = Unit
HasUniqueKeys (entry k v m) = IsFresh k m × HasUniqueKeys m

pub set-IsFresh :
    (j key : Bytes) (v : Value) (m : Map)
    → bytes_eq key j ≡ false
    → IsFresh j m
    → IsFresh j (set key v m)
unfolding set
set-IsFresh j key v end ne h = (ne, tt)
set-IsFresh j key v (entry k w m) ne h = ground (arith, set-IsFresh j key v m)

bytes_eq_sym : (as' bs : Bytes) → bytes_eq as' bs ≡ false → bytes_eq bs as' ≡ false
bytes_eq_sym as' bs h = ground (arith, bytes_eq_iff as' bs, bytes_eq_iff bs as')

-- `set` keeps the keys unique.
pub set-HasUniqueKeys :
    (key : Bytes) (v : Value) (m : Map) → HasUniqueKeys m → HasUniqueKeys (set key v m)
unfolding set
set-HasUniqueKeys key v end h = (tt, tt)
set-HasUniqueKeys key v (entry k w m) h = elim (Bool-cases (bytes_eq k key)) [
  | inl same ↦ rw same h
  | inr other ↦
      rw other (set-IsFresh k key v m (bytes_eq_sym k key other) h.0, set-HasUniqueKeys key v m h.1)
]

-- The loop of the decoder: the entries of the second map are set one after the other.
unfoldable pub set_all : Map → Map → Map
set_all acc end = acc
set_all acc (entry k v m) = set_all (set k v acc) m

append : Map → Map → Map
append end m = m
append (entry k v n) m = entry k v (append n m)

append-end : (m : Map) → append m end ≡ m
unfolding append
append-end end = refl
append-end (entry k v m) = ap (entry k v) (append-end m)

set_fresh :
    (key : Bytes) (v : Value) (m : Map) → IsFresh key m → set key v m ≡ append m (entry key v end)
unfolding set append
set_fresh key v end h = refl
set_fresh key v (entry k w m) h = rw h.0 (ap (entry k w) (set_fresh key v m h.1))

append_entry :
    (n m : Map) (k : Bytes) (v : Value)
    → append (append n (entry k v end)) m ≡ append n (entry k v m)
unfolding append
append_entry end m k v = refl
append_entry (entry j w n) m k v = ap (entry j w) (append_entry n m k v)

-- No key of the second map is in the first.
abbrev IsApart : Map → Map → Type 0
IsApart n end = Unit
IsApart n (entry k v m) = IsFresh k n × IsApart n m

IsFresh-append :
    (key : Bytes) (n m : Map) → IsFresh key n → IsFresh key m → IsFresh key (append n m)
unfolding append
IsFresh-append key end m hn hm = hm
IsFresh-append key (entry k v n) m hn hm = (hn.0, IsFresh-append key n m hn.1 hm)

IsApart-entry :
    (n m : Map) (k : Bytes) (v : Value)
    → IsFresh k m
    → IsApart n m
    → IsApart (append n (entry k v end)) m
IsApart-entry n end k v hk h = tt
IsApart-entry n (entry j w m) k v hk h = (
  IsFresh-append j n (entry k v end) h.0 (bytes_eq_sym j k hk.0, tt),
  IsApart-entry n m k v hk.1 h.1,
)

set_all-append : (n m : Map) → IsApart n m → HasUniqueKeys m → set_all n m ≡ append n m
unfolding set_all
set_all-append n end a u = sym (append-end n)
set_all-append n (entry k v m) a u = rw (set_fresh k v n a.0) (
    set_all-append (append n (entry k v end)) m (IsApart-entry n m k v u.0 a.1) u.1
    ∙ append_entry n m k v)

IsApart-end : (m : Map) → IsApart end m
IsApart-end end = tt
IsApart-end (entry k v m) = (tt, IsApart-end m)

-- A map with unique keys is rebuilt, in its order.
pub set_all-new : (m : Map) → HasUniqueKeys m → set_all new m ≡ m
unfolding new append
set_all-new m u = set_all-append end m (IsApart-end m) u
