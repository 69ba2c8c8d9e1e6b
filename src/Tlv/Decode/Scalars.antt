-- ===== src/Tlv/Decode/Scalars.antt =====
-- Values that hold no other value: their payload decodes to them. `IsPortable` says which values
-- the binary form can carry: words within their width, well formed text, durations of whole
-- milliseconds, and maps with unique keys, which `Map::set` keeps.
use hush_rs.Base.{
  leb-true, ℕ, ◌*◌, ◌/◌, ◌%◌, ◌^◌, ◌<◌, ◌≡◌, refl, true, false, [], ◌∷◌, take_all, arith, some, ok,
}
use hush_rs.Std.Words.{
  to_be_bytes, from_be_bytes, length-to_be_bytes, from_be_bytes-to_be_bytes, as_unsigned,
  FitsSigned, as_signed-as_unsigned_32, as_signed-as_unsigned_64, as_unsigned-lt,
}
use hush_rs.Std.Utf8.{is_utf8, from_utf8-valid}
use hush_rs.Tlv.Value.{ValueType, Value, Items, Map, nil, cons, end, entry, from_u8}
use hush_rs.Tlv.Map.Keys.{HasUniqueKeys}
use hush_rs.Tlv.Encode.{type_byte, as_millis}
use hush_rs.Tlv.Encode.Grammar.{payload}
use hush_rs.Tlv.Decode.{read_word, decode_scalar}

unfoldable mutual
  pub IsPortable : Value → Type 0
  IsPortable (Value.string s) = is_utf8 s ≡ true
  IsPortable (Value.bytes b) = Unit
  IsPortable (Value.uint8 n) = n < 2 ^ 8
  IsPortable (Value.uint16 n) = n < 2 ^ 16
  IsPortable (Value.uint32 n) = n < 2 ^ 32
  IsPortable (Value.uint64 n) = n < 2 ^ 64
  IsPortable (Value.int32 z) = FitsSigned 31 z
  IsPortable (Value.int64 z) = FitsSigned 63 z
  IsPortable (Value.float32 bits) = bits < 2 ^ 32
  IsPortable (Value.float64 bits) = bits < 2 ^ 64
  IsPortable (Value.bool b) = Unit
  IsPortable Value.null = Unit
  IsPortable (Value.timestamp d) = (d % 1_000_000 ≡ 0) × (d / 1_000_000 < 2 ^ 64)
  IsPortable (Value.array vs) = ArePortable vs
  IsPortable (Value.map m) = HasUniqueKeys m × IsPortableMap m

  pub ArePortable : Items → Type 0
  ArePortable nil = Unit
  ArePortable (cons v vs) = IsPortable v × ArePortable vs

  pub IsPortableMap : Map → Type 0
  IsPortableMap end = Unit
  IsPortableMap (entry k v m) = (is_utf8 k ≡ true) × IsPortable v × IsPortableMap m

-- The constructor of a value.
unfoldable pub value_type : Value → ValueType
value_type (Value.string _) = ValueType.string
value_type (Value.bytes _) = ValueType.bytes
value_type (Value.uint8 _) = ValueType.uint8
value_type (Value.uint16 _) = ValueType.uint16
value_type (Value.uint32 _) = ValueType.uint32
value_type (Value.uint64 _) = ValueType.uint64
value_type (Value.int32 _) = ValueType.int32
value_type (Value.int64 _) = ValueType.int64
value_type (Value.float32 _) = ValueType.float32
value_type (Value.float64 _) = ValueType.float64
value_type (Value.bool _) = ValueType.bool
value_type (Value.array _) = ValueType.array
value_type (Value.map _) = ValueType.map
value_type Value.null = ValueType.null
value_type (Value.timestamp _) = ValueType.timestamp

-- The type byte that is written is the one that is read.
pub from_u8-type_byte : (v : Value) → from_u8 (type_byte v) ≡ some (value_type v)
unfolding from_u8 type_byte value_type
from_u8-type_byte (Value.string _) = refl
from_u8-type_byte _ = refl

-- The types that `decode_scalar` reads.
abbrev pub IsScalar : ValueType → Type 0
IsScalar ValueType.array = ⊥
IsScalar ValueType.map = ⊥
IsScalar _ = Unit

read_word-to_be_bytes :
    (t : ValueType) (w n : ℕ) → n < 256 ^ w → read_word t w (to_be_bytes w n) ≡ ok n
unfolding read_word
read_word-to_be_bytes t w n h =
    let size = length-to_be_bytes w n in
    rw (
      size,
      leb-true w w (omega arith),
      take_all w (to_be_bytes w n) size,
      from_be_bytes-to_be_bytes w n h,
    )

read_word_byte : (t : ValueType) (n : ℕ) → read_word t 1 (n ∷ []) ≡ ok n
unfolding read_word from_be_bytes
read_word_byte t n = ground arith

whole_millis : (d : ℕ) → d % 1_000_000 ≡ 0 → d / 1_000_000 < 2 ^ 64 → as_millis d * 1_000_000 ≡ d
whole_millis d h fits = omega arith

-- The payload of a scalar decodes to it.
pub decode_scalar-payload :
    (v : Value)
    → IsScalar (value_type v)
    → IsPortable v
    → decode_scalar (value_type v) (payload v) ≡ ok v
unfolding value_type IsPortable decode_scalar payload
decode_scalar-payload (Value.string s) t h = rw (from_utf8-valid s h)
decode_scalar-payload (Value.bytes b) t h = refl
decode_scalar-payload (Value.uint8 n) t h = rw (read_word_byte ValueType.uint8 n)
decode_scalar-payload (Value.uint16 n) t h =
    rw (read_word-to_be_bytes ValueType.uint16 2 n (omega arith))
decode_scalar-payload (Value.uint32 n) t h =
    rw (read_word-to_be_bytes ValueType.uint32 4 n (omega arith))
decode_scalar-payload (Value.uint64 n) t h =
    rw (read_word-to_be_bytes ValueType.uint64 8 n (omega arith))
decode_scalar-payload (Value.int32 z) t h = rw (
  read_word-to_be_bytes ValueType.int32 4 (as_unsigned 32 z) (as_unsigned-lt 32 z),
  as_signed-as_unsigned_32 z h,
)
decode_scalar-payload (Value.int64 z) t h = rw (
  read_word-to_be_bytes ValueType.int64 8 (as_unsigned 64 z) (as_unsigned-lt 64 z),
  as_signed-as_unsigned_64 z h,
)
decode_scalar-payload (Value.float32 bits) t h =
    rw (read_word-to_be_bytes ValueType.float32 4 bits (omega arith))
decode_scalar-payload (Value.float64 bits) t h =
    rw (read_word-to_be_bytes ValueType.float64 8 bits (omega arith))
decode_scalar-payload (Value.bool true) t h = rw (read_word_byte ValueType.bool 1)
decode_scalar-payload (Value.bool false) t h = rw (read_word_byte ValueType.bool 0)
decode_scalar-payload (Value.array vs) t h = absurd t
decode_scalar-payload (Value.map m) t h = absurd t
decode_scalar-payload Value.null t h = refl
decode_scalar-payload (Value.timestamp d) t h = rw (
  read_word-to_be_bytes ValueType.timestamp 8 (as_millis d) (omega arith),
  whole_millis d h.0 h.1,
)
