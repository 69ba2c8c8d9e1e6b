-- ===== src/Tests/Repository/Tlv.antt =====
-- `mod tests` of src/tlv.rs.
use hush_rs.Base.{
  ℕ, zero, suc, ◌≡◌, refl, Bool, true, false, List, [], ◌∷◌, Option, none, some, Result, ok, err,
  map, replicate,
}
use hush_rs.Base.Int.{negsuc}
use hush_rs.Std.Words.{Bytes, to_be_bytes}
use hush_rs.Std.Utf8.{ascii}
use hush_rs.Std.Eq.{bytes_eq}
use hush_rs.Tlv.Value.{Value, Map, nil, cons, DecodeError, max_decode_depth}
use hush_rs.Tlv.Map
use hush_rs.Tlv.Varint.{encode_varint}
use hush_rs.Tlv.Encode.{encode, type_byte}
use hush_rs.Tlv.Decode.{decode}

-- `decode(&encode(v)).unwrap()`
abbrev decoded : Option Bytes → Option Value
decoded none = none
decoded (some buf) = elim (decode buf) [ ok v ↦ some v | err e ↦ none ]

unfoldable roundtrip : Value → Option Value
roundtrip v = decoded (encode v)

-- `is_ok()` of what `decode` gives
abbrev is_ok : Result DecodeError Value → Bool
is_ok (ok v) = true
is_ok (err e) = false

abbrev decodes : Option Bytes → Bool
decodes none = false
decodes (some buf) = is_ok (decode buf)

-- The values of the tests from `test_string` to `test_timestamp`; a float is its bits.
abbrev scalars : List Value
scalars =
    Value.string (ascii "hello hush")
    ∷ Value.bytes (0xde ∷ 0xad ∷ 0xbe ∷ 0xef ∷ [])
    ∷ Value.uint8 255
    ∷ Value.uint16 65535
    ∷ Value.uint32 4294967295
    ∷ Value.uint64 18446744073709551615
    ∷ Value.int32 (negsuc 2147483647)
    ∷ Value.int64 (negsuc 9223372036854775807)
    ∷ Value.float32 1078530000
    ∷ Value.float64 4613303445314885481
    ∷ Value.bool true
    ∷ Value.null
    ∷ Value.timestamp 1700000000000000000
    ∷ []

-- `test_array`, `test_map`, `test_nested_map`, `test_empty_map`
abbrev mixed_array : Value
mixed_array =
    Value.array
      (cons (Value.string (ascii "a")) (cons (Value.uint64 42) (cons (Value.bool true) nil)))

abbrev named_map : Value
named_map = Value.map (
    Map.set (ascii "version") (Value.uint64 1)
      (Map.set (ascii "name") (Value.string (ascii "hush")) Map.new))

abbrev nested_map : Value
nested_map =
    Value.map
      (Map.set (ascii "inner") (Value.map (Map.set (ascii "x") (Value.uint32 100) Map.new)) Map.new)

abbrev empty_map : Value
empty_map = Value.map Map.new

-- The loop of `test_max_depth` and `test_exceeds_max_depth`
unfoldable in_arrays : ℕ → Value
in_arrays zero = Value.uint64 1
in_arrays (suc n) = Value.array (cons (in_arrays n) nil)

-- The map of `test_map_overwrite`
abbrev overwritten : Map
overwritten =
    Map.set (ascii "key") (Value.uint64 2) (Map.set (ascii "key") (Value.uint64 1) Map.new)

scalars_survive : map roundtrip scalars ≡ map some scalars
unfolding roundtrip encode decode encode_varint to_be_bytes type_byte
scalars_survive = refl

containers_survive :
    map roundtrip (mixed_array ∷ named_map ∷ nested_map ∷ empty_map ∷ [])
    ≡ some mixed_array ∷ some named_map ∷ some nested_map ∷ some empty_map ∷ []
unfolding roundtrip encode decode encode_varint to_be_bytes type_byte Map.set Map.new bytes_eq
containers_survive = refl

max_depth : decodes (encode (in_arrays max_decode_depth)) ≡ true
unfolding encode decode in_arrays encode_varint to_be_bytes type_byte
max_depth = refl

exceeds_max_depth : decodes (encode (in_arrays (suc max_decode_depth))) ≡ false
unfolding encode decode in_arrays encode_varint to_be_bytes type_byte
exceeds_max_depth = refl

map_overwrite : (Map.get_uint64 (ascii "key") overwritten ≡ some 2) × (Map.len overwritten ≡ 1)
unfolding Map.get_uint64 Map.get Map.len Map.set Map.new bytes_eq
map_overwrite = (refl, refl)

-- The buffers of `test_unknown_type` and `test_oversized_payload`
abbrev unknown_buffer : Bytes
unknown_buffer = 0xff ∷ 0x00 ∷ []

abbrev oversized_buffer : Bytes
oversized_buffer = 0x02 ∷ 0x80 ∷ 0x80 ∷ 0x80 ∷ 0x80 ∷ 0x08 ∷ []

rejected : (is_ok (decode unknown_buffer) ≡ false) × (is_ok (decode oversized_buffer) ≡ false)
unfolding decode
rejected = (refl, refl)

-- The value of `test_large_string`
abbrev large_string : Value
large_string = Value.string (replicate 10000 97)

large_string_survives : roundtrip large_string ≡ some large_string
unfolding roundtrip encode decode encode_varint to_be_bytes type_byte
large_string_survives = refl
