-- ===== src/Tlv/Encode.antt =====
-- The encoder of src/tlv.rs. The error is the `String` of `encode_into`; no branch makes one.
pub mod Grammar
use hush_rs.Base.{
  ℕ, zero, suc, ◌+◌, ◌*◌, ◌/◌, ◌%◌, ◌^◌, Bool, true, false, [], ◌∷◌, ◌++◌, if◌then◌else◌, length,
  Option, none, some, Result, ok, err, ◌>>=◌,
}
use hush_rs.Std.Words.{Bytes, to_be_bytes, as_unsigned}
use hush_rs.Tlv.Value.{Value, Items, Map, nil, cons, end, entry}
use hush_rs.Tlv.Varint.{encode_varint}

-- `type_byte`
unfoldable pub type_byte : Value → ℕ
type_byte (Value.string _) = 0x01
type_byte (Value.bytes _) = 0x02
type_byte (Value.uint8 _) = 0x03
type_byte (Value.uint16 _) = 0x04
type_byte (Value.uint32 _) = 0x05
type_byte (Value.uint64 _) = 0x06
type_byte (Value.int32 _) = 0x07
type_byte (Value.int64 _) = 0x08
type_byte (Value.float32 _) = 0x09
type_byte (Value.float64 _) = 0x0a
type_byte (Value.bool _) = 0x0b
type_byte (Value.array _) = 0x0c
type_byte (Value.map _) = 0x0d
type_byte Value.null = 0x0e
type_byte (Value.timestamp _) = 0x0f

-- `d.as_millis() as u64` of a duration in nanoseconds.
abbrev pub as_millis : ℕ → ℕ
as_millis d = d / 1_000_000 % 2 ^ 64

-- `encode_into`, given the type byte and the result of `payload_bytes`.
unfoldable pub encode_with : ℕ → Result Bytes Bytes → Bytes → Result Bytes Bytes
encode_with typ payload buf = do
  p ← payload
  ok (encode_varint (length p % 2 ^ 64) (buf ++ (typ ∷ [])) ++ p)

-- `payload_bytes`, with the loops over the items of an array and the entries of a map.
unfoldable mutual
  pub payload_bytes : Value → Result Bytes Bytes
  payload_bytes (Value.string s) = ok s
  payload_bytes (Value.bytes b) = ok b
  payload_bytes (Value.uint8 n) = ok (n ∷ [])
  payload_bytes (Value.uint16 n) = ok (to_be_bytes 2 n)
  payload_bytes (Value.uint32 n) = ok (to_be_bytes 4 n)
  payload_bytes (Value.uint64 n) = ok (to_be_bytes 8 n)
  payload_bytes (Value.int32 z) = ok (to_be_bytes 4 (as_unsigned 32 z))
  payload_bytes (Value.int64 z) = ok (to_be_bytes 8 (as_unsigned 64 z))
  payload_bytes (Value.float32 bits) = ok (to_be_bytes 4 bits)
  payload_bytes (Value.float64 bits) = ok (to_be_bytes 8 bits)
  payload_bytes (Value.bool b) = ok ((if b then 1 else 0) ∷ [])
  payload_bytes Value.null = ok []
  payload_bytes (Value.timestamp d) = ok (to_be_bytes 8 (as_millis d))
  payload_bytes (Value.array items) = encode_items items []
  payload_bytes (Value.map m) = encode_entries m []

  pub encode_items : Items → Bytes → Result Bytes Bytes
  encode_items nil buf = ok buf
  encode_items (cons item items) buf = do
    buf' ← encode_with (type_byte item) (payload_bytes item) buf
    encode_items items buf'

  pub encode_entries : Map → Bytes → Result Bytes Bytes
  encode_entries end buf = ok buf
  encode_entries (entry key val m) buf = do
    buf' ← encode_with (type_byte (Value.string key)) (ok key) buf
    buf'' ← encode_with (type_byte val) (payload_bytes val) buf'
    encode_entries m buf''

-- `encode_into`
unfoldable pub encode_into : Value → Bytes → Result Bytes Bytes
unfolding encode_with payload_bytes
encode_into v buf = encode_with (type_byte v) (payload_bytes v) buf

-- `encode`: `none` is the panic of `expect`.
unfoldable pub encode : Value → Option Bytes
unfolding encode_into
encode v = elim (encode_into v []) [ ok buf ↦ some buf | err e ↦ none ]

-- `encode_map`
unfoldable pub encode_map : Map → Option Bytes
unfolding encode
encode_map m = encode (Value.map m)
