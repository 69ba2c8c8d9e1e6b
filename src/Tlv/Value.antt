-- ===== src/Tlv/Value.antt =====
-- The types of src/tlv.rs: `Type`, `Value` and `Map`, and the error strings of decoding.
-- A float is its bit pattern, which is all that the code takes of it (`to_bits`, `from_bits`).
-- A `Duration` is its number of nanoseconds. A string is its bytes.
use hush_rs.Base.{ℕ, Option, none, some, Bool, ◌==◌, if◌then◌else◌}
use hush_rs.Base.Int.{ℤ}
use hush_rs.Std.Words.{Bytes}

-- `enum Type`
pub data ValueType : Type 0 where
  string bytes uint8 uint16 uint32 uint64 int32 int64 float32 float64 bool array map null
        timestamp :
      ValueType

-- `Type::from_u8`
unfoldable pub from_u8 : ℕ → Option ValueType
from_u8 b =
    if b == 0x01
    then some ValueType.string
    else if b == 0x02
    then some ValueType.bytes
    else if b == 0x03
    then some ValueType.uint8
    else if b == 0x04
    then some ValueType.uint16
    else if b == 0x05
    then some ValueType.uint32
    else if b == 0x06
    then some ValueType.uint64
    else if b == 0x07
    then some ValueType.int32
    else if b == 0x08
    then some ValueType.int64
    else if b == 0x09
    then some ValueType.float32
    else if b == 0x0a
    then some ValueType.float64
    else if b == 0x0b
    then some ValueType.bool
    else if b == 0x0c
    then some ValueType.array
    else if b == 0x0d
    then some ValueType.map
    else if b == 0x0e
    then some ValueType.null
    else if b == 0x0f
    then some ValueType.timestamp
    else none

-- `Value`, the `Vec<Value>` of an array, and the `Vec<(String, Value)>` of a `Map`.
mutual
  pub data Value : Type 0 where
    string : Bytes → Value
    bytes : Bytes → Value
    uint8 : ℕ → Value
    uint16 : ℕ → Value
    uint32 : ℕ → Value
    uint64 : ℕ → Value
    int32 : ℤ → Value
    int64 : ℤ → Value
    float32 : ℕ → Value
    float64 : ℕ → Value
    bool : Bool → Value
    array : Items → Value
    map : Map → Value
    null : Value
    timestamp : ℕ → Value

  pub data Items : Type 0 where
    nil : Items
    cons : Value → Items → Items

  pub data Map : Type 0 where
    end : Map
    entry : Bytes → Value → Map → Map

-- The strings that `decode_varint` fails with.
pub data VarintError : Type 0 where
  too_long unterminated : VarintError

-- The strings that `decode` fails with. `out_of_fuel` is none of them: it would say that the model
-- gave up.
pub data DecodeError : Type 0 where
  depth_exceeded : ℕ → DecodeError
  unexpected_eof : DecodeError
  unknown_type : ℕ → DecodeError
  varint : VarintError → DecodeError
  payload_too_large : ℕ → DecodeError
  payload_exceeds_buffer : DecodeError
  invalid_utf8 : DecodeError
  short_payload : ValueType → DecodeError
  key_not_string : DecodeError
  missing_value : Bytes → DecodeError
  expected_map : DecodeError
  out_of_fuel : DecodeError

-- `MAX_PAYLOAD_SIZE`
abbrev pub max_payload_size : ℕ
max_payload_size = 524288

-- `MAX_DECODE_DEPTH`
abbrev pub max_decode_depth : ℕ
max_decode_depth = 64
