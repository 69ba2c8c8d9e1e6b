-- ===== src/Tlv/Decode.antt =====
-- The decoder of src/tlv.rs. A slice `&buf[a..b]` is `take (b - a) (drop a buf)`.
pub mod Header
pub mod Scalars
pub mod Steps
pub mod RoundTrip
pub mod Total
pub mod Depth
use hush_rs.Base.{
  ℕ, zero, suc, ◌+◌, ◌*◌, Bool, true, false, not, [], ◌∷◌, ◌==◌, if◌then◌else◌, ltb, leb, length,
  take, drop, get_elem?, Option, none, some, Result, ok, err, ◌>>=◌, ◌>>◌, guard, ok_or, map_err,
}
use hush_rs.Std.Words.{Bytes, from_be_bytes, as_signed}
use hush_rs.Std.Utf8.{from_utf8}
use hush_rs.Tlv.Value.{
  ValueType, Value, Items, Map, nil, cons, end, entry, from_u8, VarintError, DecodeError,
  depth_exceeded, unexpected_eof, unknown_type, payload_too_large, payload_exceeds_buffer,
  invalid_utf8, short_payload, key_not_string, missing_value, expected_map, out_of_fuel,
  max_payload_size, max_decode_depth,
}
use hush_rs.Tlv.Map.{new, set}
use hush_rs.Tlv.Varint.{decode_varint}

-- The first part of `decode_value`, from the test of the position on: the type, the payload, and
-- the position behind it. `none` of `get_elem?` is the failed test `*pos >= buf.len()`.
unfoldable pub read_header : Bytes → ℕ → Result DecodeError (ValueType × Bytes × ℕ)
read_header buf pos = do
  typ_byte ← ok_or (get_elem? buf pos) unexpected_eof
  typ ← ok_or (from_u8 typ_byte) (unknown_type typ_byte)
  (len, adv) ← map_err DecodeError.varint (decode_varint (drop (pos + 1) buf))
  guard (leb len max_payload_size) (payload_too_large len)
  let payload_start = pos + 1 + adv
  let payload_end = payload_start + len
  guard (leb payload_end (length buf)) payload_exceeds_buffer
  ok (typ, take len (drop payload_start buf), payload_end)

-- A word from the first `w` bytes of the payload, which may be longer.
unfoldable pub read_word : ValueType → ℕ → Bytes → Result DecodeError ℕ
read_word typ w payload = do
  guard (leb w (length payload)) (short_payload typ)
  ok (from_be_bytes (take w payload))

-- The branches of `decode_value` that make no recursive call.
unfoldable pub decode_scalar : ValueType → Bytes → Result DecodeError Value
decode_scalar ValueType.string payload = do
  s ← ok_or (from_utf8 payload) invalid_utf8
  ok (Value.string s)
decode_scalar ValueType.bytes payload = ok (Value.bytes payload)
decode_scalar ValueType.uint8 payload = do ok (Value.uint8 (← read_word ValueType.uint8 1 payload))
decode_scalar ValueType.uint16 payload = do
  ok (Value.uint16 (← read_word ValueType.uint16 2 payload))
decode_scalar ValueType.uint32 payload = do
  ok (Value.uint32 (← read_word ValueType.uint32 4 payload))
decode_scalar ValueType.uint64 payload = do
  ok (Value.uint64 (← read_word ValueType.uint64 8 payload))
decode_scalar ValueType.int32 payload = do
  ok (Value.int32 (as_signed 31 (← read_word ValueType.int32 4 payload)))
decode_scalar ValueType.int64 payload = do
  ok (Value.int64 (as_signed 63 (← read_word ValueType.int64 8 payload)))
decode_scalar ValueType.float32 payload = do
  ok (Value.float32 (← read_word ValueType.float32 4 payload))
decode_scalar ValueType.float64 payload = do
  ok (Value.float64 (← read_word ValueType.float64 8 payload))
decode_scalar ValueType.bool payload = do
  n ← read_word ValueType.bool 1 payload
  ok (Value.bool (not (n == 0)))
decode_scalar ValueType.timestamp payload = do
  ms ← read_word ValueType.timestamp 8 payload
  ok (Value.timestamp (ms * 1_000_000))
-- `null` reads no payload; the other two are read in `decode_value`.
decode_scalar _ payload = ok Value.null

-- The key of an entry.
abbrev pub as_key : Value → Result DecodeError Bytes
as_key (Value.string s) = ok s
as_key _ = err key_not_string

-- `decode_value`, and its loops over the items of an array and the entries of a map. What a call
-- leaves is no structural part of the input, so each call takes a unit of fuel. The position that
-- `decode_value` leaves in `*pos` is the second part of its result.
unfoldable mutual
  pub decode_value : ℕ → Bytes → ℕ → ℕ → Result DecodeError (Value × ℕ)
  decode_value zero buf pos depth = err out_of_fuel
  decode_value (suc f) buf pos depth = do
    guard (leb depth max_decode_depth) (depth_exceeded depth)
    (typ, payload, pos') ← read_header buf pos
    elim typ [
      | ValueType.array ↦ do
        items ← decode_items f payload 0 (depth + 1)
        ok (Value.array items, pos')
      | ValueType.map ↦ do m ← decode_entries f payload 0 (depth + 1) new; ok (Value.map m, pos')
      | other ↦ do value ← decode_scalar other payload; ok (value, pos')
    ]

  pub decode_items : ℕ → Bytes → ℕ → ℕ → Result DecodeError Items
  decode_items zero payload p depth = err out_of_fuel
  decode_items (suc f) payload p depth =
      let more : Result DecodeError Items = do
        (item, p') ← decode_value f payload p depth
        items ← decode_items f payload p' depth
        ok (cons item items)
      in if ltb p (length payload) then more else ok nil

  pub decode_entries : ℕ → Bytes → ℕ → ℕ → Map → Result DecodeError Map
  decode_entries zero payload p depth m = err out_of_fuel
  decode_entries (suc f) payload p depth m =
      let more : Result DecodeError Map = do
        (key_val, p') ← decode_value f payload p depth
        key ← as_key key_val
        guard (ltb p' (length payload)) (missing_value key)
        (val, p'') ← decode_value f payload p' depth
        decode_entries f payload p'' depth (set key val m)
      in if ltb p (length payload) then more else ok m

-- `decode`. Each value takes two bytes at least, so this fuel is enough.
unfoldable pub decode : Bytes → Result DecodeError Value
unfolding decode_value decode_scalar read_header read_word from_u8 decode_varint from_be_bytes
    from_utf8 new set
decode buf = do (val, pos) ← decode_value (2 * length buf + 1) buf 0 0; ok val

abbrev pub as_map : Value → Result DecodeError Map
as_map (Value.map m) = ok m
as_map _ = err expected_map

-- `decode_map`
unfoldable pub decode_map : Bytes → Result DecodeError Map
decode_map buf = do val ← decode buf; as_map val

-- `decode_map_opt`
unfoldable pub decode_map_opt : Bytes → Option Map
decode_map_opt [] = none
decode_map_opt (b ∷ bs) = elim (decode_map (b ∷ bs)) [ ok m ↦ some m | err e ↦ none ]
