-- ===== src/Tlv/Encode/Grammar.antt =====
-- The binary form as a grammar, and the encoder as a producer of it: type byte, length, payload.
use hush_rs.Base.{
  ℕ, ◌+◌, ◌^◌, ◌≤◌, ◌<◌, ◌≡◌, refl, [], ◌∷◌, ◌++◌, if◌then◌else◌, length, length-append,
  append_assoc, append-nil, arith, some, ok,
}
use hush_rs.Std.Words.{Bytes, to_be_bytes, as_unsigned}
use hush_rs.Tlv.Value.{Value, Items, Map, nil, cons, end, entry}
use hush_rs.Tlv.Varint.Written.{varint, encode_varint_lem, length-varint}
use hush_rs.Tlv.Encode.{
  type_byte, as_millis, encode_with, payload_bytes, encode_items, encode_entries, encode_into,
  encode,
}
use native.Mathlib.Nat.{mod-eq_of_lt}

-- A type byte, the number of payload bytes, the payload.
abbrev pub tlv : ℕ → Bytes → Bytes
tlv typ payload = typ ∷ (varint 9 (length payload) ++ payload)

unfoldable mutual
  pub payload : Value → Bytes
  payload (Value.string s) = s
  payload (Value.bytes b) = b
  payload (Value.uint8 n) = n ∷ []
  payload (Value.uint16 n) = to_be_bytes 2 n
  payload (Value.uint32 n) = to_be_bytes 4 n
  payload (Value.uint64 n) = to_be_bytes 8 n
  payload (Value.int32 z) = to_be_bytes 4 (as_unsigned 32 z)
  payload (Value.int64 z) = to_be_bytes 8 (as_unsigned 64 z)
  payload (Value.float32 bits) = to_be_bytes 4 bits
  payload (Value.float64 bits) = to_be_bytes 8 bits
  payload (Value.bool b) = (if b then 1 else 0) ∷ []
  payload Value.null = []
  payload (Value.timestamp d) = to_be_bytes 8 (as_millis d)
  payload (Value.array items) = payload_items items
  payload (Value.map m) = payload_entries m

  pub payload_items : Items → Bytes
  payload_items nil = []
  payload_items (cons v vs) = tlv (type_byte v) (payload v) ++ payload_items vs

  pub payload_entries : Map → Bytes
  payload_entries end = []
  payload_entries (entry k v m) = tlv 0x01 k ++ (tlv (type_byte v) (payload v) ++ payload_entries m)

-- The whole binary form of a value.
abbrev pub wire : Value → Bytes
wire v = tlv (type_byte v) (payload v)

pub length-tlv :
    (typ : ℕ) (p : Bytes)
    → (2 + length p ≤ length (tlv typ p)) × (length (tlv typ p) ≤ 11 + length p)
length-tlv typ p =
    omega (arith, length-append {0} (varint 9 (length p)) p, length-varint 9 (length p))

encode_with-tlv :
    (typ : ℕ) (p buf : Bytes)
    → length p < 2 ^ 64
    → encode_with typ (ok p) buf ≡ ok (buf ++ tlv typ p)
unfolding encode_with
encode_with-tlv typ p buf h =
    rw (mod-eq_of_lt h, encode_varint_lem (length p) (buf ++ (typ ∷ [])) h) (simp (append_assoc))

type_byte-string : (k : Bytes) → type_byte (Value.string k) ≡ 0x01
unfolding type_byte
type_byte-string k = refl

-- The parts of a payload are no longer than it is.
pub payload_items_parts :
    (v : Value) (vs : Items)
    → (length (payload v) ≤ length (payload_items (cons v vs)))
      × (length (payload_items vs) ≤ length (payload_items (cons v vs)))
unfolding payload
payload_items_parts v vs =
    omega
      (arith, length-append {0} (wire v) (payload_items vs), length-tlv (type_byte v) (payload v))

pub payload_entries_parts :
    (k : Bytes) (v : Value) (m : Map)
    → (length k ≤ length (payload_entries (entry k v m)))
      × (length (payload v) ≤ length (payload_entries (entry k v m)))
      × (length (payload_entries m) ≤ length (payload_entries (entry k v m)))
unfolding payload
payload_entries_parts k v m = omega (
  arith,
  length-append {0} (tlv 0x01 k) (wire v ++ payload_entries m),
  length-append {0} (wire v) (payload_entries m),
  length-tlv 0x01 k,
  length-tlv (type_byte v) (payload v),
)

-- Sizes that a `usize` can count.
mutual
  unfolding payload payload_bytes

  payload_bytes-payload :
      (v : Value) → length (payload v) < 2 ^ 64 → payload_bytes v ≡ ok (payload v)
  payload_bytes-payload (Value.array vs) h = encode_items-payload vs [] h
  payload_bytes-payload (Value.map m) h = encode_entries-payload m [] h
  payload_bytes-payload _ h = refl

  encode_items-payload :
      (vs : Items) (buf : Bytes)
      → length (payload_items vs) < 2 ^ 64
      → encode_items vs buf ≡ ok (buf ++ payload_items vs)
  encode_items-payload nil buf h = rw append-nil
  encode_items-payload (cons v vs) buf h =
      let (hv, hvs) = payload_items_parts v vs in
      rw (
        payload_bytes-payload v (omega arith),
        encode_with-tlv (type_byte v) (payload v) buf (omega arith),
        encode_items-payload vs (buf ++ wire v) (omega arith),
        append_assoc buf (wire v) (payload_items vs),
      )

  encode_entries-payload :
      (m : Map) (buf : Bytes)
      → length (payload_entries m) < 2 ^ 64
      → encode_entries m buf ≡ ok (buf ++ payload_entries m)
  encode_entries-payload end buf h = rw append-nil
  encode_entries-payload (entry k v m) buf h =
      let (hk, hv, hm) = payload_entries_parts k v m in
      rw (
        type_byte-string k,
        encode_with-tlv 0x01 k buf (omega arith),
        payload_bytes-payload v (omega arith),
        encode_with-tlv (type_byte v) (payload v) (buf ++ tlv 0x01 k) (omega arith),
        encode_entries-payload m (buf ++ tlv 0x01 k ++ wire v) (omega arith),
        append_assoc (buf ++ tlv 0x01 k) (wire v) (payload_entries m),
        append_assoc buf (tlv 0x01 k) (wire v ++ payload_entries m),
      )

-- `encode_into` appends the binary form of the value, and never fails.
pub encode_into-wire :
    (v : Value) (buf : Bytes) → length (payload v) < 2 ^ 64 → encode_into v buf ≡ ok (buf ++ wire v)
unfolding encode_into
encode_into-wire v buf h =
    rw (payload_bytes-payload v h) (encode_with-tlv (type_byte v) (payload v) buf h)

-- `encode` does not panic: it gives the binary form of the value.
pub encode-wire : (v : Value) → length (payload v) < 2 ^ 64 → encode v ≡ some (wire v)
unfolding encode
encode-wire v h = rw (encode_into-wire v [] h, encode)
