-- ===== src/Tlv/Decode/Steps.antt =====
-- The steps of decoding: a header, a scalar and a key that were encoded.
use hush_rs.Base.{
  leb-true, ℕ, suc, ◌+◌, ◌≤◌, ◌<◌, ◌≡◌, ◌∙◌, max, [], ◌++◌, length, length-append, ltb, lt→ltb,
  ltb-false, arith, ok, ◌>>=◌, true, false,
}
use hush_rs.Std.Words.{Bytes}
use hush_rs.Std.Utf8.{is_utf8}
use hush_rs.Tlv.Value.{
  ValueType, Value, Items, Map, nil, cons, end, entry, max_payload_size, max_decode_depth,
}
use hush_rs.Tlv.Map.{new}
use hush_rs.Tlv.Encode.{type_byte}
use hush_rs.Tlv.Encode.Grammar.{tlv, payload, wire}
use hush_rs.Tlv.Decode.{read_header, decode_scalar, decode_value, decode_items, decode_entries}
use hush_rs.Tlv.Decode.Header.{read_header-tlv}
use hush_rs.Tlv.Decode.Scalars.{
  IsPortable, value_type, from_u8-type_byte, IsScalar, decode_scalar-payload,
}

-- How many levels of arrays and maps stand around the innermost value.
unfoldable mutual
  pub nesting : Value → ℕ
  nesting (Value.array vs) = nesting_items vs
  nesting (Value.map m) = nesting_entries m
  nesting _ = 0

  pub nesting_items : Items → ℕ
  nesting_items nil = 0
  nesting_items (cons v vs) = max (suc (nesting v)) (nesting_items vs)

  pub nesting_entries : Map → ℕ
  nesting_entries end = 0
  nesting_entries (entry k v m) = max (suc (nesting v)) (nesting_entries m)

module _ (f d : ℕ) (buf p : Bytes) (pos pos' : ℕ) (shallow : d ≤ max_decode_depth) where
  scalar_step :
      (t : ValueType)
      → read_header buf pos ≡ ok (t, p, pos')
      → IsScalar t
      → decode_value (suc f) buf pos d ≡ (decode_scalar t p >>= λ v. ok (v, pos'))
  unfolding decode_value
  scalar_step ValueType.array e s = absurd s
  scalar_step ValueType.map e s = absurd s
  scalar_step _ e s = rw (leb-true d max_decode_depth shallow, e)

  pub array_step :
      read_header buf pos ≡ ok (ValueType.array, p, pos')
      → decode_value (suc f) buf pos d
        ≡ (decode_items f p 0 (d + 1) >>= λ vs. ok (Value.array vs, pos'))
  unfolding decode_value
  array_step e = rw (leb-true d max_decode_depth shallow, e)

  pub map_step :
      read_header buf pos ≡ ok (ValueType.map, p, pos')
      → decode_value (suc f) buf pos d
        ≡ (decode_entries f p 0 (d + 1) new >>= λ m. ok (Value.map m, pos'))
  unfolding decode_value
  map_step e = rw (leb-true d max_decode_depth shallow, e)

-- The header of a value that stands behind `pre`.
pub header :
    (pre rest : Bytes) (v : Value)
    → length (payload v) ≤ max_payload_size
    → read_header (pre ++ (wire v ++ rest)) (length pre)
      ≡ ok (value_type v, payload v, length pre + length (wire v))
header pre rest v size =
    read_header-tlv pre rest (payload v) (type_byte v) (value_type v) (from_u8-type_byte v) size

pub decode_value-scalar :
    (f d : ℕ) (pre rest : Bytes) (v : Value)
    → IsScalar (value_type v)
    → IsPortable v
    → length (payload v) ≤ max_payload_size
    → d ≤ max_decode_depth
    → decode_value (suc f) (pre ++ (wire v ++ rest)) (length pre) d
      ≡ ok (v, length pre + length (wire v))
decode_value-scalar f d pre rest v s h size shallow =
    scalar_step f d (pre ++ (wire v ++ rest)) (payload v) (length pre)
      (length pre + length (wire v)) shallow (value_type v) (header pre rest v size) s
    ∙ rw (decode_scalar-payload v s h)

-- A string as it is written for a key.
pub decode_value-key :
    (f d : ℕ) (pre rest k : Bytes)
    → is_utf8 k ≡ true
    → length k ≤ max_payload_size
    → d ≤ max_decode_depth
    → decode_value (suc f) (pre ++ (tlv 0x01 k ++ rest)) (length pre) d
      ≡ ok (Value.string k, length pre + length (tlv 0x01 k))
unfolding payload IsPortable value_type type_byte
decode_value-key f d pre rest k h size shallow =
    decode_value-scalar f d pre rest (Value.string k) tt h size shallow

pub inside :
    (pre p rest : Bytes) → 0 < length p → ltb (length pre) (length (pre ++ (p ++ rest))) ≡ true
inside pre p rest h =
    lt→ltb _ _ (omega (arith, length-append {0} pre (p ++ rest), length-append {0} p rest))

pub at_end : (pre : Bytes) → ltb (length pre) (length (pre ++ [])) ≡ false
at_end pre = ltb-false _ _ (omega (arith, length-append {0} pre []))
