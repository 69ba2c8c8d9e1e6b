-- ===== src/Tests/TlvRuns.antt =====
-- The theorems on src/tlv.rs at concrete values.
use hush_rs.Base.{ℕ, zero, suc, ◌≤◌, ◌<◌, ◌≡◌, refl, [], ◌∷◌, ◌++◌, length, arith, some, ok, err}
use hush_rs.Std.Words.{Bytes, to_be_bytes}
use hush_rs.Std.Utf8.{ascii, is_utf8}
use hush_rs.Std.Eq.{bytes_eq}
use hush_rs.Tlv.Value.{
  Value, Map, nil, cons, end, entry, depth_exceeded, max_payload_size, max_decode_depth,
}
use hush_rs.Tlv.Map.Keys.{HasUniqueKeys}
use hush_rs.Tlv.Varint.{encode_varint, decode_varint}
use hush_rs.Tlv.Varint.Written.{varint}
use hush_rs.Tlv.Varint.Read.{decode_varint-encode_varint}
use hush_rs.Tlv.Encode.{encode}
use hush_rs.Tlv.Encode.Grammar.{payload}
use hush_rs.Tlv.Decode.{decode, decode_value}
use hush_rs.Tlv.Decode.Scalars.{IsPortable}
use hush_rs.Tlv.Decode.Steps.{nesting}
use hush_rs.Tlv.Decode.RoundTrip.{decode-encode}
use hush_rs.Tlv.Decode.Total.{decode_value_lem, Settles, EndsWithin}
use hush_rs.Tlv.Decode.Depth.{decode-encode_too_deep}

abbrev user : Map
user =
    entry (ascii "user") (Value.string (ascii "ada"))
      (entry (ascii "ids") (Value.array (cons (Value.uint16 7) (cons Value.null nil))) end)

user-IsPortable : IsPortable (Value.map user)
unfolding IsPortable is_utf8 bytes_eq
user-IsPortable = (((refl, tt), (tt, tt)), (refl, refl, (refl, (omega arith, (tt, tt)), tt)))

user_small : length (payload (Value.map user)) ≤ max_payload_size
unfolding payload varint to_be_bytes
user_small = omega arith

user_shallow : nesting (Value.map user) ≤ max_decode_depth
unfolding nesting
user_shallow = omega arith

decode-encode_example :
    (buf : Bytes) × (encode (Value.map user) ≡ some buf) × (decode buf ≡ ok (Value.map user))
decode-encode_example = decode-encode (Value.map user) user-IsPortable user_small user_shallow

-- An array in an array, `n` deep.
abbrev nested_arrays : ℕ → Value
nested_arrays zero = Value.null
nested_arrays (suc n) = Value.array (cons (nested_arrays n) nil)

nested_arrays-IsPortable : (n : ℕ) → IsPortable (nested_arrays n)
unfolding IsPortable
nested_arrays-IsPortable zero = tt
nested_arrays-IsPortable (suc n) = (nested_arrays-IsPortable n, tt)

nested_arrays_small : length (payload (nested_arrays 65)) ≤ max_payload_size
unfolding payload varint
nested_arrays_small = omega arith

nested_arrays_deep : max_decode_depth < nesting (nested_arrays 65)
unfolding nesting
nested_arrays_deep = omega arith

decode-encode_too_deep_example :
    (buf : Bytes) × (encode (nested_arrays 65) ≡ some buf) × (decode buf ≡ err (depth_exceeded 65))
decode-encode_too_deep_example =
    decode-encode_too_deep (nested_arrays 65) (nested_arrays-IsPortable 65) nested_arrays_small
      nested_arrays_deep

decode_value_lem_example :
    Settles (EndsWithin (0x0e ∷ 0 ∷ 5 ∷ []) 0) (decode_value 8 (0x0e ∷ 0 ∷ 5 ∷ []) 0 0)
decode_value_lem_example = decode_value_lem 8 (0x0e ∷ 0 ∷ 5 ∷ []) 0 0 (omega arith)

decode_varint-encode_varint_example :
    decode_varint (encode_varint 300 [] ++ (1 ∷ [])) ≡ ok (300, length (encode_varint 300 []))
decode_varint-encode_varint_example = decode_varint-encode_varint 300 (1 ∷ []) (omega arith)

three_hundred : decode_varint (0xac ∷ 0x02 ∷ 0x07 ∷ []) ≡ ok (300, 2)
unfolding decode_varint
three_hundred = refl

user-HasUniqueKeys : HasUniqueKeys user
unfolding bytes_eq
user-HasUniqueKeys = ((refl, tt), (tt, tt))
