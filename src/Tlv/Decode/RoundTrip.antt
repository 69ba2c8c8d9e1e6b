-- ===== src/Tlv/Decode/RoundTrip.antt =====
-- Decoding what was encoded.
use hush_rs.Base.{
  ℕ, zero, suc, ◌+◌, ◌*◌, ◌≤◌, ◌<◌, ◌≡◌, ◌∙◌, [], ◌++◌, length, length-append, append_assoc,
  append-nil, ltb, arith, some, Result, ok, true,
}
use hush_rs.Std.Words.{Bytes}
use hush_rs.Std.Utf8.{is_utf8}
use hush_rs.Tlv.Value.{
  Value, Items, Map, nil, cons, end, entry, DecodeError, max_payload_size, max_decode_depth,
}
use hush_rs.Tlv.Map.{new, set}
use hush_rs.Tlv.Map.Keys.{HasUniqueKeys, set_all, set_all-new}
use hush_rs.Tlv.Encode.{type_byte, encode}
use hush_rs.Tlv.Encode.Grammar.{
  tlv, length-tlv, payload, payload_items, payload_entries, wire, payload_items_parts,
  payload_entries_parts, encode-wire,
}
use hush_rs.Tlv.Decode.{decode_value, decode_items, decode_entries, decode}
use hush_rs.Tlv.Decode.Scalars.{IsPortable, ArePortable, IsPortableMap, value_type, IsScalar}
use hush_rs.Tlv.Decode.Steps.{
  nesting, nesting_items, nesting_entries, array_step, map_step, header, decode_value-scalar,
  decode_value-key, inside, at_end,
}

-- A value, items and entries are read back wherever they stand, with fuel above their size and
-- depth to spare.
abbrev pub IsReadBack : Value → Type 0
IsReadBack v =
    (f d : ℕ) (pre rest : Bytes)
    → 2 * length (wire v) < f
    → d + nesting v ≤ max_decode_depth
    → decode_value f (pre ++ (wire v ++ rest)) (length pre) d ≡ ok (v, length pre + length (wire v))

abbrev pub AreReadBack : Items → Type 0
AreReadBack vs =
    (f d : ℕ) (pre : Bytes)
    → 2 * length (payload_items vs) + 1 < f
    → d + nesting_items vs ≤ suc max_decode_depth
    → decode_items f (pre ++ payload_items vs) (length pre) d ≡ ok vs

abbrev pub IsReadBackMap : Map → Type 0
IsReadBackMap m =
    (f d : ℕ) (pre : Bytes) (acc : Map)
    → 2 * length (payload_entries m) + 1 < f
    → d + nesting_entries m ≤ suc max_decode_depth
    → decode_entries f (pre ++ payload_entries m) (length pre) d acc ≡ ok (set_all acc m)

scalar_case :
    (v : Value)
    → IsScalar (value_type v)
    → IsPortable v
    → length (payload v) ≤ max_payload_size
    → IsReadBack v
scalar_case v s h size zero d pre rest hf hd = absurd (omega arith)
scalar_case v s h size (suc f) d pre rest hf hd =
    decode_value-scalar f d pre rest v s h size (omega arith)

array_case :
    (vs : Items)
    → length (payload_items vs) ≤ max_payload_size
    → AreReadBack vs
    → IsReadBack (Value.array vs)
unfolding payload nesting value_type
array_case vs size ih zero d pre rest hf hd = absurd (omega arith)
array_case vs size ih (suc f) d pre rest hf hd =
    array_step f d _ (payload_items vs) (length pre) _ (omega arith)
      (header pre rest (Value.array vs) size)
    ∙ rw (
        ih f (d + 1) [] (omega (arith, length-tlv (type_byte (Value.array vs)) (payload_items vs)))
          (omega arith))

map_case :
    (m : Map)
    → HasUniqueKeys m
    → length (payload_entries m) ≤ max_payload_size
    → IsReadBackMap m
    → IsReadBack (Value.map m)
unfolding payload nesting value_type
map_case m unique size ih zero d pre rest hf hd = absurd (omega arith)
map_case m unique size ih (suc f) d pre rest hf hd =
    map_step f d _ (payload_entries m) (length pre) _ (omega arith)
      (header pre rest (Value.map m) size)
    ∙ rw (
      ih f (d + 1) [] new (omega (arith, length-tlv (type_byte (Value.map m)) (payload_entries m)))
          (omega arith),
      set_all-new m unique,
    )

-- What follows stands behind what was read.
module _ (f d : ℕ) (pre w q : Bytes) where
  pub items_behind :
      {r : Result DecodeError Items}
      → decode_items f ((pre ++ w) ++ q) (length (pre ++ w)) d ≡ r
      → decode_items f (pre ++ (w ++ q)) (length pre + length w) d ≡ r
  items_behind h = rw (← append_assoc pre w q, ← length-append pre w) h

  pub entries_behind :
      (acc : Map) {r : Result DecodeError Map}
      → decode_entries f ((pre ++ w) ++ q) (length (pre ++ w)) d acc ≡ r
      → decode_entries f (pre ++ (w ++ q)) (length pre + length w) d acc ≡ r
  entries_behind acc h = rw (← append_assoc pre w q, ← length-append pre w) h

  pub value_moved :
      {r : Result DecodeError (Value × ℕ)}
      → decode_value f ((pre ++ w) ++ q) (length (pre ++ w)) d ≡ r
      → decode_value f (pre ++ (w ++ q)) (length pre + length w) d ≡ r
  value_moved h = rw (← append_assoc pre w q, ← length-append pre w) h

items_case : (v : Value) (vs : Items) → IsReadBack v → AreReadBack vs → AreReadBack (cons v vs)
unfolding payload nesting decode_value
items_case v vs iv ivs zero d pre hf hd = absurd (omega arith)
items_case v vs iv ivs (suc f) d pre hf hd =
    let size = length-append {0} (wire v) (payload_items vs) in
    let two = length-tlv (type_byte v) (payload v) in
    rw (
      inside pre (wire v) (payload_items vs) (omega arith),
      iv f d pre (payload_items vs) (omega arith) (omega arith),
      items_behind f d pre (wire v) (payload_items vs)
          (ivs f d (pre ++ wire v) (omega arith) (omega arith)),
    )

pub key_read :
    (f d : ℕ) (pre rest k : Bytes)
    → 0 < f
    → is_utf8 k ≡ true
    → length k ≤ max_payload_size
    → d ≤ max_decode_depth
    → decode_value f (pre ++ (tlv 0x01 k ++ rest)) (length pre) d
      ≡ ok (Value.string k, length pre + length (tlv 0x01 k))
key_read zero d pre rest k pos text size shallow = absurd (omega arith)
key_read (suc f) d pre rest k pos text size shallow =
    decode_value-key f d pre rest k text size shallow

-- The value of an entry stands behind `w`, its key, and the other entries behind both.
module _ (f d : ℕ) (pre w : Bytes) (v : Value) (m : Map) where
  pub value_inside :
      ltb (length pre + length w) (length (pre ++ (w ++ (wire v ++ payload_entries m)))) ≡ true
  value_inside =
      rw (← append_assoc pre w (wire v ++ payload_entries m), ← length-append pre w)
        (inside (pre ++ w) (wire v) (payload_entries m)
          (omega (arith, length-tlv (type_byte v) (payload v))))

  pub value_behind :
      IsReadBack v
      → 2 * length (wire v) < f
      → d + nesting v ≤ max_decode_depth
      → decode_value f (pre ++ (w ++ (wire v ++ payload_entries m))) (length pre + length w) d
        ≡ ok (v, length pre + length w + length (wire v))
  value_behind iv hf hd =
      rw (← append_assoc pre w (wire v ++ payload_entries m), ← length-append pre w)
        (iv f d (pre ++ w) (payload_entries m) hf hd)

  pub rest_behind :
      (acc : Map) {r : Result DecodeError Map}
      → decode_entries f
          ((pre ++ w) ++ wire v ++ payload_entries m)
          (length ((pre ++ w) ++ wire v))
          d
          acc
        ≡ r
      → decode_entries f
          (pre ++ (w ++ (wire v ++ payload_entries m)))
          (length pre + length w + length (wire v))
          d
          acc
        ≡ r
  rest_behind acc h =
      rw (← append_assoc pre w (wire v ++ payload_entries m), ← length-append pre w)
        (entries_behind f d (pre ++ w) (wire v) (payload_entries m) acc h)

entries_case :
    (k : Bytes) (v : Value) (m : Map)
    → is_utf8 k ≡ true
    → length k ≤ max_payload_size
    → IsReadBack v
    → IsReadBackMap m
    → IsReadBackMap (entry k v m)
unfolding payload nesting decode_value set_all
entries_case k v m text size iv im zero d pre acc hf hd = absurd (omega arith)
entries_case k v m text size iv im (suc f) d pre acc hf hd =
    let w = tlv 0x01 k in
    let rest = wire v ++ payload_entries m in
    let all = length-append {0} w rest in
    let behind = length-append {0} (wire v) (payload_entries m) in
    let key_two = length-tlv 0x01 k in
    let two = length-tlv (type_byte v) (payload v) in
    rw (
      inside pre w rest (omega arith),
      key_read f d pre rest k (omega arith) text size (omega arith),
      value_inside f d pre w v m,
      value_behind f d pre w v m iv (omega arith) (omega arith),
      rest_behind f d pre w v m (set k v acc)
          (im f d ((pre ++ w) ++ wire v) (set k v acc) (omega arith) (omega arith)),
    )

items_end : AreReadBack nil
unfolding payload decode_value
items_end zero d pre hf hd = absurd (omega arith)
items_end (suc f) d pre hf hd = rw (at_end pre)

entries_end : IsReadBackMap end
unfolding payload decode_value set_all
entries_end zero d pre acc hf hd = absurd (omega arith)
entries_end (suc f) d pre acc hf hd = rw (at_end pre)

mutual
  unfolding payload IsPortable value_type

  pub value_back : (v : Value) → IsPortable v → length (payload v) ≤ max_payload_size → IsReadBack v
  value_back (Value.array vs) h size = array_case vs size (items_back vs h size)
  value_back (Value.map m) h size = map_case m h.0 size (entries_back m h.1 size)
  value_back v h size = scalar_case v tt h size

  pub items_back :
      (vs : Items) → ArePortable vs → length (payload_items vs) ≤ max_payload_size → AreReadBack vs
  items_back nil h size = items_end
  items_back (cons v vs) h size =
      let (sv, svs) = payload_items_parts v vs in
      items_case v vs (value_back v h.0 (omega arith)) (items_back vs h.1 (omega arith))

  pub entries_back :
      (m : Map) → IsPortableMap m → length (payload_entries m) ≤ max_payload_size → IsReadBackMap m
  entries_back end h size = entries_end
  entries_back (entry k v m) h size =
      let (sk, sv, sm) = payload_entries_parts k v m in
      entries_case k v m h.0 (omega arith) (value_back v h.1 (omega arith))
        (entries_back m h.2 (omega arith))

pub decode-wire :
    (v : Value)
    → IsPortable v
    → length (payload v) ≤ max_payload_size
    → nesting v ≤ max_decode_depth
    → decode (wire v) ≡ ok v
unfolding decode
decode-wire v h size deep =
    let whole = value_back v h size (2 * length (wire v) + 1) 0 [] [] (omega arith) (omega arith) in
    rw (rw append-nil at whole)

-- What `encode` writes, `decode` reads back: for a portable value whose payload has at most
-- 512 KiB and which is nested at most 64 deep, `encode` gives a buffer that decodes to the value.
pub decode-encode :
    (v : Value)
    → IsPortable v
    → length (payload v) ≤ max_payload_size
    → nesting v ≤ max_decode_depth
    → (buf : Bytes) × (encode v ≡ some buf) × (decode buf ≡ ok v)
decode-encode v h size deep = (wire v, encode-wire v (omega arith), decode-wire v h size deep)
