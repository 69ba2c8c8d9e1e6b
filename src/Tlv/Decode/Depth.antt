-- ===== src/Tlv/Decode/Depth.antt =====
-- Values that are nested deeper than the limit of src/tlv.rs, written and read.
use hush_rs.Base.{
  ℕ, zero, suc, ◌+◌, ◌*◌, ◌≤◌, ◌<◌, ◌≡◌, ◌∙◌, [], ◌++◌, length, length-append, append-nil, dec_lt,
  arith, true, some, err,
}
use hush_rs.Std.Words.{Bytes}
use hush_rs.Std.Utf8.{is_utf8}
use hush_rs.Tlv.Value.{
  Value, Items, Map, nil, cons, end, entry, depth_exceeded, max_payload_size, max_decode_depth,
}
use hush_rs.Tlv.Map.{new, set}
use hush_rs.Tlv.Encode.{type_byte, encode}
use hush_rs.Tlv.Encode.Grammar.{
  tlv, length-tlv, payload, payload_items, payload_entries, wire, payload_items_parts,
  payload_entries_parts, encode-wire,
}
use hush_rs.Tlv.Decode.{decode_value, decode_items, decode_entries, decode}
use hush_rs.Tlv.Decode.Scalars.{IsPortable, ArePortable, IsPortableMap, value_type}
use hush_rs.Tlv.Decode.Steps.{
  nesting, nesting_items, nesting_entries, array_step, map_step, header, inside,
}
use hush_rs.Tlv.Decode.RoundTrip.{
  IsReadBack, items_behind, value_moved, key_read, value_inside, value_behind, rest_behind,
  value_back,
}

abbrev IsRefused : Value → Type 0
IsRefused v =
    (f d : ℕ) (pre rest : Bytes)
    → 2 * length (wire v) < f
    → d ≤ 65
    → 64 < d + nesting v
    → decode_value f (pre ++ (wire v ++ rest)) (length pre) d ≡ err (depth_exceeded 65)

abbrev AreRefused : Items → Type 0
AreRefused vs =
    (f d : ℕ) (pre : Bytes)
    → 2 * length (payload_items vs) + 1 < f
    → d ≤ 65
    → 65 < d + nesting_items vs
    → decode_items f (pre ++ payload_items vs) (length pre) d ≡ err (depth_exceeded 65)

abbrev IsRefusedMap : Map → Type 0
IsRefusedMap m =
    (f d : ℕ) (pre : Bytes) (acc : Map)
    → 2 * length (payload_entries m) + 1 < f
    → d ≤ 65
    → 65 < d + nesting_entries m
    → decode_entries f (pre ++ payload_entries m) (length pre) d acc ≡ err (depth_exceeded 65)

-- Below the last level any value is refused.
at_bottom :
    (f d : ℕ) (buf : Bytes) (pos : ℕ)
    → 0 < f
    → d ≡ 65
    → decode_value f buf pos d ≡ err (depth_exceeded 65)
unfolding decode_value
at_bottom zero d buf pos hf hd = absurd (omega arith)
at_bottom (suc f) d buf pos hf hd = rw hd

array-IsRefused :
    (vs : Items)
    → length (payload_items vs) ≤ max_payload_size
    → AreRefused vs
    → IsRefused (Value.array vs)
unfolding payload nesting value_type
array-IsRefused vs size ih zero d pre rest hf hd deep = absurd (omega arith)
array-IsRefused vs size ih (suc f) d pre rest hf hd deep = elim (dec_lt d 65) [
  | no bottom ↦ at_bottom (suc f) d _ (length pre) (omega arith) (omega arith)
  | yes above ↦
      array_step f d _ (payload_items vs) (length pre) _ (omega arith)
        (header pre rest (Value.array vs) size)
      ∙ rw (
          ih f (d + 1) []
            (omega (arith, length-tlv (type_byte (Value.array vs)) (payload_items vs)))
            (omega arith) (omega arith))
]

map-IsRefused :
    (m : Map)
    → length (payload_entries m) ≤ max_payload_size
    → IsRefusedMap m
    → IsRefused (Value.map m)
unfolding payload nesting value_type
map-IsRefused m size ih zero d pre rest hf hd deep = absurd (omega arith)
map-IsRefused m size ih (suc f) d pre rest hf hd deep = elim (dec_lt d 65) [
  | no bottom ↦ at_bottom (suc f) d _ (length pre) (omega arith) (omega arith)
  | yes above ↦
      map_step f d _ (payload_entries m) (length pre) _ (omega arith)
        (header pre rest (Value.map m) size)
      ∙ rw (
          ih f (d + 1) [] new
            (omega (arith, length-tlv (type_byte (Value.map m)) (payload_entries m))) (omega arith)
            (omega arith))
]

-- The first item that is too deep ends the loop.
items_refused :
    (v : Value) (vs : Items) → IsReadBack v → IsRefused v → AreRefused vs → AreRefused (cons v vs)
unfolding payload nesting decode_value
items_refused v vs iv rv rvs zero d pre hf hd deep = absurd (omega arith)
items_refused v vs iv rv rvs (suc f) d pre hf hd deep =
    let size = length-append {0} (wire v) (payload_items vs) in
    let two = length-tlv (type_byte v) (payload v) in
    rw (inside pre (wire v) (payload_items vs) (omega arith)) (elim (dec_lt 64 (d + nesting v)) [
      | yes here ↦ rw (rv f d pre (payload_items vs) (omega arith) hd here)
      | no later ↦ rw (
        iv f d pre (payload_items vs) (omega arith) (omega arith),
        items_behind f d pre (wire v) (payload_items vs)
            (rvs f d (pre ++ wire v) (omega arith) hd (omega arith)),
      )
    ])

entries_refused :
    (k : Bytes) (v : Value) (m : Map)
    → is_utf8 k ≡ true
    → length k ≤ max_payload_size
    → IsReadBack v
    → IsRefused v
    → IsRefusedMap m
    → IsRefusedMap (entry k v m)
unfolding payload nesting decode_value
entries_refused k v m text size iv rv rm zero d pre acc hf hd deep = absurd (omega arith)
entries_refused k v m text size iv rv rm (suc f) d pre acc hf hd deep =
    let w = tlv 0x01 k in
    let rest = wire v ++ payload_entries m in
    let all = length-append {0} w rest in
    let behind = length-append {0} (wire v) (payload_entries m) in
    let key_two = length-tlv 0x01 k in
    let two = length-tlv (type_byte v) (payload v) in
    rw (inside pre w rest (omega arith)) (elim (dec_lt d 65) [
      | no bottom ↦ rw (at_bottom f d (pre ++ (w ++ rest)) (length pre) (omega arith) (omega arith))
      | yes above ↦
          rw
            (
              key_read f d pre rest k (omega arith) text size (omega arith),
              value_inside f d pre w v m,
            )
            (elim (dec_lt 64 (d + nesting v)) [
              | yes here ↦ rw (
                  value_moved f d pre w rest
                    (rv f d (pre ++ w) (payload_entries m) (omega arith) hd here))
              | no later ↦ rw (
                value_behind f d pre w v m iv (omega arith) (omega arith),
                rest_behind f d pre w v m (set k v acc)
                    (rm f d ((pre ++ w) ++ wire v) (set k v acc) (omega arith) hd (omega arith)),
              )
            ])
    ])

mutual
  unfolding payload IsPortable nesting

  value-IsRefused : (v : Value) → IsPortable v → length (payload v) ≤ max_payload_size → IsRefused v
  value-IsRefused (Value.array vs) h size = array-IsRefused vs size (items_all_refused vs h size)
  value-IsRefused (Value.map m) h size = map-IsRefused m size (entries_all_refused m h.1 size)
  value-IsRefused v h size =
      λ f d pre rest hf hd deep. at_bottom f d _ (length pre) (omega arith) (omega arith)

  items_all_refused :
      (vs : Items) → ArePortable vs → length (payload_items vs) ≤ max_payload_size → AreRefused vs
  items_all_refused nil h size = λ f d pre hf hd deep. absurd (omega arith)
  items_all_refused (cons v vs) h size =
      let (sv, svs) = payload_items_parts v vs in
      items_refused v vs (value_back v h.0 (omega arith)) (value-IsRefused v h.0 (omega arith))
        (items_all_refused vs h.1 (omega arith))

  entries_all_refused :
      (m : Map) → IsPortableMap m → length (payload_entries m) ≤ max_payload_size → IsRefusedMap m
  entries_all_refused end h size = λ f d pre acc hf hd deep. absurd (omega arith)
  entries_all_refused (entry k v m) h size =
      let (sk, sv, sm) = payload_entries_parts k v m in
      entries_refused k v m h.0 (omega arith) (value_back v h.1 (omega arith))
        (value-IsRefused v h.1 (omega arith)) (entries_all_refused m h.2 (omega arith))

-- A portable value of at most 512 KiB that is nested more than 64 deep is encoded, and decoding
-- fails with the depth error at level 65.
pub decode-encode_too_deep :
    (v : Value)
    → IsPortable v
    → length (payload v) ≤ max_payload_size
    → max_decode_depth < nesting v
    → (buf : Bytes) × (encode v ≡ some buf) × (decode buf ≡ err (depth_exceeded 65))
unfolding decode
decode-encode_too_deep v h size deep =
    let whole =
      value-IsRefused v h size (2 * length (wire v) + 1) 0 [] [] (omega arith) (omega arith)
        (omega arith) in
    (wire v, encode-wire v (omega arith), rw (rw append-nil at whole))
