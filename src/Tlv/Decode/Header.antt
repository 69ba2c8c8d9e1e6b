-- ===== src/Tlv/Decode/Header.antt =====
-- One header of the binary form, read at its place in a buffer.
use hush_rs.Base.{
  leb-true, ℕ, suc, ◌+◌, ◌≤◌, ◌≡◌, ap, ◌∷◌, ◌++◌, length, length-append, drop, append_assoc,
  take-length_append, get_elem?-length_append, drop-length_add, drop-length_append, arith, some, ok,
}
use hush_rs.Std.Words.{Bytes}
use hush_rs.Tlv.Value.{ValueType, from_u8, max_payload_size}
use hush_rs.Tlv.Varint.Written.{varint}
use hush_rs.Tlv.Varint.Read.{decode_varint-varint}
use hush_rs.Tlv.Encode.Grammar.{tlv}
use hush_rs.Tlv.Decode.{read_header}

payload_at :
    (pre digits q : Bytes) (typ : ℕ)
    → drop (length pre + 1 + length digits) (pre ++ (typ ∷ (digits ++ q))) ≡ q
payload_at pre digits q typ =
    let shifted : length pre + 1 + length digits ≡ length pre + suc (length digits) = omega arith in
    rw (shifted, drop-length_add pre (typ ∷ (digits ++ q)) (suc (length digits)))
      (drop-length_append digits q)

payload_fits :
    (pre digits p rest : Bytes) (typ : ℕ)
    → length pre + 1 + length digits + length p ≤ length (pre ++ (typ ∷ (digits ++ (p ++ rest))))
payload_fits pre digits p rest typ = omega (
  arith,
  length-append {0} pre (typ ∷ (digits ++ (p ++ rest))),
  length-append {0} digits (p ++ rest),
  length-append {0} p rest,
)

-- The header that stands behind `pre` is read, and the position moves behind its payload.
pub read_header-tlv :
    (pre rest p : Bytes) (typ : ℕ) (t : ValueType)
    → from_u8 typ ≡ some t
    → length p ≤ max_payload_size
    → read_header (pre ++ (tlv typ p ++ rest)) (length pre)
      ≡ ok (t, p, length pre + length (tlv typ p))
unfolding read_header
read_header-tlv pre rest p typ t ht hp =
    let digits = varint 9 (length p) in
    let tail = digits ++ p ++ rest in
    rw
      (
        get_elem?-length_append pre tail typ,
        ht,
        drop-length_add pre (typ ∷ tail) 1,
        append_assoc digits p rest,
        decode_varint-varint (length p) (p ++ rest) (omega arith),
        leb-true (length p) max_payload_size hp,
        leb-true _ _ (payload_fits pre digits p rest typ),
        payload_at pre digits (p ++ rest) typ,
        take-length_append p rest,
      )
      (ap (λ (n : ℕ). ok (t, p, n)) (omega (arith, length-append {0} digits p)))
