-- ===== src/Tlv/Varint.antt =====
-- `encode_varint` and `decode_varint` of src/tlv.rs.
pub mod Written
pub mod Read
use hush_rs.Base.{
  ℕ, zero, suc, ◌+◌, ◌*◌, ◌/◌, ◌%◌, ◌^◌, ◌<◌, bit_and, bit_or, dec_lt, lt_wf, dite, [], ◌∷◌, ◌++◌,
  arith, leb, ◌==◌, if◌then◌else◌, Result, ok, err,
}
use hush_rs.Std.Words.{Bytes}
use hush_rs.Tlv.Value.{VarintError, too_long, unterminated}
use mathlib.Core.WellFounded.{Acc}

pub shift_lt : (n : ℕ) → 0 < n / 128 → n / 128 < n
shift_lt n h = omega arith

-- The loop of `encode_varint`: `n >>= 7` is `n / 128`, and the loop ends where that is 0.
encode_varint_loop : (n : ℕ) → Acc ◌<◌ n → Bytes → Bytes
encode_varint_loop n (Acc.intro _ below) buf =
    let byte = bit_and n 0x7f % 256 in
    dite (dec_lt 0 (n / 128))
      (λ more.
        encode_varint_loop (n / 128) (below (n / 128) (shift_lt n more))
          (buf ++ (bit_or byte 0x80 ∷ [])))
      (λ _. buf ++ (byte ∷ []))

-- `encode_varint`, which appends to `buf`.
unfoldable pub encode_varint : ℕ → Bytes → Bytes
unfolding encode_varint_loop lt_wf dec_lt
encode_varint n buf = encode_varint_loop n (lt_wf.apply n) buf

-- The loop of `decode_varint` over the bytes from index `i` on. `<<` on a u64 drops what passes bit
-- 63; the shift is at most 63 where it is used.
unfoldable pub decode_varint_loop : Bytes → ℕ → ℕ → ℕ → Result VarintError (ℕ × ℕ)
decode_varint_loop [] i result shift = err unterminated
decode_varint_loop (byte ∷ bs) i result shift =
    let result' = bit_or result (bit_and byte 0x7f * 2 ^ shift % 2 ^ 64) in
    let more = decode_varint_loop bs (i + 1) result' (shift + 7) in
    if leb 10 i then err too_long else if bit_and byte 0x80 == 0 then ok (result', i + 1) else more

-- `decode_varint`: the number and how many bytes it takes.
unfoldable pub decode_varint : Bytes → Result VarintError (ℕ × ℕ)
unfolding decode_varint_loop
decode_varint buf = decode_varint_loop buf 0 0 0
