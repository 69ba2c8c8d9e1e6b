-- ===== src/Tlv/Varint/Written.antt =====
-- What `encode_varint` writes: seven bits a byte, lowest first, in 1 to 10 bytes.
use hush_rs.Base.{
  ℕ, zero, suc, ◌+◌, ◌/◌, ◌%◌, ◌^◌, ◌≤◌, ◌<◌, ◌≡◌, bit_and, bit_or, [], ◌∷◌, ◌++◌, arith, ltb,
  lt_wf, if◌then◌else◌, length, All, append_assoc,
}
use hush_rs.Base.Bits.{bit_and_low, bit_or_disjoint}
use hush_rs.Std.Words.{Bytes, IsByte}
use hush_rs.Tlv.Varint.{encode_varint_loop, encode_varint}
use mathlib.Core.WellFounded.{Acc}

-- The bytes of a number below 128 ^ (k + 1).
unfoldable pub varint : ℕ → ℕ → Bytes
varint zero n = n ∷ []
varint (suc k) n =
    let rest = varint k (n / 128) in if ltb n 128 then n ∷ [] else (n % 128 + 128) ∷ rest

low_byte : (n : ℕ) → bit_and n 0x7f % 256 ≡ n % 128
low_byte n = omega (arith, bit_and_low n)

flagged_byte : (n : ℕ) → bit_or (bit_and n 0x7f % 256) 0x80 ≡ n % 128 + 128
flagged_byte n = rw low_byte (bit_or_disjoint 7 (n % 128) 1 (omega arith))

encode_varint_loop-varint :
    (k n : ℕ) (w : Acc ◌<◌ n) (buf : Bytes)
    → n < 128 ^ suc k
    → encode_varint_loop n w buf ≡ buf ++ varint k n
unfolding encode_varint_loop varint
encode_varint_loop-varint zero n (Acc.intro _ below) buf h = ground (arith, low_byte n)
encode_varint_loop-varint (suc k) n (Acc.intro _ below) buf h =
    let flagged : Bytes = (n % 128 + 128) ∷ [] in
    grind (
      arith,
      low_byte n,
      flagged_byte n,
      λ (w : Acc ◌<◌ (n / 128)).
          encode_varint_loop-varint k (n / 128) w (buf ++ flagged) (omega arith),
      append_assoc buf flagged (varint k (n / 128)),
    )

-- On a u64, `encode_varint` keeps the buffer and appends the bytes of the number.
pub encode_varint_lem : (n : ℕ) (buf : Bytes) → n < 2 ^ 64 → encode_varint n buf ≡ buf ++ varint 9 n
unfolding encode_varint
encode_varint_lem n buf h = encode_varint_loop-varint 9 n (lt_wf.apply n) buf (omega arith)

pub length-varint : (k n : ℕ) → (1 ≤ length (varint k n)) × (length (varint k n) ≤ k + 1)
unfolding varint
length-varint zero n = omega arith
length-varint (suc k) n = ground (arith, length-varint k (n / 128))

pub varint-IsByte : (k n : ℕ) → n < 128 ^ suc k → All IsByte (varint k n)
unfolding varint
varint-IsByte zero n h = omega arith
varint-IsByte (suc k) n h = ground (arith, varint-IsByte k (n / 128) (omega arith))

-- A number below 128 ^ (j + 1) takes at most j + 1 bytes.
pub length-varint_le : (j k n : ℕ) → n < 128 ^ suc j → length (varint k n) ≤ j + 1
unfolding varint
length-varint_le j zero n h = omega arith
length-varint_le zero (suc k) n h = ground arith
length-varint_le (suc j) (suc k) n h = ground (arith, length-varint_le j k (n / 128) (omega arith))
