-- ===== src/Tlv/Varint/Read.antt =====
-- What `decode_varint` reads: every number that was written, and what any input gives.
use hush_rs.Base.{
  ℕ, zero, suc, ◌+◌, ◌*◌, ◌/◌, ◌%◌, ◌^◌, ◌≤◌, ◌<◌, ◌≡◌, refl, ap, bit_and, bit_or, [], ◌∷◌, ◌++◌,
  arith, length, ok,
}
use hush_rs.Base.Bits.{bit_and_low, bit_and_top, bit_or_disjoint, bit_or-lt}
use hush_rs.Std.Words.{Bytes}
use hush_rs.Tlv.Varint.{encode_varint, decode_varint_loop, decode_varint}
use hush_rs.Tlv.Varint.Written.{varint, encode_varint_lem, length-varint_le}
use native.Mathlib.Nat.{div-add-mod, mod-eq_of_lt, pow-suc, mod-le, one-le-pow}
use native.Mathlib.Numerals.{towards_suc}

shift_seven : (s : ℕ) → 2 ^ (s + 7) ≡ 128 * 2 ^ s
shift_seven s = simp towards_suc (omega arith)

-- A group that fits a u64 at its place is added to the bits below it.
add_group :
    (r g s : ℕ) → r < 2 ^ s → g * 2 ^ s < 2 ^ 64 → bit_or r (g * 2 ^ s % 2 ^ 64) ≡ r + g * 2 ^ s
add_group r g s hr fits = rw (mod-eq_of_lt fits) (bit_or_disjoint s r g hr)

last_byte :
    (g i r s : ℕ) (rest : Bytes)
    → g < 128
    → i < 10
    → r < 2 ^ s
    → g * 2 ^ s < 2 ^ 64
    → decode_varint_loop (g ∷ rest) i r s ≡ ok (r + g * 2 ^ s, i + 1)
unfolding decode_varint_loop
last_byte g i r s rest hg hi hr fits =
    let low : bit_and g 0x7f ≡ g = omega (arith, bit_and_low g) in
    rw (low, add_group r g s hr fits) (ground (arith, bit_and_top g))

inner_byte :
    (g i r s : ℕ) (rest : Bytes)
    → g < 128
    → i < 10
    → r < 2 ^ s
    → g * 2 ^ s < 2 ^ 64
    → decode_varint_loop ((g + 128) ∷ rest) i r s
      ≡ decode_varint_loop rest (i + 1) (r + g * 2 ^ s) (s + 7)
unfolding decode_varint_loop
inner_byte g i r s rest hg hi hr fits =
    let low : bit_and (g + 128) 0x7f ≡ g = omega (arith, bit_and_low (g + 128)) in
    rw (low, add_group r g s hr fits) (ground (arith, bit_and_top (g + 128)))

-- The lowest group of `n` and the rest of it, at bit `s`.
split_low : (n s : ℕ) → n * 2 ^ s ≡ n % 128 * 2 ^ s + n / 128 * 2 ^ (s + 7)
split_low n s = omega (
  arith,
  ap (λ (t : ℕ). t * 2 ^ s) (div-add-mod n 128),
  ap (λ (t : ℕ). n / 128 * t) (shift_seven s),
)

below_next : (r g s : ℕ) → r < 2 ^ s → g < 128 → r + g * 2 ^ s < 2 ^ (s + 7)
below_next r g s hr hg =
    let scaled : g * 2 ^ s ≤ 127 * 2 ^ s = grind arith in omega (arith, shift_seven s)

decode_varint_loop-varint :
    (k n i r s : ℕ) (rest : Bytes)
    → n < 128 ^ suc k
    → i + k < 10
    → r < 2 ^ s
    → n * 2 ^ s < 2 ^ 64
    → decode_varint_loop (varint k n ++ rest) i r s ≡ ok (r + n * 2 ^ s, i + length (varint k n))
unfolding varint
decode_varint_loop-varint zero n i r s rest hn hi hr fits =
    last_byte n i r s rest (omega arith) (omega arith) hr fits
decode_varint_loop-varint (suc k) n i r s rest hn hi hr fits = ground (
  arith,
  last_byte n i r s rest,
  split_low n s,
  below_next r (n % 128) s,
  inner_byte (n % 128) i r s (varint k (n / 128) ++ rest),
  decode_varint_loop-varint k (n / 128) (i + 1) (r + n % 128 * 2 ^ s) (s + 7) rest (omega arith),
)

pub decode_varint-varint :
    (n : ℕ) (rest : Bytes)
    → n < 2 ^ 64
    → decode_varint (varint 9 n ++ rest) ≡ ok (n, length (varint 9 n))
unfolding decode_varint
decode_varint-varint n rest h = ground (arith, decode_varint_loop-varint 9 n 0 0 0 rest)

-- Every u64 that `encode_varint` writes is read back, whatever follows it, with its byte count.
pub decode_varint-encode_varint :
    (n : ℕ) (rest : Bytes)
    → n < 2 ^ 64
    → decode_varint (encode_varint n [] ++ rest) ≡ ok (n, length (encode_varint n []))
decode_varint-encode_varint n rest h = rw (encode_varint_lem n [] h) (decode_varint-varint n rest h)

-- A count that is read lies within the input and within ten bytes.
decode_varint_loop_takes :
    (bs : Bytes) (i r s n k : ℕ)
    → decode_varint_loop bs i r s ≡ ok (n, k)
    → (i < k) × (k ≤ i + length bs) × (k ≤ 10)
unfolding decode_varint_loop
decode_varint_loop_takes [] i r s n k e = cc
decode_varint_loop_takes (b ∷ bs) i r s n k e = ground (
  arith,
  decode_varint_loop_takes bs (i + 1) (bit_or r (bit_and b 0x7f * 2 ^ s % 2 ^ 64)) (s + 7) n k,
)

-- What `decode_varint` accepts took at least one byte, at most ten, and no more than there are.
pub decode_varint_takes :
    (bs : Bytes) (n k : ℕ) → decode_varint bs ≡ ok (n, k) → (1 ≤ k) × (k ≤ length bs) × (k ≤ 10)
unfolding decode_varint
decode_varint_takes bs n k e = ground (arith, decode_varint_loop_takes bs 0 0 0 n k)

two_pow_seven : (k : ℕ) → 2 ^ (7 * k) ≡ 128 ^ k
two_pow_seven zero = refl
two_pow_seven (suc k) =
    let next : 7 * suc k ≡ 7 * k + 7 = omega arith in
    rw next (omega (arith, shift_seven (7 * k), two_pow_seven k, pow-suc 128 k))

mod-lt_next : (g s : ℕ) → g < 128 → g * 2 ^ s % 2 ^ 64 < 2 ^ (s + 7)
mod-lt_next g s hg =
    let scaled : g * 2 ^ s ≤ 127 * 2 ^ s = grind arith in
    omega (arith, shift_seven s, mod-le (g * 2 ^ s) (2 ^ 64), one-le-pow s 2 (omega arith))

-- What is read so far lies below the next bit, and below 2 ^ 64.
decode_varint_loop-lt :
    (bs : Bytes) (i r s n k : ℕ)
    → s ≡ 7 * i
    → r < 2 ^ s
    → r < 2 ^ 64
    → decode_varint_loop bs i r s ≡ ok (n, k)
    → (n < 2 ^ (7 * k)) × (n < 2 ^ 64)
unfolding decode_varint_loop
decode_varint_loop-lt [] i r s n k hs hr fits e = cc
decode_varint_loop-lt (b ∷ bs) i r s n k hs hr fits e =
    let g = bit_and b 0x7f * 2 ^ s % 2 ^ 64 in
    let r' = bit_or r g in
    let wider : 7 * (i + 1) ≡ s + 7 = omega arith in
    let group : g < 2 ^ (s + 7) = mod-lt_next (bit_and b 0x7f) s (omega (arith, bit_and_low b)) in
    let next : r' < 2 ^ (s + 7) = bit_or-lt (s + 7) r g (omega (arith, shift_seven s)) group in
    let wide : r' < 2 ^ 64 = bit_or-lt 64 r g fits (omega arith) in
    ground (
      arith,
      ap (λ (t : ℕ). 2 ^ t) wider,
      decode_varint_loop-lt bs (i + 1) r' (s + 7) n k (omega arith) next wide,
    )

-- `decode_varint` gives a u64, and no number is written in more bytes than it was read from.
pub decode_varint-bounds :
    (bs : Bytes) (n k : ℕ)
    → decode_varint bs ≡ ok (n, k)
    → (n < 2 ^ 64) × (length (encode_varint n []) ≤ k)
unfolding decode_varint
decode_varint-bounds bs n zero e = absurd (omega (arith, decode_varint_loop_takes bs 0 0 0 n 0 e))
decode_varint-bounds bs n (suc j) e =
    let (small, wide) =
      decode_varint_loop-lt bs 0 0 0 n (suc j) refl (omega arith) (omega arith) e in
    (
      wide,
      rw (encode_varint_lem n [] wide)
          (omega (arith, length-varint_le j 9 n (rw (two_pow_seven (suc j)) at small))),
    )
