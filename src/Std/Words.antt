-- ===== src/Std/Words.antt =====
-- Machine words as bytes and back: `to_be_bytes`, `from_be_bytes`, and the casts between signed
-- and unsigned words.
use hush_rs.Base.{
  ℕ, zero, suc, ◌+◌, ◌-◌, ◌*◌, ◌/◌, ◌%◌, ◌^◌, ◌<◌, ◌≡◌, refl, List, [], ◌∷◌, ◌++◌, length,
  length-append, append_assoc, append-nil, arith, ltb, if◌then◌else◌, All, sym, ap, ◌∙◌,
}
use hush_rs.Base.Int.{ℤ, pos, negsuc}
use native.Mathlib.Nat.{pow-suc, mod-lt, one-le-pow}

abbrev pub Bytes : Type 0
Bytes = List ℕ

abbrev pub IsByte : ℕ → Type 0
IsByte b = b < 256

-- `n.to_be_bytes()` of a word of `w` bytes.
unfoldable pub to_be_bytes : ℕ → ℕ → Bytes
to_be_bytes zero n = []
to_be_bytes (suc w) n = to_be_bytes w (n / 256) ++ (n % 256 ∷ [])

unfoldable pub from_be_loop : ℕ → Bytes → ℕ
from_be_loop acc [] = acc
from_be_loop acc (b ∷ bs) = from_be_loop (acc * 256 + b) bs

-- `from_be_bytes`
unfoldable pub from_be_bytes : Bytes → ℕ
unfolding from_be_loop
from_be_bytes bs = from_be_loop 0 bs

from_be_loop-append :
    (bs : Bytes) (acc b : ℕ) → from_be_loop acc (bs ++ (b ∷ [])) ≡ from_be_loop acc bs * 256 + b
unfolding from_be_loop
from_be_loop-append [] acc b = refl
from_be_loop-append (x ∷ bs) acc b = from_be_loop-append bs (acc * 256 + x) b

pub length-to_be_bytes : (w n : ℕ) → length (to_be_bytes w n) ≡ w
unfolding to_be_bytes
length-to_be_bytes zero n = refl
length-to_be_bytes (suc w) n = omega (
  arith,
  length-append {0} (to_be_bytes w (n / 256)) (n % 256 ∷ []),
  length-to_be_bytes w (n / 256),
)

-- A word that fits its width is read back.
pub from_be_bytes-to_be_bytes : (w n : ℕ) → n < 256 ^ w → from_be_bytes (to_be_bytes w n) ≡ n
unfolding from_be_bytes to_be_bytes
from_be_bytes-to_be_bytes zero n h = omega arith
from_be_bytes-to_be_bytes (suc w) n h = omega (
  arith,
  from_be_loop-append (to_be_bytes w (n / 256)) 0 (n % 256),
  from_be_bytes-to_be_bytes w (n / 256) (omega (arith, pow-suc 256 w)),
)

to_be_bytes-from_be_loop :
    (bs : Bytes) (w acc : ℕ)
    → All IsByte bs
    → to_be_bytes (w + length bs) (from_be_loop acc bs) ≡ to_be_bytes w acc ++ bs
unfolding from_be_loop to_be_bytes
to_be_bytes-from_be_loop [] w acc h =
    let width : w + 0 ≡ w = omega arith in
    ap (λ k. to_be_bytes k acc) width ∙ sym (append-nil (to_be_bytes w acc))
to_be_bytes-from_be_loop (b ∷ bs) w acc (small, rest) =
    let width : w + length (b ∷ bs) ≡ suc w + length bs = omega arith in
    let quotient : (acc * 256 + b) / 256 ≡ acc = omega (arith, small) in
    let remainder : (acc * 256 + b) % 256 ≡ b = omega (arith, small) in
    ap (λ k. to_be_bytes k (from_be_loop (acc * 256 + b) bs)) width
    ∙ to_be_bytes-from_be_loop bs (suc w) (acc * 256 + b) rest
    ∙ rw (quotient, remainder) (append_assoc (to_be_bytes w acc) (b ∷ []) bs)

-- Bytes that are read as a word are written back.
pub to_be_bytes-from_be_bytes :
    (n : ℕ) (bs : Bytes) → length bs ≡ n → All IsByte bs → to_be_bytes n (from_be_bytes bs) ≡ bs
unfolding from_be_bytes to_be_bytes
to_be_bytes-from_be_bytes n bs size h =
    let width : n ≡ 0 + length bs = omega (arith, size) in
    ap (λ k. to_be_bytes k (from_be_loop 0 bs)) width ∙ to_be_bytes-from_be_loop bs 0 0 h

-- `n as u32` and `n as u64` of a signed word, at `w` bits: two's complement.
abbrev pub as_unsigned : ℕ → ℤ → ℕ
as_unsigned w (pos n) = n % 2 ^ w
as_unsigned w (negsuc n) = 2 ^ w - 1 - n % 2 ^ w

-- `bits as i32` and `bits as i64`, at `suc w` bits.
abbrev pub as_signed : ℕ → ℕ → ℤ
as_signed w n = if ltb n (2 ^ w) then pos n else negsuc (2 ^ suc w - 1 - n)

-- The values of a signed word of `suc w` bits.
abbrev pub FitsSigned : ℕ → ℤ → Type 0
FitsSigned w (pos n) = n < 2 ^ w
FitsSigned w (negsuc n) = n < 2 ^ w

pub as_signed-as_unsigned_32 : (z : ℤ) → FitsSigned 31 z → as_signed 31 (as_unsigned 32 z) ≡ z
as_signed-as_unsigned_32 (pos n) h = ground arith
as_signed-as_unsigned_32 (negsuc n) h = ground arith

pub as_signed-as_unsigned_64 : (z : ℤ) → FitsSigned 63 z → as_signed 63 (as_unsigned 64 z) ≡ z
as_signed-as_unsigned_64 (pos n) h = ground arith
as_signed-as_unsigned_64 (negsuc n) h = ground arith

pub as_unsigned-lt : (w : ℕ) (z : ℤ) → as_unsigned w z < 2 ^ w
as_unsigned-lt w (pos n) = mod-lt n (one-le-pow w 2 (omega arith))
as_unsigned-lt w (negsuc n) = omega (arith, one-le-pow w 2 (omega arith))
