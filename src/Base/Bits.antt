-- ===== src/Base/Bits.antt =====
-- `&` and `|` as arithmetic: a low mask, and disjoint fields, at every width.
use Prim.Native.Nat.{
  ℕ, zero, suc, ◌+◌, ◌*◌, ◌/◌, ◌%◌, ◌^◌, ◌≤◌, ◌<◌, min, max, bit_and, bit_or, digits,
  bit_and-bitwise, bit_or-bitwise,
}
use mathlib.Core.Path.{◌≡◌, refl, ap}
use mathlib.Core.WellFounded.{Acc}
use hush_rs.Base.Order.{lt_wf}
use native.Mathlib.Omega.{arith}
use native.Mathlib.Nat.{pow-suc}

-- Fuel beyond the first number is never used.
module _ (z : ℕ → ℕ) (f : ℕ → ℕ → ℕ) where
  spare_fuel : (b a n m : ℕ) → a ≤ n → n ≤ m → digits z f m a b ≡ digits z f n a b
  spare_fuel b zero zero zero h le = refl
  spare_fuel b zero zero (suc m) h le = refl
  spare_fuel b zero (suc n) (suc m) h le = refl
  spare_fuel b a (suc n) zero h le = absurd (omega arith)
  spare_fuel b (suc a) zero m h le = absurd (omega arith)
  spare_fuel b (suc a) (suc n) (suc m) h le =
      let low : ℕ = f (suc a % 2) (b % 2) in
      ap (λ t. t * 2 + low) (spare_fuel (b / 2) (suc a / 2) n m (omega arith) (omega arith))

  -- The last digit of a result, and the digits in front of it.
  last_digit :
      (b a : ℕ)
      → digits z f (suc a) (suc a) b
        ≡ digits z f (suc a / 2) (suc a / 2) (b / 2) * 2 + f (suc a % 2) (b % 2)
  last_digit b a =
      let enough = spare_fuel (b / 2) (suc a / 2) (suc a / 2) a (omega arith) (omega arith) in
      ap (λ t. t * 2 + f (suc a % 2) (b % 2)) enough

zero-bit_or : (b : ℕ) → bit_or 0 b ≡ b
zero-bit_or b = bit_or-bitwise 0 b

pub bit_or_step : (a b : ℕ) → bit_or a b ≡ max (a % 2) (b % 2) + bit_or (a / 2) (b / 2) * 2
bit_or_step zero b = omega (arith, zero-bit_or b, zero-bit_or (b / 2))
bit_or_step (suc a) b =
    let halves = bit_or-bitwise (suc a / 2) (b / 2) in
    omega (arith, bit_or-bitwise (suc a) b, halves, last_digit (λ n. n) max b a)

pub bit_and_step : (a b : ℕ) → bit_and a b ≡ min (a % 2) (b % 2) + bit_and (a / 2) (b / 2) * 2
bit_and_step zero b = omega (arith, bit_and-bitwise 0 b, bit_and-bitwise 0 (b / 2))
bit_and_step (suc a) b =
    let halves = bit_and-bitwise (suc a / 2) (b / 2) in
    omega (arith, bit_and-bitwise (suc a) b, halves, last_digit (λ n. 0) min b a)

no_mask : (a : ℕ) → Acc ◌<◌ a → bit_and a 0 ≡ 0
no_mask zero w = refl
no_mask (suc a) (Acc.intro _ below) =
    let half = no_mask (suc a / 2) (below (suc a / 2) (omega arith)) in
    omega (arith, half, bit_and_step (suc a) 0)

bit_and-zero : (a : ℕ) → bit_and a 0 ≡ 0
bit_and-zero a = no_mask a (lt_wf.apply a)

-- A mask of one more low bit, from the mask for the number without its last bit.
bit_and_one : (a : ℕ) → bit_and a 1 ≡ a % 2
bit_and_one a = omega (arith, bit_and_step a 1, bit_and-zero (a / 2))

bit_and_3 : (a : ℕ) → bit_and a 3 ≡ a % 4
bit_and_3 a = omega (arith, bit_and_step a 3, bit_and_one (a / 2))

bit_and_7 : (a : ℕ) → bit_and a 7 ≡ a % 8
bit_and_7 a = omega (arith, bit_and_step a 7, bit_and_3 (a / 2))

bit_and_15 : (a : ℕ) → bit_and a 15 ≡ a % 16
bit_and_15 a = omega (arith, bit_and_step a 15, bit_and_7 (a / 2))

bit_and_31 : (a : ℕ) → bit_and a 31 ≡ a % 32
bit_and_31 a = omega (arith, bit_and_step a 31, bit_and_15 (a / 2))

bit_and_63 : (a : ℕ) → bit_and a 63 ≡ a % 64
bit_and_63 a = omega (arith, bit_and_step a 63, bit_and_31 (a / 2))

-- `x & 0x7F`
pub bit_and_low : (a : ℕ) → bit_and a 0x7f ≡ a % 128
bit_and_low a = omega (arith, bit_and_step a 127, bit_and_63 (a / 2))

-- A single bit, one place further up.
bit_and_2 : (a : ℕ) → bit_and a 2 ≡ a / 2 % 2 * 2
bit_and_2 a = omega (arith, bit_and_step a 2, bit_and_one (a / 2))

bit_and_4 : (a : ℕ) → bit_and a 4 ≡ a / 4 % 2 * 4
bit_and_4 a = omega (arith, bit_and_step a 4, bit_and_2 (a / 2))

bit_and_8 : (a : ℕ) → bit_and a 8 ≡ a / 8 % 2 * 8
bit_and_8 a = omega (arith, bit_and_step a 8, bit_and_4 (a / 2))

bit_and_16 : (a : ℕ) → bit_and a 16 ≡ a / 16 % 2 * 16
bit_and_16 a = omega (arith, bit_and_step a 16, bit_and_8 (a / 2))

bit_and_32 : (a : ℕ) → bit_and a 32 ≡ a / 32 % 2 * 32
bit_and_32 a = omega (arith, bit_and_step a 32, bit_and_16 (a / 2))

bit_and_64 : (a : ℕ) → bit_and a 64 ≡ a / 64 % 2 * 64
bit_and_64 a = omega (arith, bit_and_step a 64, bit_and_32 (a / 2))

-- `x & 0x80`
pub bit_and_top : (a : ℕ) → bit_and a 0x80 ≡ a / 128 % 2 * 128
bit_and_top a = omega (arith, bit_and_step a 128, bit_and_64 (a / 2))

-- `x | (g << k)` is a sum when `x` lies below bit `k`.
pub bit_or_disjoint : (k a g : ℕ) → a < 2 ^ k → bit_or a (g * 2 ^ k) ≡ a + g * 2 ^ k
bit_or_disjoint zero zero g h = omega (arith, zero-bit_or (g * 2 ^ 0))
bit_or_disjoint zero (suc a) g h = absurd (omega arith)
bit_or_disjoint (suc k) a g h =
    let doubled : g * 2 ^ suc k ≡ g * 2 ^ k * 2 = omega (arith, ap (λ t. g * t) (pow-suc 2 k)) in
    omega (
      arith,
      doubled,
      bit_or_step a (g * 2 ^ suc k),
      ap (λ t. bit_or (a / 2) t) half,
      bit_or_disjoint k (a / 2) g (omega (arith, pow-suc 2 k)),
    )
  where
    half : g * 2 ^ suc k / 2 ≡ g * 2 ^ k
    half = omega (arith, ap (λ t. g * t) (pow-suc 2 k))

-- `|` sets no bit above those of its operands.
pub bit_or-lt : (k a b : ℕ) → a < 2 ^ k → b < 2 ^ k → bit_or a b < 2 ^ k
bit_or-lt zero zero zero ha hb = omega (arith, zero-bit_or 0)
bit_or-lt zero zero (suc b) ha hb = absurd (omega arith)
bit_or-lt zero (suc a) b ha hb = absurd (omega arith)
bit_or-lt (suc k) a b ha hb = omega (
  arith,
  pow-suc 2 k,
  bit_or_step a b,
  bit_or-lt k (a / 2) (b / 2) (omega (arith, pow-suc 2 k)) (omega (arith, pow-suc 2 k)),
)
