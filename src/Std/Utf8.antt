-- ===== src/Std/Utf8.antt =====
-- UTF-8 as the standard library checks it: `String::from_utf8` and `String::from_utf8_lossy`.
-- A `String` of the model is the list of its bytes.
use hush_rs.Base.{
  ℕ, zero, suc, ◌+◌, ◌-◌, ◌≡◌, refl, ap, Bool, true, false, ◌&&◌, [], ◌∷◌, Option, none, some,
  arith, leb, ltb, ◌==◌, if◌then◌else◌,
}
use hush_rs.Std.Words.{Bytes}
use Prim.Native.String.{String}
use Prim.Native.Char.{code}

-- One character at the front of the input: its bytes, or those of a broken prefix.
pub data Scan : Type 0 where
  valid : ℕ → Scan
  broken : ℕ → Scan

abbrev between : ℕ → ℕ → ℕ → Bool
between lo hi b = leb lo b && leb b hi

-- `n` more continuation bytes, with `k` bytes read.
continuation : ℕ → ℕ → Bytes → Scan
continuation zero k bs = valid k
continuation (suc n) k [] = broken k
continuation (suc n) k (b ∷ bs) =
    let more = continuation n (k + 1) bs in if between 0x80 0xbf b then more else broken k

-- The second byte has a range of its own.
second : ℕ → ℕ → ℕ → Bytes → Scan
unfolding continuation
second lo hi n [] = broken 1
second lo hi n (b ∷ bs) = if between lo hi b then continuation n 2 bs else broken 1

-- The character whose first byte is `b`.
unfoldable pub scan : ℕ → Bytes → Scan
unfolding second
scan b bs =
    if ltb b 0x80
    then valid 1
    else if between 0xc2 0xdf b
    then second 0x80 0xbf 0 bs
    else if b == 0xe0
    then second 0xa0 0xbf 1 bs
    else if b == 0xed
    then second 0x80 0x9f 1 bs
    else if between 0xe1 0xef b
    then second 0x80 0xbf 1 bs
    else if b == 0xf0
    then second 0x90 0xbf 2 bs
    else if between 0xf1 0xf3 b
    then second 0x80 0xbf 2 bs
    else if b == 0xf4
    then second 0x80 0x8f 2 bs
    else broken 1

-- The first argument counts the bytes of a checked character that are still to be passed.
unfoldable pub utf8_loop : ℕ → Bytes → Bool
unfolding scan
utf8_loop k [] = true
utf8_loop (suc k) (b ∷ bs) = utf8_loop k bs
utf8_loop zero (b ∷ bs) = elim (scan b bs) [ valid n ↦ utf8_loop (n - 1) bs | broken n ↦ false ]

unfoldable pub is_utf8 : Bytes → Bool
unfolding utf8_loop
is_utf8 bs = utf8_loop 0 bs

-- `String::from_utf8`: the same bytes, if they are well formed.
unfoldable pub from_utf8 : Bytes → Option Bytes
unfolding is_utf8
from_utf8 bs = if is_utf8 bs then some bs else none

pub from_utf8-valid : (bs : Bytes) → is_utf8 bs ≡ true → from_utf8 bs ≡ some bs
unfolding from_utf8
from_utf8-valid bs h = rw h

pub from_utf8_only : (bs s : Bytes) → from_utf8 bs ≡ some s → (is_utf8 bs ≡ true) × (s ≡ bs)
unfolding from_utf8
from_utf8_only bs s h = ground arith

-- `String::from_utf8_lossy`: U+FFFD stands for each broken prefix. In `lossy_loop` the flag says
-- whether the bytes that are still to be passed are kept.
unfoldable pub lossy_loop : Bool → ℕ → Bytes → Bytes
unfolding scan
lossy_loop keep k [] = []
lossy_loop true (suc k) (b ∷ bs) = b ∷ lossy_loop true k bs
lossy_loop false (suc k) (b ∷ bs) = lossy_loop false k bs
lossy_loop keep zero (b ∷ bs) = elim (scan b bs) [
  | valid n ↦ b ∷ lossy_loop true (n - 1) bs
  | broken n ↦ 0xef ∷ 0xbf ∷ 0xbd ∷ lossy_loop false (n - 1) bs
]

unfoldable pub from_utf8_lossy : Bytes → Bytes
unfolding lossy_loop
from_utf8_lossy bs = lossy_loop true 0 bs

lossy_loop-valid : (k : ℕ) (bs : Bytes) → utf8_loop k bs ≡ true → lossy_loop true k bs ≡ bs
unfolding utf8_loop lossy_loop
lossy_loop-valid k [] h = refl
lossy_loop-valid (suc k) (b ∷ bs) h = ap (◌∷◌ b) (lossy_loop-valid k bs h)
lossy_loop-valid zero (b ∷ bs) h = go (λ k e. lossy_loop-valid k bs e) (scan b bs) h
  where
    go :
        ((k : ℕ) → utf8_loop k bs ≡ true → lossy_loop true k bs ≡ bs)
        → (s : Scan) → elim s [ valid n ↦ utf8_loop (n - 1) bs | broken n ↦ false ] ≡ true
        → elim s [
          | valid n ↦ b ∷ lossy_loop true (n - 1) bs
          | broken n ↦ 0xef ∷ 0xbf ∷ 0xbd ∷ lossy_loop false (n - 1) bs
        ]
          ≡ b ∷ bs
    go ih (valid n) e = ap (◌∷◌ b) (ih (n - 1) e)
    go ih (broken n) e = cc

-- Well formed text is kept as it is.
pub from_utf8_lossy-valid : (bs : Bytes) → is_utf8 bs ≡ true → from_utf8_lossy bs ≡ bs
unfolding from_utf8_lossy is_utf8
from_utf8_lossy-valid bs h = lossy_loop-valid 0 bs h

-- The bytes of an ASCII text.
abbrev pub ascii : String → Bytes
ascii String.[] = []
ascii (String.◌∷◌ c s) = code c ∷ ascii s
