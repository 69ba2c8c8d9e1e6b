-- ===== src/Tlv/Decode/Total.antt =====
-- The decoder of src/tlv.rs on any input: its fuel and its positions.
use hush_rs.Base.{
  if◌then◌else◌, ℕ, zero, suc, ◌+◌, ◌-◌, ◌*◌, ◌≤◌, ◌<◌, ◌≡◌, ◌≢◌, refl, inl, inr, Bool, true, false,
  length, length-take, take, drop, get_elem?, ltb, leb, arith, Option, none, some, Result, ok, err,
  ◌>>=◌, ◌>>◌, guard, ok_or, map_err, Result-cases,
}
use hush_rs.Std.Words.{Bytes}
use hush_rs.Std.Utf8.{from_utf8}
use hush_rs.Tlv.Value.{
  ValueType, Value, Map, DecodeError, from_u8, out_of_fuel, max_payload_size, max_decode_depth,
}
use hush_rs.Tlv.Map.{new, set}
use hush_rs.Tlv.Varint.{decode_varint}
use hush_rs.Tlv.Varint.Read.{decode_varint_takes}
use hush_rs.Tlv.Decode.{
  read_header, read_word, decode_scalar, as_key, decode_value, decode_items, decode_entries, decode,
}

-- The run came to an end of the code's own: a value with `P`, or one of its errors.
pub data Settles {ℓ κ} {A : Type ℓ} (P : A → Type κ) : Result DecodeError A → Type (ℓ ⊔ κ) where
  gives : {a : A} → P a → Settles P (ok a)
  fails : {e : DecodeError} → e ≢ out_of_fuel → Settles P (err e)

Settles-bind {ℓ κ ℓ' κ'} :
    {A : Type ℓ} {P : A → Type κ} {B : Type ℓ'} {Q : B → Type κ'} {r : Result DecodeError A}
    {f : A → Result DecodeError B}
    → Settles P r
    → ((a : A) → P a → Settles Q (f a))
    → Settles Q (r >>= f)
Settles-bind (gives {a} h) k = k a h
Settles-bind (fails n) k = fails n

Settles-guard {ℓ κ} :
    {A : Type ℓ} {P : A → Type κ} (b : Bool) {e : DecodeError} {r : Result DecodeError A}
    → e ≢ out_of_fuel
    → (b ≡ true → Settles P r)
    → Settles P (guard b e >> r)
Settles-guard true n k = k refl
Settles-guard false n k = fails n

Settles-ok_or {ℓ} :
    {A : Type ℓ} (o : Option A) {e : DecodeError}
    → e ≢ out_of_fuel
    → Settles (λ a. o ≡ some a) (ok_or o e)
Settles-ok_or (some a) n = gives refl
Settles-ok_or none n = fails n

pub Settles-ne {ℓ κ} :
    {A : Type ℓ} {P : A → Type κ} {r : Result DecodeError A} → Settles P r → r ≢ err out_of_fuel
Settles-ne (gives h) = λ e. cc
Settles-ne (fails n) = λ e. n (cc)

varint-Settles :
    (bs : Bytes)
    → Settles (λ r. decode_varint bs ≡ ok r) (map_err DecodeError.varint (decode_varint bs))
varint-Settles bs = elim (Result-cases (decode_varint bs)) [
  | inl (a, e) ↦ rw e (gives refl)
  | inr (x, e) ↦ rw e (fails (λ p. cc))
]

-- The payload lies behind at least two bytes of header, and within the buffer.
abbrev Within : Bytes → ℕ → ValueType × Bytes × ℕ → Type 0
Within buf pos (t, p, pos') = (pos + 2 + length p ≤ pos') × (pos' ≤ length buf)

header-Within :
    (buf : Bytes) (pos len adv : ℕ) (t : ValueType)
    → 1 ≤ adv
    → pos + 1 + adv + len ≤ length buf
    → Within buf pos (t, take len (drop (pos + 1 + adv) buf), pos + 1 + adv + len)
header-Within buf pos len adv t h fits =
    omega (arith, length-take {0} len (drop (pos + 1 + adv) buf))

leb-le : (a b : ℕ) → leb a b ≡ true → a ≤ b
leb-le a b h = ground arith

read_header-Settles : (buf : Bytes) (pos : ℕ) → Settles (Within buf pos) (read_header buf pos)
unfolding read_header
read_header-Settles buf pos = Settles-bind (Settles-ok_or (get_elem? buf pos) (λ p. cc)) λ b _.
    Settles-bind (Settles-ok_or (from_u8 b) (λ p. cc)) λ t _.
      Settles-bind (varint-Settles (drop (pos + 1) buf)) λ (len, adv) e.
        Settles-guard (leb len max_payload_size) (λ p. cc)
          λ small.
            Settles-guard (leb (pos + 1 + adv + len) (length buf)) (λ p. cc)
              λ fits. gives (
                header-Within buf pos len adv t (decode_varint_takes _ len adv e).0
                  (leb-le _ _ fits))

abbrev Anything {ℓ} : {A : Type ℓ} → A → Type 0
Anything a = Unit

read_word-Settles : (t : ValueType) (w : ℕ) (p : Bytes) → Settles Anything (read_word t w p)
unfolding read_word
read_word-Settles t w p = Settles-guard (leb w (length p)) (λ e. cc) λ _. gives tt

decode_scalar-Settles : (t : ValueType) (p : Bytes) → Settles Anything (decode_scalar t p)
unfolding decode_scalar
decode_scalar-Settles ValueType.string p =
    Settles-bind (Settles-ok_or (from_utf8 p) (λ e. cc)) λ s _. gives tt
decode_scalar-Settles ValueType.bytes p = gives tt
decode_scalar-Settles ValueType.array p = gives tt
decode_scalar-Settles ValueType.map p = gives tt
decode_scalar-Settles ValueType.null p = gives tt
decode_scalar-Settles _ p = Settles-bind (read_word-Settles _ _ p) λ n _. gives tt

as_key-Settles : (v : Value) → Settles Anything (as_key v)
as_key-Settles (Value.string s) = gives tt
as_key-Settles _ = fails (λ e. cc)

-- Where a value ends, given where it begins.
abbrev pub EndsWithin : Bytes → ℕ → Value × ℕ → Type 0
EndsWithin buf pos (v, pos') = (pos + 2 ≤ pos') × (pos' ≤ length buf)

-- A payload that settles gives a value that ends where the payload does.
Settles-value {ℓ} :
    {A : Type ℓ} {P : A → Type 0} {r : Result DecodeError A} (g : A → Value) (buf : Bytes)
    (pos pos' : ℕ)
    → Settles P r
    → pos + 2 ≤ pos'
    → pos' ≤ length buf
    → Settles (EndsWithin buf pos) (r >>= λ a. ok (g a, pos'))
Settles-value g buf pos pos' (gives {a} h) lo hi = gives {a = (g a, pos')} (lo, hi)
Settles-value g buf pos pos' (fails n) lo hi = fails n

-- The three kinds of payload.
Settles-by_type {ℓ κ} :
    {A : Type ℓ} {P : A → Type κ} (t : ValueType) {items entries : Result DecodeError A}
    {scalar : ValueType → Result DecodeError A}
    → Settles P items
    → Settles P entries
    → ((t : ValueType) → Settles P (scalar t))
    → Settles P
        (elim t [ ValueType.array ↦ items | ValueType.map ↦ entries | other ↦ scalar other ])
Settles-by_type ValueType.array i e s = i
Settles-by_type ValueType.map i e s = e
Settles-by_type ValueType.string i e s = s ValueType.string
Settles-by_type ValueType.bytes i e s = s ValueType.bytes
Settles-by_type ValueType.uint8 i e s = s ValueType.uint8
Settles-by_type ValueType.uint16 i e s = s ValueType.uint16
Settles-by_type ValueType.uint32 i e s = s ValueType.uint32
Settles-by_type ValueType.uint64 i e s = s ValueType.uint64
Settles-by_type ValueType.int32 i e s = s ValueType.int32
Settles-by_type ValueType.int64 i e s = s ValueType.int64
Settles-by_type ValueType.float32 i e s = s ValueType.float32
Settles-by_type ValueType.float64 i e s = s ValueType.float64
Settles-by_type ValueType.bool i e s = s ValueType.bool
Settles-by_type ValueType.null i e s = s ValueType.null
Settles-by_type ValueType.timestamp i e s = s ValueType.timestamp

Settles-if {ℓ κ} :
    {A : Type ℓ} {P : A → Type κ} (b : Bool) {x y : Result DecodeError A}
    → (b ≡ true → Settles P x)
    → Settles P y
    → Settles P (if b then x else y)
Settles-if true hx hy = hx refl
Settles-if false hx hy = hy

mutual
  unfolding decode_value

  decode_value-Settles :
      (f : ℕ) (buf : Bytes) (pos d : ℕ)
      → 2 * (length buf - pos) < f
      → Settles (EndsWithin buf pos) (decode_value f buf pos d)
  decode_value-Settles zero buf pos d h = absurd (omega arith)
  decode_value-Settles (suc f) buf pos d h =
      Settles-guard (leb d max_decode_depth) (λ e. cc)
        λ _. Settles-bind (read_header-Settles buf pos) λ (t, p, pos') w.
          Settles-by_type t
            (Settles-value Value.array buf pos pos'
              (decode_items-Settles f p 0 (d + 1) (omega arith)) (omega arith) (omega arith))
            (Settles-value Value.map buf pos pos'
              (decode_entries-Settles f p 0 (d + 1) new (omega arith)) (omega arith) (omega arith))
            (λ other.
              Settles-value (λ v. v) buf pos pos' (decode_scalar-Settles other p) (omega arith)
                (omega arith))

  decode_items-Settles :
      (f : ℕ) (payload : Bytes) (p d : ℕ)
      → 2 * (length payload - p) + 1 < f
      → Settles Anything (decode_items f payload p d)
  decode_items-Settles zero payload p d h = absurd (omega arith)
  decode_items-Settles (suc f) payload p d h =
      Settles-if (ltb p (length payload))
        (λ more. Settles-bind (decode_value-Settles f payload p d (omega arith)) λ (v, p') w.
          Settles-bind (decode_items-Settles f payload p' d (omega arith)) λ _ _. gives tt)
        (gives tt)

  decode_entries-Settles :
      (f : ℕ) (payload : Bytes) (p d : ℕ) (m : Map)
      → 2 * (length payload - p) + 1 < f
      → Settles Anything (decode_entries f payload p d m)
  decode_entries-Settles zero payload p d m h = absurd (omega arith)
  decode_entries-Settles (suc f) payload p d m h =
      Settles-if (ltb p (length payload))
        (λ more. Settles-bind (decode_value-Settles f payload p d (omega arith)) λ (kv, p') w.
          Settles-bind (as_key-Settles kv) λ key _.
            Settles-guard (ltb p' (length payload)) (λ e. cc)
              λ _.
                Settles-bind (decode_value-Settles f payload p' d (omega arith))
                  λ (v, p'') w'. decode_entries-Settles f payload p'' d (set key v m) (omega arith))
        (gives tt)

-- From any position of any buffer, with fuel above twice what lies behind it, `decode_value` ends
-- with one of its own errors, or with a value that takes at least two bytes and ends within the
-- buffer.
pub decode_value_lem :
    (f : ℕ) (buf : Bytes) (pos d : ℕ)
    → 2 * (length buf - pos) < f
    → Settles (EndsWithin buf pos) (decode_value f buf pos d)
decode_value_lem f buf pos d h = decode_value-Settles f buf pos d h

-- On any input `decode` ends with a value or with one of its own errors.
pub decode-ne-out_of_fuel : (buf : Bytes) → decode buf ≢ err out_of_fuel
unfolding decode
decode-ne-out_of_fuel buf = Settles-ne (
    Settles-bind {Q = Anything} (decode_value-Settles (2 * length buf + 1) buf 0 0 (omega arith))
      λ _ _. gives tt)
