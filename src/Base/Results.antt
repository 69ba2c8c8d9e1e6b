-- ===== src/Base/Results.antt =====
-- Rust's `Result`, and the `?` operator as a monadic bind.
use mathlib.Core.Path.{◌≡◌, refl}
use mathlib.Core.Logic.{◌⊎◌, inl, inr}
use mathlib.Core.Bool.{Bool, true, false}
use mathlib.Core.Option.{Option, none, some}

pub data Result {ℓ κ} (E : Type κ) (A : Type ℓ) : Type (ℓ ⊔ κ) where
  ok : A → Result E A
  err : E → Result E A

infixl 5 ◌>>=◌ ◌>>◌
abbrev pub ◌>>=◌ {ℓ κ μ} :
    {E : Type κ} {A : Type ℓ} {B : Type μ} → Result E A → (A → Result E B) → Result E B
ok a >>= f = f a
err e >>= f = err e

abbrev pub ◌>>◌ {ℓ κ} : {E : Type κ} {B : Type ℓ} → Result E (Unit {0}) → Result E B → Result E B
m >> k = m >>= λ _. k

-- `if !test { return Err(e) }`
abbrev pub guard {κ} : {E : Type κ} → Bool → E → Result E (Unit {0})
guard true e = ok tt
guard false e = err e

-- `ok_or`
abbrev pub ok_or {ℓ κ} : {E : Type κ} {A : Type ℓ} → Option A → E → Result E A
ok_or (some a) e = ok a
ok_or none e = err e

-- `map_err`
abbrev pub map_err {ℓ κ μ} :
    {E : Type κ} {F : Type μ} {A : Type ℓ} → (E → F) → Result E A → Result F A
map_err f (ok a) = ok a
map_err f (err e) = err (f e)

pub Result-cases {ℓ κ} :
    {E : Type κ} {A : Type ℓ} (r : Result E A) → ((a : A) × (r ≡ ok a)) ⊎ ((e : E) × (r ≡ err e))
Result-cases (ok a) = inl (a, refl)
Result-cases (err e) = inr (e, refl)

pub ok-injective {ℓ κ} :
    {E : Type κ} {A : Type ℓ} {a b : A} → ◌≡◌ {A = Result E A} (ok a) (ok b) → a ≡ b
ok-injective h = cc

-- What a successful `?` tells.
pub bind-eq_ok {ℓ κ μ} :
    {E : Type κ} {A : Type ℓ} {B : Type μ} (m : Result E A) (f : A → Result E B) {b : B}
    → (m >>= f) ≡ ok b
    → (a : A) × (m ≡ ok a) × (f a ≡ ok b)
bind-eq_ok (ok a) f h = (a, refl, h)
bind-eq_ok (err e) f h = cc

pub guard-eq_ok {ℓ κ} :
    {E : Type κ} {A : Type ℓ} (test : Bool) (e : E) (r : Result E A) {a : A}
    → (guard test e >> r) ≡ ok a
    → (test ≡ true) × (r ≡ ok a)
guard-eq_ok true e r h = (refl, h)
guard-eq_ok false e r h = cc

pub map_err-eq_ok {ℓ κ μ} :
    {E : Type κ} {F : Type μ} {A : Type ℓ} (f : E → F) (r : Result E A) {a : A}
    → map_err f r ≡ ok a
    → r ≡ ok a
map_err-eq_ok f (ok a) h = cc
map_err-eq_ok f (err e) h = cc

-- The result is an error.
abbrev pub IsErr {ℓ κ} : {E : Type κ} {A : Type ℓ} → Result E A → Type 0
IsErr (ok a) = ⊥
IsErr (err e) = Unit

module _ {ℓ κ μ} {E : Type κ} {A : Type ℓ} {B : Type μ} where
  -- A step that fails after any other, and one that fails before any other.
  pub bind-IsErr : (m : Result E A) (f : A → Result E B) → ((a : A) → IsErr (f a)) → IsErr (m >>= f)
  bind-IsErr (ok a) f h = h a
  bind-IsErr (err e) f h = tt

  pub bind_failed : (m : Result E A) (f : A → Result E B) → IsErr m → IsErr (m >>= f)
  bind_failed (ok a) f h = absurd h
  bind_failed (err e) f h = tt

pub map_err-IsErr {ℓ κ μ} :
    {E : Type κ} {F : Type μ} {A : Type ℓ} (f : E → F) (m : Result E A)
    → IsErr m
    → IsErr (map_err f m)
map_err-IsErr f (ok a) h = h
map_err-IsErr f (err e) h = tt

-- What goes on from a first result: where the first fails the whole is its error, and else the whole
-- is a value with `T`.
abbrev pub Continues : {E A B : Type 0} → (B → Type 0) → Result E A → Result E B → Type 0
Continues T (err e) whole = whole ≡ err e
Continues T (ok a) (err e) = ⊥
Continues T (ok a) (ok b) = T b

pub bind-Continues :
    {E A B : Type 0} (T : B → Type 0) (first : Result E A) (next : A → B)
    → ((a : A) → first ≡ ok a → T (next a))
    → Continues T first (first >>= λ a. ok (next a))
bind-Continues T (ok a) next h = h a refl
bind-Continues T (err e) next h = refl
