-- ===== src/Std/Eq.antt =====
-- Rust's `Eq` for the types that are keys of maps.
use hush_rs.Base.{ℕ, ◌≡◌, refl, ◌↔◌, Bool, true, false, ◌&&◌, [], ◌∷◌, arith}
use hush_rs.Base
use hush_rs.Std.Words.{Bytes}

pub record Eq {ℓ} (A : Type ℓ) : Type ℓ where
  pub beq : A → A → Bool
  pub beq_iff : (a b : A) → (beq a b ≡ true) ↔ (a ≡ b)

instance abbrev pub nat_eq : Eq ℕ
nat_eq = record { beq = Base.◌==◌; beq_iff = Base.==_iff }

-- `==` on strings and on byte arrays.
unfoldable pub bytes_eq : Bytes → Bytes → Bool
bytes_eq [] [] = true
bytes_eq [] (b ∷ bs) = false
bytes_eq (a ∷ as') [] = false
bytes_eq (a ∷ as') (b ∷ bs) = Base.◌==◌ a b && bytes_eq as' bs

pub bytes_eq-eq : (as' bs : Bytes) → bytes_eq as' bs ≡ true → as' ≡ bs
unfolding bytes_eq
bytes_eq-eq [] [] h = refl
bytes_eq-eq [] (b ∷ bs) h = cc
bytes_eq-eq (a ∷ as') [] h = cc
bytes_eq-eq (a ∷ as') (b ∷ bs) h = ground (arith, bytes_eq-eq as' bs)

pub bytes_eq_self : (bs : Bytes) → bytes_eq bs bs ≡ true
unfolding bytes_eq
bytes_eq_self [] = refl
bytes_eq_self (b ∷ bs) = ground (arith, bytes_eq_self bs)

pub bytes_eq_iff : (as' bs : Bytes) → (bytes_eq as' bs ≡ true) ↔ (as' ≡ bs)
bytes_eq_iff as' bs = (bytes_eq-eq as' bs, λ e. rw e (bytes_eq_self bs))

instance abbrev pub bytes_instance : Eq Bytes
bytes_instance = record { beq = bytes_eq; beq_iff = bytes_eq_iff }
