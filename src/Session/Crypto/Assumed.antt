-- ===== src/Session/Crypto/Assumed.antt =====
-- The cryptography that src/session.rs calls: aes_gcm, hkdf and sha2, x25519_dalek. Keys, nonces and
-- points are bytes. What a random generator fills in is an argument of the operations that use it.
use hush_rs.Base.{ℕ, ◌+◌, ◌*◌, ◌≤◌, ◌^◌, ◌≡◌, Bool, Option, some, length, ◌==◌}
use hush_rs.Std.Words.{Bytes}

pub record Crypto : Type 0 where
  -- `Aes256Gcm::new_from_slice` succeeds.
  pub accepts_key : Bytes → Bool
  -- `cipher.encrypt(nonce, plaintext)` and `cipher.decrypt(nonce, ciphertext)`, by key and nonce.
  pub seal : Bytes → Bytes → Bytes → Option Bytes
  pub unseal : Bytes → Bytes → Bytes → Option Bytes
  -- `Hkdf::<Sha256>::new(Some(salt), ikm)` and `expand(info, okm)` for `n` bytes.
  pub hkdf : Bytes → Bytes → Bytes → ℕ → Option Bytes
  -- `PublicKey::from(&secret)` and `secret.diffie_hellman(&public)`.
  pub public_key : Bytes → Bytes
  pub diffie_hellman : Bytes → Bytes → Bytes

-- The documented behaviour of those operations.
pub record IsSound (c : Crypto) : Type 0 where
  -- A key of 32 bytes is accepted, and no other.
  pub key_length : (key : Bytes) → c.accepts_key key ≡ (length key == 32)
  -- What was sealed is unsealed under the same key and nonce, and carries a tag of 16 bytes.
  pub unseal_seal :
      (key nonce text sealed : Bytes)
      → c.seal key nonce text ≡ some sealed
      → c.unseal key nonce sealed ≡ some text
  pub sealed_length :
      (key nonce text sealed : Bytes)
      → c.seal key nonce text ≡ some sealed
      → length sealed ≡ length text + 16
  -- Messages of up to 2^36 - 32 bytes are sealed.
  pub seals :
      (key nonce text : Bytes)
      → length key ≡ 32
      → length nonce ≡ 12
      → length text + 32 ≤ 2 ^ 36
      → (sealed : Bytes) × (c.seal key nonce text ≡ some sealed)
  -- HKDF with SHA-256 expands to up to 255 * 32 bytes.
  pub expands :
      (salt ikm info : Bytes) (n : ℕ)
      → n ≤ 255 * 32
      → (okm : Bytes) × (c.hkdf salt ikm info n ≡ some okm) × (length okm ≡ n)
  -- X25519: points have 32 bytes, and both sides compute the same point.
  pub public_length : (secret : Bytes) → length (c.public_key secret) ≡ 32
  pub agreement :
      (a b : Bytes) → c.diffie_hellman a (c.public_key b) ≡ c.diffie_hellman b (c.public_key a)
