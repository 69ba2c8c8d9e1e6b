-- ===== src/Session/Cipher.antt =====
-- `encrypt`, `decrypt` and `derive_session_key` of src/session.rs.
use hush_rs.Base.{
  ℕ, ◌+◌, ◌≤◌, ◌<◌, ◌^◌, ◌≡◌, true, ◌++◌, leb, length, length-append, take, drop, take_prefix,
  drop_prefix, arith, Result, ok, err, ◌>>=◌, ◌>>◌, guard, ok_or,
}
use hush_rs.Std.Words.{Bytes}
use hush_rs.Std.Utf8.{ascii}
use hush_rs.Session.Crypto.{Crypto, IsSound}

-- The texts in `SessionError::Crypto`.
pub data CryptoMessage : Type 0 where
  encrypt_failed too_short authentication_failed write_failed read_failed : CryptoMessage
  invalid_key_length invalid_key_id : CryptoMessage
  unknown_api_key : Bytes → CryptoMessage

-- `SessionError`
pub data SessionError : Type 0 where
  hkdf aes : SessionError
  crypto : CryptoMessage → SessionError

-- `KEY_SIZE`, `NONCE_SIZE`, `TAG_SIZE`, `PUB_KEY_SIZE`
abbrev pub key_size : ℕ
key_size = 32

abbrev pub nonce_size : ℕ
nonce_size = 12

abbrev pub tag_size : ℕ
tag_size = 16

abbrev pub pub_key_size : ℕ
pub_key_size = 32

module _ (c : Crypto) where
  -- `shared_secret` and `shared_secret_static`
  unfoldable pub shared_secret : Bytes → Bytes → Bytes
  shared_secret priv_key pub_key = c.diffie_hellman priv_key pub_key

  -- `derive_session_key`
  unfoldable pub derive_session_key : Bytes → Bytes → Result SessionError Bytes
  derive_session_key shared api_key_secret =
      ok_or (c.hkdf shared api_key_secret (ascii "hush-v1-key") key_size) SessionError.hkdf

  -- `encrypt`, with the nonce that the random generator gives.
  unfoldable pub encrypt : Bytes → Bytes → Bytes → Result SessionError Bytes
  encrypt nonce key plaintext = do
    guard (c.accepts_key key) aes
    ciphertext ← ok_or (c.seal key nonce plaintext) (crypto encrypt_failed)
    ok (nonce ++ ciphertext)

  -- `decrypt`; `split_at(NONCE_SIZE)` is `take` and `drop`.
  unfoldable pub decrypt : Bytes → Bytes → Result SessionError Bytes
  decrypt key sealed = do
    guard (leb (nonce_size + tag_size) (length sealed)) (crypto too_short)
    guard (c.accepts_key key) aes
    ok_or (c.unseal key (take nonce_size sealed) (drop nonce_size sealed))
        (crypto authentication_failed)

  -- Without 28 bytes there is no nonce and tag, whatever the key.
  pub decrypt_short :
      (key sealed : Bytes)
      → length sealed < nonce_size + tag_size
      → decrypt key sealed ≡ err (crypto too_short)
  unfolding decrypt
  decrypt_short key sealed h = ground arith

  module _ (s : IsSound c) where
    accepts : (key : Bytes) → length key ≡ key_size → c.accepts_key key ≡ true
    accepts key h = rw (s.key_length key, h)

    -- Under a key of 32 bytes a message of up to 2^36 - 32 bytes is encrypted, to 28 bytes more
    -- than it has, and `decrypt` under that key gives it back.
    pub decrypt-encrypt :
        (nonce key plaintext : Bytes)
        → length nonce ≡ nonce_size
        → length key ≡ key_size
        → length plaintext + 32 ≤ 2 ^ 36
        → (sealed : Bytes) × (encrypt nonce key plaintext ≡ ok sealed)
          × (length sealed ≡ length plaintext + (nonce_size + tag_size))
          × (decrypt key sealed ≡ ok plaintext)
    unfolding encrypt decrypt
    decrypt-encrypt nonce key plaintext hn hk ht =
        let (sealed, e) = s.seals key nonce plaintext hk hn ht in
        let size = s.sealed_length key nonce plaintext sealed e in
        let enough : leb (nonce_size + tag_size) (length (nonce ++ sealed)) ≡ true =
          ground (arith, length-append {0} nonce sealed) in
        (
          nonce ++ sealed,
          rw (accepts key hk, e),
          omega (arith, length-append {0} nonce sealed),
          rw (
            enough,
            accepts key hk,
            take_prefix nonce_size nonce sealed hn,
            drop_prefix nonce_size nonce sealed hn,
            s.unseal_seal key nonce plaintext sealed e,
          ),
        )
