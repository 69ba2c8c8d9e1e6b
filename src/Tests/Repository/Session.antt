-- ===== src/Tests/Repository/Session.antt =====
-- `mod tests` of src/session.rs, for any cryptography that is sound; `test_decrypt_wrong_key` would need
-- that it authenticates.
use hush_rs.Base.{◌*◌, ◌≡◌, refl, length, arith, Result, ok, ◌>>=◌}
use hush_rs.Std.Words.{Bytes}
use hush_rs.Std.Utf8.{ascii}
use hush_rs.Session.Crypto.{Crypto, IsSound}
use hush_rs.Session.Cipher.{
  SessionError, shared_secret, derive_session_key, encrypt, decrypt, decrypt-encrypt,
}
use hush_rs.Session.Handshake.{ApiKey}
use hush_rs.Session.Keys.{generate, generate_key_pair}

-- `test_generate_api_key`, where hexadecimal doubles the length
generate_api_key :
    (hex : Bytes → Bytes) (secret id_bytes : Bytes)
    → ((bs : Bytes) → length (hex bs) ≡ 2 * length bs)
    → length secret ≡ 32
    → length id_bytes ≡ 8
    → (length (generate hex secret id_bytes).id ≡ 16)
      × (length (generate hex secret id_bytes).secret ≡ 32)
unfolding generate
generate_api_key hex secret id_bytes doubles secret_full id_full =
    (omega (arith, doubles id_bytes), secret_full)

module _ (c : Crypto) where
  -- The body of `test_key_exchange`, of which `test_handshake_roundtrip` is a part: both keys
  unfoldable exchange_keys : ApiKey → Bytes → Bytes → Result SessionError (Bytes × Bytes)
  exchange_keys key client_random server_random = do
    let (client_priv, client_pub) = generate_key_pair c client_random
    let (server_priv, server_pub) = generate_key_pair c server_random
    let client_shared = shared_secret c client_priv server_pub
    let server_shared = shared_secret c server_priv client_pub
    client_key ← derive_session_key c client_shared key.secret
    server_key ← derive_session_key c server_shared key.secret
    ok (client_key, server_key)

  -- The body of `test_encrypt_decrypt`
  unfoldable reread : Bytes → ApiKey → Bytes → Result SessionError Bytes
  reread nonce key plaintext = do
    encrypted ← encrypt c nonce key.secret plaintext
    decrypt c key.secret encrypted

  module _ (s : IsSound c) where
    key_exchange :
        (key : ApiKey) (a b : Bytes)
        → (k : Bytes) × (exchange_keys key a b ≡ ok (k, k)) × (length k ≡ 32)
    unfolding exchange_keys generate_key_pair shared_secret derive_session_key
    key_exchange key a b =
        let point = c.diffie_hellman b (c.public_key a) in
        let (k, e, full) = s.expands point key.secret (ascii "hush-v1-key") 32 (omega arith) in
        (k, rw (s.agreement a b, e) refl, full)

    encrypt_decrypt :
        (nonce : Bytes) (key : ApiKey)
        → length nonce ≡ 12
        → length key.secret ≡ 32
        → reread nonce key (ascii "hello hush") ≡ ok (ascii "hello hush")
    unfolding reread
    encrypt_decrypt nonce key nonce_full secret_full =
        let (sealed, e, size, back) =
          decrypt-encrypt c s nonce key.secret (ascii "hello hush") nonce_full secret_full
            (omega arith) in
        rw (e, back) refl
