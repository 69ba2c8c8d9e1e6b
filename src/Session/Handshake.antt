-- ===== src/Session/Handshake.antt =====
-- `ApiKey`, `negotiate_client` and `negotiate_server` of src/session.rs. A secret is what the random
-- generator gave; the public key that belongs to it is `public_key` of it.
pub mod Agreement
use hush_rs.Base.{
  ℕ, ◌+◌, ◌%◌, ◌^◌, ◌==◌, Bool, true, not, ◌||◌, ◌++◌, ltb, length, take, drop, Option, some,
  Result, ok, err, ◌>>=◌, ◌>>◌, guard, ok_or, map_err,
}
use hush_rs.Std.Words.{Bytes, to_be_bytes, from_be_bytes}
use hush_rs.Std.Utf8.{from_utf8}
use hush_rs.Std.Io.{Reader, Writer, read_exact, write_all}
use hush_rs.Session.Crypto.{Crypto}
use hush_rs.Session.Cipher.{
  SessionError, crypto, write_failed, read_failed, invalid_key_length, invalid_key_id,
  unknown_api_key, pub_key_size, shared_secret, derive_session_key,
}
use hush_rs.Session.Store.{Session, new_session, ApiKeyStore}

-- `ApiKey`
pub record ApiKey : Type 0 where
  pub id : Bytes
  pub secret : Bytes

module _ (c : Crypto) where
  -- The bytes that the client sends first; the length is cast to a u16.
  abbrev pub hello : Bytes → Bytes → Bytes
  hello id secret = to_be_bytes 2 (length id % 2 ^ 16) ++ (id ++ c.public_key secret)

  -- `negotiate_client`
  unfoldable pub negotiate_client :
      Bytes → ℕ → ApiKey → Writer → Reader → Result SessionError (Session × Writer × Reader)
  negotiate_client secret now key w r = do
    w' ← map_err (λ _. crypto write_failed) (write_all (hello key.id secret) w)
    (resp, r') ← map_err (λ _. crypto read_failed) (read_exact (pub_key_size + 8) r)
    let server_pub = take pub_key_size resp
    let session_id = from_be_bytes (drop pub_key_size resp)
    let shared = shared_secret c secret server_pub
    session_key ← derive_session_key c shared key.secret
    ok (new_session now session_id key.id session_key, w', r')

  -- `negotiate_server`
  unfoldable pub negotiate_server :
      Bytes
      → Bytes
      → ApiKeyStore
      → ℕ
      → ℕ
      → Reader
      → Writer
      → Result SessionError (Session × Reader × Writer)
  negotiate_server server_secret server_public key_store next_id now r w = do
    (header, r') ← map_err (λ _. crypto read_failed) (read_exact 2 r)
    let key_len = from_be_bytes header
    guard (not (key_len == 0 || ltb 256 key_len)) (crypto invalid_key_length)
    (key_buf, r'') ← map_err (λ _. crypto read_failed) (read_exact (key_len + pub_key_size) r')
    api_key_id ← ok_or (from_utf8 (take key_len key_buf)) (crypto invalid_key_id)
    let client_pub = drop key_len key_buf
    api_key_secret ← ok_or (key_store api_key_id) (crypto (unknown_api_key api_key_id))
    let shared = shared_secret c server_secret client_pub
    session_key ← derive_session_key c shared api_key_secret
    w' ← map_err (λ _. crypto write_failed) (write_all (server_public ++ to_be_bytes 8 next_id) w)
    ok (new_session now next_id api_key_id session_key, r'', w')
