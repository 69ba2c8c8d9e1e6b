-- ===== src/Client/Dial/Welcome.antt =====
-- The server's side of a handshake, and the client's reading of its answer.
use hush_rs.Base.{
  ℕ, ◌+◌, ◌^◌, ◌≤◌, ◌<◌, ◌≡◌, refl, ◌==◌, true, false, [], ◌∷◌, ◌++◌, leb, length, length-append,
  take_prefix, drop_prefix, append_assoc, arith, some, ok,
}
use hush_rs.Std.Words.{Bytes, to_be_bytes, length-to_be_bytes, from_be_bytes-to_be_bytes}
use hush_rs.Std.Utf8.{is_utf8, from_utf8_lossy-valid}
use hush_rs.Std.Io.{IoError, Writer, write_all, read_exact-append}
use hush_rs.Session.Crypto.{Crypto, IsSound}
use hush_rs.Session.Cipher.{shared_secret, derive_session_key}
use hush_rs.Session.Store.{new_session, ApiKeyStore}
use hush_rs.Session.Handshake.{hello}
use hush_rs.Server.Establish.{
  Carrier, anonymous_secret, accept_anonymous, accept_keyed, accept_handshake,
}
use hush_rs.Client.Dial.{transport_of, finish_dial}
use native.Mathlib.Nat.{mod-eq_of_lt}

-- What the session key is derived from: the key's secret, or for an empty id the constant.
abbrev pub secret_for : Bytes → Bytes → Bytes
secret_for [] secret = anonymous_secret
secret_for (b ∷ id) secret = secret

-- An id that the server welcomes: the empty one, or one of at most 256 bytes of UTF-8 whose secret
-- the key store knows.
abbrev pub IsWelcome : ApiKeyStore → Bytes → Bytes → Type 0
IsWelcome key_store [] secret = Unit
IsWelcome key_store (b ∷ id) secret =
    (length (b ∷ id) ≤ 256) × (is_utf8 (b ∷ id) ≡ true) × (key_store (b ∷ id) ≡ some secret)

-- The server's answer.
abbrev pub welcome : Crypto → Bytes → ℕ → Bytes
welcome c b session_id = c.public_key b ++ to_be_bytes 8 session_id

module _ (c : Crypto) (s : IsSound c) (carrier : Carrier) where
  pub client_welcomed :
      (a b : Bytes) (now session_id : ℕ) (id ikm rest session_key : Bytes) (e : IoError)
      → session_id < 2 ^ 64
      → derive_session_key c (shared_secret c a (c.public_key b)) ikm ≡ ok session_key
      → finish_dial c carrier a now id ikm
          (record { incoming = welcome c b session_id ++ rest; ending = e })
        ≡ ok (
          record {
            transport = transport_of carrier;
            session = new_session now session_id id session_key;
            seq = 0;
            session_key = session_key;
          },
          record { incoming = rest; ending = e },
        )
  unfolding finish_dial
  client_welcomed a b now session_id id ikm rest session_key e hi d =
      let size : length (welcome c b session_id) ≡ 40 = omega (
        arith,
        length-append {0} (c.public_key b) (to_be_bytes 8 session_id),
        s.public_length b,
        length-to_be_bytes 8 session_id,
      ) in
      rw (
        read_exact-append 40 (welcome c b session_id) rest e size,
        take_prefix 32 (c.public_key b) (to_be_bytes 8 session_id) (s.public_length b),
        drop_prefix 32 (c.public_key b) (to_be_bytes 8 session_id) (s.public_length b),
        from_be_bytes-to_be_bytes 8 session_id (omega arith),
        d,
      )

  pub server_welcomes :
      (a b : Bytes) (session_id : ℕ) (id secret : Bytes) (key_store : ApiKeyStore) (w : Writer)
      (rest session_key : Bytes) (e : IoError)
      → w.is_open ≡ true
      → IsWelcome key_store id secret
      → derive_session_key c (shared_secret c b (c.public_key a)) (secret_for id secret)
        ≡ ok session_key
      → accept_handshake c carrier b
          (c.public_key b)
          key_store
          session_id
          (record { incoming = hello c id a ++ rest; ending = e })
          w
        ≡ ok (
          (id, session_key),
          record { incoming = rest; ending = e },
          record w { outgoing = w.outgoing ++ welcome c b session_id },
        )
  unfolding accept_handshake accept_anonymous accept_keyed write_all
  server_welcomes a b session_id [] secret key_store w rest session_key e o h d = rw (
    append_assoc {0} (to_be_bytes 2 0) (c.public_key a) rest,
    read_exact-append 2 (to_be_bytes 2 0) (c.public_key a ++ rest) e (length-to_be_bytes 2 0),
    from_be_bytes-to_be_bytes 2 0 (omega arith),
    read_exact-append 32 (c.public_key a) rest e (s.public_length a),
    d,
    o,
  )
  server_welcomes a b session_id (x ∷ xs) secret key_store w rest session_key e o (hi, u, k) d =
      let id : Bytes = x ∷ xs in
      let n = length id in
      let body = id ++ c.public_key a in
      let size : length body ≡ n + 32 =
        omega (arith, length-append {0} id (c.public_key a), s.public_length a) in
      let split : hello c id a ++ rest ≡ to_be_bytes 2 n ++ (body ++ rest) = rw (
        mod-eq_of_lt {n = length id} {m = 2 ^ 16} (omega arith),
        append_assoc {0} (to_be_bytes 2 n) body rest,
      ) in
      let some_id : (n == 0) ≡ false = ground arith in
      let short : leb n 256 ≡ true = ground arith in
      rw (
        split,
        read_exact-append 2 (to_be_bytes 2 n) (body ++ rest) e (length-to_be_bytes 2 n),
        from_be_bytes-to_be_bytes 2 n (omega arith),
        short,
        some_id,
        read_exact-append (n + 32) body rest e size,
        take_prefix n id (c.public_key a) refl,
        drop_prefix n id (c.public_key a) refl,
        from_utf8_lossy-valid id u,
        k,
        d,
        o,
      )
