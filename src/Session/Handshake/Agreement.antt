-- ===== src/Session/Handshake/Agreement.antt =====
-- Both ends of the handshake, joined.
use hush_rs.Base.{
  ℕ, ◌+◌, ◌^◌, ◌≤◌, ◌<◌, ◌≡◌, refl, ◌==◌, true, not, ◌||◌, ◌++◌, ltb, length, length-append,
  take_prefix, drop_prefix, append_assoc, arith, some, ok,
}
use hush_rs.Std.Words.{Bytes, to_be_bytes, length-to_be_bytes, from_be_bytes-to_be_bytes}
use hush_rs.Std.Utf8.{ascii, is_utf8, from_utf8-valid}
use hush_rs.Std.Io.{IoError, Writer, write_all, read_exact-append}
use hush_rs.Session.Crypto.{Crypto, IsSound}
use hush_rs.Session.Cipher.{shared_secret, derive_session_key}
use hush_rs.Session.Store.{new_session, ApiKeyStore}
use hush_rs.Session.Handshake.{ApiKey, hello, negotiate_client, negotiate_server}
use native.Mathlib.Nat.{mod-eq_of_lt}

module _ (c : Crypto) (s : IsSound c) where
  -- Both sides derive one key of 32 bytes.
  pub derived :
      (a b ikm : Bytes)
      → (key : Bytes) × (length key ≡ 32)
        × (derive_session_key c (shared_secret c a (c.public_key b)) ikm ≡ ok key)
        × (derive_session_key c (shared_secret c b (c.public_key a)) ikm ≡ ok key)
  unfolding derive_session_key shared_secret
  derived a b ikm =
      let (key, e, len) =
        s.expands (c.diffie_hellman a (c.public_key b)) ikm (ascii "hush-v1-key") 32
          (omega arith) in
      (key, len, rw e, rw (← s.agreement a b, e))

  client_done :
      (a b : Bytes) (now next_id : ℕ) (key : ApiKey) (w : Writer) (rest session_key : Bytes)
      (e : IoError)
      → w.is_open ≡ true
      → next_id < 2 ^ 64
      → derive_session_key c (shared_secret c a (c.public_key b)) key.secret ≡ ok session_key
      → negotiate_client c a now key w
          (record { incoming = (c.public_key b ++ to_be_bytes 8 next_id) ++ rest; ending = e })
        ≡ ok (
          new_session now next_id key.id session_key,
          record w { outgoing = w.outgoing ++ hello c key.id a },
          record { incoming = rest; ending = e },
        )
  unfolding negotiate_client write_all
  client_done a b now next_id key w rest session_key e o hi d =
      let reply = c.public_key b ++ to_be_bytes 8 next_id in
      let size : length reply ≡ 40 = omega (
        arith,
        length-append {0} (c.public_key b) (to_be_bytes 8 next_id),
        s.public_length b,
        length-to_be_bytes 8 next_id,
      ) in
      rw (
        o,
        read_exact-append 40 reply rest e size,
        take_prefix 32 (c.public_key b) (to_be_bytes 8 next_id) (s.public_length b),
        drop_prefix 32 (c.public_key b) (to_be_bytes 8 next_id) (s.public_length b),
        from_be_bytes-to_be_bytes 8 next_id (omega arith),
        d,
      )

  server_done :
      (a b : Bytes) (now next_id : ℕ) (key : ApiKey) (key_store : ApiKeyStore) (w : Writer)
      (rest session_key : Bytes) (e : IoError)
      → w.is_open ≡ true
      → 1 ≤ length key.id
      → length key.id ≤ 256
      → is_utf8 key.id ≡ true
      → key_store key.id ≡ some key.secret
      → derive_session_key c (shared_secret c b (c.public_key a)) key.secret ≡ ok session_key
      → negotiate_server c b
          (c.public_key b)
          key_store
          next_id
          now
          (record { incoming = hello c key.id a ++ rest; ending = e })
          w
        ≡ ok (
          new_session now next_id key.id session_key,
          record { incoming = rest; ending = e },
          record w { outgoing = w.outgoing ++ (c.public_key b ++ to_be_bytes 8 next_id) },
        )
  unfolding negotiate_server write_all
  server_done a b now next_id key key_store w rest session_key e o lo hi u k d =
      let n = length key.id in
      let body = key.id ++ c.public_key a in
      let size : length body ≡ n + 32 =
        omega (arith, length-append {0} key.id (c.public_key a), s.public_length a) in
      let split : hello c key.id a ++ rest ≡ to_be_bytes 2 n ++ (body ++ rest) = rw (
        mod-eq_of_lt {n = length key.id} {m = 2 ^ 16} (omega arith),
        append_assoc {0} (to_be_bytes 2 n) body rest,
      ) in
      let long : not (n == 0 || ltb 256 n) ≡ true = ground arith in
      rw (
        split,
        read_exact-append 2 (to_be_bytes 2 n) (body ++ rest) e (length-to_be_bytes 2 n),
        from_be_bytes-to_be_bytes 2 n (omega arith),
        long,
        read_exact-append (n + 32) body rest e size,
        take_prefix n key.id (c.public_key a) refl,
        drop_prefix n key.id (c.public_key a) refl,
        from_utf8-valid key.id u,
        k,
        d,
        o,
      )

  -- When the client has an API key whose id has 1 to 256 bytes of UTF-8, the server's key store knows
  -- its secret, the next session id is a u64, and the peers take what is sent, the server that reads
  -- the client's hello, and the client that reads the server's reply, both finish: with the same
  -- session id, API key id and session key, of 32 bytes, and they consume exactly those bytes.
  pub handshake_agrees :
      (a b : Bytes) (client_now server_now next_id : ℕ) (key : ApiKey) (key_store : ApiKeyStore)
      (to_server to_client : Writer) (requests responses : Bytes) (e e' : IoError)
      → to_server.is_open ≡ true
      → to_client.is_open ≡ true
      → 1 ≤ length key.id
      → length key.id ≤ 256
      → is_utf8 key.id ≡ true
      → key_store key.id ≡ some key.secret
      → next_id < 2 ^ 64
      → (session_key : Bytes) × (length session_key ≡ 32)
        × (negotiate_server c b
              (c.public_key b)
              key_store
              next_id
              server_now
              (record { incoming = hello c key.id a ++ requests; ending = e })
              to_client
            ≡ ok (
              new_session server_now next_id key.id session_key,
              record { incoming = requests; ending = e },
              record to_client {
                outgoing = to_client.outgoing ++ (c.public_key b ++ to_be_bytes 8 next_id);
              },
            ))
        × (negotiate_client c a client_now key to_server (record {
          incoming = (c.public_key b ++ to_be_bytes 8 next_id) ++ responses;
          ending = e';
        })
            ≡ ok (
              new_session client_now next_id key.id session_key,
              record to_server { outgoing = to_server.outgoing ++ hello c key.id a },
              record { incoming = responses; ending = e' },
            ))
  handshake_agrees a b cn sn next_id key key_store ts tc requests responses e e' os oc lo hi u k
        small =
      let (session_key, len, dc, ds) = derived a b key.secret in
      (
        session_key,
        len,
        server_done a b sn next_id key key_store tc requests session_key e oc lo hi u k ds,
        client_done a b cn next_id key ts responses session_key e' os small dc,
      )
