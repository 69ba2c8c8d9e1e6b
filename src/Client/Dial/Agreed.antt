-- ===== src/Client/Dial/Agreed.antt =====
-- A client that dials and the server that accepts it, together.
use hush_rs.Base.{ℕ, ◌^◌, ◌<◌, ◌≡◌, refl, true, [], ◌∷◌, ◌++◌, length, append-nil, Result, ok, err}
use hush_rs.Std.Words.{Bytes}
use hush_rs.Std.Io.{fresh, unexpected_eof, Reader, Writer, write_all}
use hush_rs.Session.Crypto.{Crypto, IsSound}
use hush_rs.Session.Store.{new_session, ApiKeyStore}
use hush_rs.Session.Handshake.{ApiKey, hello}
use hush_rs.Session.Handshake.Agreement.{derived}
use hush_rs.Server.Establish.{Carrier, ServerError, accept_handshake}
use hush_rs.Client.{Client}
use hush_rs.Client.Dial.{transport_of, finish_dial, dial_anonymous, dial_keyed, dial}
use hush_rs.Client.Dial.Welcome.{secret_for, IsWelcome, welcome, client_welcomed, server_welcomes}

-- What a server has sent at the end of a handshake.
abbrev pub answer_of : Result ServerError ((Bytes × Bytes) × Reader × Writer) → Bytes
answer_of (ok (established, r, w)) = w.outgoing
answer_of (err e) = []

-- The server as the peer of a client that dials.
abbrev pub accepting : Crypto → Carrier → Bytes → ApiKeyStore → ℕ → Bytes → Reader
accepting c carrier b key_store session_id sent = record {
  incoming = answer_of (
      accept_handshake c carrier b (c.public_key b) key_store session_id
        (record { incoming = sent; ending = unexpected_eof }) fresh);
  ending = unexpected_eof;
}

module _ (c : Crypto) (s : IsSound c) (carrier : Carrier) where
  first_bytes :
      (a : Bytes) (now : ℕ) (key : ApiKey) (peer : Bytes → Reader) (cl : Client) (r : Reader)
      → finish_dial c carrier a now key.id (secret_for key.id key.secret) (peer (hello c key.id a))
        ≡ ok (cl, r)
      → dial c carrier a now key fresh peer
        ≡ ok (cl, record { outgoing = hello c key.id a; is_open = true }, r)
  unfolding dial dial_anonymous dial_keyed write_all
  first_bytes a now key peer cl r h = by_id key.id key.secret h
    where
      by_id :
          (id secret : Bytes)
          → finish_dial c carrier a now id (secret_for id secret) (peer (hello c id a)) ≡ ok (cl, r)
          → dial c carrier a now (record { id = id; secret = secret }) fresh peer
            ≡ ok (cl, record { outgoing = hello c id a; is_open = true }, r)
      by_id [] secret e = rw e
      by_id (b ∷ id) secret e = rw e

  -- The two halves, for one key whatever the client sends next.
  pub established :
      (a b : Bytes) (now session_id : ℕ) (key : ApiKey) (key_store : ApiKeyStore)
      → session_id < 2 ^ 64
      → IsWelcome key_store key.id key.secret
      → (session_key : Bytes) × (length session_key ≡ 32)
        × ((requests : Bytes)
            → accept_handshake c carrier b
                (c.public_key b)
                key_store
                session_id
                (record { incoming = hello c key.id a ++ requests; ending = unexpected_eof })
                fresh
              ≡ ok (
                (key.id, session_key),
                record { incoming = requests; ending = unexpected_eof },
                record { outgoing = welcome c b session_id; is_open = true },
              ))
        × (dial c carrier a now key fresh (accepting c carrier b key_store session_id)
            ≡ ok (
              record {
                transport = transport_of carrier;
                session = new_session now session_id key.id session_key;
                seq = 0;
                session_key = session_key;
              },
              record { outgoing = hello c key.id a; is_open = true },
              record { incoming = []; ending = unexpected_eof },
            ))
  established a b now session_id key key_store hi known =
      let (session_key, len, dc, ds) = derived c s a b (secret_for key.id key.secret) in
      let accept = λ (more : Bytes).
        server_welcomes c s carrier a b session_id key.id key.secret key_store fresh more
          session_key unexpected_eof refl known ds in
      let served = accept [] in
      let answered =
        client_welcomed c s carrier a b now session_id key.id (secret_for key.id key.secret) []
          session_key unexpected_eof hi dc in
      (
        session_key,
        len,
        accept,
        first_bytes a now key (accepting c carrier b key_store session_id) _ _ (
            rw (rw (append-nil (hello c key.id a)) at served)
              (rw (append-nil (welcome c b session_id)) at answered)),
      )

  -- When a client dials with an empty id, or with one of at most 256 bytes of UTF-8 whose secret the
  -- server's key store knows, and the session id is a u64, both sides finish: the server, whatever
  -- follows the client's first bytes, with the client's id and a session key of 32 bytes, and the
  -- client with that key and the server's session id, counting its calls from 0.
  pub dial-accept_handshake :
      (a b requests : Bytes) (now session_id : ℕ) (key : ApiKey) (key_store : ApiKeyStore)
      → session_id < 2 ^ 64
      → IsWelcome key_store key.id key.secret
      → (session_key : Bytes) × (length session_key ≡ 32)
        × (accept_handshake c carrier b
              (c.public_key b)
              key_store
              session_id
              (record { incoming = hello c key.id a ++ requests; ending = unexpected_eof })
              fresh
            ≡ ok (
              (key.id, session_key),
              record { incoming = requests; ending = unexpected_eof },
              record { outgoing = welcome c b session_id; is_open = true },
            ))
        × (dial c carrier a now key fresh (accepting c carrier b key_store session_id)
            ≡ ok (
              record {
                transport = transport_of carrier;
                session = new_session now session_id key.id session_key;
                seq = 0;
                session_key = session_key;
              },
              record { outgoing = hello c key.id a; is_open = true },
              record { incoming = []; ending = unexpected_eof },
            ))
  dial-accept_handshake a b requests now session_id key key_store hi known =
      let (session_key, len, accepted, dialled) =
        established a b now session_id key key_store hi known in
      (session_key, len, accepted requests, dialled)
