-- ===== src/Client/Dial.antt =====
-- The handshake of `Client::dial` and `Client::dial_tcp` of src/client.rs.
pub mod Welcome
pub mod Agreed
use hush_rs.Base.{
  ℕ, ◌+◌, ◌%◌, ◌^◌, [], ◌∷◌, ◌++◌, Bool, true, false, length, take, drop, if◌then◌else◌, Result, ok,
  ◌>>=◌, map_err,
}
use hush_rs.Std.Words.{Bytes, to_be_bytes, from_be_bytes}
use hush_rs.Std.Io.{IoError, Reader, Writer, read_exact, write_all}
use hush_rs.Session.Crypto.{Crypto}
use hush_rs.Session.Cipher.{shared_secret, derive_session_key}
use hush_rs.Session.Store.{Session, new_session}
use hush_rs.Session.Handshake.{ApiKey, hello}
use hush_rs.Server.Establish.{Carrier, quic, tcp, anonymous_secret}
use hush_rs.Client.{ClientError, negotiate, session, io, Client, Transport}

abbrev pub write_error : Carrier → IoError → ClientError
write_error quic e = negotiate
write_error tcp e = io e

abbrev pub transport_of : Carrier → Transport
transport_of quic = Transport.quinn
transport_of tcp = Transport.stream

-- `api_key.id.is_empty()`
abbrev pub is_nil : Bytes → Bool
is_nil [] = true
is_nil (b ∷ bs) = false

module _ (c : Crypto) (carrier : Carrier) where
  -- The reading of the server's answer, which both branches share.
  unfoldable pub finish_dial :
      Bytes → ℕ → Bytes → Bytes → Reader → Result ClientError (Client × Reader)
  finish_dial secret now id ikm r = do
    (resp, r') ← map_err (λ _. negotiate) (read_exact (32 + 8) r)
    let server_pub = take 32 resp
    let sid = from_be_bytes (drop 32 resp)
    let shared = shared_secret c secret server_pub
    key ← map_err session (derive_session_key c shared ikm)
    ok (
      record {
        transport = transport_of carrier;
        session = new_session now sid id key;
        seq = 0;
        session_key = key;
      },
      r',
    )

  -- The branch for an empty id.
  unfoldable pub dial_anonymous :
      Bytes → ℕ → Writer → (Bytes → Reader) → Result ClientError (Client × Writer × Reader)
  dial_anonymous secret now w peer = do
    w' ← map_err (write_error carrier) (write_all (to_be_bytes 2 0 ++ c.public_key secret) w)
    (cl, r) ← finish_dial secret now [] anonymous_secret (peer w'.outgoing)
    ok (cl, w', r)

  -- The branch for an id with a secret.
  unfoldable pub dial_keyed :
      Bytes → ℕ → ApiKey → Writer → (Bytes → Reader) → Result ClientError (Client × Writer × Reader)
  dial_keyed secret now key w peer = do
    w' ← map_err (write_error carrier) (write_all (hello c key.id secret) w)
    (cl, r) ← finish_dial secret now key.id key.secret (peer w'.outgoing)
    ok (cl, w', r)

  -- `dial` and `dial_tcp`, on the stream that was opened.
  unfoldable pub dial :
      Bytes → ℕ → ApiKey → Writer → (Bytes → Reader) → Result ClientError (Client × Writer × Reader)
  dial secret now key w peer =
      if is_nil key.id then dial_anonymous secret now w peer else dial_keyed secret now key w peer
