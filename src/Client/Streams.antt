-- ===== src/Client/Streams.antt =====
-- Streaming requests of src/client.rs, and the operations that choose by the client's transport.
use hush_rs.Base.{
  ℕ, ◌+◌, ◌%◌, ◌^◌, ◌<◌, ◌≡◌, [], false, Option, some, length, append-nil, Result, ok, err, ◌>>=◌,
  map_err, ok_or,
}
use hush_rs.Std.Words.{Bytes}
use hush_rs.Std.Io.{fresh, unexpected_eof, Reader, Writer, write_all}
use hush_rs.Std.Eq.{nat_eq}
use hush_rs.Std.HashMap
use hush_rs.Tlv.Value.{Map}
use hush_rs.Session.Crypto.{Crypto, IsSound}
use hush_rs.Session.Cipher.{nonce_size, key_size}
use hush_rs.Session.Store
use hush_rs.Session.Store.{Session, SessionStore}
use hush_rs.Frame.Body.{Response}
use hush_rs.Frame.Body.RoundTrip.{AreCarried}
use hush_rs.Server.{
  stream, Handlers, StreamHandler, payload_or_empty, is_dead, dispatch, answer,
  handle_request_stream,
}
use hush_rs.Client.{
  ClientError, negotiate, io, Transport, Client, next_seq, request_bytes, do_quinn, do_tcp,
}
use hush_rs.Client.Calls.{sent_by, serving}
use hush_rs.Client.Exchange.{read_request-request_bytes}

-- `session_id`
unfoldable pub session_id : Client → ℕ
session_id cl = cl.session.id

abbrev pub response_of :
    Result ClientError (Response × Writer × Reader) → Result ClientError Response
response_of (ok (resp, w, r)) = ok resp
response_of (err e) = err e

-- `open_bi_stream`, where `opened` is what `conn.open_bi()` gives.
unfoldable pub open_bi_stream : Option Writer → Transport → Result ClientError Writer
open_bi_stream opened Transport.quinn = ok_or opened ClientError.quinn
open_bi_stream opened Transport.stream = err negotiate

module _ (c : Crypto) where
  abbrev pub do_by :
      Transport
      → Bytes
      → Option Writer
      → Writer
      → (Bytes → Reader)
      → ℕ
      → Option Map
      → Client
      → Result ClientError Response × Client
  do_by Transport.quinn nonce opened w peer opcode payload cl =
      do_quinn c nonce opened peer opcode payload cl
  do_by Transport.stream nonce opened w peer opcode payload cl =
      let (answered, cl') = do_tcp c nonce w peer opcode payload cl in (response_of answered, cl')

  -- `do_`: `opened` is what `conn.open_bi()` gives, and `w` the stream behind the lock.
  unfoldable pub call :
      Bytes
      → Option Writer
      → Writer
      → (Bytes → Reader)
      → ℕ
      → Option Map
      → Client
      → Result ClientError Response × Client
  call nonce opened w peer opcode payload cl =
      do_by cl.transport nonce opened w peer opcode payload cl

  -- The two branches at the end of `start_stream`.
  unfoldable pub send_start :
      Transport → Option Writer → Writer → (Bytes → Reader) → Bytes → Result ClientError Reader
  send_start Transport.quinn opened w peer frame_bytes = do
    send ← ok_or opened ClientError.quinn
    send' ← map_err (λ _. negotiate) (write_all frame_bytes send)
    ok (peer send'.outgoing)
  send_start Transport.stream opened w peer frame_bytes = do
    w' ← map_err io (write_all frame_bytes w)
    ok (peer w'.outgoing)

  -- `start_stream`: the reader of what the server sends back.
  unfoldable pub start_stream :
      Bytes
      → Option Writer
      → Writer
      → (Bytes → Reader)
      → ℕ
      → Option Map
      → Client
      → Result ClientError Reader × Client
  start_stream nonce opened w peer opcode payload cl =
      let (seq, cl') = next_seq cl in
      (
        request_bytes c nonce cl.session_key seq opcode payload >>= λ frame_bytes.
            send_start cl.transport opened w peer frame_bytes,
        cl',
      )

module _ (c : Crypto) (s : IsSound c) {W : Type 0} where
  -- A streaming request of a QUIC client reaches its handler: where the client and the session that the
  -- server holds have one key of 32 bytes, the nonce has 12 bytes, the client's counter is a u32, the
  -- session is neither expired nor idle for too long, the opcode has 16 bits and a stream handler, and
  -- the payload can be carried, the handler gets the
  -- request, the end of the client's half and the session key, and the client's reader has exactly the
  -- bytes that the handler sends.
  pub start_stream-handle_request_stream :
      (cl : Client) (nonce nonce' api_key_id : Bytes) (now id opcode : ℕ) (payload : Option Map)
      (handlers : Handlers W) (handler : StreamHandler W) (sessions : SessionStore) (sess : Session)
      (state : W) (w : Writer)
      → cl.transport ≡ Transport.quinn
      → length nonce ≡ nonce_size
      → length cl.session_key ≡ key_size
      → cl.seq < 2 ^ 32
      → opcode < 2 ^ 16
      → AreCarried payload
      → Store.get id sessions ≡ some sess
      → sess.key ≡ cl.session_key
      → is_dead now sessions (some sess) ≡ false
      → HashMap.get opcode handlers ≡ some (stream handler)
      → start_stream c nonce
          (some fresh)
          w
          (serving c nonce' now id api_key_id handlers sessions state)
          opcode
          payload
          cl
        ≡ (
          ok (record {
            incoming =
                (handler
                  (record {
                    opcode = opcode;
                    payload = payload_or_empty payload;
                    session_id = id;
                    api_key_id = api_key_id;
                  })
                  (record { incoming = []; ending = unexpected_eof })
                  fresh
                  cl.session_key
                  state).0.outgoing;
            ending = unexpected_eof;
          }),
          record cl { seq = (cl.seq + 1) % 2 ^ 32 },
        )
  unfolding start_stream send_start next_seq write_all handle_request_stream answer dispatch sent_by
  start_stream-handle_request_stream cl nonce nonce' aid now id opcode payload handlers handler
        sessions sess state w over_quinn hn hk hs ho hp found same alive streaming =
      let (sent, enc, dec) =
        read_request-request_bytes c s nonce cl.session_key cl.seq opcode payload [] unexpected_eof
          hn hk hs ho hp in
      rw (enc, over_quinn, found, alive, same, rw (append-nil sent) at dec, streaming)
