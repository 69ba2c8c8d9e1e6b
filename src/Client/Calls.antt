-- ===== src/Client/Calls.antt =====
-- A client's call, answered by a server.
use hush_rs.Base.{
  ℕ, ◌+◌, ◌%◌, ◌^◌, ◌<◌, ◌≡◌, refl, false, [], length, append-nil, ap, Option, none, some, ok,
}
use hush_rs.Std.Words.{Bytes}
use hush_rs.Std.Io.{fresh, unexpected_eof, Reader, Writer, write_all}
use hush_rs.Std.Eq.{nat_eq}
use hush_rs.Std.HashMap
use hush_rs.Session.Crypto.{Crypto, IsSound}
use hush_rs.Session.Cipher.{nonce_size, key_size}
use hush_rs.Session.Store
use hush_rs.Session.Store.{Session, SessionStore}
use hush_rs.Tlv.Value.{Map}
use hush_rs.Frame.Body.{Response, error_response, internal_error}
use hush_rs.Frame.Body.RoundTrip.{AreCarried}
use hush_rs.Middleware.{Request, Outcome, responded, failed, panicked}
use mathlib.Core.Option.{some-injective}
use hush_rs.Std.Utf8.{ascii}
use hush_rs.Server.{
  HandlerType, sync, stream, Handlers, Served, served, unwound, not_found_response,
  payload_or_empty, reply, finish, dispatch, answer, is_dead, handle_request_stream,
}
use hush_rs.Client.{Client, exchange_quinn, do_quinn, next_seq}
use hush_rs.Client.Exchange.{receive-reply, read_request-request_bytes}

-- The response for the outcome of a synchronous handler.
unfoldable pub by_outcome : Outcome → Option Response
by_outcome (responded resp) = some resp
by_outcome (failed e) = some (error_response internal_error (ascii "internal error"))
by_outcome panicked = none

module _ {W : Type 0} where
  -- What the server means to answer to a request, if it answers by itself.
  unfoldable pub meant : ℕ → Request → W → Option (HandlerType W) → Option Response
  meant seq req w none = some (not_found_response req.opcode seq)
  meant seq req w (some (sync handler)) = by_outcome (handler req w).0
  meant seq req w (some (stream handler)) = none

  -- What was sent.
  unfoldable pub sent_by : Served W → Bytes
  sent_by (served w s) = w.outgoing
  sent_by (unwound s) = []

module _ (c : Crypto) {W : Type 0} where
  sent_by-finish :
      (nonce key : Bytes) (seq : ℕ) (w : Writer) (o : Outcome × W) (resp : Response)
      → by_outcome o.0 ≡ some resp
      → sent_by (finish c nonce key seq w o) ≡ (reply c nonce key w seq resp).outgoing
  unfolding finish sent_by by_outcome
  sent_by-finish nonce key seq w (responded r, s) resp h =
      ap (λ x. (reply c nonce key w seq x).outgoing) (some-injective r resp h)
  sent_by-finish nonce key seq w (failed e, s) resp h =
      ap (λ x. (reply c nonce key w seq x).outgoing) (some-injective _ resp h)
  sent_by-finish nonce key seq w (panicked, s) resp h = cc

  pub sent_by-dispatch :
      (nonce key : Bytes) (req : Request) (seq : ℕ) (r : Reader) (w : Writer) (s : W)
      (found : Option (HandlerType W)) (resp : Response)
      → meant seq req s found ≡ some resp
      → sent_by (dispatch c nonce key req seq r w s found) ≡ (reply c nonce key w seq resp).outgoing
  unfolding dispatch sent_by meant
  sent_by-dispatch nonce key req seq r w s none resp h =
      ap (λ x. (reply c nonce key w seq x).outgoing) (some-injective _ resp h)
  sent_by-dispatch nonce key req seq r w s (some (sync handler)) resp h =
      sent_by-finish nonce key seq w (handler req s) resp h
  sent_by-dispatch nonce key req seq r w s (some (stream handler)) resp h = cc

  -- The server as the peer of a call: it reads what the client sent and then the end of the stream.
  abbrev pub serving : Bytes → ℕ → ℕ → Bytes → Handlers W → SessionStore → W → Bytes → Reader
  serving nonce now session_id api_key_id handlers sessions state sent =
      let r : Reader = record { incoming = sent; ending = unexpected_eof } in
      record {
        incoming = sent_by (
            handle_request_stream c nonce now session_id api_key_id handlers sessions r fresh
              state);
        ending = unexpected_eof;
      }

module _ (c : Crypto) (s : IsSound c) {W : Type 0} where
  -- A client's call over QUIC is answered as the server means it: the client and the session that the
  -- server holds have one key of 32 bytes, nonces have 12 bytes, the client's counter is a u32, the
  -- session is neither expired nor idle for too long, the opcode has 16 bits, and the payloads of
  -- request and response can be carried. The client gets the handler's response, or the error response
  -- where the handler fails or is not found, under the sequence number of its call, and counts the
  -- call.
  pub do_quinn-handle_request_stream :
      (cl : Client) (nonce nonce' api_key_id : Bytes) (now session_id opcode : ℕ)
      (payload : Option Map) (handlers : Handlers W) (sessions : SessionStore) (sess : Session)
      (state : W) (resp : Response)
      → length nonce ≡ nonce_size
      → length nonce' ≡ nonce_size
      → length cl.session_key ≡ key_size
      → cl.seq < 2 ^ 32
      → opcode < 2 ^ 16
      → AreCarried payload
      → Store.get session_id sessions ≡ some sess
      → sess.key ≡ cl.session_key
      → is_dead now sessions (some sess) ≡ false
      → meant cl.seq
          (record {
            opcode = opcode;
            payload = payload_or_empty payload;
            session_id = session_id;
            api_key_id = api_key_id;
          })
          state
          (HashMap.get opcode handlers)
        ≡ some resp
      → AreCarried resp.payload
      → do_quinn c nonce
          (some fresh)
          (serving c nonce' now session_id api_key_id handlers sessions state)
          opcode
          payload
          cl
        ≡ (ok (record resp { seq = cl.seq }), record cl { seq = (cl.seq + 1) % 2 ^ 32 })
  unfolding do_quinn exchange_quinn next_seq write_all handle_request_stream answer
  do_quinn-handle_request_stream cl nonce nonce' aid now sid opcode payload handlers sessions sess
        state resp hn hn' hk hs ho hp found same alive means hr =
      let key = cl.session_key in
      let (sent, enc, dec) =
        read_request-request_bytes c s nonce key cl.seq opcode payload [] unexpected_eof hn hk hs ho
          hp in
      let (back, rep, rec) = receive-reply c s nonce' key fresh cl.seq resp hn' hk refl hs hr in
      let out =
        sent_by-dispatch c nonce' key
          (record {
            opcode = opcode;
            payload = payload_or_empty payload;
            session_id = sid;
            api_key_id = aid;
          })
          cl.seq (record { incoming = []; ending = unexpected_eof }) fresh state
          (HashMap.get opcode handlers) resp means in
      rw (
        enc,
        found,
        alive,
        same,
        rw (append-nil sent) at dec,
        out,
        rep,
        rw (append-nil back) at (rec [] unexpected_eof),
      )
