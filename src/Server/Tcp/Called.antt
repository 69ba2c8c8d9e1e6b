-- ===== src/Server/Tcp/Called.antt =====
-- A client's call, whichever the carrier.
use hush_rs.Base.{
  ℕ, ◌+◌, ◌%◌, ◌^◌, ◌<◌, ◌≡◌, ◌∙◌, refl, ap, false, [], length, append-nil, Option, none, some, ok,
}
use hush_rs.Std.Words.{Bytes}
use hush_rs.Std.Io.{fresh, unexpected_eof, Reader, write_all}
use hush_rs.Std.Eq.{nat_eq}
use hush_rs.Std.HashMap
use hush_rs.Session.Crypto.{Crypto, IsSound}
use hush_rs.Session.Cipher.{nonce_size, key_size}
use hush_rs.Session.Store
use hush_rs.Session.Store.{Session, SessionStore}
use hush_rs.Tlv.Value.{Map}
use hush_rs.Frame.Body.{Response}
use hush_rs.Frame.Body.RoundTrip.{AreCarried}
use hush_rs.Middleware.{Request}
use hush_rs.Server.{
  HandlerType, sync, stream, Handlers, Served, served, unwound, payload_or_empty, is_dead, answer,
  handle_request_stream,
}
use hush_rs.Server.Tcp.{Turn, goes_on, stops, unwinds, tcp_turn}
use hush_rs.Server.Tcp.Conversation.{at_end}
use hush_rs.Server.Tcp.Carriers.{as_turn, IsPlain, tcp_turn-handle_request_stream}
use hush_rs.Client.{Transport, Client, next_seq, exchange_tcp, do_tcp}
use hush_rs.Client.Exchange.{receive-reply, read_request-request_bytes}
use hush_rs.Client.Calls.{meant, sent_by, sent_by-dispatch, serving, do_quinn-handle_request_stream}
use hush_rs.Client.Streams.{call, do_by}

-- What a turn of the loop over TCP sent.
abbrev sent_in : {W : Type 0} → Turn W → Bytes
sent_in (goes_on r w s) = w.outgoing
sent_in (stops w s) = w.outgoing
sent_in (unwinds s) = []

-- The server as the peer of a call on a fresh connection of the client's kind.
abbrev pub answering :
    (c : Crypto) {W : Type 0}
    → Transport
    → Bytes
    → ℕ
    → ℕ
    → Bytes
    → Bytes
    → Handlers W
    → SessionStore
    → W
    → Bytes
    → Reader
answering c Transport.quinn nonce now session_id aid key handlers sessions state sent =
    serving c nonce now session_id aid handlers sessions state sent
answering c Transport.stream nonce now session_id aid key handlers sessions state sent =
    at_end (
      sent_in (tcp_turn c nonce now sessions key session_id aid handlers (at_end sent) fresh state))

meant-IsPlain :
    {W : Type 0} (seq : ℕ) (req : Request) (state : W) (found : Option (HandlerType W))
    (resp : Response)
    → meant seq req state found ≡ some resp
    → IsPlain found
unfolding meant
meant-IsPlain seq req state none resp e = tt
meant-IsPlain seq req state (some (sync handler)) resp e = tt
meant-IsPlain seq req state (some (stream handler)) resp e = cc

sent_in-as_turn : {W : Type 0} (r : Reader) (x : Served W) → sent_in (as_turn r x) ≡ sent_by x
unfolding sent_by
sent_in-as_turn r (served w s) = refl
sent_in-as_turn r (unwound s) = refl

module _ (c : Crypto) (s : IsSound c) {W : Type 0} (cl : Client) (nonce nonce' api_key_id : Bytes)
    (now session_id opcode : ℕ) (payload : Option Map) (handlers : Handlers W)
    (sessions : SessionStore) (sess : Session) (state : W) (resp : Response)
    (nonce_length : length nonce ≡ nonce_size) (reply_nonce_length : length nonce' ≡ nonce_size)
    (key_length : length cl.session_key ≡ key_size) (seq_small : cl.seq < 2 ^ 32)
    (opcode_small : opcode < 2 ^ 16) (carried : AreCarried payload)
    (found : Store.get session_id sessions ≡ some sess) (same : sess.key ≡ cl.session_key)
    (alive : is_dead now sessions (some sess) ≡ false)
    (means : meant cl.seq
        (record {
          opcode = opcode;
          payload = payload_or_empty payload;
          session_id = session_id;
          api_key_id = api_key_id;
        })
        state
        (HashMap.get opcode handlers)
      ≡ some resp)
    (answer_carried : AreCarried resp.payload) where
  -- A client's call, by `do_` over either carrier, on a connection where nothing has been sent yet, is
  -- answered as the server means it. Both sides have one key of 32 bytes, and nonces have 12; the
  -- client's counter is a u32; the session is in the server's store, neither expired nor idle for too
  -- long; the opcode has 16 bits and a synchronous handler that does not panic, or none; and the
  -- payloads can be carried. The client gets the response under the sequence number of its call, and
  -- counts the call.
  pub call-answering :
      (carrier : Transport)
      → cl.transport ≡ carrier
      → call c nonce
          (some fresh)
          fresh
          (answering c carrier nonce' now session_id api_key_id cl.session_key handlers sessions
            state)
          opcode
          payload
          cl
        ≡ (ok (record resp { seq = cl.seq }), record cl { seq = (cl.seq + 1) % 2 ^ 32 })
  unfolding call do_tcp exchange_tcp next_seq write_all handle_request_stream answer
  call-answering Transport.quinn over =
      ap
        (λ t.
          do_by c t nonce (some fresh) fresh
            (serving c nonce' now session_id api_key_id handlers sessions state) opcode payload cl)
        over
      ∙ (do_quinn-handle_request_stream c s cl nonce nonce' api_key_id now session_id opcode payload
          handlers sessions sess state resp nonce_length reply_nonce_length key_length seq_small
          opcode_small carried found same alive means answer_carried)
  call-answering Transport.stream over =
      let key = cl.session_key in
      let req : Request = record {
        opcode = opcode;
        payload = payload_or_empty payload;
        session_id = session_id;
        api_key_id = api_key_id;
      } in
      let (sent, enc, dec) =
        read_request-request_bytes c s nonce key cl.seq opcode payload [] unexpected_eof
          nonce_length key_length seq_small opcode_small carried in
      let (back, rep, rec) =
        receive-reply c s nonce' key fresh cl.seq resp reply_nonce_length key_length refl seq_small
          answer_carried in
      let out =
        sent_by-dispatch c nonce' key req cl.seq (at_end []) fresh state
          (HashMap.get opcode handlers) resp means in
      let turned =
        tcp_turn-handle_request_stream c nonce' key now session_id cl.seq sessions sess api_key_id
          handlers (at_end sent) (at_end []) fresh state
          (record { opcode = opcode; payload = payload }) found same alive
          (rw (append-nil sent) at dec)
          (meant-IsPlain cl.seq req state (HashMap.get opcode handlers) resp means) in
      rw (
        over,
        enc,
        turned,
        sent_in-as_turn (at_end []) (
            handle_request_stream c nonce' now session_id api_key_id handlers sessions (at_end sent)
              fresh state),
        found,
        alive,
        same,
        rw (append-nil sent) at dec,
        out,
        rep,
        rw (append-nil back) at (rec [] unexpected_eof),
      )
