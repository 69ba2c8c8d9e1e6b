-- ===== src/Server/Quic/Answers.antt =====
-- The streams of `handle_connection` in src/server.rs against the specification that the loop over TCP
-- has too, `Conversation`.
use hush_rs.Base.{
  ℕ, suc, ◌≡◌, refl, sym, ◌∙◌, List, [], ◌∷◌, append-nil, All, some, false, Result, ok, ◌>>=◌,
  length,
}
use hush_rs.Std.Words.{Bytes}
use hush_rs.Std.Io.{unexpected_eof, fresh, Reader, Writer}
use hush_rs.Std.Eq.{nat_eq}
use hush_rs.Std.HashMap
use hush_rs.Session.Crypto.{Crypto, IsSound}
use hush_rs.Session.Cipher.{nonce_size, key_size}
use hush_rs.Session.Store
use hush_rs.Session.Store.{Session}
use hush_rs.Frame.Body.{Response, read_request_async}
use hush_rs.Server.{Handlers, Served, served, unwound, is_dead, reply, handle_request_stream}
use hush_rs.Server.Tcp.{Surroundings, goes_on}
use hush_rs.Server.Tcp.Carriers.{as_turn, IsPlain, tcp_turn-handle_request_stream}
use hush_rs.Server.Tcp.Conversation.{
  Call, IsSendable, Conversation, over, next, at_end, respond, request_of, tcp_turn-respond,
}
use hush_rs.Server.Tcp.Answers.{IsAnswer}
use hush_rs.Server.Quic.{handle_streams}
use hush_rs.Client.{ClientError, request_bytes, receive}
use hush_rs.Client.Exchange.{receive-reply, read_request-request_bytes}

module _ (c : Crypto) where
  -- A stream for each call, with its bytes under the nonces from the `i`-th on.
  unfoldable pub streams_of :
      (ℕ → Bytes) → Bytes → ℕ → List Call → Result ClientError (List (Reader × Writer))
  streams_of nonces key i [] = ok []
  streams_of nonces key i (call ∷ calls) = do
    first ← request_bytes c (nonces i) key call.seq call.opcode call.payload
    rest ← streams_of nonces key (suc i) calls
    ok ((at_end first, fresh) ∷ rest)

  -- The reading of a response from each stream.
  unfoldable pub receive_each : Bytes → List Writer → Result ClientError (List Response)
  receive_each key [] = ok []
  receive_each key (w ∷ ws) = do
    (resp, r) ← receive c key (at_end w.outgoing)
    resps ← receive_each key ws
    ok (resp ∷ resps)

as_turn-goes_on :
    {W : Type 0} (r : Reader) (w : Writer) (t : W) (x : Served W)
    → as_turn r x ≡ goes_on r w t
    → x ≡ served w t
as_turn-goes_on r w t (served w' s) h = cc
as_turn-goes_on r w t (unwound s) h = cc

module _ (c : Crypto) (s : IsSound c) {W : Type 0} (key api_key_id : Bytes) (session_id : ℕ)
    (handlers : Handlers W) (nonces : ℕ → Bytes) (env : Surroundings) (sess : ℕ → Session)
    (key_length : length key ≡ key_size) (nonce_length : (i : ℕ) → length (nonces i) ≡ nonce_size)
    (reply_nonce_length : (i : ℕ) → length (env.nonce i) ≡ nonce_size)
    (found : (i : ℕ) → Store.get session_id (env.stores i) ≡ some (sess i))
    (same : (i : ℕ) → (sess i).key ≡ key)
    (alive : (i : ℕ) → is_dead (env.now i) (env.stores i) (some (sess i)) ≡ false) where
  -- One stream, with a call that is answered.
  handle_request_stream-respond :
      (i : ℕ) (call : Call) (first : Bytes) (from to : W) (resp : Response)
      → IsPlain (HashMap.get call.opcode handlers)
      → read_request_async c (at_end first) (some key)
        ≡ ok ((record { opcode = call.opcode; payload = call.payload }, call.seq), at_end [])
      → respond call.seq
          (request_of session_id api_key_id call)
          from
          (HashMap.get call.opcode handlers)
        ≡ some (resp, to)
      → handle_request_stream c
          (env.nonce i)
          (env.now i)
          session_id
          api_key_id
          handlers
          (env.stores i)
          (at_end first)
          fresh
          from
        ≡ served (reply c (env.nonce i) key fresh call.seq resp) to
  handle_request_stream-respond i call first from to resp plain read e =
      let whole = append-nil first in
      let turned =
        tcp_turn-respond c (env.nonce i) (env.now i) (env.stores i) key session_id api_key_id
          handlers call first [] fresh from to resp (rw (found i) (alive i)) (rw whole read) e in
      as_turn-goes_on (at_end []) _ to _ (
        sym (
          tcp_turn-handle_request_stream c (env.nonce i) key (env.now i) session_id call.seq
            (env.stores i) (sess i) api_key_id handlers (at_end first) (at_end []) fresh from
            (record { opcode = call.opcode; payload = call.payload }) (found i) (same i) (alive i)
            read plain)
        ∙ (rw whole at turned))

  -- A client opens a stream for each of any number of calls over a QUIC connection, each with a sequence
  -- number of 32 bits, an opcode of 16 bits that has a synchronous handler or none, and a payload that
  -- can be carried, and closes its half. Both sides have one key of 32 bytes, all nonces have 12 bytes,
  -- and at every stream the session is in the store with that key and neither expired nor idle for too
  -- long. When the handlers run in the order of the streams and the calls can be answered one after the
  -- other, each by its handler on the state that the one before it left, none of them panicking, and
  -- the responses can be carried, then the streams leave the state behind the last call, and what was
  -- sent on each of them, the client reads as the response to its call, under the call's number.
  pub handle_streams-Conversation :
      (i : ℕ) {calls : List Call} {from to : W} {resps : List Response}
      → Conversation session_id api_key_id handlers calls from resps to
      → All (λ (call : Call). IsPlain (HashMap.get call.opcode handlers)) calls
      → All IsSendable calls
      → All IsAnswer resps
      → (streams : List (Reader × Writer)) × (ws : List Writer) × (streams_of c nonces key i calls
          ≡ ok streams)
        × (handle_streams c i env session_id api_key_id handlers streams from ≡ (ws, to))
        × (receive_each c key ws ≡ ok resps)
  unfolding streams_of receive_each handle_streams
  handle_streams-Conversation i over plain sendable carried = ([], [], refl, refl, refl)
  handle_streams-Conversation i (next {call} {calls} {resp = resp} {resps = resps} e talk)
        (plain, rest_plain) (here, later) (fits, rest_fit) =
      let (one, replied, received) =
        receive-reply c s (env.nonce i) key fresh call.seq resp (reply_nonce_length i) key_length
          refl here.seq_small fits in
      let (streams, ws, requested, handled, all_received) =
        handle_streams-Conversation (suc i) talk rest_plain later rest_fit in
      let (first, requested_first, read) =
        read_request-request_bytes c s (nonces i) key call.seq call.opcode call.payload []
          unexpected_eof (nonce_length i) key_length here.seq_small here.opcode_small
          here.carried in
      let answered_first =
        handle_request_stream-respond i call first _ _ resp plain (rw (append-nil first) at read)
          e in
      let heard = received [] unexpected_eof in
      (
        (at_end first, fresh) ∷ streams,
        reply c (env.nonce i) key fresh call.seq resp ∷ ws,
        rw (requested_first, requested),
        rw (answered_first, handled),
        rw (replied, ← append-nil one, heard, all_received),
      )
