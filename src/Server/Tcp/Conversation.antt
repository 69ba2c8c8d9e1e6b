-- ===== src/Server/Tcp/Conversation.antt =====
-- What a TCP connection promises: the requests are answered one by one, in their order, each by its
-- handler on the state that the one before it left.
use hush_rs.Base.{
  ℕ, zero, suc, ◌<◌, ◌^◌, ◌≡◌, false, List, [], ◌∷◌, ◌++◌, Option, none, some, Result, ok, ◌>>=◌,
  arith,
}
use hush_rs.Std.Words.{Bytes}
use hush_rs.Std.Utf8.{ascii}
use hush_rs.Std.Io.{unexpected_eof, Reader, Writer, read_exact}
use hush_rs.Std.Eq.{nat_eq}
use hush_rs.Std.HashMap
use hush_rs.Tlv.Value.{Map}
use hush_rs.Session.Crypto.{Crypto}
use hush_rs.Session.Store
use hush_rs.Session.Store.{SessionStore}
use hush_rs.Frame.Wire.{read_frame, read_frame_async}
use hush_rs.Frame.Body.{Response, error_response, internal_error, read_request_async}
use hush_rs.Frame.Body.RoundTrip.{AreCarried}
use hush_rs.Middleware.{Request, Outcome, responded, failed, panicked}
use hush_rs.Server.{
  HandlerType, sync, stream, Handlers, payload_or_empty, not_found_response, is_dead, reply,
}
use hush_rs.Server.Tcp.{
  goes_on, stops, no_streaming_response, Surroundings, ended, tcp_finish, tcp_dispatch, tcp_answer,
  tcp_turn, serve_loop,
}
use hush_rs.Client.{ClientError, request_bytes, receive}

-- A call of the client, under its sequence number.
pub record Call : Type 0 where
  pub seq : ℕ
  pub opcode : ℕ
  pub payload : Option Map

pub record IsSendable (call : Call) : Type 0 where
  pub seq_small : call.seq < 2 ^ 32
  pub opcode_small : call.opcode < 2 ^ 16
  pub carried : AreCarried call.payload

-- The request that a handler gets.
abbrev pub request_of : ℕ → Bytes → Call → Request
request_of session_id api_key_id call = record {
  opcode = call.opcode;
  payload = payload_or_empty call.payload;
  session_id = session_id;
  api_key_id = api_key_id;
}

module _ {W : Type 0} where
  -- The response for a handler's result, and the state behind it; none after a panic.
  unfoldable pub answered : Outcome × W → Option (Response × W)
  answered (responded resp, s) = some (resp, s)
  answered (failed e, s) = some (error_response internal_error (ascii "internal error"), s)
  answered (panicked, s) = none

  unfoldable pub respond : ℕ → Request → W → Option (HandlerType W) → Option (Response × W)
  unfolding answered
  respond seq req s none = some (not_found_response req.opcode seq, s)
  respond seq req s (some (stream handler)) = some (no_streaming_response seq, s)
  respond seq req s (some (sync handler)) = answered (handler req s)

  -- The calls are answered in turn, from one state to another.
  pub data Conversation (session_id : ℕ) (api_key_id : Bytes) (handlers : Handlers W)
      : List Call → W → List Response → W → Type 0 where
    over : {s : W} → Conversation session_id api_key_id handlers [] s [] s
    next :
        {call : Call} {calls : List Call} {s t u : W} {resp : Response} {resps : List Response}
        → respond call.seq
            (request_of session_id api_key_id call)
            s
            (HashMap.get call.opcode handlers)
          ≡ some (resp, t)
        → Conversation session_id api_key_id handlers calls t resps u
        → Conversation session_id api_key_id handlers
            (call ∷ calls)
            s
            (record resp { seq = call.seq } ∷ resps)
            u

module _ (c : Crypto) where
  -- The bytes of all calls, one behind the other, under the nonces from the `i`-th on.
  unfoldable pub requests_bytes : (ℕ → Bytes) → Bytes → ℕ → List Call → Result ClientError Bytes
  requests_bytes nonces key i [] = ok []
  requests_bytes nonces key i (call ∷ calls) = do
    first ← request_bytes c (nonces i) key call.seq call.opcode call.payload
    rest ← requests_bytes nonces key (suc i) calls
    ok (first ++ rest)

  -- The reading of `n` responses.
  unfoldable pub receive_all : ℕ → Bytes → Reader → Result ClientError (List Response × Reader)
  receive_all zero key r = ok ([], r)
  receive_all (suc n) key r = do
    (resp, r') ← receive c key r
    (resps, r'') ← receive_all n key r'
    ok (resp ∷ resps, r'')

abbrev pub at_end : Bytes → Reader
at_end bs = record { incoming = bs; ending = unexpected_eof }

module _ (c : Crypto) {W : Type 0} where
  tcp_finish-answered :
      (nonce key : Bytes) (seq : ℕ) (r : Reader) (w : Writer) (o : Outcome × W) (resp : Response)
      (t : W)
      → answered o ≡ some (resp, t)
      → tcp_finish c nonce key seq r w o ≡ goes_on r (reply c nonce key w seq resp) t
  unfolding tcp_finish answered
  tcp_finish-answered nonce key seq r w (responded x, s) resp t h = ground arith
  tcp_finish-answered nonce key seq r w (failed e, s) resp t h = ground arith
  tcp_finish-answered nonce key seq r w (panicked, s) resp t h = cc

  tcp_dispatch-respond :
      (nonce key : Bytes) (req : Request) (seq : ℕ) (r : Reader) (w : Writer) (s t : W)
      (found : Option (HandlerType W)) (resp : Response)
      → respond seq req s found ≡ some (resp, t)
      → tcp_dispatch c nonce key req seq r w s found ≡ goes_on r (reply c nonce key w seq resp) t
  unfolding tcp_dispatch respond
  tcp_dispatch-respond nonce key req seq r w s t none resp h = ground arith
  tcp_dispatch-respond nonce key req seq r w s t (some (stream f)) resp h = ground arith
  tcp_dispatch-respond nonce key req seq r w s t (some (sync f)) resp h =
      tcp_finish-answered nonce key seq r w (f req s) resp t h

  -- At the end of the stream the loop ends.
  pub tcp_turn-at_end :
      (nonce : Bytes) (now : ℕ) (sessions : SessionStore) (key : Bytes) (session_id : ℕ)
      (api_key_id : Bytes) (handlers : Handlers W) (w : Writer) (s : W)
      → is_dead now sessions (Store.get session_id sessions) ≡ false
      → tcp_turn c nonce now sessions key session_id api_key_id handlers (at_end []) w s ≡ stops w s
  unfolding tcp_turn tcp_answer read_request_async read_frame_async read_frame read_exact
  tcp_turn-at_end nonce now sessions key sid aid handlers w s alive = rw alive

  -- A request that was sent is answered, and the loop goes on behind it.
  pub tcp_turn-respond :
      (nonce : Bytes) (now : ℕ) (sessions : SessionStore) (key : Bytes) (session_id : ℕ)
      (api_key_id : Bytes) (handlers : Handlers W) (call : Call) (sent rest : Bytes) (w : Writer)
      (s t : W) (resp : Response)
      → is_dead now sessions (Store.get session_id sessions) ≡ false
      → read_request_async c (at_end (sent ++ rest)) (some key)
        ≡ ok ((record { opcode = call.opcode; payload = call.payload }, call.seq), at_end rest)
      → respond call.seq
          (request_of session_id api_key_id call)
          s
          (HashMap.get call.opcode handlers)
        ≡ some (resp, t)
      → tcp_turn c nonce now sessions key session_id api_key_id handlers (at_end (sent ++ rest)) w s
        ≡ goes_on (at_end rest) (reply c nonce key w call.seq resp) t
  unfolding tcp_turn tcp_answer
  tcp_turn-respond nonce now sessions key sid aid handlers call sent rest w s t resp alive e h =
      rw (alive, e)
        (tcp_dispatch-respond nonce key (request_of sid aid call) call.seq (at_end rest) w s t
          (HashMap.get call.opcode handlers) resp h)

  pub serve_loop_stops :
      (f i : ℕ) (env : Surroundings) (key : Bytes) (session_id : ℕ) (api_key_id : Bytes)
      (handlers : Handlers W) (r : Reader) (w w' : Writer) (s s' : W)
      → tcp_turn c (env.nonce i) (env.now i) (env.stores i) key session_id api_key_id handlers r w s
        ≡ stops w' s'
      → serve_loop c (suc f) i env key session_id api_key_id handlers r w s ≡ ended i w' s'
  unfolding serve_loop
  serve_loop_stops f i env key sid aid handlers r w w' s s' e = rw (serve_loop, e)

  pub serve_loop_goes_on :
      (f i : ℕ) (env : Surroundings) (key : Bytes) (session_id : ℕ) (api_key_id : Bytes)
      (handlers : Handlers W) (r r' : Reader) (w w' : Writer) (s s' : W)
      → tcp_turn c (env.nonce i) (env.now i) (env.stores i) key session_id api_key_id handlers r w s
        ≡ goes_on r' w' s'
      → serve_loop c (suc f) i env key session_id api_key_id handlers r w s
        ≡ serve_loop c f (suc i) env key session_id api_key_id handlers r' w' s'
  unfolding serve_loop
  serve_loop_goes_on f i env key sid aid handlers r r' w w' s s' e = rw (serve_loop, e)
