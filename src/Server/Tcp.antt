-- ===== src/Server/Tcp.antt =====
-- `handle_tcp_connection` of src/server.rs: the handshake, the loop over the requests of the
-- connection, and what is left of it. What other tasks do to the session store in between, the clock
-- and the random generator are arguments.
pub mod Ends
pub mod Conversation
pub mod Answers
pub mod Whole
pub mod Carriers
pub mod Called
pub mod Recovered
pub mod Rule
pub mod Timeout
use hush_rs.Base.{
  ℕ, zero, suc, ◌+◌, [], Bool, Option, none, some, Result, ok, err, ◌>>=◌, length, if◌then◌else◌,
}
use hush_rs.Std.Words.{Bytes}
use hush_rs.Std.Utf8.{ascii}
use hush_rs.Std.Io.{Reader, Writer}
use hush_rs.Std.Eq.{nat_eq}
use hush_rs.Std.HashMap
use hush_rs.Tlv.Value.{Value}
use hush_rs.Tlv.Map
use hush_rs.Session.Crypto.{Crypto}
use hush_rs.Session.Store
use hush_rs.Session.Store.{new_session, SessionStore, ApiKeyStore}
use hush_rs.Frame.Body
use hush_rs.Frame.Body.{bad_request, internal_error, Response, error_response, read_request_async}
use hush_rs.Middleware.{Request, Outcome, responded, failed, panicked}
use hush_rs.Server.{
  HandlerType, sync, stream, Handlers, payload_or_empty, not_found_response, expired_response,
  is_dead, reply,
}
use hush_rs.Server.Establish.{ServerError, tcp, accept_handshake}

-- What one turn of the loop leads to: the next one, `break`, or the unwinding of a panic.
pub data Turn (W : Type 0) : Type 0 where
  goes_on : Reader → Writer → W → Turn W
  stops : Writer → W → Turn W
  unwinds : W → Turn W

abbrev pub no_streaming_response : ℕ → Response
no_streaming_response seq = record {
  status = bad_request;
  payload =
      some
        (Map.set (ascii "error") (Value.string (ascii "streaming not supported over TCP")) Map.new);
  seq = seq;
}

-- What a connection meets at each of its turns: the time, the nonce for the response, and the
-- session store.
pub record Surroundings : Type 0 where
  pub now : ℕ → ℕ
  pub nonce : ℕ → Bytes
  pub stores : ℕ → SessionStore

-- How the loop ended, and at which turn. The source has no counterpart of `out_of_fuel`.
pub data Ending (W : Type 0) : Type 0 where
  ended : ℕ → Writer → W → Ending W
  panicked_at : ℕ → W → Ending W
  out_of_fuel : Ending W

module _ (c : Crypto) {W : Type 0} where
  -- What is sent for the outcome of a synchronous handler.
  unfoldable pub tcp_finish : Bytes → Bytes → ℕ → Reader → Writer → Outcome × W → Turn W
  tcp_finish nonce key seq r w (responded resp, s) = goes_on r (reply c nonce key w seq resp) s
  tcp_finish nonce key seq r w (failed e, s) =
      goes_on r (reply c nonce key w seq (error_response internal_error (ascii "internal error"))) s
  tcp_finish nonce key seq r w (panicked, s) = unwinds s

  -- From the lookup of the handler on.
  unfoldable pub tcp_dispatch :
      Bytes → Bytes → Request → ℕ → Reader → Writer → W → Option (HandlerType W) → Turn W
  tcp_dispatch nonce key req seq r w s none =
      goes_on r (reply c nonce key w seq (not_found_response req.opcode seq)) s
  tcp_dispatch nonce key req seq r w s (some (stream handler)) =
      goes_on r (reply c nonce key w seq (no_streaming_response seq)) s
  tcp_dispatch nonce key req seq r w s (some (sync handler)) =
      tcp_finish nonce key seq r w (handler req s)

  -- From the reading of the request on.
  unfoldable pub tcp_answer :
      Bytes
      → Bytes
      → ℕ
      → Bytes
      → Handlers W
      → Writer
      → W
      → Result Body.RequestError ((Body.Request × ℕ) × Reader)
      → Turn W
  tcp_answer nonce key session_id api_key_id handlers w s (err e) = stops w s
  tcp_answer nonce key session_id api_key_id handlers w s (ok ((freq, seq), r)) =
      let req : Request = record {
        opcode = freq.opcode;
        payload = payload_or_empty freq.payload;
        session_id = session_id;
        api_key_id = api_key_id;
      } in
      tcp_dispatch nonce key req seq r w s (HashMap.get freq.opcode handlers)

  -- One turn. As over QUIC, `touch` works on a clone, and the look-ups of the session are one snapshot.
  unfoldable pub tcp_turn :
      Bytes → ℕ → SessionStore → Bytes → ℕ → Bytes → Handlers W → Reader → Writer → W → Turn W
  tcp_turn nonce now sessions key session_id api_key_id handlers r w s =
      if is_dead now sessions (Store.get session_id sessions)
      then stops (reply c nonce key w 0 expired_response) s
      else tcp_answer nonce key session_id api_key_id handlers w s
          (read_request_async c r (some key))

  -- The loop, from its turn `i` on.
  unfoldable pub serve_loop :
      ℕ → ℕ → Surroundings → Bytes → ℕ → Bytes → Handlers W → Reader → Writer → W → Ending W
  serve_loop zero i env key session_id api_key_id handlers r w s = out_of_fuel
  serve_loop (suc f) i env key session_id api_key_id handlers r w s =
      elim (tcp_turn (env.nonce i) (env.now i) (env.stores i) key session_id api_key_id handlers r w
        s) [
          | goes_on r' w' s' ↦ serve_loop f (suc i) env key session_id api_key_id handlers r' w' s'
          | stops w' s' ↦ ended i w' s'
          | unwinds s' ↦ panicked_at i s'
        ]

-- The session store at each turn: before turn `i` the other tasks have done `others i`.
unfoldable pub history : (ℕ → SessionStore → SessionStore) → SessionStore → ℕ → SessionStore
history others st zero = others 0 st
history others st (suc i) = others (suc i) (history others st i)

-- What is left of a connection. After a panic of a handler the task is gone: the session stays.
pub data Closed (W : Type 0) : Type 0 where
  closed : SessionStore → Writer → W → Closed W
  abandoned : SessionStore → W → Closed W
  unfinished : Closed W

-- The end of `handle_tcp_connection`: `sessions.delete(session_id)`.
unfoldable pub close : {W : Type 0} → ℕ → (ℕ → SessionStore) → Ending W → Closed W
close session_id stores (ended i w s) = closed (Store.delete session_id (stores i)) w s
close session_id stores (panicked_at i s) = abandoned (stores i) s
close session_id stores out_of_fuel = unfinished

-- `handle_tcp_connection`. Each turn takes a byte at least, so this fuel is enough.
unfoldable pub handle_tcp_connection :
    (c : Crypto) {W : Type 0}
    → Bytes
    → Bytes
    → ApiKeyStore
    → ℕ
    → (ℕ → ℕ)
    → (ℕ → Bytes)
    → (ℕ → SessionStore → SessionStore)
    → Handlers W
    → SessionStore
    → Reader
    → Writer
    → W
    → Result ServerError (Closed W)
handle_tcp_connection c priv public key_store session_id now nonce others handlers sessions r w s =
    do
      ((aid, key), r', w') ← accept_handshake c tcp priv public key_store session_id r w
      let sessions' = Store.insert (new_session (now 0) session_id aid key) sessions
      let stores = history others sessions'
      let env : Surroundings = record { now = now; nonce = nonce; stores = stores }
      let fuel = length r'.incoming + 1
      ok (close session_id stores (serve_loop c fuel 0 env key session_id aid handlers r' w' s))
