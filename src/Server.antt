-- ===== src/Server.antt =====
-- src/server.rs: the table of handlers, and what the server does with one request over QUIC,
-- `handle_request_stream`. What it logs is left out.
pub mod Establish
pub mod Tcp
pub mod Quic
pub mod Collect
pub mod Accept
pub mod State
pub mod Routes
pub mod FrameStream
pub mod Guarded
pub mod Listen
pub mod Gone
use hush_rs.Base.{
  ℕ, ◌||◌, Bool, false, [], List, Option, none, some, Result, ok, err, if◌then◌else◌,
}
use hush_rs.Std.Words.{Bytes}
use hush_rs.Std.Utf8.{ascii}
use hush_rs.Std.Io.{Reader, Writer}
use hush_rs.Std.Eq.{nat_eq}
use hush_rs.Std.HashMap
use hush_rs.Std.HashMap.{HashMap}
use hush_rs.Tlv.Value.{Value, Map}
use hush_rs.Tlv.Map
use hush_rs.Session.Crypto.{Crypto}
use hush_rs.Session.Store
use hush_rs.Session.Store.{Session, SessionStore, is_expired, is_idle_dead}
use hush_rs.Frame.Wire.{write_frame_async}
use hush_rs.Frame.Body
use hush_rs.Frame.Body.{
  StatusCode, session_expired, bad_request, not_found, internal_error, Response, error_response,
  encode_response_body, read_request_async,
}
use hush_rs.Middleware.{Request, Outcome, responded, failed, panicked, Handler, Middleware, wrapped}

-- `StreamHandler`, on what is left of the stream
abbrev pub StreamHandler : Type 0 → Type 0
StreamHandler W = Request → Reader → Writer → Bytes → W → Writer × W

-- `HandlerType`. A stream handler gets the request, what is left of the stream, and the key.
pub data HandlerType (W : Type 0) : Type 0 where
  sync : Handler W → HandlerType W
  stream : StreamHandler W → HandlerType W

-- The table of handlers of a `Server`.
abbrev pub Handlers : Type 0 → Type 0
Handlers W = HashMap ℕ (HandlerType W)

-- `Server::handle`
unfoldable pub handle : {W : Type 0} → List (Middleware W) → ℕ → Handler W → Handlers W → Handlers W
handle middlewares opcode handler handlers =
    HashMap.insert opcode (sync (wrapped middlewares handler)) handlers

-- What is left when a request has been handled: what was sent and the state. In `unwound` the handler
-- panicked, which unwinds the task.
pub data Served (W : Type 0) : Type 0 where
  served : Writer → W → Served W
  unwound : W → Served W

-- `freq.payload.unwrap_or_else(tlv::Map::new)`
abbrev pub payload_or_empty : Option Map → Map
payload_or_empty none = Map.new
payload_or_empty (some m) = m

-- The session's key, or an empty one.
abbrev pub key_of : Option Session → Bytes
key_of none = []
key_of (some s) = s.key

-- The response to an opcode that has no handler.
abbrev pub not_found_response : ℕ → ℕ → Response
not_found_response opcode seq = record {
  status = not_found;
  payload = some (Map.set (ascii "opcode") (Value.uint16 opcode) Map.new);
  seq = seq;
}

abbrev pub expired_response : Response
expired_response = record { status = session_expired; payload = none; seq = 0 }

abbrev pub ok_or_keep {ℓ κ} : {E : Type ℓ} {A : Type κ} → A → Result E A → A
ok_or_keep a (ok b) = b
ok_or_keep a (err e) = a

-- The session's expiry, at the time of the request.
unfoldable pub is_dead : ℕ → SessionStore → Option Session → Bool
is_dead now st none = false
is_dead now st (some s) = is_expired now st s || is_idle_dead now st s

module _ (c : Crypto) where
  -- `if let Ok(body) = encode_response_body(..) { let _ = write_frame_async(..) }`
  abbrev pub write_body : Writer → ℕ → Result Body.RequestError Bytes → Writer
  write_body w seq (ok body) = ok_or_keep w (write_frame_async w seq body)
  write_body w seq (err e) = w

  unfoldable pub reply : Bytes → Bytes → Writer → ℕ → Response → Writer
  reply nonce key w seq resp = write_body w seq (encode_response_body c nonce (some key) resp)

module _ (c : Crypto) {W : Type 0} where
  -- What is sent for the outcome of a synchronous handler.
  unfoldable pub finish : Bytes → Bytes → ℕ → Writer → Outcome × W → Served W
  finish nonce key seq w (responded resp, s) = served (reply c nonce key w seq resp) s
  finish nonce key seq w (failed e, s) =
      served (reply c nonce key w seq (error_response internal_error (ascii "internal error"))) s
  finish nonce key seq w (panicked, s) = unwound s

  -- From the lookup of the handler on.
  unfoldable pub dispatch :
      Bytes → Bytes → Request → ℕ → Reader → Writer → W → Option (HandlerType W) → Served W
  dispatch nonce key req seq r w s none =
      served (reply c nonce key w seq (not_found_response req.opcode seq)) s
  dispatch nonce key req seq r w s (some (sync handler)) = finish nonce key seq w (handler req s)
  dispatch nonce key req seq r w s (some (stream handler)) =
      let (w', s') = handler req r w key s in served w' s'

  -- From the reading of the request on.
  unfoldable pub answer :
      Bytes
      → Bytes
      → ℕ
      → Bytes
      → Handlers W
      → Reader
      → Writer
      → W
      → Result Body.RequestError ((Body.Request × ℕ) × Reader)
      → Served W
  answer nonce key session_id api_key_id handlers r w s (err e) =
      served (reply c nonce key w 0 (error_response bad_request (ascii "bad request"))) s
  answer nonce key session_id api_key_id handlers r w s (ok ((freq, seq), r')) =
      let req : Request = record {
        opcode = freq.opcode;
        payload = payload_or_empty freq.payload;
        session_id = session_id;
        api_key_id = api_key_id;
      } in
      dispatch nonce key req seq r' w s (HashMap.get freq.opcode handlers)

  -- `handle_request_stream`. The `touch` of the source works on a clone, which is dropped. The source
  -- looks the session up three times; here that is one snapshot, taken before the request is read.
  unfoldable pub handle_request_stream :
      Bytes → ℕ → ℕ → Bytes → Handlers W → SessionStore → Reader → Writer → W → Served W
  handle_request_stream nonce now session_id api_key_id handlers sessions r w s =
      let found = Store.get session_id sessions in
      let key = key_of found in
      if is_dead now sessions found
      then served (reply c nonce key w 0 expired_response) s
      else answer nonce key session_id api_key_id handlers r w s (read_request_async c r (some key))
