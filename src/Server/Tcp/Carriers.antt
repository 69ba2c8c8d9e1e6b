-- ===== src/Server/Tcp/Carriers.antt =====
-- One request over TCP and over QUIC in src/server.rs, side by side.
use hush_rs.Base.{ℕ, ◌≡◌, refl, false, Option, none, some, ok}
use hush_rs.Std.Words.{Bytes}
use hush_rs.Std.Io.{Reader, Writer}
use hush_rs.Std.Eq.{nat_eq}
use hush_rs.Std.HashMap
use hush_rs.Session.Crypto.{Crypto}
use hush_rs.Session.Store
use hush_rs.Session.Store.{Session, SessionStore}
use hush_rs.Frame.Body
use hush_rs.Frame.Body.{read_request_async}
use hush_rs.Middleware.{Request, Outcome, responded, failed, panicked}
use hush_rs.Server.{
  HandlerType, sync, stream, Handlers, Served, served, unwound, is_dead, finish, dispatch, answer,
  handle_request_stream,
}
use hush_rs.Server.Tcp.{Turn, goes_on, unwinds, tcp_finish, tcp_dispatch, tcp_answer, tcp_turn}

-- What a handled request is to the loop over TCP, which goes on behind it.
abbrev pub as_turn : {W : Type 0} → Reader → Served W → Turn W
as_turn r (served w s) = goes_on r w s
as_turn r (unwound s) = unwinds s

-- The opcode has a synchronous handler, or none.
abbrev pub IsPlain : {W : Type 0} → Option (HandlerType W) → Type 0
IsPlain none = Unit
IsPlain (some (sync handler)) = Unit
IsPlain (some (stream handler)) = ⊥

module _ (c : Crypto) {W : Type 0} (nonce key : Bytes) where
  finish-tcp_finish :
      (seq : ℕ) (r : Reader) (w : Writer) (o : Outcome × W)
      → tcp_finish c nonce key seq r w o ≡ as_turn r (finish c nonce key seq w o)
  unfolding tcp_finish finish
  finish-tcp_finish seq r w (responded resp, s) = refl
  finish-tcp_finish seq r w (failed e, s) = refl
  finish-tcp_finish seq r w (panicked, s) = refl

  dispatch-tcp_dispatch :
      (req : Request) (seq : ℕ) (r : Reader) (w : Writer) (s : W) (found : Option (HandlerType W))
      → IsPlain found
      → tcp_dispatch c nonce key req seq r w s found
        ≡ as_turn r (dispatch c nonce key req seq r w s found)
  unfolding tcp_dispatch dispatch
  dispatch-tcp_dispatch req seq r w s none plain = refl
  dispatch-tcp_dispatch req seq r w s (some (sync handler)) plain =
      finish-tcp_finish seq r w (handler req s)
  dispatch-tcp_dispatch req seq r w s (some (stream handler)) plain = absurd plain

  -- A turn of the loop over TCP does for a request what `handle_request_stream` does over QUIC, byte
  -- for byte, in the state that it leaves and in whether a panic unwinds it: where the session is in
  -- the store with the connection's key and is neither expired nor idle for too long, the request can
  -- be read, and its opcode has a synchronous handler or none.
  pub tcp_turn-handle_request_stream :
      (now session_id seq : ℕ) (sessions : SessionStore) (sess : Session) (api_key_id : Bytes)
      (handlers : Handlers W) (r r' : Reader) (w : Writer) (s : W) (freq : Body.Request)
      → Store.get session_id sessions ≡ some sess
      → sess.key ≡ key
      → is_dead now sessions (some sess) ≡ false
      → read_request_async c r (some key) ≡ ok ((freq, seq), r')
      → IsPlain (HashMap.get freq.opcode handlers)
      → tcp_turn c nonce now sessions key session_id api_key_id handlers r w s
        ≡ as_turn r'
            (handle_request_stream c nonce now session_id api_key_id handlers sessions r w s)
  unfolding tcp_turn tcp_answer handle_request_stream answer
  tcp_turn-handle_request_stream now sid seq sessions sess aid handlers r r' w s freq found same
        alive read plain =
      rw (found, alive, same, read)
        (dispatch-tcp_dispatch _ seq r' w s (HashMap.get freq.opcode handlers) plain)
