-- ===== src/Server/Quic.antt =====
-- `handle_connection` of src/server.rs: the handshake, the streams of requests, and what is left.
-- Each stream is a task of its own; the list has them in the order in which their handlers run.
pub mod Answers
use hush_rs.Base.{ℕ, suc, List, [], ◌∷◌, Result, ok, ◌>>=◌, length}
use hush_rs.Std.Words.{Bytes}
use hush_rs.Std.Io.{Reader, Writer}
use hush_rs.Std.Eq.{nat_eq}
use hush_rs.Session.Crypto.{Crypto}
use hush_rs.Session.Store
use hush_rs.Session.Store.{new_session, SessionStore, ApiKeyStore}
use hush_rs.Server.{Handlers, Served, served, unwound, handle_request_stream}
use hush_rs.Server.Establish.{ServerError, quic, accept_handshake}
use hush_rs.Server.Tcp.{Surroundings, history}

-- The sending half and the state behind a request; a panic ends the task, and nothing was sent.
abbrev pub after_request : {W : Type 0} → Writer → Served W → Writer × W
after_request w (served w' s) = (w', s)
after_request w (unwound s) = (w, s)

module _ (c : Crypto) {W : Type 0} where
  -- The loop over `conn.accept_bi()`, with what each task leaves.
  unfoldable pub handle_streams :
      ℕ → Surroundings → ℕ → Bytes → Handlers W → List (Reader × Writer) → W → List Writer × W
  handle_streams i env session_id api_key_id handlers [] s = ([], s)
  handle_streams i env session_id api_key_id handlers ((r, w) ∷ streams) s =
      let (w', s') = after_request w (
        handle_request_stream c (env.nonce i) (env.now i) session_id api_key_id handlers
          (env.stores i) r w s) in
      let (ws, s'') = handle_streams (suc i) env session_id api_key_id handlers streams s' in
      (w' ∷ ws, s'')

  -- `handle_connection`, with the stream of the handshake and those that follow it: what was sent on
  -- them, the state, and the session store at the end.
  unfoldable pub handle_connection :
      Bytes
      → Bytes
      → ApiKeyStore
      → ℕ
      → (ℕ → ℕ)
      → (ℕ → Bytes)
      → (ℕ → SessionStore → SessionStore)
      → Handlers W
      → SessionStore
      → Reader
      → Writer
      → List (Reader × Writer)
      → W
      → Result ServerError (Writer × List Writer × W × SessionStore)
  handle_connection priv public key_store session_id now nonce others handlers sessions r w streams
        s =
      do
        ((aid, key), r', w') ← accept_handshake c quic priv public key_store session_id r w
        let sessions' = Store.insert (new_session (now 0) session_id aid key) sessions
        let stores = history others sessions'
        let env : Surroundings = record { now = now; nonce = nonce; stores = stores }
        let (ws, s') = handle_streams 0 env session_id aid handlers streams s
        ok (w', ws, s', Store.delete session_id (stores (length streams)))
