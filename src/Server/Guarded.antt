-- ===== src/Server/Guarded.antt =====
-- What the handlers of src/server.rs keep of the state of the application, behind a whole connection
-- over TCP or QUIC.
pub mod Authorised
pub mod Limited
use hush_rs.Base.{
  ℕ, suc, ◌+◌, ◌≡◌, refl, List, [], ◌∷◌, Option, none, some, ok, length, arith, Continues,
  bind-Continues, Result-cases, Bool-cases, inl, inr,
}
use hush_rs.Std.Words.{Bytes}
use hush_rs.Std.Io.{Reader, Writer}
use hush_rs.Std.Eq.{nat_eq}
use hush_rs.Std.HashMap
use hush_rs.Session.Crypto.{Crypto}
use hush_rs.Session.Store
use hush_rs.Session.Store.{SessionStore, ApiKeyStore}
use hush_rs.Frame.Body.{read_request_async}
use hush_rs.Middleware.{Request, Outcome, responded, failed, panicked, Handler}
use hush_rs.Server.{
  HandlerType, sync, stream, StreamHandler, Handlers, Served, served, unwound, is_dead, finish,
  dispatch, answer, handle_request_stream, key_of,
}
use hush_rs.Server.Establish.{tcp, quic, accept_handshake}
use hush_rs.Server.Tcp.{
  Surroundings, Ending, ended, panicked_at, out_of_fuel, Closed, closed, abandoned, unfinished,
  close, handle_tcp_connection,
}
use hush_rs.Server.Tcp.Rule.{Comes, Calls, serve_loop_rule}
use hush_rs.Server.Quic.{after_request, handle_streams, handle_connection}

-- A handler keeps `P` at the requests of a session and its API key, whether it returns or panics.
abbrev pub Keeps : {W : Type 0} → ℕ → Bytes → (W → Type 0) → Handler W → Type 0
Keeps {W} session_id api_key_id P h =
    (req : Request) (s : W)
    → req.session_id ≡ session_id
    → req.api_key_id ≡ api_key_id
    → P s
    → P (h req s).1

abbrev pub KeepsStream : {W : Type 0} → ℕ → Bytes → (W → Type 0) → StreamHandler W → Type 0
KeepsStream {W} session_id api_key_id P h =
    (req : Request) (r : Reader) (w : Writer) (key : Bytes) (s : W)
    → req.session_id ≡ session_id
    → req.api_key_id ≡ api_key_id
    → P s
    → P (h req r w key s).1

-- So does what a look-up finds over QUIC, and over TCP, where streaming handlers are not called.
abbrev pub Finds : {W : Type 0} → ℕ → Bytes → (W → Type 0) → Option (HandlerType W) → Type 0
Finds session_id api_key_id P none = Unit
Finds session_id api_key_id P (some (sync h)) = Keeps session_id api_key_id P h
Finds session_id api_key_id P (some (stream h)) = KeepsStream session_id api_key_id P h

abbrev pub FindsSync : {W : Type 0} → ℕ → Bytes → (W → Type 0) → Option (HandlerType W) → Type 0
FindsSync session_id api_key_id P none = Unit
FindsSync session_id api_key_id P (some (sync h)) = Keeps session_id api_key_id P h
FindsSync session_id api_key_id P (some (stream h)) = Unit

abbrev Holds : {W : Type 0} → (W → Type 0) → Ending W → Type 0
Holds P (ended i w s) = P s
Holds P (panicked_at i s) = P s
Holds P out_of_fuel = ⊥

-- What a connection over TCP leaves is a state with `P`.
abbrev pub Leaves : {W : Type 0} → (W → Type 0) → Closed W → Type 0
Leaves P (closed st w s) = P s
Leaves P (abandoned st s) = P s
Leaves P unfinished = ⊥

-- The same over QUIC.
abbrev pub Remains : {W : Type 0} → (W → Type 0) → Writer × List Writer × W × SessionStore → Type 0
Remains P (w, ws, s, st) = P s

abbrev state_of : {W : Type 0} → Served W → W
state_of (served w s) = s
state_of (unwound s) = s

module _ {W : Type 0} (P : W → Type 0) where
  Comes-state : (o : Outcome × W) → P o.1 → Comes P (Holds P) o
  Comes-state (responded resp, s) p = p
  Comes-state (failed e, s) p = p
  Comes-state (panicked, s) p = λ i. p

  FindsSync-Calls :
      (sid : ℕ) (aid : Bytes) (found : Option (HandlerType W))
      → FindsSync sid aid P found
      → Calls sid aid P (Holds P) found
  FindsSync-Calls sid aid none k = tt
  FindsSync-Calls sid aid (some (sync h)) k =
      λ req s same_id same_key p. Comes-state (h req s) (k req s same_id same_key p)
  FindsSync-Calls sid aid (some (stream h)) k = tt

  close-Leaves :
      (sid : ℕ) (stores : ℕ → SessionStore) (x : Ending W)
      → Holds P x
      → Leaves P (close sid stores x)
  unfolding close
  close-Leaves sid stores (ended i w s) p = p
  close-Leaves sid stores (panicked_at i s) p = p
  close-Leaves sid stores out_of_fuel p = p

  module _ (c : Crypto) where
    finish_state :
        (nonce key : Bytes) (seq : ℕ) (w : Writer) (o : Outcome × W)
        → state_of (finish c nonce key seq w o) ≡ o.1
    unfolding finish
    finish_state nonce key seq w (responded resp, s) = refl
    finish_state nonce key seq w (failed e, s) = refl
    finish_state nonce key seq w (panicked, s) = refl

    dispatch-Finds :
        (nonce key : Bytes) (req : Request) (seq : ℕ) (r : Reader) (w : Writer) (s : W)
        (found : Option (HandlerType W))
        → Finds req.session_id req.api_key_id P found
        → P s
        → P (state_of (dispatch c nonce key req seq r w s found))
    unfolding dispatch
    dispatch-Finds nonce key req seq r w s none k p = p
    dispatch-Finds nonce key req seq r w s (some (sync h)) k p =
        rw (finish_state nonce key seq w (h req s)) (k req s refl refl p)
    dispatch-Finds nonce key req seq r w s (some (stream h)) k p = k req r w key s refl refl p

    module _ (sid : ℕ) (aid : Bytes) (handlers : Handlers W)
        (finds : (opcode : ℕ) → Finds sid aid P (HashMap.get opcode handlers)) where
      handle_request_stream-Finds :
          (nonce : Bytes) (now : ℕ) (sessions : SessionStore) (r : Reader) (w : Writer) (s : W)
          → P s
          → P (state_of (handle_request_stream c nonce now sid aid handlers sessions r w s))
      unfolding handle_request_stream answer
      handle_request_stream-Finds nonce now sessions r w s p =
          let found = Store.get sid sessions in
          elim (Bool-cases (is_dead now sessions found)) [
            | inl dead ↦ rw dead p
            | inr alive ↦ elim (Result-cases (read_request_async c r (some (key_of found)))) [
              | inl (((freq, seq), r'), e) ↦
                  rw (alive, e)
                    (dispatch-Finds nonce (key_of found) _ seq r' w s
                      (HashMap.get freq.opcode handlers) (finds freq.opcode) p)
              | inr (x, e) ↦ rw (alive, e) p
            ]
          ]

      after_request_state : (w : Writer) (x : Served W) → (after_request w x).1 ≡ state_of x
      after_request_state w (served w' s) = refl
      after_request_state w (unwound s) = refl

      handle_streams-Finds :
          (i : ℕ) (env : Surroundings) (streams : List (Reader × Writer)) (s : W)
          → P s
          → P (handle_streams c i env sid aid handlers streams s).1
      unfolding handle_streams
      handle_streams-Finds i env [] s p = p
      handle_streams-Finds i env ((r, w) ∷ streams) s p =
          handle_streams-Finds (suc i) env streams _ (
            rw (after_request_state w _)
              (handle_request_stream-Finds (env.nonce i) (env.now i) (env.stores i) r w s p))

-- What the handlers that look-ups find keep, a whole connection keeps.
module _ (c : Crypto) {W : Type 0} (P : W → Type 0) (priv public : Bytes) (key_store : ApiKeyStore)
    (sid : ℕ) (now : ℕ → ℕ) (nonce : ℕ → Bytes) (others : ℕ → SessionStore → SessionStore)
    (handlers : Handlers W) (sessions : SessionStore) (r : Reader) (w : Writer) where
  pub handle_tcp_connection-Leaves :
      (s : W)
      → ((aid key : Bytes) (r' : Reader) (w' : Writer)
          → accept_handshake c tcp priv public key_store sid r w ≡ ok ((aid, key), r', w')
          → (opcode : ℕ) → FindsSync sid aid P (HashMap.get opcode handlers))
      → P s
      → Continues (Leaves P) (accept_handshake c tcp priv public key_store sid r w) (
          handle_tcp_connection c priv public key_store sid now nonce others handlers sessions r w
            s)
  unfolding handle_tcp_connection
  handle_tcp_connection-Leaves s finds p =
      bind-Continues (Leaves P) (accept_handshake c tcp priv public key_store sid r w) _
        (λ ((aid, key), r', w') e. close-Leaves P sid _ _ (
          serve_loop_rule c sid aid P (Holds P) (λ i w'' t q. q) handlers
            (λ opcode. FindsSync-Calls P sid aid _ (finds aid key r' w' e opcode))
            (length r'.incoming + 1) 0 _ key r' w' s (omega arith) p))

  pub handle_connection-Remains :
      (streams : List (Reader × Writer)) (s : W)
      → ((aid key : Bytes) (r' : Reader) (w' : Writer)
          → accept_handshake c quic priv public key_store sid r w ≡ ok ((aid, key), r', w')
          → (opcode : ℕ) → Finds sid aid P (HashMap.get opcode handlers))
      → P s
      → Continues (Remains P) (accept_handshake c quic priv public key_store sid r w) (
          handle_connection c priv public key_store sid now nonce others handlers sessions r w
            streams s)
  unfolding handle_connection
  handle_connection-Remains streams s finds p =
      bind-Continues (Remains P) (accept_handshake c quic priv public key_store sid r w) _
        (λ ((aid, key), r', w') e.
          handle_streams-Finds P c sid aid handlers (finds aid key r' w' e) 0 _ streams s p)
