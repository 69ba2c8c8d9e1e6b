-- ===== src/Server/Tcp/Ends.antt =====
-- How a TCP connection of src/server.rs ends: the loop of `handle_tcp_connection` and its fuel.
use hush_rs.Base.{
  ℕ, ◌+◌, ◌≡◌, refl, Option, none, some, length, arith, ==_self, Continues, bind-Continues,
}
use hush_rs.Std.Words.{Bytes}
use hush_rs.Std.Io.{Reader, Writer}
use hush_rs.Std.Eq.{nat_eq}
use hush_rs.Std.HashMap
use hush_rs.Session.Crypto.{Crypto}
use hush_rs.Session.Store
use hush_rs.Session.Store.{new_session, SessionStore, ApiKeyStore}
use hush_rs.Session.Store.Expiry.{get-delete}
use hush_rs.Middleware.{Request, Outcome, responded, failed, panicked, Handler}
use hush_rs.Server.{HandlerType, sync, stream, Handlers}
use hush_rs.Server.Establish.{tcp, accept_handshake}
use hush_rs.Server.Tcp.Rule.{Comes, Calls, serve_loop_rule}
use hush_rs.Server.Tcp.{
  Ending, ended, panicked_at, out_of_fuel, Closed, closed, abandoned, unfinished, close,
  handle_tcp_connection,
}

-- Some synchronous handler of the table panics at some request and leaves the state `s`.
abbrev pub Panics : {W : Type 0} → Handlers W → W → Type 0
Panics {W} handlers s =
    (opcode : ℕ) × (h : Handler W) × (req : Request) × (t : W) × (HashMap.get opcode handlers
      ≡ some (sync h))
    × (h req t ≡ (panicked, s))

-- The loop stopped by itself or with the panic of a handler.
abbrev pub Stops : {W : Type 0} → Handlers W → Ending W → Type 0
Stops handlers (ended i w s) = Unit
Stops handlers (panicked_at i s) = Panics handlers s
Stops handlers out_of_fuel = ⊥

module _ {W : Type 0} (handlers : Handlers W) where
  any_outcome :
      (opcode : ℕ) (h : Handler W) (req : Request) (t : W) (o : Outcome × W)
      → HashMap.get opcode handlers ≡ some (sync h)
      → h req t ≡ o
      → Comes (λ s. Unit) (Stops handlers) o
  any_outcome opcode h req t (responded resp, s) found e = tt
  any_outcome opcode h req t (failed x, s) found e = tt
  any_outcome opcode h req t (panicked, s) found e = λ i. (opcode, h, req, t, found, e)

  any_found :
      (sid : ℕ) (aid : Bytes) (opcode : ℕ) (found : Option (HandlerType W))
      → HashMap.get opcode handlers ≡ found
      → Calls sid aid (λ s. Unit) (Stops handlers) found
  any_found sid aid opcode none e = tt
  any_found sid aid opcode (some (stream h)) e = tt
  any_found sid aid opcode (some (sync h)) e =
      λ req s same_id same_key p. any_outcome opcode h req s (h req s) e refl

  pub any_handler :
      (sid : ℕ) (aid : Bytes) (opcode : ℕ)
      → Calls sid aid (λ s. Unit) (Stops handlers) (HashMap.get opcode handlers)
  any_handler sid aid opcode = any_found sid aid opcode (HashMap.get opcode handlers) refl

-- A connection that is over: it closed and its session is not in the store, or it was abandoned to the
-- panic of a handler, in the state that the panic left.
abbrev pub IsOver : {W : Type 0} → ℕ → Handlers W → Closed W → Type 0
IsOver session_id handlers (closed st w s) = Store.get session_id st ≡ none
IsOver session_id handlers (abandoned st s) = Panics handlers s
IsOver session_id handlers unfinished = ⊥

close-IsOver :
    {W : Type 0} (session_id : ℕ) (handlers : Handlers W) (stores : ℕ → SessionStore) (x : Ending W)
    → Stops handlers x
    → IsOver session_id handlers (close session_id stores x)
unfolding close
close-IsOver sid handlers stores (ended i w s) h =
    rw (get-delete sid sid (stores i), ==_self sid) refl
close-IsOver sid handlers stores (panicked_at i s) h = h
close-IsOver sid handlers stores out_of_fuel h = h

-- For a client whose bytes come to an end, as its half of the stream is closed or fails (there is no
-- time-out on reading: one that sends nothing and stays is waited for), a TCP connection comes to an
-- end, whatever the bytes are, whatever the handlers do and whatever other tasks do to the session
-- store. Where the handshake fails, the connection gives its error. Where it succeeds, the connection
-- does not fail: it is closed, and then its session is not in the store, or it is abandoned, and then a
-- synchronous handler of the table has panicked and left the state that remains.
pub handle_tcp_connection-IsOver :
    (c : Crypto) {W : Type 0} (priv public : Bytes) (key_store : ApiKeyStore) (session_id : ℕ)
    (now : ℕ → ℕ) (nonce : ℕ → Bytes) (others : ℕ → SessionStore → SessionStore)
    (handlers : Handlers W) (sessions : SessionStore) (r : Reader) (w : Writer) (s : W)
    → Continues
        (IsOver session_id handlers)
        (accept_handshake c tcp priv public key_store session_id r w)
        (handle_tcp_connection c priv public key_store session_id now nonce others handlers sessions
          r w s)
unfolding handle_tcp_connection
handle_tcp_connection-IsOver c priv public ks sid now nonce others handlers sessions r w s =
    bind-Continues (IsOver sid handlers) (accept_handshake c tcp priv public ks sid r w) _
      (λ ((aid, key), r', w') e. close-IsOver sid handlers _ _ (
        serve_loop_rule c sid aid (λ t. Unit) (Stops handlers) (λ i w'' t p. tt) handlers
          (any_handler handlers sid aid) (length r'.incoming + 1) 0 _ key r' w' s (omega arith) tt))
