-- ===== src/Server/Tcp/Recovered.antt =====
-- `recovery_middleware` of src/middleware.rs on a server over TCP.
use hush_rs.Base.{
  ℕ, ◌+◌, ◌≡◌, refl, List, [], ◌∷◌, none, some, length, arith, All, ==_self, Continues,
  bind-Continues,
}
use hush_rs.Std.Words.{Bytes}
use hush_rs.Std.Io.{Reader, Writer}
use hush_rs.Std.Eq.{nat_eq}
use hush_rs.Session.Crypto.{Crypto}
use hush_rs.Session.Store
use hush_rs.Session.Store.{SessionStore, ApiKeyStore}
use hush_rs.Session.Store.Expiry.{get-delete}
use hush_rs.Middleware.{
  Outcome, responded, failed, panicked, Middleware, recover, recovery_middleware,
}
use hush_rs.Middleware.Order.{nested}
use hush_rs.Server.State.{Heap, StreamMiddleware}
use hush_rs.Server.Routes.{Route, handles, streams, behind, set_up, set_up_lem}
use hush_rs.Server.Establish.{tcp, accept_handshake}
use hush_rs.Server.Tcp.{
  Ending, ended, panicked_at, out_of_fuel, Closed, closed, abandoned, unfinished, close,
  handle_tcp_connection,
}
use hush_rs.Server.Tcp.Rule.{Comes, Calls, serve_loop_rule}

-- The loop stopped by itself.
abbrev IsEnded : {W : Type 0} → Ending W → Type 0
IsEnded (ended i w s) = Unit
IsEnded (panicked_at i s) = ⊥
IsEnded out_of_fuel = ⊥

module _ {W : Type 0} where
  recover-Comes : (Q : Ending W → Type 0) (o : Outcome × W) → Comes (λ s. Unit) Q (recover o)
  unfolding recover
  recover-Comes Q (responded resp, s) = tt
  recover-Comes Q (failed x, s) = tt
  recover-Comes Q (panicked, s) = tt

  each_recovers :
      (sid : ℕ) (aid : Bytes) (mws : List (Middleware W)) (smws : List (StreamMiddleware W))
      (routes : List (Route W))
      → All
          (λ (route : Route W).
            Calls sid aid
              (λ s. Unit)
              IsEnded
              (some (behind (recovery_middleware ∷ mws) smws route)))
          routes
  unfolding recovery_middleware nested
  each_recovers sid aid mws smws [] = tt
  each_recovers sid aid mws smws (handles op h ∷ routes) = (
    λ req s same_id same_key p. recover-Comes IsEnded (nested mws h req s),
    each_recovers sid aid mws smws routes,
  )
  each_recovers sid aid mws smws (streams op h ∷ routes) =
      (tt, each_recovers sid aid mws smws routes)

-- A connection that closed with its session deleted.
abbrev pub IsClosed : {W : Type 0} → ℕ → Closed W → Type 0
IsClosed session_id (closed st w s) = Store.get session_id st ≡ none
IsClosed session_id (abandoned st s) = ⊥
IsClosed session_id unfinished = ⊥

close-IsClosed :
    {W : Type 0} (session_id : ℕ) (stores : ℕ → SessionStore) (x : Ending W)
    → IsEnded x
    → IsClosed session_id (close session_id stores x)
unfolding close
close-IsClosed sid stores (ended i w s) h = rw (get-delete sid sid (stores i), ==_self sid) refl
close-IsClosed sid stores (panicked_at i s) h = h
close-IsClosed sid stores out_of_fuel h = h

-- On a new server that is given its middleware, `recovery_middleware` first, and then its handlers,
-- synchronous and streaming: whatever they and the other middleware do, panics included, whatever
-- other tasks do to the session store, and whatever a client sends whose bytes come to an end, a TCP
-- connection gives the error of the handshake where that fails, and where it succeeds the connection is
-- closed, no panic unwinds it, and its session is not in the store.
pub handle_tcp_connection-IsClosed :
    (c : Crypto) {W : Type 0} (priv public : Bytes) (heap : Heap) (key_store : ApiKeyStore)
    (session_id : ℕ) (now : ℕ → ℕ) (nonce : ℕ → Bytes) (others : ℕ → SessionStore → SessionStore)
    (mws : List (Middleware W)) (smws : List (StreamMiddleware W)) (routes : List (Route W))
    (sessions : SessionStore) (r : Reader) (w : Writer) (s : W)
    → Continues
        (IsClosed session_id)
        (accept_handshake c tcp priv public key_store session_id r w)
        (handle_tcp_connection c priv public key_store session_id now nonce others
          (set_up c priv heap (recovery_middleware ∷ mws) smws routes)
          sessions
          r
          w
          s)
unfolding handle_tcp_connection
handle_tcp_connection-IsClosed c priv public heap ks sid now nonce others mws smws routes sessions r
      w s =
    bind-Continues (IsClosed sid) (accept_handshake c tcp priv public ks sid r w) _
      (λ ((aid, key), r', w') e. close-IsClosed sid _ _ (
        serve_loop_rule c sid aid (λ t. Unit) IsEnded (λ i w'' t p. tt) _
          (set_up_lem c priv heap (Calls sid aid (λ t. Unit) IsEnded) (recovery_middleware ∷ mws)
            smws routes tt (each_recovers sid aid mws smws routes))
          (length r'.incoming + 1) 0 _ key r' w' s (omega arith) tt))
