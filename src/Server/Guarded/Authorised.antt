-- ===== src/Server/Guarded/Authorised.antt =====
-- A server whose middleware starts with `require_api_key_id` of src/middleware.rs.
use hush_rs.Base.{ℕ, ◌≡◌, refl, false, List, [], ◌∷◌, some, ok, All, Continues}
use hush_rs.Std.Words.{Bytes}
use hush_rs.Std.Io.{Reader, Writer}
use hush_rs.Session.Crypto.{Crypto}
use hush_rs.Session.Store.{SessionStore, ApiKeyStore}
use hush_rs.Middleware.{Handler, Middleware, contains, require_api_key_id}
use hush_rs.Middleware.Order.{nested}
use hush_rs.Server.State.{Heap, StreamMiddleware}
use hush_rs.Server.Routes.{Route, handles, streams, behind, set_up, set_up_lem}
use hush_rs.Server.Establish.{Carrier, tcp, quic, accept_handshake}
use hush_rs.Server.Tcp.{handle_tcp_connection}
use hush_rs.Server.Quic.{handle_connection}
use hush_rs.Server.Guarded.{
  Keeps, KeepsStream, Finds, FindsSync, Leaves, Remains, handle_tcp_connection-Leaves,
  handle_connection-Remains,
}

-- The streaming handlers among the routes keep `P` inside their middleware.
abbrev pub StreamsKeep :
    {W : Type 0} → ℕ → Bytes → (W → Type 0) → List (StreamMiddleware W) → List (Route W) → Type 0
StreamsKeep session_id api_key_id P smws [] = Unit
StreamsKeep session_id api_key_id P smws (handles opcode h ∷ routes) =
    StreamsKeep session_id api_key_id P smws routes
StreamsKeep session_id api_key_id P smws (streams opcode h ∷ routes) =
    KeepsStream session_id api_key_id P (nested smws h)
    × StreamsKeep session_id api_key_id P smws routes

module _ {W : Type 0} (sid : ℕ) (aid : Bytes) (allowed : List Bytes)
    (refused : contains aid allowed ≡ false) (mws : List (Middleware W))
    (smws : List (StreamMiddleware W)) (P : W → Type 0) where
  require_api_key_id-Keeps :
      (h : Handler W) → Keeps sid aid P (nested (require_api_key_id allowed ∷ mws) h)
  unfolding nested require_api_key_id
  require_api_key_id-Keeps h req t same_id same_key p = rw (same_key, refused) p

  each-FindsSync :
      (routes : List (Route W))
      → All
          (λ (route : Route W).
            FindsSync sid aid P (some (behind (require_api_key_id allowed ∷ mws) smws route)))
          routes
  each-FindsSync [] = tt
  each-FindsSync (handles op h ∷ routes) = (require_api_key_id-Keeps h, each-FindsSync routes)
  each-FindsSync (streams op h ∷ routes) = (tt, each-FindsSync routes)

  each-Finds :
      (routes : List (Route W))
      → StreamsKeep sid aid P smws routes
      → All
          (λ (route : Route W).
            Finds sid aid P (some (behind (require_api_key_id allowed ∷ mws) smws route)))
          routes
  each-Finds [] keep = tt
  each-Finds (handles op h ∷ routes) keep = (require_api_key_id-Keeps h, each-Finds routes keep)
  each-Finds (streams op h ∷ routes) (first, keep) = (first, each-Finds routes keep)

-- A new server is given its middleware, `require_api_key_id` first, and then its handlers; a client
-- connects whose handshake, where it succeeds, gives no id that is allowed. Then over TCP the connection
-- leaves the application's state as it was, whatever requests it sends, and whatever the handlers,
-- synchronous or streaming, and the other middleware do. Over QUIC, where streaming handlers are not
-- behind `require_api_key_id`, it can do to the state only what they do: it keeps every property of the
-- state that the streaming handlers keep inside their own middleware. Other tasks may do anything to
-- the session store; where the handshake fails, the connection gives its error.
pub connections-require_api_key_id :
    (c : Crypto) {W : Type 0} (priv public : Bytes) (heap : Heap) (key_store : ApiKeyStore)
    (sid : ℕ) (now : ℕ → ℕ) (nonce : ℕ → Bytes) (others : ℕ → SessionStore → SessionStore)
    (allowed : List Bytes) (mws : List (Middleware W)) (smws : List (StreamMiddleware W))
    (routes : List (Route W)) (sessions : SessionStore) (r : Reader) (w : Writer)
    (requests : List (Reader × Writer)) (s : W) (P : W → Type 0)
    → ((carrier : Carrier) (aid key : Bytes) (r' : Reader) (w' : Writer)
        → accept_handshake c carrier priv public key_store sid r w ≡ ok ((aid, key), r', w')
        → contains aid allowed ≡ false)
    → ((aid key : Bytes) (r' : Reader) (w' : Writer)
        → accept_handshake c quic priv public key_store sid r w ≡ ok ((aid, key), r', w')
        → StreamsKeep sid aid P smws routes)
    → P s
    → let table = set_up c priv heap (require_api_key_id allowed ∷ mws) smws routes in
      Continues
        (Leaves (λ t. t ≡ s))
        (accept_handshake c tcp priv public key_store sid r w)
        (handle_tcp_connection c priv public key_store sid now nonce others table sessions r w s)
      × Continues (Remains P) (accept_handshake c quic priv public key_store sid r w) (
          handle_connection c priv public key_store sid now nonce others table sessions r w requests
            s)
connections-require_api_key_id c priv public heap ks sid now nonce others allowed mws smws routes
      sessions r w requests s P refused keep p =
    let guarded = require_api_key_id allowed ∷ mws in
    (
      handle_tcp_connection-Leaves c (λ t. t ≡ s) priv public ks sid now nonce others _ sessions r w
          s
          (λ aid key r' w' e.
            set_up_lem c priv heap (FindsSync sid aid (λ t. t ≡ s)) guarded smws routes tt (
              each-FindsSync sid aid allowed (refused tcp aid key r' w' e) mws smws (λ t. t ≡ s)
                routes))
          refl,
      handle_connection-Remains c P priv public ks sid now nonce others _ sessions r w requests s
          (λ aid key r' w' e. set_up_lem c priv heap (Finds sid aid P) guarded smws routes tt (
            each-Finds sid aid allowed (refused quic aid key r' w' e) mws smws P routes
              (keep aid key r' w' e)))
          p,
    )
