-- ===== src/Server/State.antt =====
-- `Server` of src/server.rs and its builder methods. An `Arc<SessionStore>` is an address: the token
-- validator that `with_media` makes keeps the address that it captured.
pub mod MediaSessions
use hush_rs.Base.{
  ℕ, suc, ◌+◌, ◌%◌, ◌^◌, ◌==◌, Bool, true, false, List, [], ◌∷◌, ◌++◌, Option, none, some, Result,
  ok, err, if◌then◌else◌,
}
use hush_rs.Std.Words.{Bytes}
use hush_rs.Std.Io.{Reader, Writer}
use hush_rs.Std.Eq.{nat_eq}
use hush_rs.Std.HashMap
use hush_rs.Session.Crypto.{Crypto}
use hush_rs.Session.Store
use hush_rs.Session.Store.{Session, SessionConfig, SessionStore, default_config, fill}
use hush_rs.Media.{Token, TokenStore, with_validator, issue, validate}
use hush_rs.Middleware.{Request, Handler, Middleware, wrapped}
use hush_rs.Server.{HandlerType, sync, stream, Handlers, StreamHandler, handle}
use hush_rs.Server.Establish.{ServerError, config, no_media}

-- The session stores that were allocated.
pub record Heap : Type 0 where
  pub size : ℕ
  pub at : ℕ → SessionStore

abbrev pub write : ℕ → SessionStore → Heap → Heap
write i st heap = record heap { at = λ j. if i == j then st else heap.at j }

-- `Arc::new`
abbrev pub allocate : SessionStore → Heap → ℕ × Heap
allocate st heap =
    (heap.size, record { size = suc heap.size; at = λ j. if heap.size == j then st else heap.at j })

-- The token store, and the session store that its validator looks into.
pub record MediaStore : Type 0 where
  pub tokens : TokenStore
  pub asks : ℕ

abbrev pub StreamMiddleware : Type 0 → Type 0
StreamMiddleware W = StreamHandler W → StreamHandler W

-- `Server`, without its logger, TLS configuration and key store.
pub record Server (W : Type 0) : Type 0 where
  pub handlers : Handlers W
  pub sessions : ℕ
  pub next_id : ℕ
  pub server_priv : Bytes
  pub server_pub : Bytes
  pub media_store : Option MediaStore
  pub session_cfg : SessionConfig
  pub middlewares : List (Middleware W)
  pub stream_middlewares : List (StreamMiddleware W)

-- `Server::new`; `generate_static_key` gives the private key.
unfoldable pub new_server : {W : Type 0} → Crypto → Bytes → Heap → Server W × Heap
new_server c server_priv heap =
    let cfg = fill default_config in
    let (sessions, heap') = allocate (Store.new cfg) heap in
    (
      record {
        handlers = [];
        sessions = sessions;
        next_id = 1;
        server_priv = server_priv;
        server_pub = c.public_key server_priv;
        media_store = none;
        session_cfg = cfg;
        middlewares = [];
        stream_middlewares = [];
      },
      heap',
    )

module _ {W : Type 0} where
  -- `with_media`; the base URL is not used.
  unfoldable pub with_media : Server W → Server W
  with_media srv = record srv {
    media_store = some (record { tokens = with_validator; asks = srv.sessions });
  }

  -- `with_session_config`
  unfoldable pub with_session_config : SessionConfig → Server W → Heap → Server W × Heap
  with_session_config cfg srv heap =
      let (sessions, heap') = allocate (Store.new (fill cfg)) heap in
      (record srv { session_cfg = fill cfg; sessions = sessions }, heap')

  -- `use_middleware`, `use_stream_middleware`
  unfoldable pub use_middleware : Middleware W → Server W → Server W
  use_middleware mw srv = record srv { middlewares = srv.middlewares ++ (mw ∷ []) }

  unfoldable pub use_stream_middleware : StreamMiddleware W → Server W → Server W
  use_stream_middleware mw srv = record srv {
    stream_middlewares = srv.stream_middlewares ++ (mw ∷ []);
  }

  -- `handle`, `handle_stream`
  unfoldable pub register : ℕ → Handler W → Server W → Server W
  register opcode handler srv = record srv {
    handlers = handle srv.middlewares opcode handler srv.handlers;
  }

  unfoldable pub handle_stream : ℕ → StreamHandler W → Server W → Server W
  handle_stream opcode handler srv = record srv {
    handlers = HashMap.insert opcode (stream (wrapped srv.stream_middlewares handler)) srv.handlers;
  }

  -- `session_store`, what the address that it gives stands for
  unfoldable pub session_store : Server W → Heap → SessionStore
  session_store srv heap = heap.at srv.sessions

  abbrev pub issue_with :
      Bytes → ℕ → ℕ → Bytes → Server W → Option MediaStore → Result ServerError (Token × Server W)
  issue_with id now session_id track_id srv none = err (config no_media)
  issue_with id now session_id track_id srv (some media) =
      let (tok, tokens) = issue id now session_id track_id media.tokens in
      ok (tok, record srv { media_store = some (record media { tokens = tokens }) })

  -- `issue_media_token`; `id` is what the random generator gives.
  unfoldable pub issue_media_token :
      Bytes → ℕ → ℕ → Bytes → Server W → Result ServerError (Token × Server W)
  issue_media_token id now session_id track_id srv =
      issue_with id now session_id track_id srv srv.media_store

abbrev pub is_some : Option Session → Bool
is_some none = false
is_some (some s) = true

-- `sessions.get(sid).is_some()`
abbrev pub has_session : SessionStore → ℕ → Bool
has_session st sid = is_some (Store.get sid st)

-- `media_store().validate(..)`, as an embedder calls it
unfoldable pub validate_media : Heap → ℕ → Bytes → MediaStore → Bool × TokenStore
validate_media heap now id media = validate (has_session (heap.at media.asks)) now id media.tokens
