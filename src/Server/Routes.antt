-- ===== src/Server/Routes.antt =====
-- The table of handlers that a program sets up with the builder of src/server.rs: what it registers
-- behind which middleware.
use hush_rs.Base.{
  ℕ, ◌==◌, ◌≡◌, refl, ◌∙◌, List, [], ◌∷◌, ◌++◌, append_assoc, append-nil, Option, none, some,
  if◌then◌else◌, All, Bool-cases, inl, inr,
}
use hush_rs.Std.Words.{Bytes}
use hush_rs.Std.Eq.{nat_eq}
use hush_rs.Std.HashMap
use hush_rs.Std.HashMap.{get-insert}
use hush_rs.Session.Crypto.{Crypto}
use hush_rs.Middleware.{Handler, Middleware}
use hush_rs.Middleware.Order.{nested, wrapped-nested}
use hush_rs.Server.{HandlerType, sync, stream, StreamHandler, Handlers, handle}
use hush_rs.Server.State.{
  Heap, StreamMiddleware, Server, new_server, use_middleware, use_stream_middleware, register,
  handle_stream,
}

-- A call of `Server::handle` or of `Server::handle_stream`.
pub data Route (W : Type 0) : Type 0 where
  handles : ℕ → Handler W → Route W
  streams : ℕ → StreamHandler W → Route W

module _ {W : Type 0} where
  -- Calls of `use_middleware`, in order.
  unfoldable pub use_all : List (Middleware W) → Server W → Server W
  use_all [] srv = srv
  use_all (mw ∷ mws) srv = use_all mws (use_middleware mw srv)

  unfoldable pub use_all_stream : List (StreamMiddleware W) → Server W → Server W
  use_all_stream [] srv = srv
  use_all_stream (mw ∷ mws) srv = use_all_stream mws (use_stream_middleware mw srv)

  abbrev pub add_route : Route W → Server W → Server W
  add_route (handles opcode h) srv = register opcode h srv
  add_route (streams opcode h) srv = handle_stream opcode h srv

  unfoldable pub add_routes : List (Route W) → Server W → Server W
  add_routes [] srv = srv
  add_routes (route ∷ routes) srv = add_routes routes (add_route route srv)

  -- The opcode of a route, and the handler that it stands for, the first middleware outermost.
  abbrev pub opcode_of : Route W → ℕ
  opcode_of (handles opcode h) = opcode
  opcode_of (streams opcode h) = opcode

  abbrev pub behind : List (Middleware W) → List (StreamMiddleware W) → Route W → HandlerType W
  behind mws smws (handles opcode h) = sync (nested mws h)
  behind mws smws (streams opcode h) = stream (nested smws h)

  use_all_middlewares :
      (mws : List (Middleware W)) (srv : Server W)
      → ((use_all mws srv).middlewares ≡ srv.middlewares ++ mws)
        × ((use_all mws srv).stream_middlewares ≡ srv.stream_middlewares)
        × ((use_all mws srv).handlers ≡ srv.handlers)
  unfolding use_all use_middleware
  use_all_middlewares [] srv = (rw (append-nil srv.middlewares) refl, refl, refl)
  use_all_middlewares (mw ∷ mws) srv =
      let (first, second, third) = use_all_middlewares mws (use_middleware mw srv) in
      (first ∙ append_assoc srv.middlewares (mw ∷ []) mws, second, third)

  use_all_stream_middlewares :
      (mws : List (StreamMiddleware W)) (srv : Server W)
      → ((use_all_stream mws srv).stream_middlewares ≡ srv.stream_middlewares ++ mws)
        × ((use_all_stream mws srv).middlewares ≡ srv.middlewares)
        × ((use_all_stream mws srv).handlers ≡ srv.handlers)
  unfolding use_all_stream use_stream_middleware
  use_all_stream_middlewares [] srv = (rw (append-nil srv.stream_middlewares) refl, refl, refl)
  use_all_stream_middlewares (mw ∷ mws) srv =
      let (first, second, third) = use_all_stream_middlewares mws (use_stream_middleware mw srv) in
      (first ∙ append_assoc srv.stream_middlewares (mw ∷ []) mws, second, third)

  -- What one registration makes of the table.
  get-add_route :
      (route : Route W) (opcode : ℕ) (srv : Server W)
      → HashMap.get opcode (add_route route srv).handlers ≡ (
          if opcode_of route == opcode
          then some (behind srv.middlewares srv.stream_middlewares route)
          else HashMap.get opcode srv.handlers)
  unfolding register handle handle_stream
  get-add_route (handles op h) opcode srv =
      get-insert op opcode (sync _) srv.handlers ∙ rw (wrapped-nested srv.middlewares h) refl
  get-add_route (streams op h) opcode srv =
      get-insert op opcode (stream _) srv.handlers
      ∙ rw (wrapped-nested srv.stream_middlewares h) refl

  -- A server on which `use_middleware` and `use_stream_middleware` are called for some middleware, in
  -- order, and which then registers a handler with `handle` or `handle_stream`: a look-up of the opcode
  -- finds the handler, synchronous or streaming as it was registered, inside the middleware of its
  -- kind, what the server had before outermost, then the new ones in the order of the calls; and a
  -- look-up of any other opcode finds what it found before.
  pub get-add_route-use_all :
      (mws : List (Middleware W)) (smws : List (StreamMiddleware W)) (route : Route W) (opcode : ℕ)
      (srv : Server W)
      → HashMap.get opcode (add_route route (use_all_stream smws (use_all mws srv))).handlers ≡ (
          if opcode_of route == opcode
          then some (behind (srv.middlewares ++ mws) (srv.stream_middlewares ++ smws) route)
          else HashMap.get opcode srv.handlers)
  get-add_route-use_all mws smws route opcode srv =
      let (first, second, third) = use_all_middlewares mws srv in
      let (first', second', third') = use_all_stream_middlewares smws (use_all mws srv) in
      get-add_route route opcode (use_all_stream smws (use_all mws srv))
      ∙ rw (first', second', third', first, second, third) refl

  -- Registration leaves the middleware as it is.
  add_route_middlewares :
      (route : Route W) (srv : Server W)
      → ((add_route route srv).middlewares ≡ srv.middlewares)
        × ((add_route route srv).stream_middlewares ≡ srv.stream_middlewares)
  unfolding register handle_stream
  add_route_middlewares (handles op h) srv = (refl, refl)
  add_route_middlewares (streams op h) srv = (refl, refl)

  -- What holds of what a look-up finds before, and of each route behind the middleware, holds of what
  -- a look-up finds in the end.
  add_routes_lem :
      (T : Option (HandlerType W) → Type 0) (routes : List (Route W)) (srv : Server W)
      → ((opcode : ℕ) → T (HashMap.get opcode srv.handlers))
      → All
          (λ (route : Route W). T (some (behind srv.middlewares srv.stream_middlewares route)))
          routes
      → (opcode : ℕ) → T (HashMap.get opcode (add_routes routes srv).handlers)
  unfolding add_routes
  add_routes_lem T [] srv before all opcode = before opcode
  add_routes_lem T (route ∷ routes) srv before (first, rest) opcode =
      let (same, same') = add_route_middlewares route srv in
      add_routes_lem T routes (add_route route srv)
        (λ op. rw (get-add_route route op srv) (elim (Bool-cases (opcode_of route == op)) [
          | inl e ↦ rw e first
          | inr e ↦ rw e (before op)
        ]))
        (rw (same, same') rest) opcode

-- The table of a new server with some middleware and then some routes.
unfoldable pub set_up :
    {W : Type 0}
    → Crypto
    → Bytes
    → Heap
    → List (Middleware W)
    → List (StreamMiddleware W)
    → List (Route W)
    → Handlers W
set_up c priv heap mws smws routes =
    (add_routes routes (use_all_stream smws (use_all mws (new_server c priv heap).0))).handlers

-- What holds of each route behind the middleware holds of what a look-up in the table finds.
pub set_up_lem :
    (c : Crypto) (priv : Bytes) (heap : Heap) {W : Type 0} (T : Option (HandlerType W) → Type 0)
    (mws : List (Middleware W)) (smws : List (StreamMiddleware W)) (routes : List (Route W))
    → T none
    → All (λ (route : Route W). T (some (behind mws smws route))) routes
    → (opcode : ℕ) → T (HashMap.get opcode (set_up c priv heap mws smws routes))
unfolding set_up new_server HashMap.get
set_up_lem c priv heap {W} T mws smws routes nothing all opcode =
    let srv : Server W = (new_server c priv heap).0 in
    let (first, second, third) = use_all_middlewares mws srv in
    let (first', second', third') = use_all_stream_middlewares smws (use_all mws srv) in
    add_routes_lem T routes (use_all_stream smws (use_all mws srv))
      (λ op. rw (third', third) nothing) (rw (first', second', first, second) all) opcode
