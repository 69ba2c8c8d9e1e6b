-- ===== src/Server/Guarded/Limited.antt =====
-- A server behind `rate_limit_middleware` of src/middleware.rs, whose limiter counts the requests that
-- it is asked about, without wrapping.
use hush_rs.Base.{
  ℕ, suc, ◌≡◌, refl, List, [], ◌∷◌, map, some, ltb, min, All, arith, Bool-cases, inl, inr,
  Continues,
}
use hush_rs.Std.Words.{Bytes}
use hush_rs.Std.Io.{Reader, Writer}
use hush_rs.Session.Crypto.{Crypto}
use hush_rs.Session.Store.{SessionStore, ApiKeyStore}
use hush_rs.Middleware.{Request, Handler, Middleware, rate_limit_middleware}
use hush_rs.Middleware.Order.{nested}
use hush_rs.Server.{StreamHandler}
use hush_rs.Server.State.{Heap, StreamMiddleware}
use hush_rs.Server.Routes.{Route, handles, streams, behind, set_up, set_up_lem}
use hush_rs.Server.Establish.{tcp, quic, accept_handshake}
use hush_rs.Server.Tcp.{handle_tcp_connection}
use hush_rs.Server.Quic.{handle_connection}
use hush_rs.Server.Guarded.{
  Keeps, KeepsStream, Finds, FindsSync, Leaves, Remains, handle_tcp_connection-Leaves,
  handle_connection-Remains,
}

-- How often the limiter was asked, how many requests it let pass, and the application's state.
pub record Tally (S : Type 0) : Type 0 where
  pub asked : ℕ
  pub passed : ℕ
  pub state : S

module _ {S : Type 0} where
  -- A limiter that gives the number of times that it was asked.
  abbrev pub count : Tally S → ℕ × Tally S
  count t = (suc t.asked, record t { asked = suc t.asked })

  -- Notes the requests that the limiter let pass.
  abbrev pub note : Middleware (Tally S)
  note next req t = next req (record t { passed = suc t.passed })

  -- A handler or middleware of the application beside the limiter, whose count it does not see.
  abbrev pub beside : Handler S → Handler (Tally S)
  beside h req t = let (o, s) = h req t.state in (o, record t { state = s })

  abbrev pub middleware_beside : Middleware S → Middleware (Tally S)
  middleware_beside mw next req t =
      beside (mw (λ req' s. let (o, t') = next req' (record t { state = s }) in (o, t'.state))) req
        t

  abbrev pub stream_beside : StreamHandler S → StreamHandler (Tally S)
  stream_beside h req r w key t =
      let (w', s) = h req r w key t.state in (w', record t { state = s })

  abbrev pub stream_middleware_beside : StreamMiddleware S → StreamMiddleware (Tally S)
  stream_middleware_beside mw next req r w key t =
      stream_beside
        (mw (λ req' r' w' key' s.
          let (w'', t') = next req' r' w' key' (record t { state = s }) in (w'', t'.state)))
        req r w key t

  abbrev pub route_beside : Route S → Route (Tally S)
  route_beside (handles opcode h) = handles opcode (beside h)
  route_beside (streams opcode h) = streams opcode (stream_beside h)

  -- The limiter outermost, then the rest of the middleware.
  abbrev pub limited : ℕ → List (Middleware S) → List (Middleware (Tally S))
  limited limit mws = rate_limit_middleware count limit ∷ note ∷ map middleware_beside mws

  -- As many requests have passed the limiter as it was asked about, up to the limit.
  abbrev pub IsLimited : ℕ → Tally S → Type 0
  IsLimited limit t = t.passed ≡ min t.asked limit

  nested-beside :
      (mws : List (Middleware S)) (h : Handler S) (req : Request) (t : Tally S)
      → let after = (nested (map middleware_beside mws) (beside h) req t).1 in
        (after.asked ≡ t.asked) × (after.passed ≡ t.passed)
  unfolding nested
  nested-beside [] h req t = (refl, refl)
  nested-beside (mw ∷ mws) h req t = (refl, refl)

  nested-stream_beside :
      (limit sid : ℕ) (aid : Bytes) (smws : List (StreamMiddleware S)) (h : StreamHandler S)
      → KeepsStream sid aid
          (IsLimited limit)
          (nested (map stream_middleware_beside smws) (stream_beside h))
  unfolding nested
  nested-stream_beside limit sid aid [] h req r w key t same_id same_key p = p
  nested-stream_beside limit sid aid (mw ∷ smws) h req r w key t same_id same_key p = p

  rate_limit-Keeps :
      (limit sid : ℕ) (aid : Bytes) (mws : List (Middleware S)) (h : Handler S)
      → Keeps sid aid (IsLimited limit) (nested (limited limit mws) (beside h))
  unfolding nested rate_limit_middleware
  rate_limit-Keeps limit sid aid mws h req t same_id same_key p =
      elim (Bool-cases (ltb limit (suc t.asked))) [
        | inl over ↦ rw over (ground (arith, over))
        | inr under ↦
            let t' = record t { asked = suc t.asked; passed = suc t.passed } in
            let (asked', passed') = nested-beside mws h req t' in
            rw (under, asked', passed') (ground (arith, under))
      ]

  each-Finds :
      (limit sid : ℕ) (aid : Bytes) (mws : List (Middleware S)) (smws : List (StreamMiddleware S))
      (routes : List (Route S))
      → All
          (λ (route : Route (Tally S)).
            Finds sid aid
              (IsLimited limit)
              (some (behind (limited limit mws) (map stream_middleware_beside smws) route)))
          (map route_beside routes)
  each-Finds limit sid aid mws smws [] = tt
  each-Finds limit sid aid mws smws (handles op h ∷ routes) =
      (rate_limit-Keeps limit sid aid mws h, each-Finds limit sid aid mws smws routes)
  each-Finds limit sid aid mws smws (streams op h ∷ routes) =
      (nested-stream_beside limit sid aid smws h, each-Finds limit sid aid mws smws routes)

  each-FindsSync :
      (limit sid : ℕ) (aid : Bytes) (mws : List (Middleware S)) (smws : List (StreamMiddleware S))
      (routes : List (Route S))
      → All
          (λ (route : Route (Tally S)).
            FindsSync sid aid
              (IsLimited limit)
              (some (behind (limited limit mws) (map stream_middleware_beside smws) route)))
          (map route_beside routes)
  each-FindsSync limit sid aid mws smws [] = tt
  each-FindsSync limit sid aid mws smws (handles op h ∷ routes) =
      (rate_limit-Keeps limit sid aid mws h, each-FindsSync limit sid aid mws smws routes)
  each-FindsSync limit sid aid mws smws (streams op h ∷ routes) =
      (tt, each-FindsSync limit sid aid mws smws routes)

-- A new server is given its middleware, `rate_limit_middleware` first, and then its handlers, synchronous
-- and streaming; the limiter counts without wrapping, and no one else changes its count. Then the
-- requests that have passed the limiter are as many as it was asked about, up to `limit`: where it is so
-- before a connection over TCP or over QUIC, it is so after it, whatever requests it sends and whatever
-- the handlers and the other middleware do, requests that they refuse and panics included. Where the
-- handshake fails, the connection gives its error. Streaming handlers are not behind the limiter: it is
-- not asked about their requests, which do not count as passed.
pub connections-rate_limit_middleware :
    (c : Crypto) {S : Type 0} (priv public : Bytes) (heap : Heap) (key_store : ApiKeyStore)
    (sid : ℕ) (now : ℕ → ℕ) (nonce : ℕ → Bytes) (others : ℕ → SessionStore → SessionStore)
    (limit : ℕ) (mws : List (Middleware S)) (smws : List (StreamMiddleware S))
    (routes : List (Route S)) (sessions : SessionStore) (r : Reader) (w : Writer)
    (requests : List (Reader × Writer)) (t : Tally S)
    → IsLimited limit t
    → let table =
        set_up c priv heap
          (limited limit mws)
          (map stream_middleware_beside smws)
          (map route_beside routes) in
      Continues
        (Leaves (IsLimited limit))
        (accept_handshake c tcp priv public key_store sid r w)
        (handle_tcp_connection c priv public key_store sid now nonce others table sessions r w t)
      × Continues
          (Remains (IsLimited limit))
          (accept_handshake c quic priv public key_store sid r w)
          (handle_connection c priv public key_store sid now nonce others table sessions r w
            requests t)
connections-rate_limit_middleware c priv public heap ks sid now nonce others limit mws smws routes
      sessions r w requests t p =
    let inner = map stream_middleware_beside smws in
    let all = map route_beside routes in
    (
      handle_tcp_connection-Leaves c (IsLimited limit) priv public ks sid now nonce others _
          sessions r w t
          (λ aid key r' w' e.
            set_up_lem c priv heap (FindsSync sid aid (IsLimited limit)) (limited limit mws) inner
              all tt (each-FindsSync limit sid aid mws smws routes))
          p,
      handle_connection-Remains c (IsLimited limit) priv public ks sid now nonce others _ sessions r
          w requests t
          (λ aid key r' w' e.
            set_up_lem c priv heap (Finds sid aid (IsLimited limit)) (limited limit mws) inner all
              tt (each-Finds limit sid aid mws smws routes))
          p,
    )
