-- ===== src/Middleware.antt =====
-- src/middleware.rs, and the handlers that it wraps: `SyncHandler` of src/server.rs. A handler works
-- on a state `W` that stands for all it can see and change: the log, counters, the application.
pub mod Order
use hush_rs.Base.{
  ℕ, ◌<◌, Bool, List, [], ◌∷◌, Option, none, some, ltb, if◌then◌else◌, true, false, ◌++◌,
}
use mathlib.Core.List.{reverse}
use hush_rs.Std.Words.{Bytes}
use hush_rs.Std.Utf8.{ascii}
use hush_rs.Std.Eq.{bytes_eq}
use hush_rs.Tlv.Value.{Map}
use hush_rs.Frame.Body.{Response}

-- `Request` of src/server.rs
pub record Request : Type 0 where
  pub opcode : ℕ
  pub payload : Map
  pub session_id : ℕ
  pub api_key_id : Bytes

-- What a call of a handler ends with: `Ok`, `Err`, or a panic that unwinds through the caller.
pub data Outcome : Type 0 where
  responded : Response → Outcome
  failed : Bytes → Outcome
  panicked : Outcome

-- `SyncHandler`, `Middleware`
abbrev pub Handler : Type 0 → Type 0
Handler W = Request → W → Outcome × W

abbrev pub Middleware : Type 0 → Type 0
Middleware W = Handler W → Handler W

-- `ids.contains`
unfoldable pub contains : Bytes → List Bytes → Bool
contains id [] = false
contains id (x ∷ ids) = if bytes_eq id x then true else contains id ids

module _ {W : Type 0} where
  -- `logging_middleware`, with what the logger does to a result; a panic passes it by.
  unfoldable pub log_result : Option (ℕ → Outcome → W → W) → ℕ → Outcome × W → Outcome × W
  log_result none opcode result = result
  log_result (some log) opcode (panicked, w) = (panicked, w)
  log_result (some log) opcode (result, w) = (result, log opcode result w)

  unfoldable pub logging_middleware : Option (ℕ → Outcome → W → W) → Middleware W
  logging_middleware logger next req w = log_result logger req.opcode (next req w)

  -- `recovery_middleware`
  unfoldable pub recover : Outcome × W → Outcome × W
  recover (responded resp, w) = (responded resp, w)
  recover (failed e, w) = (failed e, w)
  recover (panicked, w) = (failed (ascii "internal error (panic)"), w)

  unfoldable pub recovery_middleware : Middleware W
  recovery_middleware next req w = recover (next req w)

  -- `rate_limit_middleware`; the limiter is a closure that counts.
  unfoldable pub rate_limit_middleware : (W → ℕ × W) → ℕ → Middleware W
  rate_limit_middleware limiter limit next req w =
      let (count, w') = limiter w in
      if ltb limit count then (failed (ascii "rate limit exceeded"), w') else next req w'

  -- `require_api_key_id`
  unfoldable pub require_api_key_id : List Bytes → Middleware W
  require_api_key_id allowed next req w =
      if contains req.api_key_id allowed
      then next req w
      else (failed (ascii "api key '" ++ (req.api_key_id ++ ascii "' not authorized")), w)

-- The loop of `Server::handle` and of `handle_stream` over `self.middlewares.iter().rev()`.
unfoldable pub wrap_all : {H : Type 0} → List (H → H) → H → H
wrap_all [] h = h
wrap_all (mw ∷ mws) h = wrap_all mws (mw h)

unfoldable pub wrapped : {H : Type 0} → List (H → H) → H → H
wrapped middlewares handler = wrap_all (reverse middlewares) handler
