-- ===== src/Tests/Repository/Middleware.antt =====
-- `mod tests` of src/middleware.rs.
use hush_rs.Base.{◌&&◌, ◌≡◌, refl, Bool, true, false, [], ◌∷◌, none, some}
use hush_rs.Std.Words.{Bytes}
use hush_rs.Std.Utf8.{ascii}
use hush_rs.Std.Eq.{bytes_eq}
use hush_rs.Tlv.Map
use hush_rs.Frame.Body.{Response, success}
use hush_rs.Middleware.{
  Request, Outcome, responded, failed, panicked, Handler, contains, logging_middleware, log_result,
  recover, recovery_middleware, require_api_key_id,
}

abbrev succeeded : Response
succeeded = record { status = success; payload = some Map.new; seq = 0 }

abbrev ok_handler : Handler Unit
ok_handler req w = (responded succeeded, w)

abbrev panic_handler : Handler Unit
panic_handler req w = (panicked, w)

-- The requests of the tests, but for the id of the key
abbrev request_of : Bytes → Request
request_of api_key_id = record {
  opcode = 0x0101;
  payload = Map.new;
  session_id = 1;
  api_key_id = api_key_id;
}

-- `is_ok()` and `is_err()` of a result; a panic is neither.
abbrev is_ok : Outcome → Bool
is_ok (responded resp) = true
is_ok _ = false

abbrev is_err : Outcome → Bool
is_err (failed e) = true
is_err _ = false

-- The tests, by what they assert
unfoldable test_middleware_passthrough : Bool
test_middleware_passthrough =
    is_ok (logging_middleware none ok_handler (request_of (ascii "test")) tt).0

unfoldable test_recovery_middleware : Bool
test_recovery_middleware =
    is_err (recovery_middleware panic_handler (request_of (ascii "test")) tt).0

unfoldable test_require_api_key : Bool
test_require_api_key =
    let guarded = require_api_key_id (ascii "admin" ∷ []) ok_handler in
    is_ok (guarded (request_of (ascii "admin")) tt).0
    && is_err (guarded (request_of (ascii "hacker")) tt).0

tests_pass :
    (test_middleware_passthrough ≡ true)
    × (test_recovery_middleware ≡ true)
    × (test_require_api_key ≡ true)
unfolding test_middleware_passthrough test_recovery_middleware test_require_api_key
    logging_middleware log_result recovery_middleware recover require_api_key_id contains bytes_eq
tests_pass = (refl, refl, refl)
