-- ===== src/Frame/Body.antt =====
-- Requests and responses: `[opcode: u16][map]` and `[status: u8][map]`, encrypted under a key or plain.
pub mod RoundTrip
use hush_rs.Base.{
  ℕ, ◌+◌, ◌==◌, if◌then◌else◌, Bool, true, false, [], ◌∷◌, ◌++◌, leb, ltb, length, take, drop,
  get_elem?, Option, none, some, Result, ok, err, ◌>>=◌, ◌>>◌, guard, ok_or, map_err,
}
use hush_rs.Std.Words.{Bytes, to_be_bytes, from_be_bytes}
use hush_rs.Std.Utf8.{ascii}
use hush_rs.Std.Io.{IoError, Reader, Writer}
use hush_rs.Tlv.Value.{Value, Map}
use hush_rs.Tlv.Map
use hush_rs.Tlv.Encode.{encode_map}
use hush_rs.Tlv.Decode.{decode_map_opt}
use hush_rs.Session.Crypto.{Crypto}
use hush_rs.Session.Cipher.{SessionError, encrypt, decrypt}
use hush_rs.Frame.Wire.{Frame, FrameError, parse_frame_data, read_frame_async, write_frame_async}
use Prim.Native.String.{String}

-- `StatusCode`
pub data StatusCode : Type 0 where
  success bad_request unauthenticated permission_denied not_found session_expired rate_limited :
      StatusCode
  internal_error : StatusCode

-- `status as u8`
unfoldable pub status_byte : StatusCode → ℕ
status_byte success = 0x00
status_byte bad_request = 0x01
status_byte unauthenticated = 0x02
status_byte permission_denied = 0x03
status_byte not_found = 0x04
status_byte session_expired = 0x05
status_byte rate_limited = 0x06
status_byte internal_error = 0x07

-- `StatusCode::from_u8`
unfoldable pub status_from_u8 : ℕ → Option StatusCode
status_from_u8 b =
    if b == 0x00
    then some success
    else if b == 0x01
    then some bad_request
    else if b == 0x02
    then some unauthenticated
    else if b == 0x03
    then some permission_denied
    else if b == 0x04
    then some not_found
    else if b == 0x05
    then some session_expired
    else if b == 0x06
    then some rate_limited
    else if b == 0x07
    then some internal_error
    else none

-- `StatusCode::name`
unfoldable pub name : StatusCode → String
name success = "success"
name bad_request = "bad_request"
name unauthenticated = "unauthenticated"
name permission_denied = "permission_denied"
name not_found = "not_found"
name session_expired = "session_expired"
name rate_limited = "rate_limited"
name internal_error = "internal_error"

-- `Request` of src/frame.rs
pub record Request : Type 0 where
  pub opcode : ℕ
  pub payload : Option Map

-- `Response`
pub record Response : Type 0 where
  pub status : StatusCode
  pub payload : Option Map
  pub seq : ℕ

-- `RequestError`. `panic` is none of its values: the `expect` of `tlv::encode` failed.
pub data RequestError : Type 0 where
  frame : FrameError → RequestError
  session : SessionError → RequestError
  too_short : RequestError
  unknown_status : ℕ → RequestError
  io : IoError → RequestError
  panic : RequestError

-- The optional map behind the opcode or the status.
abbrev pub map_bytes : Option Map → Result RequestError Bytes
map_bytes none = ok []
map_bytes (some m) = ok_or (encode_map m) panic

-- `if plaintext.len() > n { decode_map_opt(&plaintext[n..]) } else { None }`
abbrev pub map_behind : ℕ → Bytes → Option Map
map_behind n plaintext =
    if ltb n (length plaintext) then decode_map_opt (drop n plaintext) else none

-- `new_response`
unfoldable pub new_response : Map → Response
new_response payload = record { status = success; payload = some payload; seq = 0 }

-- `error_response`
unfoldable pub error_response : StatusCode → Bytes → Response
error_response code message = record {
  status = code;
  payload = some (Map.set (ascii "error") (Value.string message) Map.new);
  seq = 0;
}

module _ (c : Crypto) where
  -- The last step of both encoders; the nonce is what the random generator gives.
  unfoldable pub protect : Bytes → Option Bytes → Bytes → Result RequestError Bytes
  protect nonce none plaintext = ok plaintext
  protect nonce (some key) plaintext = map_err session (encrypt c nonce key plaintext)

  -- The first step of both decoders.
  unfoldable pub unprotect : Option Bytes → Bytes → Result RequestError Bytes
  unprotect none body = ok body
  unprotect (some key) body = map_err session (decrypt c key body)

  -- `encode_request_body`
  unfoldable pub encode_request_body : Bytes → Option Bytes → Request → Result RequestError Bytes
  encode_request_body nonce key req = do
    tlv_data ← map_bytes req.payload
    protect nonce key (to_be_bytes 2 req.opcode ++ tlv_data)

  -- `decode_request`
  unfoldable pub decode_request : Option Bytes → Bytes → Result RequestError (Request × ℕ)
  decode_request key wire_data = do
    f ← map_err frame (parse_frame_data wire_data)
    plaintext ← unprotect key f.body
    guard (leb 2 (length plaintext)) too_short
    let opcode = from_be_bytes (take 2 plaintext)
    ok (record { opcode = opcode; payload = map_behind 2 plaintext }, f.seq)

  -- `encode_response_body`
  unfoldable pub encode_response_body : Bytes → Option Bytes → Response → Result RequestError Bytes
  encode_response_body nonce key resp = do
    tlv_data ← map_bytes resp.payload
    protect nonce key (status_byte resp.status ∷ tlv_data)

  -- `decode_response`; `get_elem? … 0` is `none` exactly where `plaintext.is_empty()`.
  unfoldable pub decode_response : Option Bytes → Bytes → Result RequestError Response
  decode_response key wire_data = do
    f ← map_err frame (parse_frame_data wire_data)
    plaintext ← unprotect key f.body
    b ← ok_or (get_elem? plaintext 0) too_short
    status ← ok_or (status_from_u8 b) (unknown_status b)
    ok (record { status = status; payload = map_behind 1 plaintext; seq = f.seq })

  -- `read_request_async`
  unfoldable pub read_request_async :
      Reader → Option Bytes → Result RequestError ((Request × ℕ) × Reader)
  read_request_async r key = do
    (f, r') ← map_err frame (read_frame_async r)
    req ← decode_request key (to_be_bytes 4 f.seq ++ f.body)
    ok (req, r')

  -- `write_response_async`
  unfoldable pub write_response_async :
      Bytes → Writer → Option Bytes → ℕ → Response → Result RequestError Writer
  write_response_async nonce w key seq resp = do
    body ← encode_response_body nonce key resp
    map_err frame (write_frame_async w seq body)
