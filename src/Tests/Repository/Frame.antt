-- ===== src/Tests/Repository/Frame.antt =====
-- `mod tests` of src/frame.rs, for the toy cryptography.
use hush_rs.Base.{◌≡◌, refl, drop, none, some, Result, ok, ◌>>=◌, map_err}
use hush_rs.Std.Words.{Bytes, to_be_bytes, from_be_bytes}
use hush_rs.Std.Utf8.{ascii}
use hush_rs.Std.Io.{fresh, read_exact, write_all}
use hush_rs.Tlv.Value.{Value}
use hush_rs.Tlv.Map
use hush_rs.Tlv.Varint.{encode_varint}
use hush_rs.Tlv.Encode.{encode_map, type_byte}
use hush_rs.Tlv.Decode.{decode, decode_map, decode_map_opt}
use hush_rs.Session.Crypto.{Crypto}
use hush_rs.Session.Crypto.Toy.{toy}
use hush_rs.Session.Cipher.{encrypt, decrypt}
use hush_rs.Session.Handshake.{ApiKey}
use hush_rs.Frame.Wire.{FrameError, Frame, write_frame, encode_frame, read_frame, parse_frame_data}
use hush_rs.Frame.Body
use hush_rs.Frame.Body.{
  frame, Response, not_found, encode_request_body, decode_request, encode_response_body,
  decode_response, protect, unprotect, status_from_u8, status_byte,
}
use hush_rs.Server.Tcp.Conversation.{at_end}
use hush_rs.Tests.Samples.{some_key, some_nonce}

-- `test_frame_roundtrip`
unfoldable frame_roundtrip : Result FrameError Frame
frame_roundtrip = do
  buf ← write_frame fresh 42 (ascii "hello")
  (found, r) ← read_frame (at_end buf.outgoing)
  ok found

frame_roundtrip_lem : frame_roundtrip ≡ ok (record { seq = 42; body = ascii "hello" })
unfolding frame_roundtrip write_frame read_frame write_all read_exact to_be_bytes from_be_bytes
frame_roundtrip_lem = refl

module _ (c : Crypto) (nonce : Bytes) (key : ApiKey) where
  -- `test_request_response_encrypted`: the request that is read back
  unfoldable request_encrypted : Result Body.RequestError Body.Request
  request_encrypted = do
    let payload = Map.set (ascii "name") (Value.string (ascii "hush")) Map.new
    let req : Body.Request = record { opcode = 0x0001; payload = some payload }
    body ← encode_request_body c nonce (some key.secret) req
    frame_bytes ← map_err frame (encode_frame 1 body)
    (decoded, seq) ← decode_request c (some key.secret) (drop 4 frame_bytes)
    ok decoded

  -- `test_response_roundtrip`
  unfoldable response_roundtrip : Result Body.RequestError Response
  response_roundtrip = do
    let resp : Response = record { status = not_found; payload = none; seq = 0 }
    body ← encode_response_body c nonce (some key.secret) resp
    frame_bytes ← map_err frame (encode_frame 1 body)
    decode_response c (some key.secret) (drop 4 frame_bytes)

abbrev key : ApiKey
key = record { id = ascii "0011223344556677"; secret = some_key }

request_encrypted_lem :
    request_encrypted toy some_nonce key
    ≡ ok (record {
      opcode = 0x0001;
      payload = some (Map.set (ascii "name") (Value.string (ascii "hush")) Map.new);
    })
unfolding request_encrypted encode_frame encode_request_body decode_request protect unprotect
    encrypt decrypt parse_frame_data to_be_bytes from_be_bytes Map.set Map.new encode_map
    encode_varint decode_map_opt decode_map decode type_byte
request_encrypted_lem = refl

response_roundtrip_lem :
    response_roundtrip toy some_nonce key
    ≡ ok (record { status = not_found; payload = none; seq = 1 })
unfolding response_roundtrip encode_frame encode_response_body decode_response protect unprotect
    encrypt decrypt parse_frame_data to_be_bytes from_be_bytes status_from_u8 status_byte
response_roundtrip_lem = refl
