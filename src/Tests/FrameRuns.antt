-- ===== src/Tests/FrameRuns.antt =====
-- The theorems on src/frame.rs and src/client.rs at concrete values.
use hush_rs.Base.{All, ◌+◌, ◌≤◌, ◌≡◌, refl, [], ◌∷◌, ◌++◌, length, arith, some, ok, true}
use hush_rs.Std.Words.{IsByte, Bytes, from_be_bytes, to_be_bytes}
use hush_rs.Std.Io.{read_exact, unexpected_eof, Reader, Writer}
use hush_rs.Std.Eq.{nat_eq}
use hush_rs.Session.Crypto.Toy.{toy, toy-IsSound}
use hush_rs.Frame.Wire.{Frame, max_frame_size, read_frame, write_frame, encode_frame}
use hush_rs.Frame.Wire.RoundTrip.{write_frame-read_frame, read_frame-write_frame, read_frame_takes}
use hush_rs.Frame.Body
use hush_rs.Frame.Body.{
  StatusCode, success, status_byte, status_from_u8, Response, encode_request_body, decode_request,
  encode_response_body, decode_response,
}
use hush_rs.Frame.Body.RoundTrip.{
  decode_request-encode_request_body, decode_response-encode_response_body,
}
use hush_rs.Tests.Samples.{greeting, greeting-IsCarried, some_key, some_nonce, greeted}

abbrev nobody : Writer
nobody = record { outgoing = []; is_open = true }

read_frame-write_frame_example :
    (sent : Bytes) × (write_frame nobody 3 (1 ∷ 2 ∷ [])
      ≡ ok (record { outgoing = sent; is_open = true }))
    × (encode_frame 3 (1 ∷ 2 ∷ []) ≡ ok sent)
    × (read_frame (record { incoming = sent ++ (9 ∷ []); ending = unexpected_eof })
        ≡ ok (
          record { seq = 3; body = 1 ∷ 2 ∷ [] },
          record { incoming = 9 ∷ []; ending = unexpected_eof },
        ))
read_frame-write_frame_example =
    read_frame-write_frame nobody 3 (1 ∷ 2 ∷ []) (9 ∷ []) unexpected_eof refl (omega arith)
      (omega arith)

abbrev one_frame : Reader
one_frame = record {
  incoming = 0 ∷ 0 ∷ 0 ∷ 5 ∷ 0 ∷ 0 ∷ 0 ∷ 1 ∷ 42 ∷ 8 ∷ [];
  ending = unexpected_eof;
}

abbrev one_left : Reader
one_left = record { incoming = 8 ∷ []; ending = unexpected_eof }

abbrev frame_read : Frame
frame_read = record { seq = 1; body = 42 ∷ [] }

one_frame_read : read_frame one_frame ≡ ok (frame_read, one_left)
unfolding read_frame read_exact from_be_bytes
one_frame_read = refl

read_frame_takes_example :
    (4 + length frame_read.body ≤ max_frame_size)
    × (length one_frame.incoming ≡ 8 + length frame_read.body + length one_left.incoming)
    × (one_left.ending ≡ one_frame.ending)
read_frame_takes_example = read_frame_takes one_frame one_left frame_read one_frame_read

one_frame_bytes : All IsByte one_frame.incoming
one_frame_bytes = (
  omega arith,
  (
    omega arith,
    (
      omega arith,
      (
        omega arith,
        (
          omega arith,
          (omega arith, (omega arith, (omega arith, (omega arith, (omega arith, tt))))),
        ),
      ),
    ),
  ),
)

write_frame-read_frame_example :
    (sent : Bytes) × (write_frame nobody frame_read.seq frame_read.body
      ≡ ok (record nobody { outgoing = nobody.outgoing ++ sent }))
    × (encode_frame frame_read.seq frame_read.body ≡ ok sent)
    × (one_frame.incoming ≡ sent ++ one_left.incoming)
write_frame-read_frame_example =
    write_frame-read_frame nobody one_frame one_left frame_read refl one_frame_bytes one_frame_read

abbrev greet : Body.Request
greet = record { opcode = 0x0101; payload = some greeting }

decode_request-encode_request_body_example :
    (body : Bytes) × (encode_request_body toy some_nonce (some some_key) greet ≡ ok body)
    × (length body ≤ 524_329)
    × (decode_request toy (some some_key) (to_be_bytes 4 1 ++ body) ≡ ok (greet, 1))
decode_request-encode_request_body_example =
    decode_request-encode_request_body toy toy-IsSound some_nonce (some some_key) greet 1 refl refl
      (omega arith) greeting-IsCarried (omega arith)

decode_response-encode_response_body_example :
    (body : Bytes) × (encode_response_body toy some_nonce (some some_key) greeted ≡ ok body)
    × (length body ≤ 524_328)
    × (decode_response toy (some some_key) (to_be_bytes 4 1 ++ body)
        ≡ ok (record greeted { seq = 1 }))
decode_response-encode_response_body_example =
    decode_response-encode_response_body toy toy-IsSound some_nonce (some some_key) greeted 1 refl
      refl greeting-IsCarried (omega arith)
