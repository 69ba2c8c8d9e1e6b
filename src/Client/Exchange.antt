-- ===== src/Client/Exchange.antt =====
-- What one side of src/client.rs and src/server.rs sends and the other side reads.
use hush_rs.Base.{
  leb-true, ℕ, ◌+◌, ◌^◌, ◌<◌, ◌≡◌, true, ◌++◌, leb, length, length-append, append_assoc, arith,
  Option, some, ok,
}
use hush_rs.Std.Words.{Bytes, to_be_bytes, length-to_be_bytes, from_be_bytes-to_be_bytes}
use hush_rs.Std.Io.{IoError, Writer, read_exact-append}
use hush_rs.Std.Eq.{nat_eq}
use hush_rs.Session.Crypto.{Crypto, IsSound}
use hush_rs.Session.Cipher.{nonce_size, key_size}
use hush_rs.Tlv.Value.{Map}
use hush_rs.Frame.Wire.{max_frame_size, read_frame_async, write_frame_async}
use hush_rs.Frame.Wire.RoundTrip.{
  frame_bytes, encode_frame_lem, write_frame_lem, read_frame-frame_bytes,
}
use hush_rs.Frame.Body
use hush_rs.Frame.Body.{
  Response, error_response, internal_error, encode_request_body, decode_request,
  encode_response_body, decode_response, read_request_async,
}
use hush_rs.Frame.Body.RoundTrip.{
  AreCarried, decode_request-encode_request_body, decode_response-encode_response_body,
}
use hush_rs.Server.{reply}
use hush_rs.Client.{request_bytes, receive}

module _ (c : Crypto) (s : IsSound c) where
  -- The frame of a response is written, and a client with the key receives it.
  pub receive-write_frame :
      (nonce key : Bytes) (w : Writer) (seq : ℕ) (resp : Response)
      → length nonce ≡ nonce_size
      → length key ≡ key_size
      → w.is_open ≡ true
      → seq < 2 ^ 32
      → AreCarried resp.payload
      → (body sent : Bytes) × (encode_response_body c nonce (some key) resp ≡ ok body)
        × (write_frame_async w seq body ≡ ok (record w { outgoing = w.outgoing ++ sent }))
        × ((rest : Bytes) (e : IoError)
            → receive c key (record { incoming = sent ++ rest; ending = e })
              ≡ ok (record resp { seq = seq }, record { incoming = rest; ending = e }))
  unfolding receive write_frame_async
  receive-write_frame nonce key w seq resp hn hk o hs hp =
      let (body, enc, size, dec) =
        decode_response-encode_response_body c s nonce (some key) resp seq hn hk hp hs in
      let n = 4 + length body in
      let wire_data = to_be_bytes 4 seq ++ body in
      let len : length wire_data ≡ n =
        omega (arith, length-append {0} (to_be_bytes 4 seq) body, length-to_be_bytes 4 seq) in
      let small : leb n max_frame_size ≡ true = leb-true n max_frame_size (omega arith) in
      (
        body,
        frame_bytes seq body,
        enc,
        write_frame_lem w seq body o (omega arith),
        λ rest e. rw (
          append_assoc {0} (to_be_bytes 4 n) wire_data rest,
          read_exact-append 4 (to_be_bytes 4 n) (wire_data ++ rest) e (length-to_be_bytes 4 n),
          from_be_bytes-to_be_bytes 4 n (omega arith),
          small,
          read_exact-append n wire_data rest e len,
          dec,
        ),
      )

  -- What a server sends for a response, a client with the key receives.
  pub receive-reply :
      (nonce key : Bytes) (w : Writer) (seq : ℕ) (resp : Response)
      → length nonce ≡ nonce_size
      → length key ≡ key_size
      → w.is_open ≡ true
      → seq < 2 ^ 32
      → AreCarried resp.payload
      → (sent : Bytes) × (reply c nonce key w seq resp ≡ record w { outgoing = w.outgoing ++ sent })
        × ((rest : Bytes) (e : IoError)
            → receive c key (record { incoming = sent ++ rest; ending = e })
              ≡ ok (record resp { seq = seq }, record { incoming = rest; ending = e }))
  unfolding reply
  receive-reply nonce key w seq resp hn hk o hs hp =
      let (body, sent, enc, written, rec) =
        receive-write_frame nonce key w seq resp hn hk o hs hp in
      (sent, rw (enc, written), rec)

  -- What a client sends, a server with the key reads.
  pub read_request-request_bytes :
      (nonce key : Bytes) (seq opcode : ℕ) (payload : Option Map) (rest : Bytes) (e : IoError)
      → length nonce ≡ nonce_size
      → length key ≡ key_size
      → seq < 2 ^ 32
      → opcode < 2 ^ 16
      → AreCarried payload
      → (sent : Bytes) × (request_bytes c nonce key seq opcode payload ≡ ok sent)
        × (read_request_async c (record { incoming = sent ++ rest; ending = e }) (some key)
            ≡ ok (
              (record { opcode = opcode; payload = payload }, seq),
              record { incoming = rest; ending = e },
            ))
  unfolding request_bytes read_request_async read_frame_async
  read_request-request_bytes nonce key seq opcode payload rest e hn hk hs ho hp =
      let req : Body.Request = record { opcode = opcode; payload = payload } in
      let (body, enc, size, dec) =
        decode_request-encode_request_body c s nonce (some key) req seq hn hk ho hp hs in
      (
        frame_bytes seq body,
        rw (enc, encode_frame_lem seq body (omega arith)),
        rw (read_frame-frame_bytes seq body rest e hs (omega arith), dec),
      )
