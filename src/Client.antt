-- ===== src/Client.antt =====
-- src/client.rs: a request of a client over QUIC, `do_quinn`, and over TCP, `do_tcp`. What the peer
-- sends is a function of what it was sent, for the client reads when it has sent its request.
pub mod Exchange
pub mod Calls
pub mod Dial
pub mod Streams
use hush_rs.Base.{
  ℕ, ◌+◌, ◌%◌, ◌^◌, Bool, true, [], ◌++◌, leb, Option, none, some, Result, ok, err, ◌>>=◌, ◌>>◌,
  guard, map_err, ok_or,
}
use hush_rs.Std.Words.{Bytes, from_be_bytes}
use hush_rs.Std.Io.{IoError, unexpected_eof, Reader, Writer, read_exact, write_all}
use hush_rs.Tlv.Value.{Map}
use hush_rs.Session.Crypto.{Crypto}
use hush_rs.Session.Cipher.{SessionError}
use hush_rs.Session.Store.{Session}
use hush_rs.Frame.Wire.{FrameError, too_large, max_frame_size, encode_frame}
use hush_rs.Frame.Body.{Request, Response, RequestError, encode_request_body, decode_response}

-- `ClientError`, without the failures to connect; `negotiate` has all texts of `Negotiate`
pub data ClientError : Type 0 where
  frame : FrameError → ClientError
  request : RequestError → ClientError
  session : SessionError → ClientError
  quinn negotiate : ClientError
  io : IoError → ClientError

-- `Transport`: which of the two; what a connection yields is an argument of the operations.
pub data Transport : Type 0 where
  quinn stream : Transport

-- `Client`
pub record Client : Type 0 where
  pub transport : Transport
  pub session : Session
  pub seq : ℕ
  pub session_key : Bytes

-- `self.seq.fetch_add(1)` on a u32
unfoldable pub next_seq : Client → ℕ × Client
next_seq cl = (cl.seq, record cl { seq = (cl.seq + 1) % 2 ^ 32 })

module _ (c : Crypto) where
  -- The bytes of a request.
  unfoldable pub request_bytes : Bytes → Bytes → ℕ → ℕ → Option Map → Result ClientError Bytes
  request_bytes nonce key seq opcode payload = do
    body ←
        map_err request
          (encode_request_body c nonce (some key) (record { opcode = opcode; payload = payload }))
    map_err frame (encode_frame seq body)

  -- The reading of the response.
  unfoldable pub receive : Bytes → Reader → Result ClientError (Response × Reader)
  receive key r = do
    (len_buf, r') ← map_err (λ _. io unexpected_eof) (read_exact 4 r)
    let frame_len = from_be_bytes len_buf
    guard (leb frame_len max_frame_size) (frame (too_large frame_len max_frame_size))
    (rest, r'') ← map_err (λ _. io unexpected_eof) (read_exact frame_len r')
    resp ← map_err request (decode_response c (some key) rest)
    ok (resp, r'')

  -- `do_quinn` after the `fetch_add`; `opened` is the stream of `conn.open_bi()`.
  unfoldable pub exchange_quinn :
      Bytes
      → Option Writer
      → (Bytes → Reader)
      → ℕ
      → ℕ
      → Option Map
      → Bytes
      → Result ClientError Response
  exchange_quinn nonce opened peer seq opcode payload key = do
    w ← ok_or opened ClientError.quinn
    frame_bytes ← request_bytes nonce key seq opcode payload
    w' ← map_err (λ _. negotiate) (write_all frame_bytes w)
    (resp, r) ← receive key (peer w'.outgoing)
    ok resp

  -- `do_quinn`
  unfoldable pub do_quinn :
      Bytes
      → Option Writer
      → (Bytes → Reader)
      → ℕ
      → Option Map
      → Client
      → Result ClientError Response × Client
  do_quinn nonce opened peer opcode payload cl =
      let (seq, cl') = next_seq cl in
      (exchange_quinn nonce opened peer seq opcode payload cl.session_key, cl')

  -- `do_tcp` after the `fetch_add`, on the stream behind the lock.
  unfoldable pub exchange_tcp :
      Bytes
      → Writer
      → (Bytes → Reader)
      → ℕ
      → ℕ
      → Option Map
      → Bytes
      → Result ClientError (Response × Writer × Reader)
  exchange_tcp nonce w peer seq opcode payload key = do
    frame_bytes ← request_bytes nonce key seq opcode payload
    w' ← map_err io (write_all frame_bytes w)
    (resp, r) ← receive key (peer w'.outgoing)
    ok (resp, w', r)

  -- `do_tcp`
  unfoldable pub do_tcp :
      Bytes
      → Writer
      → (Bytes → Reader)
      → ℕ
      → Option Map
      → Client
      → Result ClientError (Response × Writer × Reader) × Client
  do_tcp nonce w peer opcode payload cl =
      let (seq, cl') = next_seq cl in
      (exchange_tcp nonce w peer seq opcode payload cl.session_key, cl')
