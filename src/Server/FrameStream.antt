-- ===== src/Server/FrameStream.antt =====
-- `FrameStream` of src/server.rs, which a streaming handler gets: its two halves are arguments.
use hush_rs.Base.{ℕ, ◌<◌, ◌^◌, ◌≡◌, true, ◌++◌, length, some, Result, ok, ◌>>=◌, map_err}
use hush_rs.Std.Words.{Bytes}
use hush_rs.Std.Io.{IoError, Reader, Writer}
use hush_rs.Session.Crypto.{Crypto, IsSound}
use hush_rs.Session.Cipher.{nonce_size, key_size}
use hush_rs.Frame.Wire.{write_frame_async}
use hush_rs.Frame.Body
use hush_rs.Frame.Body.{frame, Response, RequestError, encode_response_body, read_request_async}
use hush_rs.Frame.Body.RoundTrip.{AreCarried}
use hush_rs.Client.{receive}
use hush_rs.Client.Exchange.{receive-write_frame}

module _ (c : Crypto) where
  -- `FrameStream::write_response`
  unfoldable pub write_response : Bytes → Writer → Bytes → ℕ → Response → Result RequestError Writer
  write_response nonce w key seq resp = do
    body ← encode_response_body c nonce (some key) resp
    map_err frame (write_frame_async w seq body)

  -- `FrameStream::read_request`
  unfoldable pub read_request : Reader → Bytes → Result RequestError ((Body.Request × ℕ) × Reader)
  read_request r key = read_request_async c r (some key)

-- A client receives what is written.
pub receive-write_response :
    (c : Crypto)
    → IsSound c
    → (nonce key : Bytes) (w : Writer) (seq : ℕ) (resp : Response) → length nonce ≡ nonce_size
    → length key ≡ key_size
    → w.is_open ≡ true
    → seq < 2 ^ 32
    → AreCarried resp.payload
    → (sent : Bytes) × (write_response c nonce w key seq resp
        ≡ ok (record w { outgoing = w.outgoing ++ sent }))
      × ((rest : Bytes) (e : IoError)
          → receive c key (record { incoming = sent ++ rest; ending = e })
            ≡ ok (record resp { seq = seq }, record { incoming = rest; ending = e }))
unfolding write_response
receive-write_response c s nonce key w seq resp hn hk o hs hp =
    let (body, sent, enc, written, rec) =
      receive-write_frame c s nonce key w seq resp hn hk o hs hp in
    (sent, rw (enc, written), rec)
