-- ===== src/Server/Establish.antt =====
-- The handshake at the start of `handle_connection` and of `handle_tcp_connection` of src/server.rs.
-- The two have one body, but for how an error of the stream is converted.
use hush_rs.Base.{
  ℕ, ◌+◌, ◌==◌, [], ◌++◌, leb, take, drop, if◌then◌else◌, Result, ok, ◌>>=◌, ◌>>◌, guard, ok_or,
  map_err,
}
use hush_rs.Std.Words.{Bytes, to_be_bytes, from_be_bytes}
use hush_rs.Std.Utf8.{ascii, from_utf8_lossy}
use hush_rs.Std.Io.{IoError, unexpected_eof, other, Reader, Writer, read_exact, write_all}
use hush_rs.Session.Crypto.{Crypto}
use hush_rs.Session.Cipher.{SessionError, shared_secret, derive_session_key}
use hush_rs.Session.Store.{ApiKeyStore}

-- The texts in `ServerError::Config` that a handshake can give.
pub data ConfigMessage : Type 0 where
  invalid_key_length no_media : ConfigMessage
  unknown_api_key : Bytes → ConfigMessage

-- `ServerError`, without the failures of quinn and of the transport.
pub data ServerError : Type 0 where
  config : ConfigMessage → ServerError
  session : SessionError → ServerError
  io : IoError → ServerError

-- Over which kind of stream a connection runs.
pub data Carrier : Type 0 where
  quic tcp : Carrier

-- `From<quinn::ReadExactError>` and `From<std::io::Error>`
abbrev pub read_error : Carrier → IoError → ServerError
read_error quic e = io unexpected_eof
read_error tcp e = io e

-- `From<quinn::WriteError>`, whose `BrokenPipe` is an `other` here, and `From<std::io::Error>`
abbrev pub write_error : Carrier → IoError → ServerError
write_error quic e = io other
write_error tcp e = io e

-- `b"hush-anonymous"`
abbrev pub anonymous_secret : Bytes
anonymous_secret = ascii "hush-anonymous"

module _ (c : Crypto) (carrier : Carrier) (server_priv server_pub : Bytes) where
  -- `key_len == 0`
  unfoldable pub accept_anonymous :
      ℕ → Reader → Writer → Result ServerError ((Bytes × Bytes) × Reader × Writer)
  accept_anonymous session_id r w = do
    (client_pub, r') ← map_err (read_error carrier) (read_exact 32 r)
    let shared = shared_secret c server_priv client_pub
    session_key ← map_err session (derive_session_key c shared anonymous_secret)
    w' ← map_err (write_error carrier) (write_all (server_pub ++ to_be_bytes 8 session_id) w)
    ok (([], session_key), r', w')

  -- The other branch; `String::from_utf8_lossy` takes any bytes.
  unfoldable pub accept_keyed :
      ApiKeyStore → ℕ → ℕ → Reader → Writer → Result ServerError ((Bytes × Bytes) × Reader × Writer)
  accept_keyed key_store session_id key_len r w = do
    (key_buf, r') ← map_err (read_error carrier) (read_exact (key_len + 32) r)
    let aid = from_utf8_lossy (take key_len key_buf)
    let client_pub = drop key_len key_buf
    api_key_secret ← ok_or (key_store aid) (config (unknown_api_key aid))
    let shared = shared_secret c server_priv client_pub
    session_key ← map_err session (derive_session_key c shared api_key_secret)
    w' ← map_err (write_error carrier) (write_all (server_pub ++ to_be_bytes 8 session_id) w)
    ok ((aid, session_key), r', w')

  -- The handshake: the id of the API key, empty for an anonymous client, and the session key.
  unfoldable pub accept_handshake :
      ApiKeyStore → ℕ → Reader → Writer → Result ServerError ((Bytes × Bytes) × Reader × Writer)
  accept_handshake key_store session_id r w = do
    (header, r') ← map_err (read_error carrier) (read_exact 2 r)
    let key_len = from_be_bytes header
    guard (leb key_len 256) (config invalid_key_length)
    if key_len == 0
        then accept_anonymous session_id r' w
        else accept_keyed key_store session_id key_len r' w
