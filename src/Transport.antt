-- ===== src/Transport.antt =====
-- src/transport.rs: opening QUIC endpoints and connections over TLS. What quinn, rustls, tokio and the
-- parser of addresses do is the parameter `Net`; a failure of theirs is its text.
pub mod Libraries
pub mod Names
pub mod Toy
use hush_rs.Base.{ℕ, ◌==◌, Bool, List, [], ◌∷◌, ◌++◌, Option, none, some, Result, ok, if◌then◌else◌}
use hush_rs.Std.Words.{Bytes}
use hush_rs.Std.Utf8.{ascii}
use hush_rs.Std.Act.{Act, Attempt, ◌>>=◌, does, done_with, pure, run, unwrap}
use hush_rs.Transport.Libraries.{Net, ServerCertVerifier}

abbrev pub default_alpn : Bytes
default_alpn = ascii "hush/1"

-- `TransportError`
pub data TransportError : Type 0 where
  config : Bytes → TransportError

-- `TransportError::Config(format!(..))`, of a text and the failure behind it
abbrev pub because : Bytes → Bytes → TransportError
because text e = config (text ++ e)

-- `addr.split(':').next()`
unfoldable pub server_name_of : Bytes → Bytes
server_name_of [] = []
server_name_of (b ∷ addr) = let rest = server_name_of addr in if b == 58 then [] else b ∷ rest

-- `SkipVerify`
unfoldable pub skip_verify :
    {Certificate Signature Scheme : Type 0}
    → Scheme
    → Scheme
    → Scheme
    → Scheme
    → ServerCertVerifier Certificate Signature Scheme
skip_verify rsa_pkcs1_sha256 rsa_pss_sha256 ecdsa_nistp256_sha256 ed25519 = record {
  verify_server_cert = λ end_entity intermediates server_name ocsp now. ok tt;
  verify_tls12_signature = λ message cert dss. ok tt;
  verify_tls13_signature = λ message cert dss. ok tt;
  supported_verify_schemes =
      rsa_pkcs1_sha256 ∷ rsa_pss_sha256 ∷ ecdsa_nistp256_sha256 ∷ ed25519 ∷ [];
}

module _ (net : Net) where
  -- `bind`
  unfoldable pub bind : Bytes → net.ServerTls → Act net.World TransportError net.Endpoint
  bind addr server_tls = do
    quic_config ← pure (because (ascii "quic config: ")) (net.quic_server server_tls)
    socket_addr ← pure (because (ascii "addr parse: ")) (net.parse_addr addr)
    run (because (ascii "bind: ")) (net.endpoint_server quic_config socket_addr)

  -- `insecure_client_tls`
  unfoldable pub insecure_client_tls : Act net.World TransportError net.ClientTls
  insecure_client_tls = do
    _ ← does net.install_provider
    builder ← unwrap net.client_tls13
    done_with (
        net.with_verifier builder (
          skip_verify net.rsa_pkcs1_sha256 net.rsa_pss_sha256 net.ecdsa_nistp256_sha256
            net.ed25519))

  -- `client_tls.unwrap_or_else(insecure_client_tls)`
  abbrev pub tls_or_insecure : Option net.ClientTls → Act net.World TransportError net.ClientTls
  tls_or_insecure none = insecure_client_tls
  tls_or_insecure (some tls) = done_with tls

  -- `dial`
  unfoldable pub dial :
      Bytes → Option net.ClientTls → Act net.World TransportError (net.Connection × net.Endpoint)
  dial addr client_tls = do
    tls ← tls_or_insecure client_tls
    quic_config ← pure (because (ascii "quic config: ")) (net.quic_client tls)
    any ← unwrap (net.parse_addr (ascii "0.0.0.0:0"))
    endpoint ← run (because (ascii "bind: ")) (net.endpoint_client any)
    socket_addr ← pure (because (ascii "addr parse: ")) (net.parse_addr addr)
    let server_name = net.ip_text socket_addr
    connecting ←
        run (because (ascii "connect: "))
          (net.connect_with endpoint quic_config socket_addr server_name)
    conn ← run (because (ascii "handshake: ")) (net.connected connecting)
    done_with (conn, endpoint)

  -- `tcp_bind`
  unfoldable pub tcp_bind :
      Bytes → net.ServerTls → Act net.World TransportError (net.Listener × net.Acceptor)
  tcp_bind addr tls_config = do
    let cfg = net.set_server_alpn (default_alpn ∷ []) tls_config
    listener ← run (because (ascii "tcp bind " ++ (addr ++ ascii ": "))) (net.tcp_listen addr)
    done_with (listener, net.acceptor_of cfg)

  -- `tcp_accept`
  unfoldable pub tcp_accept :
      net.Listener → net.Acceptor → Act net.World TransportError net.TlsStream
  tcp_accept listener acceptor = do
    (stream, peer_addr) ← run (because (ascii "tcp accept: ")) (net.tcp_accept listener)
    _ ← does (net.set_nodelay stream)
    run (because (ascii "tls accept from " ++ (peer_addr ++ ascii ": ")))
        (net.tls_accept acceptor stream)

  -- `tcp_dial`
  unfoldable pub tcp_dial : Bytes → net.ClientTls → Act net.World TransportError net.TlsStream
  tcp_dial addr tls_config = do
    let cfg = net.set_client_alpn (default_alpn ∷ []) tls_config
    stream ← run (because (ascii "tcp connect " ++ (addr ++ ascii ": "))) (net.tcp_connect addr)
    _ ← does (net.set_nodelay stream)
    let connector = net.connector_of cfg
    let server_name = server_name_of addr
    domain ←
        pure (because (ascii "invalid server name '" ++ (server_name ++ ascii "': ")))
          (net.parse_server_name server_name)
    run (because (ascii "tls handshake to " ++ (addr ++ ascii ": ")))
        (net.tls_connect connector domain stream)
