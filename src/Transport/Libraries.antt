-- ===== src/Transport/Libraries.antt =====
-- What src/transport.rs and the listeners of src/server.rs use of quinn, rustls, rustls_pemfile, tokio
-- and the standard library. An operation on the world gives its result, or the text of its failure.
use hush_rs.Base.{ℕ, ◌≡◌, List, Option, Result}
use hush_rs.Std.Words.{Bytes}

-- `rustls::client::danger::ServerCertVerifier`
pub record ServerCertVerifier (Certificate Signature Scheme : Type 0) : Type 0 where
  pub verify_server_cert :
      Certificate → List Certificate → Bytes → Bytes → ℕ → Result Bytes (Unit {0})
  pub verify_tls12_signature : Bytes → Certificate → Signature → Result Bytes (Unit {0})
  pub verify_tls13_signature : Bytes → Certificate → Signature → Result Bytes (Unit {0})
  pub supported_verify_schemes : List Scheme

pub record Net : Type 1 where
  pub World : Type 0
  -- The types of the libraries.
  pub Certificate : Type 0
  pub PrivateKey : Type 0
  pub Signature : Type 0
  pub Scheme : Type 0
  pub ServerTls : Type 0
  pub ServerBuilder : Type 0
  pub ClientTls : Type 0
  pub ClientBuilder : Type 0
  pub QuicServer : Type 0
  pub QuicClient : Type 0
  pub SocketAddr : Type 0
  pub UdpSocket : Type 0
  pub Endpoint : Type 0
  pub Connecting : Type 0
  pub Connection : Type 0
  pub Listener : Type 0
  pub Acceptor : Type 0
  pub Connector : Type 0
  pub TcpStream : Type 0
  pub ServerName : Type 0
  pub TlsStream : Type 0
  -- `SocketAddr`: parsing, and the text of its address
  pub parse_addr : Bytes → Result Bytes SocketAddr
  pub ip_text : SocketAddr → Bytes
  -- The configurations of rustls. `alpn_protocols` is a field of both.
  pub install_provider : World → World
  pub server_tls13 : Result Bytes ServerBuilder
  pub client_tls13 : Result Bytes ClientBuilder
  pub with_single_cert : ServerBuilder → List Certificate → PrivateKey → Result Bytes ServerTls
  pub with_verifier : ClientBuilder → ServerCertVerifier Certificate Signature Scheme → ClientTls
  pub rsa_pkcs1_sha256 : Scheme
  pub rsa_pss_sha256 : Scheme
  pub ecdsa_nistp256_sha256 : Scheme
  pub ed25519 : Scheme
  pub set_server_alpn : List Bytes → ServerTls → ServerTls
  pub set_client_alpn : List Bytes → ClientTls → ClientTls
  -- Files, and the PEM blocks in them
  pub read_file : Bytes → World → Result Bytes Bytes × World
  pub pem_certs : Bytes → List (Result Bytes Certificate)
  pub pem_private_key : Bytes → Result Bytes (Option PrivateKey)
  -- QUIC
  pub quic_server : ServerTls → Result Bytes QuicServer
  pub quic_client : ClientTls → Result Bytes QuicClient
  pub endpoint_server : QuicServer → SocketAddr → World → Result Bytes Endpoint × World
  pub endpoint_client : SocketAddr → World → Result Bytes Endpoint × World
  pub endpoint_on : QuicServer → UdpSocket → World → Result Bytes Endpoint × World
  pub endpoint_addr : Endpoint → Result Bytes Bytes
  pub connect_with :
      Endpoint → QuicClient → SocketAddr → Bytes → World → Result Bytes Connecting × World
  pub connected : Connecting → World → Result Bytes Connection × World
  pub endpoint_accept : Endpoint → World → Option Connecting × World
  -- TCP, and TLS over it
  pub tcp_listen : Bytes → World → Result Bytes Listener × World
  pub listener_addr : Listener → Result Bytes Bytes
  pub tcp_accept : Listener → World → Result Bytes (TcpStream × Bytes) × World
  pub tcp_connect : Bytes → World → Result Bytes TcpStream × World
  pub set_nodelay : TcpStream → World → World
  pub parse_server_name : Bytes → Result Bytes ServerName
  pub acceptor_of : ServerTls → Acceptor
  pub connector_of : ClientTls → Connector
  pub tls_accept : Acceptor → TcpStream → World → Result Bytes TlsStream × World
  pub tls_connect : Connector → ServerName → TcpStream → World → Result Bytes TlsStream × World
  -- The clock, in seconds since the epoch, and standard error
  pub clock : World → ℕ
  pub write_stderr : Bytes → World → World

-- `alpn_protocols` is a field: what is assigned last counts.
pub record IsNet (net : Net) : Type 0 where
  pub server_alpn_set :
      (ps qs : List Bytes) (tls : net.ServerTls)
      → net.set_server_alpn ps (net.set_server_alpn qs tls) ≡ net.set_server_alpn ps tls
  pub client_alpn_set :
      (ps qs : List Bytes) (tls : net.ClientTls)
      → net.set_client_alpn ps (net.set_client_alpn qs tls) ≡ net.set_client_alpn ps tls
