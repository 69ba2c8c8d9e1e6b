-- ===== src/Transport/Toy.antt =====
-- A toy instance of the libraries: a configuration is its ALPN, and a connection the bytes that open it.
use hush_rs.Base.{List, [], ◌∷◌, ◌++◌, refl, Option, none, some, Result, ok, err}
use hush_rs.Std.Words.{Bytes}
use hush_rs.Std.Utf8.{ascii}
use hush_rs.Transport.Libraries.{Net, IsNet}

-- Who will connect, and what was written to standard error.
pub record ToyWorld : Type 0 where
  pub pending : List Bytes
  pub stderr : Bytes

abbrev pop : List Bytes → Bytes → Result Bytes (Bytes × Bytes) × ToyWorld
pop [] text = (err (ascii "nobody"), record { pending = []; stderr = text })
pop (peer ∷ pending) text = (ok (peer, peer), record { pending = pending; stderr = text })

abbrev pop_quic : List Bytes → Bytes → Option Bytes × ToyWorld
pop_quic [] text = (none, record { pending = []; stderr = text })
pop_quic (peer ∷ pending) text = (some peer, record { pending = pending; stderr = text })

-- Nobody shakes hands with an empty greeting.
abbrev shake : Bytes → ToyWorld → Result Bytes Bytes × ToyWorld
shake [] w = (err (ascii "no greeting"), w)
shake (b ∷ bs) w = (ok (b ∷ bs), w)

abbrev pub toy_net : Net
toy_net = record {
  World = ToyWorld;
  Certificate = Bytes;
  PrivateKey = Bytes;
  Signature = Bytes;
  Scheme = Bytes;
  ServerTls = List Bytes;
  ServerBuilder = Unit;
  ClientTls = List Bytes;
  ClientBuilder = Unit;
  QuicServer = List Bytes;
  QuicClient = List Bytes;
  SocketAddr = Bytes;
  UdpSocket = Bytes;
  Endpoint = Bytes;
  Connecting = Bytes;
  Connection = Bytes;
  Listener = Bytes;
  Acceptor = List Bytes;
  Connector = List Bytes;
  TcpStream = Bytes;
  ServerName = Bytes;
  TlsStream = Bytes;
  parse_addr = λ text. ok text;
  ip_text = λ addr. addr;
  install_provider = λ w. w;
  server_tls13 = ok tt;
  client_tls13 = ok tt;
  with_single_cert = λ builder certs key. ok [];
  with_verifier = λ builder verifier. [];
  rsa_pkcs1_sha256 = ascii "RSA_PKCS1_SHA256";
  rsa_pss_sha256 = ascii "RSA_PSS_SHA256";
  ecdsa_nistp256_sha256 = ascii "ECDSA_NISTP256_SHA256";
  ed25519 = ascii "ED25519";
  set_server_alpn = λ ps tls. ps;
  set_client_alpn = λ ps tls. ps;
  read_file = λ path w. (ok path, w);
  pem_certs = λ pem. ok pem ∷ [];
  pem_private_key = λ pem. ok (some pem);
  quic_server = λ tls. ok tls;
  quic_client = λ tls. ok tls;
  endpoint_server = λ cfg addr w. (ok addr, w);
  endpoint_client = λ addr w. (ok addr, w);
  endpoint_on = λ cfg socket w. (ok socket, w);
  endpoint_addr = λ endpoint. ok endpoint;
  connect_with = λ endpoint cfg addr server_name w. (ok server_name, w);
  connected = shake;
  endpoint_accept = λ endpoint w. pop_quic w.pending w.stderr;
  tcp_listen = λ addr w. (ok addr, w);
  listener_addr = λ listener. ok listener;
  tcp_accept = λ listener w. pop w.pending w.stderr;
  tcp_connect = λ addr w. (ok addr, w);
  set_nodelay = λ stream w. w;
  parse_server_name = λ text. ok text;
  acceptor_of = λ tls. tls;
  connector_of = λ tls. tls;
  tls_accept = λ acceptor stream w. shake stream w;
  tls_connect = λ connector server_name stream w. (ok server_name, w);
  clock = λ w. 0;
  write_stderr = λ line w. record w { stderr = w.stderr ++ line };
}

pub toy_net-IsNet : IsNet toy_net
toy_net-IsNet = record { server_alpn_set = λ ps qs tls. refl; client_alpn_set = λ ps qs tls. refl }
