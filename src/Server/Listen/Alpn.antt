-- ===== src/Server/Listen/Alpn.antt =====
-- The ALPN that the listeners of src/server.rs set, and `tcp_dial` of src/transport.rs.
use hush_rs.Base.{ℕ, ◌≡◌, refl, List, [], ◌∷◌}
use hush_rs.Std.Words.{Bytes}
use hush_rs.Transport.Libraries.{Net, IsNet}
use hush_rs.Transport.{default_alpn, tcp_bind, tcp_dial}
use hush_rs.Server.Accept.{System}
use hush_rs.Server.Listen.{
  Listening, with_tls, listen_on, endpoint_on_conn, listen_on_conn, prepare_tcp, listen_tcp,
  prepare_quic,
}

-- Over TCP, both when dialling and when listening, and on a socket of the caller, the ALPN that the TLS
-- configuration comes with does not matter: it is set to the protocol's.
pub tcp-alpn_set :
    (net : Net)
    → IsNet net
    → (ps : List Bytes) (addr : Bytes) (client_tls : net.ClientTls) (tls : net.ServerTls) (n : ℕ)
      (srv : Listening net) (conn : net.UdpSocket) (sys : System) (w : net.World)
    → (tcp_dial net addr (net.set_client_alpn ps client_tls) w ≡ tcp_dial net addr client_tls w)
      × (listen_tcp net n (with_tls net (net.set_server_alpn ps tls) srv) addr sys w
          ≡ listen_tcp net n (with_tls net tls srv) addr sys w)
      × (listen_on_conn net n (with_tls net (net.set_server_alpn ps tls) srv) conn sys w
          ≡ listen_on_conn net n (with_tls net tls srv) conn sys w)
unfolding tcp_dial tcp_bind with_tls prepare_tcp listen_tcp endpoint_on_conn listen_on_conn
    listen_on prepare_quic
tcp-alpn_set net law ps addr client_tls tls n srv conn sys w = (
  rw (law.client_alpn_set (default_alpn ∷ []) ps client_tls) refl,
  rw (law.server_alpn_set (default_alpn ∷ []) ps tls) refl,
  rw (law.server_alpn_set (default_alpn ∷ []) ps tls) refl,
)
