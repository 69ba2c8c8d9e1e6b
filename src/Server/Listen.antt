-- ===== src/Server/Listen.antt =====
-- The TLS configuration and the listeners of src/server.rs: `load_tls`, `listen_and_serve`,
-- `listen_on_conn`, `listen_on` and `listen_tcp`, with what they log. Their accept loops do not end by
-- themselves; they are run for a number of turns.
pub mod Spawned
pub mod Alpn
pub mod LoadTls
use hush_rs.Base.{
  ℕ, zero, suc, List, [], ◌∷◌, ◌++◌, Option, none, some, Result, ok, err, if◌then◌else◌,
}
use hush_rs.Std.Words.{Bytes}
use hush_rs.Std.Utf8.{ascii}
use hush_rs.Std.Eq.{bytes_eq}
use hush_rs.Std.Act.{
  Act, Attempt, ◌>>=◌, done, fails, panics, done_with, does, pure, run, unwrap, required,
  failing_as,
}
use hush_rs.Logger.{Logger, info, warn, error}
use hush_rs.Transport.Libraries.{Net}
use hush_rs.Transport.{TransportError, default_alpn, bind, tcp_bind, tcp_accept}
use hush_rs.Server.Accept.{System, accept}

-- `ServerError::Config` and `ServerError::Transport`
pub data ListenError : Type 0 where
  config : Bytes → ListenError
  transport : TransportError → ListenError

abbrev pub because : Bytes → Bytes → ListenError
because text e = config (text ++ e)

-- The text of a `TransportError`
abbrev pub display : TransportError → Bytes
display (TransportError.config e) = ascii "transport: " ++ e

-- The fields of `Server` that the listeners read.
pub record Listening (net : Net) : Type 0 where
  pub tls_config : Option net.ServerTls
  pub logger : Option Logger
  pub gc_interval : ℕ

-- The tasks that are spawned: `gc_loop`, and a connection with its session id.
pub data Task (Conn : Type 0) : Type 0 where
  collecting : ℕ → Task Conn
  serving : ℕ → Conn → Task Conn

-- Where a listener is: in its loop, or it returned, or it panicked.
pub data Progress : Type 0 where
  looping : Progress
  returned : ListenError → Progress
  unwound : Progress

-- What a listener has done: the tasks that it spawned, and the server's tasks and counter.
pub record Listened (World Conn : Type 0) : Type 0 where
  pub tasks : List (Task Conn)
  pub system : System
  pub progress : Progress
  pub world : World

module _ {World Conn : Type 0} where
  abbrev pub spawning : Task Conn → Listened World Conn → Listened World Conn
  spawning task l = record l { tasks = task ∷ l.tasks }

  abbrev pub at_once : Progress → System → World → Listened World Conn
  at_once progress sys w = record { tasks = []; system = sys; progress = progress; world = w }

  -- `?` on what has to succeed before a listener goes on
  abbrev pub proceeding :
      {A : Type 0}
      → System
      → Attempt ListenError A × World
      → (A → World → Listened World Conn)
      → Listened World Conn
  proceeding sys (done a, w) next = next a w
  proceeding sys (fails e, w) next = at_once (returned e) sys w
  proceeding sys (panics, w) next = at_once unwound sys w

-- `match level`
unfoldable pub line_of : Logger → Bytes → ℕ → Bytes → Bytes
line_of logger level now msg =
    if bytes_eq level (ascii "INF")
    then info logger now msg
    else if bytes_eq level (ascii "WRN")
    then warn logger now msg
    else if bytes_eq level (ascii "ERR")
    then error logger now msg
    else info logger now msg

module _ (net : Net) where
  -- `Server::log`
  unfoldable pub log : Option Logger → Bytes → Bytes → net.World → net.World
  log none level msg w = w
  log (some logger) level msg w = net.write_stderr (line_of logger level (net.clock w) msg) w

  -- `with_tls`
  unfoldable pub with_tls : net.ServerTls → Listening net → Listening net
  with_tls tls srv = record srv { tls_config = some tls }

  -- `self.tls_config.as_ref().ok_or_else(..)?`
  abbrev pub required_tls : Listening net → Act net.World ListenError net.ServerTls
  required_tls srv = required srv.tls_config (config (ascii "TLS config required; use with_tls()"))

  -- `self.log("INF", ..)` behind which the loop starts
  abbrev pub announce : Listening net → Bytes → Bytes → Act net.World ListenError (Unit {0})
  announce srv text addr = does (
      log srv.logger (ascii "INF")
        (text ++ (addr ++ (ascii " (ALPN: " ++ (default_alpn ++ ascii ")")))))

  -- The accept loop of `listen_on`, for a number of turns
  unfoldable pub quic_loop :
      ℕ → Option Logger → net.Endpoint → System → net.World → Listened net.World net.Connection
  quic_loop zero logger endpoint sys w = at_once looping sys w
  quic_loop (suc n) logger endpoint sys w =
      let accepted = net.endpoint_accept endpoint w in
      elim accepted.0 [
        | none ↦ at_once (returned (config (ascii "endpoint closed"))) sys accepted.1
        | some connecting ↦
            let shaken = net.connected connecting accepted.1 in
            elim shaken.0 [
              | ok conn ↦
                  spawning (serving sys.next_id conn)
                    (quic_loop n logger endpoint (accept sys) shaken.1)
              | err e ↦
                  quic_loop n logger endpoint sys
                    (log logger (ascii "WRN") (ascii "accept: " ++ e) shaken.1)
            ]
      ]

  -- What `listen_on` does before its loop
  unfoldable pub prepare_quic : Listening net → net.Endpoint → Act net.World ListenError (Unit {0})
  prepare_quic srv endpoint = do
    addr ← pure (because (ascii "local addr: ")) (net.endpoint_addr endpoint)
    announce srv (ascii "listening on ") addr

  -- `listen_on`
  unfoldable pub listen_on :
      ℕ → Listening net → net.Endpoint → System → net.World → Listened net.World net.Connection
  listen_on n srv endpoint sys w =
      proceeding sys (prepare_quic srv endpoint w)
        (λ _ w'. spawning (collecting srv.gc_interval) (quic_loop n srv.logger endpoint sys w'))

  -- `listen_and_serve`
  unfoldable pub open_endpoint : Listening net → Bytes → Act net.World ListenError net.Endpoint
  open_endpoint srv addr = do
    tls ← required_tls srv
    λ w. failing_as transport (bind net addr tls w)

  unfoldable pub listen_and_serve :
      ℕ → Listening net → Bytes → System → net.World → Listened net.World net.Connection
  listen_and_serve n srv addr sys w =
      proceeding sys (open_endpoint srv addr w) (λ endpoint w'. listen_on n srv endpoint sys w')

  -- `listen_on_conn`
  unfoldable pub endpoint_on_conn :
      Listening net → net.UdpSocket → Act net.World ListenError net.Endpoint
  endpoint_on_conn srv conn = do
    tls ← required_tls srv
    let tls_clone = net.set_server_alpn (default_alpn ∷ []) tls
    quic_config ← pure (because (ascii "quic config: ")) (net.quic_server tls_clone)
    run (because (ascii "endpoint: ")) (net.endpoint_on quic_config conn)

  unfoldable pub listen_on_conn :
      ℕ → Listening net → net.UdpSocket → System → net.World → Listened net.World net.Connection
  listen_on_conn n srv conn sys w =
      proceeding sys (endpoint_on_conn srv conn w) (λ endpoint w'. listen_on n srv endpoint sys w')

  -- The accept loop of `listen_tcp`, for a number of turns
  unfoldable pub tcp_loop :
      ℕ
      → Option Logger
      → net.Listener
      → net.Acceptor
      → System
      → net.World
      → Listened net.World net.TlsStream
  tcp_loop zero logger listener acceptor sys w = at_once looping sys w
  tcp_loop (suc n) logger listener acceptor sys w =
      let accepted = tcp_accept net listener acceptor w in
      elim accepted.0 [
        | done stream ↦
            spawning (serving sys.next_id stream)
              (tcp_loop n logger listener acceptor (accept sys) accepted.1)
        | fails e ↦
            tcp_loop n logger listener acceptor sys
              (log logger (ascii "WRN") (ascii "tcp accept: " ++ display e) accepted.1)
        | panics ↦ at_once unwound sys accepted.1
      ]

  -- What `listen_tcp` does before its loop
  unfoldable pub prepare_tcp :
      Listening net → Bytes → Act net.World ListenError (net.Listener × net.Acceptor)
  prepare_tcp srv addr = do
    tls ← required_tls srv
    (listener, acceptor) ← λ w. failing_as transport (tcp_bind net addr tls w)
    local_addr ← pure (because (ascii "local addr: ")) (net.listener_addr listener)
    _ ← announce srv (ascii "listening TCP on ") local_addr
    done_with (listener, acceptor)

  -- `listen_tcp`
  unfoldable pub listen_tcp :
      ℕ → Listening net → Bytes → System → net.World → Listened net.World net.TlsStream
  listen_tcp n srv addr sys w = proceeding sys (prepare_tcp srv addr w) (λ found w'.
      spawning (collecting srv.gc_interval) (tcp_loop n srv.logger found.0 found.1 sys w'))
