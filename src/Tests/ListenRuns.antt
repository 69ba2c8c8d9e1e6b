-- ===== src/Tests/ListenRuns.antt =====
-- Listeners that three clients reach, one of which does not shake hands, and the names of servers.
use hush_rs.Base.{◌≡◌, refl, [], ◌∷◌, none, some}
use hush_rs.Std.Utf8.{ascii}
use hush_rs.Session.Store.{default_config}
use hush_rs.Transport.{server_name_of, tcp_bind, tcp_accept}
use hush_rs.Transport.Toy.{ToyWorld, toy_net}
use hush_rs.Server.Accept.{idle_system, accept}
use hush_rs.Server.Listen.{Listening, listen_tcp, tcp_loop, prepare_tcp, log}
use hush_rs.Server.Listen.Spawned.{served_ids}

abbrev visited : ToyWorld
visited = record { pending = ascii "ada" ∷ [] ∷ ascii "bob" ∷ []; stderr = [] }

abbrev plain : Listening toy_net
plain = record { tls_config = some []; logger = none; gc_interval = 60 }

-- The client that does not shake hands gets no id.
two_served :
    served_ids
      (listen_tcp toy_net 3 plain (ascii "ada:4433") (idle_system default_config) visited).tasks
    ≡ 1 ∷ 2 ∷ []
unfolding listen_tcp prepare_tcp tcp_bind tcp_loop tcp_accept idle_system accept log
two_served = refl

-- The address of IPv6 starts with a bracket, and no more is taken for the name.
bracket : server_name_of (ascii "[::1]:4433") ≡ ascii "["
unfolding server_name_of
bracket = refl
