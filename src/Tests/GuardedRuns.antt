-- ===== src/Tests/GuardedRuns.antt =====
-- Connections whose requests meet middleware: a client without a key, and one that asks too often.
use hush_rs.Base.{
  ℕ, ◌≡◌, refl, sym, ap, ◌∙◌, false, [], ◌∷◌, ◌++◌, none, some, Result, ok, err, List, map,
  Continues, ◌==◌, if◌then◌else◌,
}
use hush_rs.Std.Words.{Bytes, from_be_bytes, to_be_bytes}
use hush_rs.Std.Utf8.{ascii}
use hush_rs.Std.Eq.{bytes_eq}
use hush_rs.Std.Io.{Reader, Writer, fresh, read_exact, write_all}
use hush_rs.Session.Crypto.Toy.{toy}
use hush_rs.Session.Cipher.{shared_secret, derive_session_key}
use hush_rs.Session.Handshake.{hello}
use hush_rs.Middleware.{contains, recovery_middleware, require_api_key_id}
use hush_rs.Server.Establish.{ServerError, Carrier, quic, tcp, accept_handshake, accept_anonymous}
use hush_rs.Server.Tcp.{handle_tcp_connection}
use hush_rs.Server.Tcp.Conversation.{at_end}
use hush_rs.Server.Quic.{handle_connection}
use hush_rs.Server.Guarded.{Leaves, Remains}
use hush_rs.Server.Guarded.Authorised.{StreamsKeep, connections-require_api_key_id}
use hush_rs.Server.Guarded.Limited.{
  Tally, limited, route_beside, stream_middleware_beside, IsLimited,
  connections-rate_limit_middleware,
}
use hush_rs.Server.{StreamHandler, Handlers}
use hush_rs.Server.State.{Server, new_server}
use hush_rs.Server.Routes.{
  Route, handles, streams, behind, add_route, use_all, use_all_stream, set_up,
  get-add_route-use_all,
}
use hush_rs.Middleware.{Middleware}
use hush_rs.Middleware.Order.{nested}
use hush_rs.Std.HashMap
use hush_rs.Std.Eq.{nat_eq}
use hush_rs.Tests.Samples.{no_stores, some_nonce, holding, echo}
use hush_rs.Tests.CarrierRuns.{one_request}

abbrev arrives : Reader
arrives = at_end (hello toy [] (4 ∷ []) ++ one_request)

abbrev given : Result ServerError ((Bytes × Bytes) × Reader × Writer) → Bytes
given (ok ((aid, key), r, w)) = aid
given (err e) = []

abbrev shaken : Carrier → Result ServerError ((Bytes × Bytes) × Reader × Writer)
shaken carrier =
    accept_handshake toy carrier (5 ∷ []) (toy.public_key (5 ∷ [])) (λ id. none) 7 arrives fresh

shaken-given : (carrier : Carrier) → contains (given (shaken carrier)) (ascii "admin" ∷ []) ≡ false
unfolding accept_handshake accept_anonymous read_exact from_be_bytes to_be_bytes write_all
    shared_secret derive_session_key contains bytes_eq
shaken-given quic = refl
shaken-given tcp = refl

shaken_refused :
    (carrier : Carrier) (aid key : Bytes) (r : Reader) (w : Writer)
    → shaken carrier ≡ ok ((aid, key), r, w)
    → contains aid (ascii "admin" ∷ []) ≡ false
shaken_refused carrier aid key r w e =
    sym (ap (λ x. contains (given x) (ascii "admin" ∷ [])) e) ∙ shaken-given carrier

-- A streaming handler that sends a byte.
abbrev sends : StreamHandler ℕ
sends req r w key n = (record w { outgoing = w.outgoing ++ (1 ∷ []) }, n)

abbrev both : List (Route ℕ)
both = handles 0x0101 echo ∷ streams 0x0201 sends ∷ []

abbrev requests : List (Reader × Writer)
requests = (at_end one_request, fresh) ∷ (at_end one_request, fresh) ∷ []

sends-StreamsKeep : (aid : Bytes) → StreamsKeep 7 aid (λ t. t ≡ 0) [] both
unfolding nested
sends-StreamsKeep aid = ((λ req r w key s same_id same_key p. p), tt)

abbrev guarded : Handlers ℕ
guarded =
    set_up toy (5 ∷ []) no_stores
      (require_api_key_id (ascii "admin" ∷ []) ∷ recovery_middleware ∷ []) [] both

connections-require_api_key_id_example :
    Continues (Leaves (λ t. t ≡ 0)) (shaken tcp) (
      handle_tcp_connection toy
        (5 ∷ [])
        (toy.public_key (5 ∷ []))
        (λ id. none)
        7
        (λ i. 100)
        (λ i. some_nonce)
        (λ i st. st)
        guarded
        holding
        arrives
        fresh
        0)
    × Continues (Remains (λ t. t ≡ 0)) (shaken quic) (
        handle_connection toy
          (5 ∷ [])
          (toy.public_key (5 ∷ []))
          (λ id. none)
          7
          (λ i. 100)
          (λ i. some_nonce)
          (λ i st. st)
          guarded
          holding
          arrives
          fresh
          requests
          0)
connections-require_api_key_id_example =
    connections-require_api_key_id toy (5 ∷ []) (toy.public_key (5 ∷ [])) no_stores (λ id. none) 7
      (λ i. 100) (λ i. some_nonce) (λ i st. st) (ascii "admin" ∷ []) (recovery_middleware ∷ []) []
      both holding arrives fresh requests 0 (λ t. t ≡ 0) shaken_refused
      (λ aid key r' w' e. sends-StreamsKeep aid) refl

abbrev nothing_yet : Tally ℕ
nothing_yet = record { asked = 0; passed = 0; state = 0 }

abbrev rationed : Handlers (Tally ℕ)
rationed =
    set_up toy (5 ∷ []) no_stores (limited 1 (require_api_key_id (ascii "admin" ∷ []) ∷ []))
      (map stream_middleware_beside []) (map route_beside both)

connections-rate_limit_middleware_example :
    Continues (Leaves (IsLimited 1)) (shaken tcp) (
      handle_tcp_connection toy
        (5 ∷ [])
        (toy.public_key (5 ∷ []))
        (λ id. none)
        7
        (λ i. 100)
        (λ i. some_nonce)
        (λ i st. st)
        rationed
        holding
        arrives
        fresh
        nothing_yet)
    × Continues (Remains (IsLimited 1)) (shaken quic) (
        handle_connection toy
          (5 ∷ [])
          (toy.public_key (5 ∷ []))
          (λ id. none)
          7
          (λ i. 100)
          (λ i. some_nonce)
          (λ i st. st)
          rationed
          holding
          arrives
          fresh
          requests
          nothing_yet)
connections-rate_limit_middleware_example =
    connections-rate_limit_middleware toy (5 ∷ []) (toy.public_key (5 ∷ [])) no_stores (λ id. none)
      7 (λ i. 100) (λ i. some_nonce) (λ i st. st) 1 (require_api_key_id (ascii "admin" ∷ []) ∷ [])
      [] both holding arrives fresh requests nothing_yet refl

abbrev guard_all : Middleware ℕ
guard_all = require_api_key_id (ascii "admin" ∷ [])

abbrev new_one : Server ℕ
new_one = (new_server toy (5 ∷ []) no_stores).0

get-add_route-use_all_example :
    HashMap.get 0x0101
      (add_route
        (handles 0x0101 echo)
        (use_all_stream [] (use_all (recovery_middleware ∷ guard_all ∷ []) new_one))).handlers
    ≡ (if 0x0101 == 0x0101
        then some (
            behind
              (new_one.middlewares ++ (recovery_middleware ∷ guard_all ∷ []))
              (new_one.stream_middlewares ++ [])
              (handles 0x0101 echo))
        else HashMap.get 0x0101 new_one.handlers)
get-add_route-use_all_example =
    get-add_route-use_all (recovery_middleware ∷ guard_all ∷ []) [] (handles 0x0101 echo) 0x0101
      new_one
