-- ===== src/Tests/CarrierRuns.antt =====
-- The theorems on requests that are read from concrete bytes: both carriers, and a handler that panics.
use hush_rs.Base.{
  ℕ, ◌+◌, ◌*◌, ◌%◌, ◌^◌, arith, ◌≡◌, refl, [], ◌∷◌, ◌++◌, replicate, none, some, ok, List,
  Continues,
}
use hush_rs.Std.Words.{Bytes, from_be_bytes, to_be_bytes}
use hush_rs.Std.Utf8.{ascii}
use hush_rs.Std.Io.{Reader, fresh, read_exact}
use hush_rs.Std.Eq.{nat_eq}
use hush_rs.Std.HashMap
use hush_rs.Session.Crypto.Toy.{toy, toy-IsSound}
use hush_rs.Session.Cipher.{decrypt}
use hush_rs.Session.Handshake.{hello}
use hush_rs.Frame.Wire.{read_frame, read_frame_async, parse_frame_data}
use hush_rs.Frame.Body
use hush_rs.Frame.Body.{read_request_async, decode_request, unprotect}
use hush_rs.Middleware.{panicked, Handler, recovery_middleware}
use hush_rs.Session.Store
use hush_rs.Session.Store.{SessionStore, new_session}
use hush_rs.Server.Gone.{requests_of_gone_session}
use hush_rs.Server.{StreamHandler, handle_request_stream, served}
use hush_rs.Server.Establish.{tcp, accept_handshake}
use hush_rs.Server.Routes.{Route, handles, streams, set_up}
use hush_rs.Server.Tcp.Timeout.{EndsBy, LeavesAlone, serve_loop-idle_timeout}
use hush_rs.Server.Tcp.{tcp_turn, serve_loop, history, handle_tcp_connection}
use hush_rs.Server.Tcp.Conversation.{at_end}
use hush_rs.Server.Tcp.Carriers.{as_turn, IsPlain, tcp_turn-handle_request_stream}
use hush_rs.Server.Tcp.Recovered.{IsClosed, handle_tcp_connection-IsClosed}
use hush_rs.Server.Tcp.Called.{answering, call-answering}
use hush_rs.Client.{Transport, Client}
use hush_rs.Client.Streams.{call}
use hush_rs.Tests.Samples.{
  no_stores, greeting, greeting-IsCarried, greeted, client, echo_meant, some_key, some_nonce, table,
  held, holding, held_found, held_alive,
}

-- A frame with an encrypted request for 0x0101 under sequence number 5, and the end of the stream.
abbrev pub one_request : Bytes
one_request = (0 ∷ 0 ∷ 0 ∷ 34 ∷ 0 ∷ 0 ∷ 0 ∷ 5 ∷ some_nonce) ++ (1 ∷ 1 ∷ replicate 16 0)

abbrev asked : Body.Request
asked = record { opcode = 0x0101; payload = none }

one_request_read :
    read_request_async toy (at_end one_request) (some some_key) ≡ ok ((asked, 5), at_end [])
unfolding read_request_async read_frame_async read_frame read_exact from_be_bytes to_be_bytes
    decode_request parse_frame_data unprotect decrypt
one_request_read = refl

echo-IsPlain : IsPlain (HashMap.get 0x0101 table)
unfolding HashMap.get
echo-IsPlain = tt

tcp_turn-handle_request_stream_example :
    tcp_turn toy some_nonce 100 holding some_key 1 (ascii "k") table (at_end one_request) fresh 0
    ≡ as_turn (at_end []) (
        handle_request_stream toy some_nonce 100 1
          (ascii "k")
          table
          holding
          (at_end one_request)
          fresh
          0)
tcp_turn-handle_request_stream_example =
    tcp_turn-handle_request_stream toy some_nonce some_key 100 1 5 holding held (ascii "k") table
      (at_end one_request) (at_end []) fresh 0 asked held_found refl held_alive one_request_read
      echo-IsPlain

abbrev panicking : Handler ℕ
panicking req n = (panicked, n)

-- Streaming handlers are not called over TCP.
abbrev silent : StreamHandler ℕ
silent req r w key n = (w, n)

abbrev panicking_routes : List (Route ℕ)
panicking_routes = handles 0x0101 panicking ∷ streams 0x0201 silent ∷ []

abbrev asks_once : Reader
asks_once = at_end (hello toy [] (4 ∷ []) ++ one_request)

handle_tcp_connection-IsClosed_example :
    Continues
      (IsClosed 7)
      (accept_handshake toy tcp (5 ∷ []) (toy.public_key (5 ∷ [])) (λ id. none) 7 asks_once fresh)
      (handle_tcp_connection toy
        (5 ∷ [])
        (toy.public_key (5 ∷ []))
        (λ id. none)
        7
        (λ i. 100)
        (λ i. some_nonce)
        (λ i st. st)
        (set_up toy (5 ∷ []) no_stores (recovery_middleware ∷ []) [] panicking_routes)
        holding
        asks_once
        fresh
        0)
handle_tcp_connection-IsClosed_example =
    handle_tcp_connection-IsClosed toy (5 ∷ []) (toy.public_key (5 ∷ [])) no_stores (λ id. none) 7
      (λ i. 100) (λ i. some_nonce) (λ i st. st) [] [] panicking_routes holding asks_once fresh 0

abbrev dialled : Client
dialled = record client { transport = Transport.stream }

call-answering_example :
    call toy some_nonce
      (some fresh)
      fresh
      (answering toy Transport.stream some_nonce 100 1 (ascii "k") some_key table holding 0)
      0x0101
      (some greeting)
      dialled
    ≡ (ok (record greeted { seq = 5 }), record dialled { seq = (5 + 1) % 2 ^ 32 })
call-answering_example =
    call-answering toy toy-IsSound dialled some_nonce some_nonce (ascii "k") 100 1 0x0101
      (some greeting) table holding held 0 greeted refl refl refl (omega arith) (omega arith)
      greeting-IsCarried held_found refl held_alive echo_meant greeting-IsCarried Transport.stream
      refl

-- A store from which the session was collected.
abbrev emptied : SessionStore
emptied = record holding { sessions = [] }

session_gone : Store.get 1 emptied ≡ none
unfolding Store.get HashMap.get
session_gone = refl

requests_of_gone_session_example :
    (handle_request_stream toy some_nonce 100 1
        (ascii "k")
        table
        emptied
        (at_end one_request)
        fresh
        0
      ≡ served fresh 0)
    × (tcp_turn toy some_nonce 100 emptied some_key 1 (ascii "k") table (at_end one_request) fresh 0
        ≡ tcp_turn toy some_nonce 100 holding some_key 1
            (ascii "k")
            table
            (at_end one_request)
            fresh
            0)
requests_of_gone_session_example =
    requests_of_gone_session toy some_nonce some_key 100 1 (ascii "k") table emptied holding held
      (at_end one_request) fresh 0 toy-IsSound session_gone held_found held_alive

-- The second turn comes 400 seconds after the handshake.
abbrev slow : ℕ → ℕ
slow i = 100 + 400 * i

untouched : LeavesAlone 7 (λ i st. st)
untouched = record { found = λ i st. refl; config = λ i st. refl }

serve_loop-idle_timeout_example : EndsBy 1 (
    serve_loop toy 100 0
      (record {
        now = slow;
        nonce = λ i. some_nonce;
        stores =
            history
              (λ i st. st)
              (Store.insert (new_session (slow 0) 7 (ascii "k") some_key) holding);
      })
      some_key
      7
      (ascii "k")
      table
      (at_end (one_request ++ one_request))
      fresh
      0)
serve_loop-idle_timeout_example =
    serve_loop-idle_timeout toy slow (λ i. some_nonce) (λ i st. st) holding some_key 7 (ascii "k")
      table (at_end (one_request ++ one_request)) fresh 0 1 100 untouched (omega arith)
      (omega arith)
