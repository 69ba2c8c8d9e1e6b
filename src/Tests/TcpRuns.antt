-- ===== src/Tests/TcpRuns.antt =====
-- The theorems on connections over TCP and QUIC at concrete values: two calls, one to the echo and one to an
-- opcode that nobody handles.
use hush_rs.Base.{
  ℕ, zero, suc, ◌≡◌, refl, [], ◌∷◌, ◌++◌, List, All, length, arith, Option, some, none, ok, false,
  true, Continues,
}
use hush_rs.Std.Words.{Bytes, to_be_bytes}
use hush_rs.Std.Utf8.{ascii, is_utf8}
use hush_rs.Std.Io.{Reader, Writer, fresh, unexpected_eof}
use hush_rs.Std.Eq.{nat_eq}
use hush_rs.Std.HashMap
use hush_rs.Tlv.Encode.Grammar.{payload}
use hush_rs.Tlv.Varint.Written.{varint}
use hush_rs.Tlv.Decode.Scalars.{IsPortable}
use hush_rs.Tlv.Decode.Steps.{nesting}
use hush_rs.Tlv.Map.{new, set}
use hush_rs.Session.Crypto.Toy.{toy, toy-IsSound}
use hush_rs.Session.Handshake.{ApiKey, hello}
use hush_rs.Session.Store
use hush_rs.Session.Store.{new_session, SessionStore}
use hush_rs.Frame.Body.{Response}
use hush_rs.Server.{is_dead, not_found_response}
use hush_rs.Server.Establish.{tcp, accept_handshake}
use hush_rs.Server.Tcp.{Surroundings, ended, serve_loop, history, closed, handle_tcp_connection}
use hush_rs.Server.Tcp.Ends.{IsOver, handle_tcp_connection-IsOver}
use hush_rs.Server.Tcp.Conversation.{
  Call, IsSendable, answered, respond, request_of, Conversation, over, next, requests_bytes,
  receive_all, at_end,
}
use hush_rs.Server.Tcp.Answers.{IsAnswer, serve_loop-Conversation}
use hush_rs.Server.Tcp.Carriers.{IsPlain}
use hush_rs.Server.Quic.{handle_streams}
use hush_rs.Server.Quic.Answers.{streams_of, receive_each, handle_streams-Conversation}
use hush_rs.Server.Tcp.Whole.{stores_of, tcp_session}
use hush_rs.Client.Dial.{transport_of, dial}
use hush_rs.Client.Dial.Welcome.{welcome}
use hush_rs.Client.Dial.Agreed.{accepting, dial-accept_handshake}
use hush_rs.Tests.Samples.{
  held, greeting, greeting-IsCarried, some_key, some_nonce, greeted, table, holding, held_found,
  held_alive,
}

abbrev ada : ApiKey
ada = record { id = ascii "ada"; secret = 1 ∷ 2 ∷ 3 ∷ [] }

abbrev keys : Bytes → Option Bytes
keys id = some (1 ∷ 2 ∷ 3 ∷ [])

ada_is_text : is_utf8 ada.id ≡ true
unfolding is_utf8
ada_is_text = refl

dial-accept_handshake_example :
    (session_key : Bytes) × (length session_key ≡ 32)
    × (accept_handshake toy tcp
          (5 ∷ [])
          (toy.public_key (5 ∷ []))
          keys
          1
          (record { incoming = hello toy ada.id (4 ∷ []) ++ (99 ∷ []); ending = unexpected_eof })
          fresh
        ≡ ok (
          (ada.id, session_key),
          record { incoming = 99 ∷ []; ending = unexpected_eof },
          record { outgoing = welcome toy (5 ∷ []) 1; is_open = true },
        ))
    × (dial toy tcp (4 ∷ []) 12 ada fresh (accepting toy tcp (5 ∷ []) keys 1)
        ≡ ok (
          record {
            transport = transport_of tcp;
            session = new_session 12 1 ada.id session_key;
            seq = 0;
            session_key = session_key;
          },
          record { outgoing = hello toy ada.id (4 ∷ []); is_open = true },
          record { incoming = []; ending = unexpected_eof },
        ))
dial-accept_handshake_example =
    dial-accept_handshake toy toy-IsSound tcp (4 ∷ []) (5 ∷ []) (99 ∷ []) 12 1 ada keys
      (omega arith) (omega arith, ada_is_text, refl)

abbrev first_call : Call
first_call = record { seq = 0; opcode = 0x0101; payload = some greeting }

abbrev second_call : Call
second_call = record { seq = 1; opcode = 0x0999; payload = none }

abbrev two_calls : List Call
two_calls = first_call ∷ second_call ∷ []

abbrev refused : Response
refused = not_found_response 0x0999 1

abbrev two_answers : List Response
two_answers = greeted ∷ refused ∷ []

first_answered :
    (id : ℕ) (aid : Bytes)
    → respond 0 (request_of id aid first_call) 0 (HashMap.get 0x0101 table) ≡ some (greeted, 1)
unfolding respond answered HashMap.get
first_answered id aid = refl

second_answered :
    (id : ℕ) (aid : Bytes)
    → respond 1 (request_of id aid second_call) 1 (HashMap.get 0x0999 table) ≡ some (refused, 1)
unfolding respond HashMap.get
second_answered id aid = refl

two_calls_answered : (id : ℕ) (aid : Bytes) → Conversation id aid table two_calls 0 two_answers 1
two_calls_answered id aid = next (first_answered id aid) (next (second_answered id aid) over)

two_calls-IsSendable : All IsSendable two_calls
two_calls-IsSendable = (
  record { seq_small = omega arith; opcode_small = omega arith; carried = greeting-IsCarried },
  (record { seq_small = omega arith; opcode_small = omega arith; carried = tt }, tt),
)

refused-IsAnswer : IsAnswer refused
unfolding IsPortable is_utf8 payload varint nesting set new to_be_bytes
refused-IsAnswer = record {
  portable = ((tt, tt), (refl, omega arith, tt));
  small = omega arith;
  shallow = omega arith;
}

two_answers-IsAnswer : All IsAnswer two_answers
two_answers-IsAnswer = (greeting-IsCarried, (refused-IsAnswer, tt))

-- A quiet server: the clock stands still and nothing else happens.
abbrev quiet : Surroundings
quiet = record { now = λ i. 100; nonce = λ i. some_nonce; stores = λ i. holding }

quiet_alive : (i : ℕ) → is_dead 100 holding (Store.get 1 holding) ≡ false
quiet_alive i = rw held_found held_alive

serve_loop-Conversation_example :
    (sent back : Bytes) × (requests_bytes toy (λ i. some_nonce) some_key 0 two_calls ≡ ok sent)
    × (serve_loop toy 3 0 quiet some_key 1 (ascii "k") table (at_end sent) fresh 0
        ≡ ended 2 (record { outgoing = back; is_open = true }) 1)
    × (receive_all toy 2 some_key (at_end back) ≡ ok (two_answers, at_end []))
serve_loop-Conversation_example =
    serve_loop-Conversation toy toy-IsSound some_key (ascii "k") 1 table (λ i. some_nonce) quiet
      refl (λ i. refl) (λ i. refl) quiet_alive 3 0 fresh refl (two_calls_answered 1 (ascii "k"))
      two_calls-IsSendable two_answers-IsAnswer (omega arith)

two_calls-IsPlain : All (λ (call : Call). IsPlain (HashMap.get call.opcode table)) two_calls
unfolding HashMap.get
two_calls-IsPlain = (tt, (tt, tt))

handle_streams-Conversation_example :
    (streams : List (Reader × Writer)) × (ws : List Writer) × (streams_of toy
        (λ i. some_nonce)
        some_key
        0
        two_calls
      ≡ ok streams)
    × (handle_streams toy 0 quiet 1 (ascii "k") table streams 0 ≡ (ws, 1))
    × (receive_each toy some_key ws ≡ ok two_answers)
handle_streams-Conversation_example =
    handle_streams-Conversation toy toy-IsSound some_key (ascii "k") 1 table (λ i. some_nonce) quiet
      (λ i. held) refl (λ i. refl) (λ i. refl) (λ i. held_found) (λ i. refl) (λ i. held_alive) 0
      (two_calls_answered 1 (ascii "k")) two_calls-IsPlain two_calls-IsSendable two_answers-IsAnswer

abbrev alone : ℕ → SessionStore → SessionStore
alone i st = st

abbrev nothing_held : SessionStore
nothing_held = record holding { sessions = [] }

history-alone : (st : SessionStore) (i : ℕ) → history alone st i ≡ st
unfolding history
history-alone st zero = refl
history-alone st (suc i) = history-alone st i

abbrev inserted : Bytes → SessionStore
inserted session_key = Store.insert (new_session 100 7 ada.id session_key) nothing_held

inserted_alive :
    (session_key : Bytes)
    → is_dead 100 (inserted session_key) (Store.get 7 (inserted session_key)) ≡ false
unfolding is_dead Store.is_expired Store.is_idle_dead Store.get Store.insert new_session HashMap.get
    HashMap.insert
inserted_alive session_key = refl

alone_alive :
    (session_key : Bytes) (i : ℕ)
    → is_dead 100
        (stores_of alone nothing_held 100 7 ada.id session_key i)
        (Store.get 7 (stores_of alone nothing_held 100 7 ada.id session_key i))
      ≡ false
alone_alive session_key i = rw (history-alone (inserted session_key) i) (inserted_alive session_key)

abbrev noise : Reader
noise = at_end (hello toy ada.id (4 ∷ []) ++ (1 ∷ 2 ∷ []))

handle_tcp_connection-IsOver_example :
    Continues
      (IsOver 7 table)
      (accept_handshake toy tcp (5 ∷ []) (toy.public_key (5 ∷ [])) keys 7 noise fresh)
      (handle_tcp_connection toy
        (5 ∷ [])
        (toy.public_key (5 ∷ []))
        keys
        7
        (λ i. 100)
        (λ i. some_nonce)
        alone
        table
        nothing_held
        noise
        fresh
        0)
handle_tcp_connection-IsOver_example =
    handle_tcp_connection-IsOver toy (5 ∷ []) (toy.public_key (5 ∷ [])) keys 7 (λ i. 100)
      (λ i. some_nonce) alone table nothing_held noise fresh 0

tcp_session_example :
    (session_key sent back : Bytes) × (dial toy tcp
        (4 ∷ [])
        12
        ada
        fresh
        (accepting toy tcp (5 ∷ []) keys 7)
      ≡ ok (
        record {
          transport = transport_of tcp;
          session = new_session 12 7 ada.id session_key;
          seq = 0;
          session_key = session_key;
        },
        record { outgoing = hello toy ada.id (4 ∷ []); is_open = true },
        at_end [],
      ))
    × (requests_bytes toy (λ i. some_nonce) session_key 0 two_calls ≡ ok sent)
    × (handle_tcp_connection toy
          (5 ∷ [])
          (toy.public_key (5 ∷ []))
          keys
          7
          (λ i. 100)
          (λ i. some_nonce)
          alone
          table
          nothing_held
          (at_end (hello toy ada.id (4 ∷ []) ++ sent))
          fresh
          0
        ≡ ok (
            closed
              (Store.delete 7 (stores_of alone nothing_held 100 7 ada.id session_key 2))
              (record { outgoing = welcome toy (5 ∷ []) 7 ++ back; is_open = true })
              1))
    × (receive_all toy 2 session_key (at_end back) ≡ ok (two_answers, at_end []))
tcp_session_example =
    tcp_session toy toy-IsSound (4 ∷ []) (5 ∷ []) 12 7 ada keys table nothing_held (λ i. some_nonce)
      (λ i. 100) (λ i. some_nonce) alone (omega arith) (omega arith, ada_is_text, refl) (λ i. refl)
      (λ i. refl) alone_alive (two_calls_answered 7 ada.id) two_calls-IsSendable
      two_answers-IsAnswer
