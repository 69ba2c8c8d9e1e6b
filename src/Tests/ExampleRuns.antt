-- ===== src/Tests/ExampleRuns.antt =====
-- The theorems on the sample programs and on the logger at concrete values.
use hush_rs.Base.{ℕ, ◌+◌, ◌%◌, ◌^◌, ◌≡◌, refl, [], ◌∷◌, arith, some, none, ok}
use hush_rs.Std.Words.{Bytes}
use hush_rs.Std.Utf8.{ascii, is_utf8}
use hush_rs.Std.Io.{fresh}
use hush_rs.Std.Eq.{nat_eq, bytes_eq, bytes_instance}
use hush_rs.Std.HashMap
use hush_rs.Tlv.Value.{Value, Map, end, entry}
use hush_rs.Tlv.Map
use hush_rs.Tlv.Encode.Grammar.{payload}
use hush_rs.Tlv.Varint.Written.{varint}
use hush_rs.Tlv.Decode.Scalars.{IsPortable}
use hush_rs.Tlv.Decode.Steps.{nesting}
use hush_rs.Session.Crypto.Toy.{toy, toy-IsSound}
use hush_rs.Frame.Body.{success, Response}
use hush_rs.Frame.Body.RoundTrip.{IsCarried}
use hush_rs.Middleware.{Request}
use hush_rs.Server.Tcp.Conversation.{receive_all, at_end}
use hush_rs.Server.Tcp.Answers.{IsAnswer}
use hush_rs.Client.{do_quinn}
use hush_rs.Client.Calls.{serving}
use hush_rs.Client.Streams.{start_stream}
use hush_rs.Hub.{new_hub, subscribe}
use hush_rs.Hub.Channel.{Event}
use hush_rs.Hub.Toy.{Channels, toy_channels, toy_channels-IsBroadcast}
use hush_rs.Hub.Delivery.{HasRoom}
use hush_rs.Examples.Notes.{
  Notes, no_notes, respond_with, required_id, created, create_note, note_map, get_note, serve_all,
}
use hush_rs.Examples.Notes.Kept.{IsApart, get_note-create_note}
use hush_rs.Examples.Chat.{
  Room, message_map, sent, topic_of, send_message, acknowledgement, event_response, chat_table,
}
use hush_rs.Examples.Chat.Sent.{send_message-subscribe}
use hush_rs.Examples.Chat.Followed.{responses, start_stream-follow}
use hush_rs.Examples.Weather.{Service, weather_response, weather_table, city_map, showed, shown}
use hush_rs.Examples.Weather.Asked.{shown-do_quinn}
use hush_rs.Tests.Samples.{
  greeting, some_key, some_nonce, held, client, holding, held_found, held_alive,
}

abbrev asking : ℕ → Map → Request
asking opcode m = record { opcode = opcode; payload = m; session_id = 1; api_key_id = ascii "k" }

abbrev milk : Request
milk = asking 1 (entry (ascii "text") (Value.string (ascii "buy milk")) end)

abbrev get_one : Request
get_one = asking 3 (entry (ascii "id") (Value.uint64 1) end)

abbrev delete_two : Request
delete_two = asking 5 (entry (ascii "id") (Value.uint64 2) end)

milk_text : Map.get_string (ascii "text") milk.payload ≡ some (ascii "buy milk")
unfolding Map.get_string Map.get bytes_eq
milk_text = refl

one_asked : required_id get_one.payload ≡ some (serve_all [] no_notes).next_id
unfolding serve_all required_id no_notes Map.get_uint64 Map.get bytes_eq
one_asked = refl

two-IsApart : IsApart (serve_all [] no_notes).next_id delete_two
unfolding serve_all required_id no_notes Map.get_uint64 Map.get bytes_eq
two-IsApart e = absurd (ground arith)

get_note-create_note_example :
    (let (answer, s') = create_note milk (serve_all [] no_notes) in
      (answer ≡ created (serve_all [] no_notes).next_id)
      × ((get_note get_one (serve_all (delete_two ∷ []) s')).0
          ≡ respond_with success (note_map (serve_all [] no_notes).next_id (ascii "buy milk"))))
get_note-create_note_example =
    get_note-create_note [] (delete_two ∷ []) get_one milk (ascii "buy milk") (omega arith)
      milk_text (two-IsApart, tt) one_asked

abbrev two_notes : Notes
two_notes = record { notes = (1, ascii "buy milk") ∷ (2, ascii "call mom") ∷ []; next_id = 3 }

abbrev no_channels : Channels
no_channels = record { made = 0; rooms = λ i. 0; counts = λ i. 0; queues = λ i k. [] }

abbrev empty_room : Room toy_channels
empty_room = record { hub = new_hub toy_channels; world = no_channels }

empty-HasRoom : HasRoom toy_channels toy_channels-IsBroadcast empty_room.hub no_channels
unfolding new_hub HashMap.get
empty-HasRoom topic tx e = cc

abbrev hello : Request
hello = asking 1 (
    entry (ascii "nick") (Value.string (ascii "ada"))
      (entry (ascii "message") (Value.string (ascii "hello")) end))

hello_nick : Map.get_string (ascii "nick") hello.payload ≡ some (ascii "ada")
unfolding Map.get_string Map.get bytes_eq
hello_nick = refl

hello_message : Map.get_string (ascii "message") hello.payload ≡ some (ascii "hello")
unfolding Map.get_string Map.get bytes_eq
hello_message = refl

send_message-subscribe_example :
    let (rx, hub, world) = subscribe toy_channels (ascii "chat") empty_room.hub no_channels in
    let (answer, after) =
      send_message toy_channels 77 hello (record { hub = hub; world = world }) in
    (answer ≡ sent)
    × (toy_channels.queue rx after.world
        ≡ record {
          topic = ascii "chat";
          payload = message_map (ascii "ada") (ascii "hello");
          time = 77;
        }
          ∷ [])
send_message-subscribe_example =
    send_message-subscribe toy_channels toy_channels-IsBroadcast empty_room 77 hello (ascii "ada")
      (ascii "hello") empty-HasRoom hello_nick hello_message

abbrev one_event : Event
one_event = record { topic = ascii "chat"; payload = greeting; time = 77 }

chat-IsAnswer : IsAnswer (acknowledgement (ascii "chat"))
unfolding acknowledgement IsPortable is_utf8 payload varint nesting Map.set Map.new bytes_eq
chat-IsAnswer = record {
  portable = (((refl, tt), (tt, tt)), (refl, refl, (refl, refl, tt)));
  small = omega arith;
  shallow = omega arith;
}

event-IsAnswer : IsAnswer (event_response 1 one_event)
unfolding event_response IsPortable is_utf8 payload varint nesting Map.set Map.new bytes_eq
event-IsAnswer = record {
  portable = (
    ((refl, (refl, tt)), ((refl, tt), (tt, tt))),
    (refl, refl, (refl, refl, (refl, ((tt, tt), (refl, refl, tt)), tt))),
  );
  small = omega arith;
  shallow = omega arith;
}

start_stream-follow_example :
    (back : Bytes) × (start_stream toy some_nonce
        (some fresh)
        fresh
        (serving toy some_nonce 100 1
          (ascii "k")
          (chat_table toy (λ i. some_nonce) toy_channels 77 (one_event ∷ []))
          holding
          empty_room)
        0x0002
        none
        client
      ≡ (ok (at_end back), record client { seq = (5 + 1) % 2 ^ 32 }))
    × (receive_all toy 2 some_key (at_end back)
        ≡ ok (acknowledgement (ascii "chat") ∷ responses 1 (one_event ∷ []), at_end []))
unfolding topic_of Map.get_string Map.get Map.new
start_stream-follow_example =
    start_stream-follow toy toy-IsSound toy_channels client some_nonce some_nonce (ascii "k")
      (λ i. some_nonce) 100 1 77 none (one_event ∷ []) holding held empty_room refl refl (λ i. refl)
      refl (omega arith) tt held_found refl held_alive (omega arith) chat-IsAnswer
      (event-IsAnswer, tt)

abbrev sunny : Service ℕ
sunny url n = (ok (some (ascii "Sunny")), n + 1)

city-IsCarried : IsCarried (city_map (ascii "London"))
unfolding city_map IsPortable is_utf8 payload varint nesting Map.set Map.new
city-IsCarried = record {
  portable = ((tt, tt), (refl, refl, tt));
  small = omega arith;
  shallow = omega arith;
}

sunny-IsCarried : IsAnswer (weather_response (ascii "London") (ok (some (ascii "Sunny"))))
unfolding weather_response IsPortable is_utf8 payload varint nesting Map.set Map.new bytes_eq
sunny-IsCarried = record {
  portable = (((refl, tt), (tt, tt)), (refl, refl, (refl, refl, tt)));
  small = omega arith;
  shallow = omega arith;
}

shown-do_quinn_example :
    (resp : Response) × (do_quinn toy some_nonce
        (some fresh)
        (serving toy some_nonce 100 1 (ascii "k") (weather_table sunny) holding 0)
        0x0001
        (some (city_map (ascii "London")))
        client
      ≡ (ok resp, record client { seq = (5 + 1) % 2 ^ 32 }))
    × (shown resp ≡ showed (ascii "Sunny"))
shown-do_quinn_example =
    shown-do_quinn sunny toy toy-IsSound client some_nonce some_nonce (ascii "k") (ascii "London")
      100 1 holding held 0 refl refl refl (omega arith) city-IsCarried held_found refl held_alive
      sunny-IsCarried
