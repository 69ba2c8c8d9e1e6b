-- ===== src/Examples/Chat.antt =====
-- examples/chat.rs: the two handlers that `run_server` registers, on the hub that they share.
pub mod Sent
pub mod Followed
use hush_rs.Session.Store.{MapKeyStore, ApiKeyStore}
use hush_rs.Examples.Commands.{Command, command_of}
use hush_rs.Base.{ℕ, ◌+◌, ◌%◌, ◌^◌, true, List, [], ◌∷◌, Option, none, some, Result, ok, err}
use hush_rs.Std.Words.{Bytes}
use hush_rs.Std.Utf8.{ascii}
use hush_rs.Std.Io.{Reader, Writer}
use hush_rs.Std.Eq.{nat_eq, bytes_instance}
use hush_rs.Std.HashMap
use hush_rs.Tlv.Value.{Value, Map}
use hush_rs.Tlv.Map
use hush_rs.Session.Crypto.{Crypto}
use hush_rs.Frame.Body.{success, bad_request, Response, RequestError}
use hush_rs.Middleware.{Request, Outcome, responded, Handler, wrapped}
use hush_rs.Server.{stream, Handlers, StreamHandler, handle, ok_or_keep}
use hush_rs.Server.FrameStream.{write_response}
use hush_rs.Hub.{Hub, subscribe, publish}
use hush_rs.Hub.Channel.{Event, Broadcast}

-- The hub, and the world of its channels.
pub record Room (b : Broadcast) : Type 0 where
  pub hub : Hub b
  pub world : b.World

abbrev pub complain : Bytes → Outcome
complain text = responded (record {
  status = bad_request;
  payload = some (Map.set (ascii "error") (Value.string text) Map.new);
  seq = 0;
})

-- What is published for a message.
unfoldable pub message_map : Bytes → Bytes → Map
message_map nick msg =
    Map.set (ascii "message") (Value.string msg)
      (Map.set (ascii "nick") (Value.string nick) Map.new)

unfoldable pub sent : Outcome
sent = responded (record {
  status = success;
  payload = some (Map.set (ascii "sent") (Value.bool true) Map.new);
  seq = 0;
})

abbrev pub or_chat : Option Bytes → Bytes
or_chat none = ascii "chat"
or_chat (some topic) = topic

-- `req.payload.get_string("topic").unwrap_or("chat")`
unfoldable pub topic_of : Map → Bytes
topic_of payload = or_chat (Map.get_string (ascii "topic") payload)

-- The answer to a subscription, and what is sent for an event.
unfoldable pub acknowledgement : Bytes → Response
acknowledgement topic = record {
  status = success;
  payload = some (
      Map.set (ascii "topic") (Value.string topic)
        (Map.set (ascii "event") (Value.string (ascii "subscribed")) Map.new));
  seq = 0;
}

unfoldable pub event_response : ℕ → Event → Response
event_response seq evt = record {
  status = success;
  payload = some (
      Map.set (ascii "payload") (Value.map evt.payload) (
        Map.set (ascii "topic") (Value.string evt.topic)
          (Map.set (ascii "event") (Value.string (ascii "message")) Map.new)));
  seq = seq;
}

module _ (b : Broadcast) where
  abbrev pub publish_message : ℕ → Option Bytes → Option Bytes → Room b → Outcome × Room b
  publish_message time none msg room = (complain (ascii "nick required"), room)
  publish_message time (some nick) none room = (complain (ascii "message required"), room)
  publish_message time (some nick) (some msg) room =
      let (count, w) = publish b (ascii "chat") (message_map nick msg) time room.hub room.world in
      (sent, record room { world = w })

  -- Send message, at a time in milliseconds
  unfoldable pub send_message : ℕ → Handler (Room b)
  send_message time req room =
      publish_message time (Map.get_string (ascii "nick") req.payload)
        (Map.get_string (ascii "message") req.payload) room

module _ (c : Crypto) (nonces : ℕ → Bytes) where
  -- The loop over `rx.recv()`, on what it gives up to its first error. A response that cannot be
  -- written is passed over.
  unfoldable pub forward : Bytes → ℕ → List Event → Writer → Writer
  forward key seq [] w = w
  forward key seq (evt ∷ events) w =
      forward key ((seq + 1) % 2 ^ 32) events
        (ok_or_keep w (write_response c (nonces seq) w key seq (event_response seq evt)))

  abbrev pub after_acknowledgement :
      Bytes → List Event → Writer → Result RequestError Writer → Writer
  after_acknowledgement key events w (err e) = w
  after_acknowledgement key events w (ok w') = forward key 1 events w'

  -- Subscribe, with what the receiver gets until it fails. The receiver is dropped at the end.
  unfoldable pub follow : (b : Broadcast) → List Event → StreamHandler (Room b)
  follow b events req r w key room =
      let topic = topic_of req.payload in
      let (rx, hub, world) = subscribe b topic room.hub room.world in
      (
        after_acknowledgement key events w
            (write_response c (nonces 0) w key 0 (acknowledgement topic)),
        record { hub = hub; world = b.drop_receiver rx world },
      )

  -- The calls of `srv.handle` and `srv.handle_stream`.
  unfoldable pub chat_table : (b : Broadcast) → ℕ → List Event → Handlers (Room b)
  chat_table b time events =
      HashMap.insert 0x0002 (stream (wrapped [] (follow b events)))
        (handle [] 0x0001 (send_message b time) [])

-- `main`
unfoldable pub main : List Bytes → Command
main args = command_of 6 args

-- `KeyStore` and its `get`
unfoldable pub key_store : MapKeyStore → ApiKeyStore
key_store keys id = HashMap.get id keys
