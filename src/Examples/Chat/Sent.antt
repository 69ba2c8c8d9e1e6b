-- ===== src/Examples/Chat/Sent.antt =====
-- A message of examples/chat.rs and its way through the hub.
use hush_rs.Base.{ℕ, ◌≡◌, refl, [], ◌∷◌, some}
use hush_rs.Std.Words.{Bytes}
use hush_rs.Std.Utf8.{ascii}
use hush_rs.Tlv.Map
use hush_rs.Middleware.{Request}
use hush_rs.Hub.{subscribe}
use hush_rs.Hub.Channel.{Broadcast, IsBroadcast}
use hush_rs.Hub.Delivery.{HasRoom, publish-subscribe}
use hush_rs.Examples.Chat.{Room, message_map, sent, send_message}

-- When someone has subscribed to "chat" and someone then sends a message with a nick, the sender is
-- told so, and the subscriber receives the message, under that nick, as its next event. The channels
-- that the hub has already have room for 64 events at least.
pub send_message-subscribe :
    (b : Broadcast) (law : IsBroadcast b) (room : Room b) (time : ℕ) (req : Request)
    (nick msg : Bytes)
    → HasRoom b law room.hub room.world
    → Map.get_string (ascii "nick") req.payload ≡ some nick
    → Map.get_string (ascii "message") req.payload ≡ some msg
    → let (rx, hub, world) = subscribe b (ascii "chat") room.hub room.world in
      let (answer, after) = send_message b time req (record { hub = hub; world = world }) in
      (answer ≡ sent)
      × (b.queue rx after.world
          ≡ record { topic = ascii "chat"; payload = message_map nick msg; time = time } ∷ [])
unfolding send_message
send_message-subscribe b law room time req nick msg fits e e' =
    let delivered =
      publish-subscribe b law (ascii "chat") (message_map nick msg) time room.hub room.world fits in
    rw (e, e') (refl, delivered.1)
