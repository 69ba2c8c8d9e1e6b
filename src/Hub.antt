-- ===== src/Hub.antt =====
-- src/hub.rs: topics and their channels. The channels are tokio's `broadcast`, an argument.
pub mod Channel
pub mod Toy
pub mod Delivery
use hush_rs.Base.{ℕ, zero, suc, ◌==◌, [], ◌∷◌, List, Option, none, some, if◌then◌else◌}
use hush_rs.Std.Words.{Bytes}
use hush_rs.Std.Eq.{bytes_instance}
use hush_rs.Std.HashMap
use hush_rs.Std.HashMap.{HashMap}
use hush_rs.Tlv.Value.{Map}
use hush_rs.Hub.Channel.{Event, Broadcast}

module _ (b : Broadcast) where
  open b use {World, Sender, Receiver}

  -- `Hub`
  abbrev pub Hub : Type 0
  Hub = HashMap Bytes Sender

  -- `Hub::new`
  unfoldable pub new_hub : Hub
  new_hub = []

  -- `entry(topic).or_insert_with(|| { let (tx, _) = broadcast::channel(64); tx })`
  abbrev pub or_insert : Bytes → Hub → World → Option Sender → Sender × Hub × World
  or_insert topic hub w (some tx) = (tx, hub, w)
  or_insert topic hub w none =
      let (tx, w') = b.channel 64 w in (tx, HashMap.insert topic tx hub, w')

  -- `subscribe`
  unfoldable pub subscribe : Bytes → Hub → World → Receiver × Hub × World
  subscribe topic hub w =
      let (tx, hub', w') = or_insert topic hub w (HashMap.get topic hub) in
      let (rx, w'') = b.subscribe tx w' in (rx, hub', w'')

  abbrev pub remove_idle : Bytes → Hub → World → Option Sender → Hub
  remove_idle topic hub w none = hub
  remove_idle topic hub w (some tx) =
      if b.receiver_count tx w == 0 then HashMap.remove topic hub else hub

  -- `unsubscribe`
  unfoldable pub unsubscribe : Bytes → Hub → World → Hub
  unsubscribe topic hub w = remove_idle topic hub w (HashMap.get topic hub)

  abbrev pub send_to : Event → World → Option Sender → ℕ × World
  send_to evt w none = (0, w)
  send_to evt w (some tx) = (b.receiver_count tx w, b.send tx evt w)

  -- `publish` at a time in milliseconds: how many receivers there were.
  unfoldable pub publish : Bytes → Map → ℕ → Hub → World → ℕ × World
  publish topic payload time hub w =
      send_to (record { topic = topic; payload = payload; time = time }) w (HashMap.get topic hub)

  -- `topics`
  unfoldable pub topics : Hub → List Bytes
  topics hub = HashMap.keys hub

  abbrev pub count_of : World → Option Sender → ℕ
  count_of w none = 0
  count_of w (some tx) = b.receiver_count tx w

  -- `subscriber_count`
  unfoldable pub subscriber_count : Bytes → Hub → World → ℕ
  subscriber_count topic hub w = count_of w (HashMap.get topic hub)
