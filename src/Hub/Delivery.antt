-- ===== src/Hub/Delivery.antt =====
-- Subscriptions, deliveries and their number in src/hub.rs.
use hush_rs.Base.{
  ℕ, suc, ◌<◌, ◌≤◌, ◌≡◌, refl, sym, ◌∙◌, ◌==◌, Bool, true, false, [], ◌∷◌, length, Option, none,
  some, if◌then◌else◌, arith, Option-cases, Bool-cases, inl, inr, ==_iff,
}
use hush_rs.Std.Words.{Bytes}
use hush_rs.Std.Eq.{bytes_instance, bytes_eq, bytes_eq-eq}
use hush_rs.Std.HashMap
use hush_rs.Std.HashMap.{get-insert, get-remove, beq_self}
use hush_rs.Tlv.Value.{Map}
use hush_rs.Hub.Channel.{Event, Broadcast, IsBroadcast}
use hush_rs.Hub.{Hub, subscribe, or_insert, unsubscribe, publish, subscriber_count, count_of}

module _ (b : Broadcast) (law : IsBroadcast b) where
  open b use {World, Sender}

  -- Every channel of a hub has room for 64 events at least.
  abbrev pub HasRoom : Hub b → World → Type 0
  HasRoom hub w =
      (topic : Bytes) (tx : Sender) → HashMap.get topic hub ≡ some tx → 64 ≤ b.capacity tx w

  -- Behind the look-up, the topic's channel is in the hub.
  entry_lem :
      (topic : Bytes) (hub : Hub b) (w : World) (found : Option Sender)
      → HashMap.get topic hub ≡ found
      → HasRoom hub w
      → let (tx, hub', w') = or_insert b topic hub w found in
        (HashMap.get topic hub' ≡ some tx)
        × (64 ≤ b.capacity tx w')
        × (b.receiver_count tx w' ≡ count_of b w found)
  entry_lem topic hub w (some tx) e room = (e, room topic tx e, refl)
  entry_lem topic hub w none e room =
      let tx = (b.channel 64 w).0 in
      (
        rw (get-insert topic topic tx hub, beq_self topic),
        law.channel_capacity 64 w (omega arith) (omega arith),
        law.channel_count 64 w,
      )

  -- An event that is published on a topic after a subscription to it is the next that the subscriber
  -- receives, and the number that `publish` gives is one more than there were subscribers.
  pub publish-subscribe :
      (topic : Bytes) (payload : Map) (time : ℕ) (hub : Hub b) (w : World)
      → HasRoom hub w
      → let (rx, hub', w') = subscribe b topic hub w in
        let (count, w'') = publish b topic payload time hub' w' in
        (count ≡ suc (subscriber_count b topic hub w))
        × (b.queue rx w'' ≡ record { topic = topic; payload = payload; time = time } ∷ [])
  unfolding subscribe publish subscriber_count
  publish-subscribe topic payload time hub w room =
      let found = HashMap.get topic hub in
      let entered = or_insert b topic hub w found in
      let (there, room_left, count) = entry_lem topic hub w found refl room in
      let evt : Event = record { topic = topic; payload = payload; time = time } in
      let tx = entered.0 in
      let w' = entered.2 in
      let rx = (b.subscribe tx w').0 in
      let w'' = (b.subscribe tx w').1 in
      let empty = law.subscribe_queue tx w' in
      let fits : length (b.queue rx w'') < b.capacity tx w'' =
        rw (empty, law.subscribe_capacity tx w') (omega (arith, room_left)) in
      let sent = law.send_queue tx evt w'' rx (law.subscribe_belongs tx w') fits in
      rw there (law.subscribe_count tx w' ∙ rw count, sent ∙ rw empty)

module _ (b : Broadcast) where
  open b use {World, Sender}

  -- Taking away a channel without receivers, whether it is the topic's own or another's.
  count-remove :
      (topic other : Bytes) (hub : Hub b) (w : World) (tx : Sender) (same : Bool)
      → bytes_eq topic other ≡ same
      → HashMap.get topic hub ≡ some tx
      → b.receiver_count tx w ≡ 0
      → count_of b w (if same then none else HashMap.get other hub)
        ≡ count_of b w (HashMap.get other hub)
  count-remove topic other hub w tx false e there idle = refl
  count-remove topic other hub w tx true e there idle =
      let found : HashMap.get other hub ≡ some tx = rw (sym (bytes_eq-eq topic other e)) there in
      rw (found, idle)

  -- `unsubscribe` changes the number of subscribers of no topic: it takes away only a channel that
  -- has none.
  pub subscriber_count-unsubscribe :
      (topic other : Bytes) (hub : Hub b) (w : World)
      → subscriber_count b other (unsubscribe b topic hub w) w ≡ subscriber_count b other hub w
  unfolding unsubscribe subscriber_count
  subscriber_count-unsubscribe topic other hub w = elim (Option-cases (HashMap.get topic hub)) [
    | inl gone ↦ rw gone
    | inr (tx, e) ↦ elim (Bool-cases (b.receiver_count tx w == 0)) [
      | inl idle ↦
          rw (e, idle, get-remove topic other hub)
            (count-remove topic other hub w tx (bytes_eq topic other) refl e
              ((==_iff (b.receiver_count tx w) 0).0 idle))
      | inr busy ↦ rw (e, busy)
    ]
  ]
