-- ===== src/Hub/Channel.antt =====
-- `Event` of src/hub.rs, and the channels of `tokio::sync::broadcast` that carry it.
use hush_rs.Base.{ℕ, suc, ◌^◌, ◌<◌, ◌≤◌, ◌≡◌, List, [], ◌∷◌, ◌++◌, length}
use hush_rs.Std.Words.{Bytes}
use hush_rs.Tlv.Value.{Map}

-- `Event`
pub record Event : Type 0 where
  pub topic : Bytes
  pub payload : Map
  pub time : ℕ

-- A world in which channels are made and used. `channel` drops the first receiver, as the hub does.
-- `queue` is what a receiver has yet to receive, and `belongs_to` says whose it is.
pub record Broadcast : Type 1 where
  pub World : Type 0
  pub Sender : Type 0
  pub Receiver : Type 0
  pub channel : ℕ → World → Sender × World
  pub subscribe : Sender → World → Receiver × World
  pub receiver_count : Sender → World → ℕ
  pub send : Sender → Event → World → World
  pub drop_receiver : Receiver → World → World
  pub queue : Receiver → World → List Event
  pub capacity : Sender → World → ℕ
  pub belongs_to : Receiver → World → Sender

-- The documented behaviour of those operations.
pub record IsBroadcast (b : Broadcast) : Type 0 where
  -- A new channel has no receiver but the one that was dropped. Its capacity is what was asked for or
  -- more; `channel` panics at 0 and above half of `usize`, which has 32 bits at least.
  pub channel_count :
      (n : ℕ) (w : b.World) → b.receiver_count (b.channel n w).0 (b.channel n w).1 ≡ 0
  pub channel_capacity :
      (n : ℕ) (w : b.World)
      → 0 < n
      → n < 2 ^ 31
      → n ≤ b.capacity (b.channel n w).0 (b.channel n w).1
  -- A subscription is one receiver more, of this sender, with an empty queue.
  pub subscribe_count :
      (tx : b.Sender) (w : b.World)
      → b.receiver_count tx (b.subscribe tx w).1 ≡ suc (b.receiver_count tx w)
  pub subscribe_queue :
      (tx : b.Sender) (w : b.World) → b.queue (b.subscribe tx w).0 (b.subscribe tx w).1 ≡ []
  pub subscribe_belongs :
      (tx : b.Sender) (w : b.World) → b.belongs_to (b.subscribe tx w).0 (b.subscribe tx w).1 ≡ tx
  pub subscribe_capacity :
      (tx : b.Sender) (w : b.World) → b.capacity tx (b.subscribe tx w).1 ≡ b.capacity tx w
  -- What is sent goes to the end of the queue of each receiver of the sender, where there is room.
  pub send_queue :
      (tx : b.Sender) (evt : Event) (w : b.World) (rx : b.Receiver)
      → b.belongs_to rx w ≡ tx
      → length (b.queue rx w) < b.capacity tx w
      → b.queue rx (b.send tx evt w) ≡ b.queue rx w ++ (evt ∷ [])
  pub send_belongs :
      (tx : b.Sender) (evt : Event) (w : b.World) (rx : b.Receiver)
      → b.belongs_to rx (b.send tx evt w) ≡ b.belongs_to rx w
  pub send_capacity :
      (tx ty : b.Sender) (evt : Event) (w : b.World)
      → b.capacity ty (b.send tx evt w) ≡ b.capacity ty w
