-- ===== src/Hub/Toy.antt =====
-- A toy instance of the channels, which shows that their documented behaviour can be met.
use hush_rs.Base.{
  ℕ, suc, ◌+◌, ◌-◌, ◌<◌, ◌==◌, ◌≡◌, refl, List, [], ◌∷◌, ◌++◌, length, ltb, lt→ltb, if◌then◌else◌,
  ==_self, arith,
}
use hush_rs.Hub.Channel.{Event, Broadcast, IsBroadcast}

-- The channels are numbered, and so are the receivers of each. A full queue drops its oldest event. A
-- channel has room for one event more than it was asked to have.
pub record Channels : Type 0 where
  pub made : ℕ
  pub rooms : ℕ → ℕ
  pub counts : ℕ → ℕ
  pub queues : ℕ → ℕ → List Event

abbrev at {ℓ} : {A : Type ℓ} → ℕ → A → (ℕ → A) → ℕ → A
at i a f j = if i == j then a else f j

abbrev push : ℕ → Event → List Event → List Event
push room evt [] = evt ∷ []
push room evt (x ∷ xs) =
    if ltb (length (x ∷ xs)) room then (x ∷ xs) ++ (evt ∷ []) else xs ++ (evt ∷ [])

abbrev pub toy_channels : Broadcast
toy_channels = record {
  World = Channels;
  Sender = ℕ;
  Receiver = ℕ × ℕ;
  channel = λ n w. (
    w.made,
    record {
      made = suc w.made;
      rooms = at w.made (n + 1) w.rooms;
      counts = at w.made 0 w.counts;
      queues = w.queues;
    },
  );
  subscribe = λ tx w. (
    (tx, w.counts tx),
    record w {
      counts = at tx (suc (w.counts tx)) w.counts;
      queues = at tx (at (w.counts tx) [] (w.queues tx)) w.queues;
    },
  );
  receiver_count = λ tx w. w.counts tx;
  send =
      λ tx evt w. record w { queues = at tx (λ k. push (w.rooms tx) evt (w.queues tx k)) w.queues };
  drop_receiver = λ rx w. record w { counts = at rx.0 (w.counts rx.0 - 1) w.counts };
  queue = λ rx w. w.queues rx.0 rx.1;
  capacity = λ tx w. w.rooms tx;
  belongs_to = λ rx w. rx.0;
}

toy_send :
    (room : ℕ) (evt : Event) (xs : List Event)
    → length xs < room
    → push room evt xs ≡ xs ++ (evt ∷ [])
toy_send room evt [] h = refl
toy_send room evt (x ∷ xs) h = rw (lt→ltb (length (x ∷ xs)) room h)

toy_send_queue :
    (tx : ℕ) (evt : Event) (w : Channels) (rx : ℕ × ℕ)
    → rx.0 ≡ tx
    → length (w.queues rx.0 rx.1) < w.rooms tx
    → at tx (λ k. push (w.rooms tx) evt (w.queues tx k)) w.queues rx.0 rx.1
      ≡ w.queues rx.0 rx.1 ++ (evt ∷ [])
toy_send_queue tx evt w (ch, k) e h =
    rw (e, ==_self tx) (toy_send (w.rooms tx) evt (w.queues tx k) (rw e at h))

toy_subscribe_queue :
    (tx : ℕ) (w : Channels)
    → at tx (at (w.counts tx) [] (w.queues tx)) w.queues tx (w.counts tx) ≡ []
toy_subscribe_queue tx w = rw (==_self tx, ==_self (w.counts tx))

pub toy_channels-IsBroadcast : IsBroadcast toy_channels
toy_channels-IsBroadcast = record {
  channel_count = λ n w. rw (==_self w.made);
  channel_capacity = λ n w positive small. rw (==_self w.made) (omega arith);
  subscribe_count = λ tx w. rw (==_self tx);
  subscribe_queue = toy_subscribe_queue;
  subscribe_belongs = λ tx w. refl;
  subscribe_capacity = λ tx w. refl;
  send_queue = toy_send_queue;
  send_belongs = λ tx evt w rx. refl;
  send_capacity = λ tx ty evt w. refl;
}
