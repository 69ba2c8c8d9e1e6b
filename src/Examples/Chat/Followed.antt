-- ===== src/Examples/Chat/Followed.antt =====
-- What a client that follows the chat receives.
use hush_rs.Base.{
  ℕ, suc, ◌+◌, ◌%◌, ◌^◌, ◌<◌, ◌≡◌, refl, true, false, List, [], ◌∷◌, ◌++◌, append_assoc, append-nil,
  All, length, Option, some, ok, arith,
}
use hush_rs.Std.Words.{Bytes}
use hush_rs.Std.Io.{fresh, unexpected_eof, Reader, Writer}
use hush_rs.Std.Eq.{nat_eq}
use hush_rs.Std.HashMap
use hush_rs.Tlv.Value.{Map}
use hush_rs.Session.Crypto.{Crypto, IsSound}
use hush_rs.Session.Cipher.{nonce_size, key_size}
use hush_rs.Frame.Body.{Response}
use hush_rs.Middleware.{Request, wrapped, wrap_all}
use hush_rs.Server.{stream, handle, payload_or_empty, is_dead}
use hush_rs.Session.Store
use hush_rs.Session.Store.{Session, SessionStore}
use hush_rs.Frame.Body.RoundTrip.{AreCarried}
use hush_rs.Server.FrameStream.{receive-write_response}
use hush_rs.Server.Tcp.Conversation.{receive_all, at_end}
use hush_rs.Server.Tcp.Answers.{IsAnswer}
use hush_rs.Client.{Transport, Client}
use hush_rs.Client.Calls.{serving}
use hush_rs.Client.Streams.{start_stream, start_stream-handle_request_stream}
use hush_rs.Hub.Channel.{Event, Broadcast}
use hush_rs.Examples.Chat.{
  Room, topic_of, acknowledgement, event_response, forward, follow, chat_table,
}
use native.Mathlib.Nat.{mod-eq_of_lt}

followed_there :
    (c : Crypto) (nonces : ℕ → Bytes) (b : Broadcast) (time : ℕ) (events : List Event)
    → HashMap.get 0x0002 (chat_table c nonces b time events)
      ≡ some (stream (follow c nonces b events))
unfolding chat_table handle HashMap.get HashMap.insert wrapped wrap_all
followed_there c nonces b time events = refl

-- The responses for events, numbered from `seq` on.
abbrev pub responses : ℕ → List Event → List Response
responses seq [] = []
responses seq (evt ∷ events) = event_response seq evt ∷ responses (seq + 1) events

module _ (c : Crypto) (s : IsSound c) (nonces : ℕ → Bytes) (key : Bytes)
    (key_length : length key ≡ key_size)
    (nonce_length : (i : ℕ) → length (nonces i) ≡ nonce_size) where
  forwarded :
      (events : List Event) (seq : ℕ) (w : Writer)
      → seq + length events < 2 ^ 32
      → w.is_open ≡ true
      → All IsAnswer (responses seq events)
      → (back : Bytes) × (forward c nonces key seq events w
          ≡ record w { outgoing = w.outgoing ++ back })
        × (receive_all c (length events) key (at_end back) ≡ ok (responses seq events, at_end []))
  unfolding forward receive_all event_response
  forwarded [] seq w small o fits = ([], rw (append-nil w.outgoing) refl, refl)
  forwarded (evt ∷ events) seq w small o (here, later) =
      let (one, written, received) =
        receive-write_response c s (nonces seq) key w seq (event_response seq evt)
          (nonce_length seq) key_length o (omega arith) here in
      let (back, sent, rest) =
        forwarded events (seq + 1) (record w { outgoing = w.outgoing ++ one }) (omega arith) o
          later in
      (
        one ++ back,
        rw
            (
              written,
              mod-eq_of_lt {n = seq + 1} {m = 2 ^ 32} (omega arith),
              ← append_assoc {0} w.outgoing one back,
            )
            sent,
        rw (received back unexpected_eof, rest),
      )

  -- The handler of a subscription, on a stream that is open.
  pub followed :
      (b : Broadcast) (events : List Event) (req : Request) (r : Reader) (w : Writer)
      (room : Room b)
      → 1 + length events < 2 ^ 32
      → w.is_open ≡ true
      → IsAnswer (acknowledgement (topic_of req.payload))
      → All IsAnswer (responses 1 events)
      → (back : Bytes) × ((follow c nonces b events req r w key room).0
          ≡ record w { outgoing = w.outgoing ++ back })
        × (receive_all c (suc (length events)) key (at_end back)
            ≡ ok (acknowledgement (topic_of req.payload) ∷ responses 1 events, at_end []))
  unfolding follow receive_all acknowledgement
  followed b events req r w room small o first later =
      let resp = acknowledgement (topic_of req.payload) in
      let (one, written, received) =
        receive-write_response c s (nonces 0) key w 0 resp (nonce_length 0) key_length o
          (omega arith) first in
      let (back, sent, rest) =
        forwarded events 1 (record w { outgoing = w.outgoing ++ one }) small o later in
      (
        one ++ back,
        rw (written, ← append_assoc {0} w.outgoing one back) sent,
        rw (received back unexpected_eof, rest),
      )

module _ (c : Crypto) (s : IsSound c) (b : Broadcast) (cl : Client)
    (nonce nonce' api_key_id : Bytes) (nonces : ℕ → Bytes) (now id time : ℕ) (payload : Option Map)
    (events : List Event) (sessions : SessionStore) (sess : Session) (room : Room b) where
  -- A client over QUIC that follows the chat, with one key of 32 bytes on both sides and a session that
  -- is neither expired nor idle for too long, nonces of 12 bytes and a counter of the client that is a
  -- u32: when its payload, the acknowledgement and the events
  -- can be carried, and there are fewer than 2^32 - 1 of them, what it reads is the acknowledgement of
  -- the topic that it asked for and all the events, in their order and numbered from 1.
  pub start_stream-follow :
      cl.transport ≡ Transport.quinn
      → length nonce ≡ nonce_size
      → ((i : ℕ) → length (nonces i) ≡ nonce_size)
      → length cl.session_key ≡ key_size
      → cl.seq < 2 ^ 32
      → AreCarried payload
      → Store.get id sessions ≡ some sess
      → sess.key ≡ cl.session_key
      → is_dead now sessions (some sess) ≡ false
      → 1 + length events < 2 ^ 32
      → IsAnswer (acknowledgement (topic_of (payload_or_empty payload)))
      → All IsAnswer (responses 1 events)
      → (back : Bytes) × (start_stream c nonce
            (some fresh)
            fresh
            (serving c nonce' now id api_key_id (chat_table c nonces b time events) sessions room)
            0x0002
            payload
            cl
          ≡ (ok (at_end back), record cl { seq = (cl.seq + 1) % 2 ^ 32 }))
        × (receive_all c (suc (length events)) cl.session_key (at_end back)
            ≡ ok (
              acknowledgement (topic_of (payload_or_empty payload)) ∷ responses 1 events,
              at_end [],
            ))
  start_stream-follow over_quinn hn hns hk hs fits found same alive small first later =
      let req : Request = record {
        opcode = 0x0002;
        payload = payload_or_empty payload;
        session_id = id;
        api_key_id = api_key_id;
      } in
      let (back, sent, received) =
        followed c s nonces cl.session_key hk hns b events req (at_end []) fresh room small refl
          first later in
      let started =
        start_stream-handle_request_stream c s cl nonce nonce' api_key_id now id 0x0002 payload
          (chat_table c nonces b time events) (follow c nonces b events) sessions sess room fresh
          over_quinn hn hk hs (omega arith) fits found same alive
          (followed_there c nonces b time events) in
      (back, rw sent at started, received)
