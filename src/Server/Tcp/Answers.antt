-- ===== src/Server/Tcp/Answers.antt =====
-- The loop of `handle_tcp_connection` in src/server.rs against its specification, `Conversation`.
use hush_rs.Base.{
  ℕ, zero, suc, ◌+◌, ◌<◌, ◌≡◌, refl, true, false, List, [], ◌++◌, append_assoc, append-nil, ◌∙◌,
  All, ok, length, arith,
}
use hush_rs.Std.Words.{Bytes}
use hush_rs.Std.Io.{unexpected_eof, Writer}
use hush_rs.Std.Eq.{nat_eq}
use hush_rs.Session.Crypto.{Crypto, IsSound}
use hush_rs.Session.Cipher.{nonce_size, key_size}
use hush_rs.Session.Store
use hush_rs.Frame.Body.{Response}
use hush_rs.Frame.Body.RoundTrip.{AreCarried}
use hush_rs.Server.{Handlers, is_dead, reply}
use hush_rs.Server.Tcp.{Surroundings, ended, serve_loop}
use hush_rs.Server.Tcp.Conversation.{
  Call, IsSendable, Conversation, over, next, requests_bytes, receive_all, at_end, tcp_turn-at_end,
  tcp_turn-respond, serve_loop_stops, serve_loop_goes_on,
}
use native.Mathlib.Nat.{add-zero}
use hush_rs.Client.Exchange.{receive-reply, read_request-request_bytes}

abbrev pub IsAnswer : Response → Type 0
IsAnswer resp = AreCarried resp.payload

module _ (c : Crypto) (s : IsSound c) {W : Type 0} (key api_key_id : Bytes) (session_id : ℕ)
    (handlers : Handlers W) (nonces : ℕ → Bytes) (env : Surroundings)
    (key_length : length key ≡ key_size) (nonce_length : (i : ℕ) → length (nonces i) ≡ nonce_size)
    (reply_nonce_length : (i : ℕ) → length (env.nonce i) ≡ nonce_size)
    (alive : (i : ℕ)
      → is_dead (env.now i) (env.stores i) (Store.get session_id (env.stores i)) ≡ false) where
  -- A client sends any number of calls down a TCP connection, each with a sequence number of 32 bits,
  -- an opcode of 16 bits and a payload that can be carried, and closes its half. Both sides have one
  -- key of 32 bytes, all nonces have 12 bytes, the stream to the client is open, and at no turn is the
  -- session expired or idle for too long. When the calls can
  -- be answered one after the other, each by its handler on the state that the one before it left,
  -- none of them panicking, and the responses can be carried, then the loop ends in the state behind
  -- the last call, and what it sent, the client reads as those responses, in the order of the calls
  -- and under their sequence numbers. Fuel above the number of calls is enough.
  pub serve_loop-Conversation :
      (f i : ℕ) (w : Writer) {calls : List Call} {from to : W} {resps : List Response}
      → w.is_open ≡ true
      → Conversation session_id api_key_id handlers calls from resps to
      → All IsSendable calls
      → All IsAnswer resps
      → length calls < f
      → (sent back : Bytes) × (requests_bytes c nonces key i calls ≡ ok sent)
        × (serve_loop c f i env key session_id api_key_id handlers (at_end sent) w from
            ≡ ended (i + length calls) (record w { outgoing = w.outgoing ++ back }) to)
        × (receive_all c (length calls) key (at_end back) ≡ ok (resps, at_end []))
  unfolding requests_bytes receive_all
  serve_loop-Conversation zero i w o talk sendable carried h = absurd (omega arith)
  serve_loop-Conversation (suc f) i w o over sendable carried h =
      let stop =
        tcp_turn-at_end c (env.nonce i) (env.now i) (env.stores i) key session_id api_key_id
          handlers w _ (alive i) in
      (
        [],
        [],
        refl,
        rw (append-nil w.outgoing, add-zero i)
            (serve_loop_stops c f i env key session_id api_key_id handlers (at_end []) w w _ _
              stop),
        refl,
      )
  serve_loop-Conversation (suc f) i w o (next {call} {calls} {resp = resp} {resps = resps} e talk)
        (here, later) (fits, rest_fit) h =
      let w' = reply c (env.nonce i) key w call.seq resp in
      let (one, replied, received) =
        receive-reply c s (env.nonce i) key w call.seq resp (reply_nonce_length i) key_length o
          here.seq_small fits in
      let (sent, back, requested, looped, all_received) =
        serve_loop-Conversation f (suc i) (record w { outgoing = w.outgoing ++ one }) o talk later
          rest_fit (omega arith) in
      let (first, requested_first, read) =
        read_request-request_bytes c s (nonces i) key call.seq call.opcode call.payload sent
          unexpected_eof (nonce_length i) key_length here.seq_small here.opcode_small
          here.carried in
      let turned =
        tcp_turn-respond c (env.nonce i) (env.now i) (env.stores i) key session_id api_key_id
          handlers call first sent w _ _ resp (alive i) read e in
      let step =
        serve_loop_goes_on c f i env key session_id api_key_id handlers (at_end (first ++ sent))
          (at_end sent) w w' _ _ turned in
      let count : i + suc (length calls) ≡ suc i + length calls = omega arith in
      (
        first ++ sent,
        one ++ back,
        rw (requested_first, requested),
        rw (count, ← append_assoc {0} w.outgoing one back) (step ∙ rw replied looped),
        rw (received back unexpected_eof, all_received),
      )
