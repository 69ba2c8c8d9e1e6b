-- ===== src/Server/Tcp/Whole.antt =====
-- A whole session over TCP: the handshake, the calls and the end.
use hush_rs.Base.{
  ℕ, suc, ◌+◌, ◌≤◌, ◌<◌, ◌^◌, ◌≡◌, refl, true, false, List, [], ◌∷◌, ◌++◌, All, Option, some, ok,
  leb, map_err, bind-eq_ok, map_err-eq_ok, guard-eq_ok, length, length-append, arith,
}
use hush_rs.Std.Words.{Bytes, to_be_bytes, length-to_be_bytes}
use hush_rs.Std.Io.{fresh, Writer}
use hush_rs.Std.Eq.{nat_eq}
use hush_rs.Tlv.Value.{Map}
use hush_rs.Session.Crypto.{Crypto, IsSound}
use hush_rs.Session.Cipher.{nonce_size}
use hush_rs.Session.Handshake.{ApiKey, hello}
use hush_rs.Session.Store
use hush_rs.Session.Store.{new_session, ApiKeyStore, SessionStore}
use hush_rs.Frame.Wire.{encode_frame, total_length, too_large, max_frame_size}
use hush_rs.Frame.Body
use hush_rs.Frame.Body.{Response, encode_request_body}
use hush_rs.Server.{Handlers, is_dead}
use hush_rs.Server.Establish.{tcp}
use hush_rs.Server.Tcp.{Surroundings, history, closed, close, handle_tcp_connection}
use hush_rs.Server.Tcp.Conversation.{
  Call, IsSendable, Conversation, requests_bytes, receive_all, at_end,
}
use hush_rs.Server.Tcp.Answers.{IsAnswer, serve_loop-Conversation}
use native.Mathlib.Nat.{zero-add}
use hush_rs.Client.{request, frame, request_bytes}
use hush_rs.Client.Dial.{transport_of, dial}
use hush_rs.Client.Dial.Welcome.{IsWelcome, welcome}
use hush_rs.Client.Dial.Agreed.{accepting, established}

encode_frame-length : (seq : ℕ) (body out : Bytes) → encode_frame seq body ≡ ok out → 1 ≤ length out
unfolding encode_frame
encode_frame-length seq body out h =
    let n = total_length body in
    let (fits, e) = guard-eq_ok (leb n max_frame_size) (too_large n max_frame_size) _ h in
    let behind = to_be_bytes 4 seq ++ body in
    let size = length-append {0} (to_be_bytes 4 n) behind in
    ground (arith, e, size, length-to_be_bytes 4 n)

request_bytes-length :
    (c : Crypto) (nonce key : Bytes) (seq opcode : ℕ) (payload : Option Map) (out : Bytes)
    → request_bytes c nonce key seq opcode payload ≡ ok out
    → 1 ≤ length out
unfolding request_bytes
request_bytes-length c nonce key seq opcode payload out h =
    let req : Body.Request = record { opcode = opcode; payload = payload } in
    let (body, e, framed) =
      bind-eq_ok (map_err request (encode_request_body c nonce (some key) req)) _ h in
    encode_frame-length seq body out (map_err-eq_ok frame (encode_frame seq body) framed)

-- Every call takes a byte at least.
length-requests_bytes :
    (c : Crypto) (nonces : ℕ → Bytes) (key : Bytes) (i : ℕ) (calls : List Call) (sent : Bytes)
    → requests_bytes c nonces key i calls ≡ ok sent
    → length calls ≤ length sent
unfolding requests_bytes
length-requests_bytes c nonces key i [] sent h = omega arith
length-requests_bytes c nonces key i (call ∷ calls) sent h =
    let (one, e, more) =
      bind-eq_ok (request_bytes c (nonces i) key call.seq call.opcode call.payload) _ h in
    let (rest, e', whole) = bind-eq_ok (requests_bytes c nonces key (suc i) calls) _ more in
    ground (
      arith,
      whole,
      length-append {0} one rest,
      request_bytes-length c (nonces i) key call.seq call.opcode call.payload one e,
      length-requests_bytes c nonces key (suc i) calls rest e',
    )

-- The session store at each turn of a connection that inserted its session.
abbrev pub stores_of :
    (ℕ → SessionStore → SessionStore) → SessionStore → ℕ → ℕ → Bytes → Bytes → ℕ → SessionStore
stores_of others sessions now session_id id key =
    history others (Store.insert (new_session now session_id id key) sessions)

module _ (c : Crypto) (s : IsSound c) {W : Type 0} (a b : Bytes) (client_now session_id : ℕ)
    (key : ApiKey) (key_store : ApiKeyStore) (handlers : Handlers W) (sessions : SessionStore)
    (nonces : ℕ → Bytes) (now : ℕ → ℕ) (nonce : ℕ → Bytes)
    (others : ℕ → SessionStore → SessionStore) (small_id : session_id < 2 ^ 64)
    (known : IsWelcome key_store key.id key.secret)
    (nonce_length : (i : ℕ) → length (nonces i) ≡ nonce_size)
    (reply_nonce_length : (i : ℕ) → length (nonce i) ≡ nonce_size)
    (alive : (session_key : Bytes) (i : ℕ)
      → is_dead
          (now i)
          (stores_of others sessions (now 0) session_id key.id session_key i)
          (Store.get session_id (stores_of others sessions (now 0) session_id key.id session_key i))
        ≡ false) where
  -- A whole session over TCP, with a session id below 2^64 and nonces of 12 bytes on both sides. The
  -- client dials with an id that the server welcomes, sends calls that are sendable under the key of
  -- the handshake and closes its half; at every turn the session is neither expired nor idle for too
  -- long, whatever else happens to the store, and the calls can be answered one after the other, as in
  -- `Conversation`, with responses that can be carried. Then the connection closes, its session
  -- deleted, in the state behind the last call, and behind the server's part of the handshake stands
  -- what the client reads, under the key that it has, as the responses in their order.
  pub tcp_session :
      {calls : List Call} {from to : W} {resps : List Response}
      → Conversation session_id key.id handlers calls from resps to
      → All IsSendable calls
      → All IsAnswer resps
      → (session_key sent back : Bytes) × (dial c tcp a client_now key fresh
            (accepting c tcp b key_store session_id)
          ≡ ok (
            record {
              transport = transport_of tcp;
              session = new_session client_now session_id key.id session_key;
              seq = 0;
              session_key = session_key;
            },
            record { outgoing = hello c key.id a; is_open = true },
            at_end [],
          ))
        × (requests_bytes c nonces session_key 0 calls ≡ ok sent)
        × (handle_tcp_connection c b
              (c.public_key b)
              key_store
              session_id
              now
              nonce
              others
              handlers
              sessions
              (at_end (hello c key.id a ++ sent))
              fresh
              from
            ≡ ok (
                closed
                  (Store.delete session_id (
                    stores_of others sessions (now 0) session_id key.id session_key (length calls)))
                  (record { outgoing = welcome c b session_id ++ back; is_open = true })
                  to))
        × (receive_all c (length calls) session_key (at_end back) ≡ ok (resps, at_end []))
  unfolding handle_tcp_connection close
  tcp_session {calls} talk sendable carried =
      let (session_key, len, accepted, dialled) =
        established c s tcp a b client_now session_id key key_store small_id known in
      let stores = stores_of others sessions (now 0) session_id key.id session_key in
      let env : Surroundings = record { now = now; nonce = nonce; stores = stores } in
      let welcomed : Writer = record { outgoing = welcome c b session_id; is_open = true } in
      let run = λ (f : ℕ) (enough : length calls < f).
        serve_loop-Conversation c s session_key key.id session_id handlers nonces env len
          nonce_length reply_nonce_length (alive session_key) f 0 welcomed refl talk sendable
          carried enough in
      let sent = (run (length calls + 1) (omega arith)).0 in
      let requested = (run (length calls + 1) (omega arith)).2 in
      let enough = length-requests_bytes c nonces session_key 0 calls sent requested in
      let (sent', back, requested', looped, received) = run (length sent + 1) (omega arith) in
      let same : sent' ≡ sent = ground (arith, requested, requested') in
      (
        session_key,
        sent,
        back,
        dialled,
        requested,
        rw (accepted sent, rw same at looped, zero-add (length calls)),
        received,
      )
