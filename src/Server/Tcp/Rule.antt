-- ===== src/Server/Tcp/Rule.antt =====
-- Reasoning about the loop of `handle_tcp_connection` of src/server.rs: what its handlers keep, and
-- what holds when it stops.
use hush_rs.Base.{
  ℕ, zero, suc, ◌++◌, ◌<◌, ◌≡◌, refl, Option, none, some, ok, length, arith, Result-cases,
  Bool-cases, inl, inr, bind-eq_ok, map_err-eq_ok, map_err,
}
use hush_rs.Std.Words.{Bytes, to_be_bytes}
use hush_rs.Std.Io.{Reader, Writer}
use hush_rs.Std.Eq.{nat_eq}
use hush_rs.Std.HashMap
use hush_rs.Session.Crypto.{Crypto}
use hush_rs.Session.Store
use hush_rs.Session.Store.{SessionStore}
use hush_rs.Frame.Wire.{read_frame, read_frame_async}
use hush_rs.Frame.Wire.RoundTrip.{read_frame_takes}
use hush_rs.Frame.Body
use hush_rs.Frame.Body.{frame, decode_request, read_request_async}
use hush_rs.Middleware.{Request, Outcome, responded, failed, panicked}
use hush_rs.Server.{HandlerType, sync, stream, Handlers, is_dead}
use hush_rs.Server.Tcp.{
  Turn, goes_on, stops, unwinds, Surroundings, Ending, ended, panicked_at, tcp_finish, tcp_dispatch,
  tcp_answer, tcp_turn, serve_loop,
}

-- A request that is read takes its bytes from the stream.
read_request_async_takes :
    (c : Crypto) (key : Option Bytes) (r r' : Reader) (x : Body.Request × ℕ)
    → read_request_async c r key ≡ ok (x, r')
    → length r'.incoming < length r.incoming
unfolding read_request_async read_frame_async
read_request_async_takes c key r r' x h =
    let first = bind-eq_ok (map_err frame (read_frame r)) _ h in
    let ((f, r1), e, rest) = first in
    let taken = read_frame_takes r r1 f (map_err-eq_ok frame (read_frame r) e) in
    let second = bind-eq_ok (decode_request c key (to_be_bytes 4 f.seq ++ f.body)) _ rest in
    ground (arith, taken, second.2)

-- A call of a handler keeps `P`, or panics and leaves what `Q` asks of a panic at any turn.
abbrev pub Comes : {W : Type 0} → (W → Type 0) → (Ending W → Type 0) → Outcome × W → Type 0
Comes P Q (responded resp, s) = P s
Comes P Q (failed e, s) = P s
Comes P Q (panicked, s) = (i : ℕ) → Q (panicked_at i s)

-- So does the handler that a look-up finds, for the requests of a session and its API key.
abbrev pub Calls :
    {W : Type 0} → ℕ → Bytes → (W → Type 0) → (Ending W → Type 0) → Option (HandlerType W) → Type 0
Calls session_id api_key_id P Q none = Unit
Calls session_id api_key_id P Q (some (stream h)) = Unit
Calls {W} session_id api_key_id P Q (some (sync h)) =
    (req : Request) (s : W)
    → req.session_id ≡ session_id
    → req.api_key_id ≡ api_key_id
    → P s
    → Comes P Q (h req s)

-- Behind a turn there is less than `n` bytes to read and `P` holds, or the loop stops and `Q` holds.
abbrev pub Follows : {W : Type 0} → (W → Type 0) → (Ending W → Type 0) → ℕ → Turn W → Type 0
Follows P Q n (goes_on r w s) = (length r.incoming < n) × P s
Follows P Q n (stops w s) = (i : ℕ) → Q (ended i w s)
Follows P Q n (unwinds s) = (i : ℕ) → Q (panicked_at i s)

module _ (c : Crypto) {W : Type 0} (session_id : ℕ) (api_key_id : Bytes) (P : W → Type 0)
    (Q : Ending W → Type 0) (over : (i : ℕ) (w : Writer) (s : W) → P s → Q (ended i w s)) where
  tcp_finish-Follows :
      (n : ℕ) (nonce key : Bytes) (seq : ℕ) (r : Reader) (w : Writer) (o : Outcome × W)
      → length r.incoming < n
      → Comes P Q o
      → Follows P Q n (tcp_finish c nonce key seq r w o)
  unfolding tcp_finish
  tcp_finish-Follows n nonce key seq r w (responded resp, s) h k = (h, k)
  tcp_finish-Follows n nonce key seq r w (failed e, s) h k = (h, k)
  tcp_finish-Follows n nonce key seq r w (panicked, s) h k = k

  tcp_dispatch-Follows :
      (n : ℕ) (nonce key : Bytes) (req : Request) (seq : ℕ) (r : Reader) (w : Writer) (s : W)
      (found : Option (HandlerType W))
      → length r.incoming < n
      → req.session_id ≡ session_id
      → req.api_key_id ≡ api_key_id
      → P s
      → Calls session_id api_key_id P Q found
      → Follows P Q n (tcp_dispatch c nonce key req seq r w s found)
  unfolding tcp_dispatch
  tcp_dispatch-Follows n nonce key req seq r w s none h same_id same_key p k = (h, p)
  tcp_dispatch-Follows n nonce key req seq r w s (some (stream f)) h same_id same_key p k = (h, p)
  tcp_dispatch-Follows n nonce key req seq r w s (some (sync f)) h same_id same_key p k =
      tcp_finish-Follows n nonce key seq r w (f req s) h (k req s same_id same_key p)

  module _ (handlers : Handlers W)
      (calls : (opcode : ℕ) → Calls session_id api_key_id P Q (HashMap.get opcode handlers)) where
    pub tcp_turn-Follows :
        (nonce : Bytes) (now : ℕ) (sessions : SessionStore) (key : Bytes) (r : Reader) (w : Writer)
        (s : W)
        → P s
        → Follows P Q
            (length r.incoming)
            (tcp_turn c nonce now sessions key session_id api_key_id handlers r w s)
    unfolding tcp_turn tcp_answer
    tcp_turn-Follows nonce now sessions key r w s p =
        elim (Bool-cases (is_dead now sessions (Store.get session_id sessions))) [
          | inl dead ↦ rw dead (λ i. over i _ s p)
          | inr alive ↦ elim (Result-cases (read_request_async c r (some key))) [
            | inl (((freq, seq), r'), e) ↦
                rw (alive, e)
                  (tcp_dispatch-Follows (length r.incoming) nonce key _ seq r' w s
                    (HashMap.get freq.opcode handlers)
                    (read_request_async_takes c (some key) r r' (freq, seq) e) refl refl p
                    (calls freq.opcode))
            | inr (x, e) ↦ rw (alive, e) (λ i. over i _ s p)
          ]
        ]

    -- What every handler keeps holds when the loop ends, given fuel above the bytes that will arrive.
    pub serve_loop_rule :
        (f i : ℕ) (env : Surroundings) (key : Bytes) (r : Reader) (w : Writer) (s : W)
        → length r.incoming < f
        → P s
        → Q (serve_loop c f i env key session_id api_key_id handlers r w s)
    unfolding serve_loop
    serve_loop_rule zero i env key r w s h p = absurd (omega arith)
    serve_loop_rule (suc f) i env key r w s h p =
        after_turn
          (tcp_turn c (env.nonce i) (env.now i) (env.stores i) key session_id api_key_id handlers r
            w s)
          (tcp_turn-Follows (env.nonce i) (env.now i) (env.stores i) key r w s p)
          (λ r' w' s' lt p'. serve_loop_rule f (suc i) env key r' w' s' (omega arith) p')
      where
        after_turn :
            (t : Turn W)
            → Follows P Q (length r.incoming) t
            → ((r' : Reader) (w' : Writer) (s' : W)
                → length r'.incoming < length r.incoming
                → P s'
                → Q (serve_loop c f (suc i) env key session_id api_key_id handlers r' w' s'))
            → Q (elim t [
              | goes_on r' w' s' ↦
                  serve_loop c f (suc i) env key session_id api_key_id handlers r' w' s'
              | stops w' s' ↦ ended i w' s'
              | unwinds s' ↦ panicked_at i s'
            ])
        after_turn (goes_on r' w' s') (lt, p') next = next r' w' s' lt p'
        after_turn (stops w' s') q next = q i
        after_turn (unwinds s') q next = q i
