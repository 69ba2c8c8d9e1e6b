-- ===== src/Server/Tcp/Timeout.antt =====
-- How long the loop of `handle_tcp_connection` of src/server.rs serves a session.
use hush_rs.Base.{
  ℕ, zero, suc, ◌-◌, ◌<◌, ◌≤◌, ◌≡◌, ◌==◌, refl, ◌∙◌, true, some, length, arith, Bool-cases, inl,
  inr, ==_self,
}
use hush_rs.Std.Words.{Bytes}
use hush_rs.Std.Io.{Reader, Writer}
use hush_rs.Std.Eq.{nat_eq}
use hush_rs.Session.Crypto.{Crypto}
use hush_rs.Session.Store
use hush_rs.Session.Store.{Session, new_session, SessionStore}
use hush_rs.Session.Store.Expiry.{get-insert_session}
use hush_rs.Server.{Handlers, is_dead, reply, expired_response}
use hush_rs.Server.Tcp.{
  Turn, goes_on, stops, unwinds, Surroundings, Ending, ended, panicked_at, out_of_fuel, tcp_turn,
  serve_loop, history,
}
use hush_rs.Server.Tcp.Rule.{Follows, tcp_turn-Follows}
use hush_rs.Server.Tcp.Ends.{Stops, any_handler}

-- The loop is over at turn `j` or before.
abbrev pub EndsBy : {W : Type 0} → ℕ → Ending W → Type 0
EndsBy j (ended i w s) = i ≤ j
EndsBy j (panicked_at i s) = i ≤ j
EndsBy j out_of_fuel = ⊥

-- Other tasks leave a session as it is, and the settings of the store.
pub record LeavesAlone (id : ℕ) (others : ℕ → SessionStore → SessionStore) : Type 0 where
  pub found : (i : ℕ) (st : SessionStore) → Store.get id (others i st) ≡ Store.get id st
  pub config : (i : ℕ) (st : SessionStore) → (others i st).config ≡ st.config

module _ (id : ℕ) (others : ℕ → SessionStore → SessionStore) (alone : LeavesAlone id others)
    (st : SessionStore) where
  get-history : (i : ℕ) → Store.get id (history others st i) ≡ Store.get id st
  unfolding history
  get-history zero = alone.found 0 st
  get-history (suc i) = alone.found (suc i) (history others st i) ∙ get-history i

  history-config : (i : ℕ) → (history others st i).config ≡ st.config
  unfolding history
  history-config zero = alone.config 0 st
  history-config (suc i) = alone.config (suc i) (history others st i) ∙ history-config i

-- A turn that goes on comes before turn `j` and leaves less than `n` bytes to read.
abbrev LeadsOn : {W : Type 0} → ℕ → ℕ → ℕ → Turn W → Type 0
LeadsOn i j n (goes_on r w s) = (i < j) × (length r.incoming < n)
LeadsOn i j n (stops w s) = Unit
LeadsOn i j n (unwinds s) = Unit

goes_less :
    {W : Type 0} (P : W → Type 0) (Q : Ending W → Type 0) (i j n : ℕ) (t : Turn W)
    → i < j
    → Follows P Q n t
    → LeadsOn i j n t
goes_less P Q i j n (goes_on r w s) before (lt, p) = (before, lt)
goes_less P Q i j n (stops w s) before q = tt
goes_less P Q i j n (unwinds s) before q = tt

module _ (c : Crypto) {W : Type 0} (env : Surroundings) (key : Bytes) (sid : ℕ) (aid : Bytes)
    (handlers : Handlers W) (j : ℕ)
    (dead : is_dead (env.now j) (env.stores j) (Store.get sid (env.stores j)) ≡ true) where
  tcp_turn-dead :
      (r : Reader) (w : Writer) (s : W)
      → (w' : Writer) × (tcp_turn c
            (env.nonce j)
            (env.now j)
            (env.stores j)
            key
            sid
            aid
            handlers
            r
            w
            s
          ≡ stops w' s)
  unfolding tcp_turn
  tcp_turn-dead r w s = (reply c (env.nonce j) key w 0 expired_response, rw dead refl)

  -- A turn up to `j` stops, or leads to one that is up to `j` too, with less to read.
  tcp_turn-LeadsOn :
      (i : ℕ) (r : Reader) (w : Writer) (s : W)
      → i ≤ j
      → LeadsOn i j
          (length r.incoming)
          (tcp_turn c (env.nonce i) (env.now i) (env.stores i) key sid aid handlers r w s)
  tcp_turn-LeadsOn i r w s le = elim (Bool-cases (i == j)) [
    | inl same ↦ let at_j : i ≡ j = ground arith in rw (at_j, (tcp_turn-dead r w s).1) tt
    | inr other ↦
        goes_less (λ t. Unit) (Stops handlers) i j (length r.incoming) _ (ground arith)
          (tcp_turn-Follows c sid aid (λ t. Unit) (Stops handlers) (λ k w' t p. tt) handlers
            (any_handler handlers sid aid) (env.nonce i) (env.now i) (env.stores i) key r w s tt)
  ]

  pub serve_loop-EndsBy :
      (f i : ℕ) (r : Reader) (w : Writer) (s : W)
      → i ≤ j
      → length r.incoming < f
      → EndsBy j (serve_loop c f i env key sid aid handlers r w s)
  unfolding serve_loop
  serve_loop-EndsBy zero i r w s le h = absurd (omega arith)
  serve_loop-EndsBy (suc f) i r w s le h =
      after_turn (tcp_turn c (env.nonce i) (env.now i) (env.stores i) key sid aid handlers r w s)
        (tcp_turn-LeadsOn i r w s le)
        (λ r' w' s' before lt. serve_loop-EndsBy f (suc i) r' w' s' (omega arith) (omega arith))
    where
      after_turn :
          (t : Turn W)
          → LeadsOn i j (length r.incoming) t
          → ((r' : Reader) (w' : Writer) (s' : W)
              → i < j
              → length r'.incoming < length r.incoming
              → EndsBy j (serve_loop c f (suc i) env key sid aid handlers r' w' s'))
          → EndsBy j (elim t [
            | goes_on r' w' s' ↦ serve_loop c f (suc i) env key sid aid handlers r' w' s'
            | stops w' s' ↦ ended i w' s'
            | unwinds s' ↦ panicked_at i s'
          ])
      after_turn (goes_on r' w' s') (before, lt) next = next r' w' s' before lt
      after_turn (stops w' s') q next = le
      after_turn (unwinds s') q next = le

-- A connection over TCP whose session other tasks leave alone is over at the first turn that comes
-- later than `idle_timeout` after its handshake, or before, however many requests it sends until then:
-- using a session does not prolong it.
pub serve_loop-idle_timeout :
    (c : Crypto) {W : Type 0} (now : ℕ → ℕ) (nonce : ℕ → Bytes)
    (others : ℕ → SessionStore → SessionStore) (sessions : SessionStore) (key : Bytes) (sid : ℕ)
    (aid : Bytes) (handlers : Handlers W) (r : Reader) (w : Writer) (s : W) (j f : ℕ)
    → LeavesAlone sid others
    → sessions.config.idle_timeout < now j - now 0
    → length r.incoming < f
    → EndsBy j (
        serve_loop c f 0
          (record {
            now = now;
            nonce = nonce;
            stores = history others (Store.insert (new_session (now 0) sid aid key) sessions);
          })
          key
          sid
          aid
          handlers
          r
          w
          s)
unfolding is_dead Store.is_idle_dead Store.insert new_session
serve_loop-idle_timeout c now nonce others sessions key sid aid handlers r w s j f alone late
      enough =
    let st = Store.insert (new_session (now 0) sid aid key) sessions in
    let session = new_session (now 0) sid aid key in
    let found : Store.get sid (history others st j) ≡ some session =
      get-history sid others alone st j
      ∙ get-insert_session sid session sessions
      ∙ rw (==_self sid) refl in
    serve_loop-EndsBy c _ key sid aid handlers j
      (rw (found, history-config sid others alone st j) (ground arith)) f 0 r w s (omega arith)
      enough
