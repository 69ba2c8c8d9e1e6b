-- ===== src/Server/Accept/Apart.antt =====
-- The ids of connections, on the steps of the accept loops of src/server.rs.
use hush_rs.Base.{
  ℕ, suc, ◌+◌, ◌^◌, ◌≤◌, ◌<◌, ◌≡◌, refl, Bool, true, false, List, [], ◌∷◌, none, arith,
}
use hush_rs.Std.Words.{Bytes}
use hush_rs.Std.Eq.{nat_eq}
use hush_rs.Std.HashMap
use hush_rs.Std.HashMap.{HashMap}
use hush_rs.Session.Store
use hush_rs.Session.Store.{new_session, SessionConfig, SessionStore}
use hush_rs.Session.Store.Expiry.{get-insert_session, get-delete}
use hush_rs.Server.Accept.{
  System, member, without, idle_system, accept, refuse, establish, finish_connection, abandon,
  collect, Step, accepts, refuses, establishes, finishes, abandons, collects, Reach, start, later,
}

-- No id stands twice.
abbrev IsDistinct : List ℕ → Type 0
IsDistinct [] = Unit
IsDistinct (x ∷ ids) = (member x ids ≡ false) × IsDistinct ids

member-without :
    (id j : ℕ) (ids : List ℕ) → member j ids ≡ false → member j (without id ids) ≡ false
member-without id j [] h = refl
member-without id j (x ∷ ids) h = ground (arith, member-without id j ids)

member-without_self : (id : ℕ) (ids : List ℕ) → IsDistinct ids → member id (without id ids) ≡ false
member-without_self id [] h = refl
member-without_self id (x ∷ ids) h = ground (arith, member-without_self id ids)

member_of_without :
    (id j : ℕ) (ids : List ℕ) → member j (without id ids) ≡ true → member j ids ≡ true
member_of_without id j [] h = h
member_of_without id j (x ∷ ids) h = ground (arith, member_of_without id j ids)

without-IsDistinct : (id : ℕ) (ids : List ℕ) → IsDistinct ids → IsDistinct (without id ids)
without-IsDistinct id [] h = tt
without-IsDistinct id (x ∷ ids) h =
    ground (arith, without-IsDistinct id ids, member-without id x ids)

-- `retain` makes no entry.
pub retain-none :
    {V : Type 0} (p : ℕ → V → Bool) (id : ℕ) (m : HashMap ℕ V)
    → HashMap.get id m ≡ none
    → HashMap.get id (HashMap.retain p m) ≡ none
unfolding HashMap.get HashMap.retain
retain-none p id [] h = refl
retain-none p id ((k, v) ∷ m) h = ground (arith, retain-none p id m)

-- Where `n` connections were accepted: ids from the counter on are new, those of tasks in their
-- handshake stand for no session, and no id is given to two tasks.
record KeepsApart (n : ℕ) (sys : System) : Type 0 where
  counted : sys.next_id ≡ suc n
  new :
      (id : ℕ)
      → sys.next_id ≤ id
      → (member id sys.starting ≡ false)
        × (member id sys.running ≡ false)
        × (Store.get id sys.sessions ≡ none)
  apart :
      (id : ℕ)
      → member id sys.starting ≡ true
      → (member id sys.running ≡ false) × (Store.get id sys.sessions ≡ none)
  once : IsDistinct sys.starting
  once_running : IsDistinct sys.running

module _ {n : ℕ} {sys : System} (k : KeepsApart n sys) where
  accept-KeepsApart : n + 2 < 2 ^ 64 → KeepsApart (suc n) (accept sys)
  unfolding accept
  accept-KeepsApart small =
      let first = k.new sys.next_id (omega arith) in
      record {
        counted = ground (arith, k.counted);
        new = λ id h. ground (arith, k.counted, k.new id);
        apart = λ id h. ground (arith, first, k.apart id);
        once = (first.0, k.once);
        once_running = k.once_running;
      }

  refuse-KeepsApart : (id : ℕ) → KeepsApart n (refuse id sys)
  unfolding refuse
  refuse-KeepsApart id = record {
    counted = k.counted;
    new = λ j h. ground (arith, k.new j, member-without id j sys.starting);
    apart = λ j h. k.apart j (member_of_without id j sys.starting h);
    once = without-IsDistinct id sys.starting k.once;
    once_running = k.once_running;
  }

  establish-KeepsApart :
      (id now : ℕ) (aid key : Bytes)
      → member id sys.starting ≡ true
      → KeepsApart n (establish id now aid key sys)
  unfolding establish new_session
  establish-KeepsApart id now aid key here = record {
    counted = k.counted;
    new = λ j h. ground (
      arith,
      k.new j,
      k.new id,
      member-without id j sys.starting,
      get-insert_session j (new_session now id aid key) sys.sessions,
    );
    apart = λ j h. ground (
      arith,
      k.apart j,
      member_of_without id j sys.starting,
      member-without_self id sys.starting k.once,
      get-insert_session j (new_session now id aid key) sys.sessions,
    );
    once = without-IsDistinct id sys.starting k.once;
    once_running = ((k.apart id here).0, k.once_running);
  }

  finish-KeepsApart : (id : ℕ) → KeepsApart n (finish_connection id sys)
  unfolding finish_connection
  finish-KeepsApart id = record {
    counted = k.counted;
    new = λ j h.
        ground (arith, k.new j, member-without id j sys.running, get-delete id j sys.sessions);
    apart = λ j h.
        ground (arith, k.apart j, member-without id j sys.running, get-delete id j sys.sessions);
    once = k.once;
    once_running = without-IsDistinct id sys.running k.once_running;
  }

  abandon-KeepsApart : (id : ℕ) → KeepsApart n (abandon id sys)
  unfolding abandon
  abandon-KeepsApart id = record {
    counted = k.counted;
    new = λ j h. ground (arith, k.new j, member-without id j sys.running);
    apart = λ j h. ground (arith, k.apart j, member-without id j sys.running);
    once = k.once;
    once_running = without-IsDistinct id sys.running k.once_running;
  }

  collect-KeepsApart : (now : ℕ) → KeepsApart n (collect now sys)
  unfolding collect Store.gc Store.get
  collect-KeepsApart now = record {
    counted = k.counted;
    new =
        λ j h. ((k.new j h).0, (k.new j h).1, retain-none _ j sys.sessions.sessions (k.new j h).2);
    apart = λ j h. ((k.apart j h).0, retain-none _ j sys.sessions.sessions (k.apart j h).1);
    once = k.once;
    once_running = k.once_running;
  }

Step-KeepsApart :
    {n m : ℕ} {sys sys' : System}
    → Step n sys m sys'
    → m + 1 < 2 ^ 64
    → KeepsApart n sys
    → KeepsApart m sys'
Step-KeepsApart accepts small k = accept-KeepsApart k (omega arith)
Step-KeepsApart (refuses id h) small k = refuse-KeepsApart k id
Step-KeepsApart (establishes id now aid key h) small k = establish-KeepsApart k id now aid key h
Step-KeepsApart (finishes id h) small k = finish-KeepsApart k id
Step-KeepsApart (abandons id h) small k = abandon-KeepsApart k id
Step-KeepsApart (collects now) small k = collect-KeepsApart k now

Step-le : {n m : ℕ} {sys sys' : System} → Step n sys m sys' → n ≤ m
Step-le accepts = omega arith
Step-le (refuses id h) = omega arith
Step-le (establishes id now aid key h) = omega arith
Step-le (finishes id h) = omega arith
Step-le (abandons id h) = omega arith
Step-le (collects now) = omega arith

idle-KeepsApart : (config : SessionConfig) → KeepsApart 0 (idle_system config)
unfolding idle_system Store.new Store.get HashMap.get
idle-KeepsApart config = record {
  counted = refl;
  new = λ id h. (refl, refl, refl);
  apart = λ id h. cc;
  once = tt;
  once_running = tt;
}

Reach-KeepsApart :
    {config : SessionConfig} {n : ℕ} {sys : System}
    → Reach config n sys
    → n + 1 < 2 ^ 64
    → KeepsApart n sys
Reach-KeepsApart {config} start small = idle-KeepsApart config
Reach-KeepsApart (later r st) small =
    Step-KeepsApart st small (Reach-KeepsApart r (omega (arith, Step-le st)))

-- As long as fewer than 2^64 - 1 connections were accepted, a connection that completes its handshake
-- takes over no session of another: under its id there is none in the store, and no other connection
-- runs under its id, whatever connections have come and gone, panicked or been collected before.
pub Reach-IsApart :
    {config : SessionConfig} {n : ℕ} {sys : System} (id : ℕ)
    → Reach config n sys
    → n + 1 < 2 ^ 64
    → member id sys.starting ≡ true
    → (Store.get id sys.sessions ≡ none)
      × (member id sys.running ≡ false)
      × (member id (without id sys.starting) ≡ false)
Reach-IsApart {sys} id r small here =
    let k = Reach-KeepsApart r small in
    let (alone, none_there) = k.apart id here in
    (none_there, alone, member-without_self id sys.starting k.once)
