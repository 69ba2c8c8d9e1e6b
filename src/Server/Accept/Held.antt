-- ===== src/Server/Accept/Held.antt =====
-- Which sessions the store holds, on the steps of the accept loops of src/server.rs.
use hush_rs.Base.{ℕ, ◌≡◌, refl, false, List, [], ◌∷◌, none, ◌==◌, arith}
use hush_rs.Std.Words.{Bytes}
use hush_rs.Std.Eq.{nat_eq}
use hush_rs.Std.HashMap
use hush_rs.Session.Store
use hush_rs.Session.Store.{new_session, SessionConfig, SessionStore}
use hush_rs.Session.Store.Expiry.{get-insert_session, get-delete}
use hush_rs.Server.Accept.{
  System, member, without, idle_system, accept, refuse, establish, finish_connection, collect,
  accepts, refuses, establishes, finishes, abandons, collects, Reach, start, later,
}
use hush_rs.Server.Accept.Apart.{retain-none}

-- No handler's panic unwound the task of a TCP connection.
abbrev pub IsCalm : {config : SessionConfig} {n : ℕ} {sys : System} → Reach config n sys → Type 0
IsCalm start = Unit
IsCalm (later r accepts) = IsCalm r
IsCalm (later r (refuses id h)) = IsCalm r
IsCalm (later r (establishes id now aid key h)) = IsCalm r
IsCalm (later r (finishes id h)) = IsCalm r
IsCalm (later r (abandons id h)) = ⊥
IsCalm (later r (collects now)) = IsCalm r

-- A connection that does not run has no session.
abbrev HoldsOnly : System → Type 0
HoldsOnly sys = (id : ℕ) → member id sys.running ≡ false → Store.get id sys.sessions ≡ none

member-without_other :
    (id j : ℕ) (ids : List ℕ)
    → (id == j) ≡ false
    → member j (without id ids) ≡ false
    → member j ids ≡ false
member-without_other id j [] other h = h
member-without_other id j (x ∷ ids) other h = ground (arith, member-without_other id j ids)

establish-HoldsOnly :
    (sys : System) (id now : ℕ) (aid key : Bytes)
    → HoldsOnly sys
    → HoldsOnly (establish id now aid key sys)
unfolding establish new_session
establish-HoldsOnly sys id now aid key k j h =
    ground (arith, k j, get-insert_session j (new_session now id aid key) sys.sessions)

finish-HoldsOnly : (sys : System) (id : ℕ) → HoldsOnly sys → HoldsOnly (finish_connection id sys)
unfolding finish_connection
finish-HoldsOnly sys id k j h =
    ground (arith, k j, get-delete id j sys.sessions, member-without_other id j sys.running)

collect-HoldsOnly : (sys : System) (now : ℕ) → HoldsOnly sys → HoldsOnly (collect now sys)
unfolding collect Store.gc Store.get
collect-HoldsOnly sys now k j h = retain-none _ j sys.sessions.sessions (k j h)

-- In a run of a server in which no handler's panic unwinds the task of a TCP connection, the session
-- store holds sessions of running connections only: under the id of any other connection, refused,
-- finished, in its handshake or yet to come, there is none.
pub Reach-HoldsOnly :
    {config : SessionConfig} {n : ℕ} {sys : System} (r : Reach config n sys)
    → IsCalm r
    → (id : ℕ) → member id sys.running ≡ false
    → Store.get id sys.sessions ≡ none
unfolding idle_system Store.new Store.get HashMap.get accept refuse
Reach-HoldsOnly start calm id h = refl
Reach-HoldsOnly (later r accepts) calm id h = Reach-HoldsOnly r calm id h
Reach-HoldsOnly (later r (refuses j here)) calm id h = Reach-HoldsOnly r calm id h
Reach-HoldsOnly (later {sys = sys} r (establishes j now aid key here)) calm id h =
    establish-HoldsOnly sys j now aid key (Reach-HoldsOnly r calm) id h
Reach-HoldsOnly (later {sys = sys} r (finishes j here)) calm id h =
    finish-HoldsOnly sys j (Reach-HoldsOnly r calm) id h
Reach-HoldsOnly (later r (abandons j here)) calm id h = absurd calm
Reach-HoldsOnly (later {sys = sys} r (collects now)) calm id h =
    collect-HoldsOnly sys now (Reach-HoldsOnly r calm) id h
