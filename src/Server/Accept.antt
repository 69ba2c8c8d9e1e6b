-- ===== src/Server/Accept.antt =====
-- The accept loops of `listen_on` and `listen_tcp` of src/server.rs, with the tasks that they spawn and
-- the collection of sessions, as a step relation: the scheduler chooses which of them goes on.
pub mod Apart
pub mod Held
use hush_rs.Base.{
  ℕ, zero, suc, ◌+◌, ◌%◌, ◌^◌, ◌≡◌, ◌==◌, Bool, true, false, List, [], ◌∷◌, if◌then◌else◌,
}
use hush_rs.Std.Words.{Bytes}
use hush_rs.Session.Store
use hush_rs.Session.Store.{new_session, SessionConfig, SessionStore}

-- The ids of the tasks that are in their handshake, and of those that have inserted their session;
-- the counter of the server, and its session store.
pub record System : Type 0 where
  pub next_id : ℕ
  pub starting : List ℕ
  pub running : List ℕ
  pub sessions : SessionStore

abbrev pub member : ℕ → List ℕ → Bool
member id [] = false
member id (x ∷ ids) = if x == id then true else member id ids

-- One task fewer.
abbrev pub without : ℕ → List ℕ → List ℕ
without id [] = []
without id (x ∷ ids) = if x == id then ids else x ∷ without id ids

-- `Server::new`: no task, and ids from 1 on.
unfoldable pub idle_system : SessionConfig → System
idle_system config = record {
  next_id = 1;
  starting = [];
  running = [];
  sessions = Store.new config;
}

-- `self.next_id.fetch_add(1)` on a u64, and the task that is spawned with the id.
unfoldable pub accept : System → System
accept sys = record sys {
  next_id = (sys.next_id + 1) % 2 ^ 64;
  starting = sys.next_id ∷ sys.starting;
}

-- The handshake fails: the task returns.
unfoldable pub refuse : ℕ → System → System
refuse id sys = record sys { starting = without id sys.starting }

-- The handshake is done: `sessions.insert(Session::new(..))`.
unfoldable pub establish : ℕ → ℕ → Bytes → Bytes → System → System
establish id now aid key sys = record sys {
  starting = without id sys.starting;
  running = id ∷ sys.running;
  sessions = Store.insert (new_session now id aid key) sys.sessions;
}

-- The connection is over: `sessions.delete(session_id)`.
unfoldable pub finish_connection : ℕ → System → System
finish_connection id sys = record sys {
  running = without id sys.running;
  sessions = Store.delete id sys.sessions;
}

-- A handler's panic unwinds the task of a TCP connection.
unfoldable pub abandon : ℕ → System → System
abandon id sys = record sys { running = without id sys.running }

-- `sessions.gc()`
unfoldable pub collect : ℕ → System → System
collect now sys = record sys { sessions = Store.gc now sys.sessions }

-- A step, with the number of connections that were accepted before and after it.
pub data Step : ℕ → System → ℕ → System → Type 0 where
  accepts : {n : ℕ} {sys : System} → Step n sys (suc n) (accept sys)
  refuses :
      {n : ℕ} {sys : System} (id : ℕ) → member id sys.starting ≡ true → Step n sys n (refuse id sys)
  establishes :
      {n : ℕ} {sys : System} (id now : ℕ) (aid key : Bytes)
      → member id sys.starting ≡ true
      → Step n sys n (establish id now aid key sys)
  finishes :
      {n : ℕ} {sys : System} (id : ℕ)
      → member id sys.running ≡ true
      → Step n sys n (finish_connection id sys)
  abandons :
      {n : ℕ} {sys : System} (id : ℕ) → member id sys.running ≡ true → Step n sys n (abandon id sys)
  collects : {n : ℕ} {sys : System} (now : ℕ) → Step n sys n (collect now sys)

-- What a server can come to, and how many connections it has accepted by then.
pub data Reach (config : SessionConfig) : ℕ → System → Type 0 where
  start : Reach config 0 (idle_system config)
  later :
      {n m : ℕ} {sys sys' : System} → Reach config n sys → Step n sys m sys' → Reach config m sys'
