-- ===== src/Session/Store.antt =====
-- `Session`, `SessionConfig`, `MapKeyStore` and `SessionStore` of src/session.rs. Times are
-- nanoseconds; `now` is what `Instant::now()` gives, and `t.elapsed()` is `now - t`, 0 at least.
pub mod Expiry
pub mod Registers
pub mod Apart
pub mod View
use hush_rs.Base.{
  ℕ, ◌+◌, ◌-◌, ◌*◌, ◌%◌, ◌^◌, Bool, [], Option, none, some, ltb, leb, if◌then◌else◌, length,
}
use hush_rs.Std.Words.{Bytes}
use hush_rs.Std.Eq.{bytes_instance, nat_eq}
use hush_rs.Std.HashMap
use hush_rs.Std.HashMap.{HashMap}

-- `Session`
pub record Session : Type 0 where
  pub id : ℕ
  pub api_key_id : Bytes
  pub key : Bytes
  pub created_at : ℕ
  pub last_used : ℕ

-- `Session::new`
unfoldable pub new_session : ℕ → ℕ → Bytes → Bytes → Session
new_session now id api_key_id key = record {
  id = id;
  api_key_id = api_key_id;
  key = key;
  created_at = now;
  last_used = now;
}

-- `Session::touch`
unfoldable pub touch : ℕ → Session → Session
touch now s = record s { last_used = now }

-- `SessionConfig`
pub record SessionConfig : Type 0 where
  pub idle_timeout : ℕ
  pub max_lifetime : ℕ
  pub gc_interval : ℕ

-- `DEFAULT_IDLE_TIMEOUT`, `DEFAULT_MAX_LIFETIME`, `DEFAULT_GC_INTERVAL`
abbrev pub default_idle_timeout : ℕ
default_idle_timeout = 300 * 10 ^ 9

abbrev pub default_max_lifetime : ℕ
default_max_lifetime = 86_400 * 10 ^ 9

abbrev pub default_gc_interval : ℕ
default_gc_interval = 60 * 10 ^ 9

-- `SessionConfig::default`
unfoldable pub default_config : SessionConfig
default_config = record {
  idle_timeout = default_idle_timeout;
  max_lifetime = default_max_lifetime;
  gc_interval = default_gc_interval;
}

-- `SessionConfig::fill`
unfoldable pub fill : SessionConfig → SessionConfig
fill c = record {
  idle_timeout = if leb c.idle_timeout 0 then default_idle_timeout else c.idle_timeout;
  max_lifetime = if leb c.max_lifetime 0 then default_max_lifetime else c.max_lifetime;
  gc_interval = if leb c.gc_interval 0 then default_gc_interval else c.gc_interval;
}

-- `ApiKeyStore`, and `MapKeyStore` as one of its implementations.
abbrev pub ApiKeyStore : Type 0
ApiKeyStore = Bytes → Option Bytes

abbrev pub MapKeyStore : Type 0
MapKeyStore = HashMap Bytes Bytes

-- `MapKeyStore::new`, `insert` and `get`
unfoldable pub new_key_store : MapKeyStore
new_key_store = []

unfoldable pub insert_key : Bytes → Bytes → MapKeyStore → MapKeyStore
unfolding HashMap.insert
insert_key id secret keys = HashMap.insert id secret keys

unfoldable pub get_key : MapKeyStore → ApiKeyStore
unfolding HashMap.get
get_key keys id = HashMap.get id keys

-- `SessionStore`
pub record SessionStore : Type 0 where
  pub config : SessionConfig
  pub sessions : HashMap ℕ Session
  pub next_id : ℕ

-- `SessionStore::new`
unfoldable pub new : SessionConfig → SessionStore
new config = record { config = config; sessions = []; next_id = 1 }

-- `next_session_id`: `fetch_add` on a u64 wraps.
unfoldable pub next_session_id : SessionStore → ℕ × SessionStore
next_session_id st = (st.next_id, record st { next_id = (st.next_id + 1) % 2 ^ 64 })

-- `insert`, `get`, `delete`
unfoldable pub insert : Session → SessionStore → SessionStore
insert s st = record st { sessions = HashMap.insert s.id s st.sessions }

unfoldable pub get : ℕ → SessionStore → Option Session
get id st = HashMap.get id st.sessions

unfoldable pub delete : ℕ → SessionStore → SessionStore
delete id st = record st { sessions = HashMap.remove id st.sessions }

-- `is_expired`, `is_idle_dead`
unfoldable pub is_expired : ℕ → SessionStore → Session → Bool
is_expired now st s = ltb st.config.max_lifetime (now - s.created_at)

unfoldable pub is_idle_dead : ℕ → SessionStore → Session → Bool
is_idle_dead now st s = ltb st.config.idle_timeout (now - s.last_used)

-- `gc`
unfoldable pub gc : ℕ → SessionStore → SessionStore
gc now st = record st {
  sessions = HashMap.retain (λ _ s. leb (now - s.created_at) st.config.max_lifetime) st.sessions;
}

-- `len`
unfoldable pub len : SessionStore → ℕ
len st = length st.sessions
