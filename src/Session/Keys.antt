-- ===== src/Session/Keys.antt =====
-- The keys that src/session.rs generates; what the random generator fills in is an argument.
use hush_rs.Std.Words.{Bytes}
use hush_rs.Session.Crypto.{Crypto}
use hush_rs.Session.Store
use hush_rs.Session.Store.{SessionStore, default_config}
use hush_rs.Session.Handshake.{ApiKey}

-- `ApiKey::generate`; `hex` is `hex::encode`.
unfoldable pub generate : (Bytes → Bytes) → Bytes → Bytes → ApiKey
generate hex secret id_bytes = record { id = hex id_bytes; secret = secret }

-- `generate_key_pair`
unfoldable pub generate_key_pair : Crypto → Bytes → Bytes × Bytes
generate_key_pair c secret = (secret, c.public_key secret)

-- `generate_static_key`
unfoldable pub generate_static_key : Bytes → Bytes
generate_static_key bytes = bytes

-- `SessionStore::default`
unfoldable pub default_store : SessionStore
default_store = Store.new default_config
