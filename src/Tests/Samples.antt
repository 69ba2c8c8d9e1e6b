-- ===== src/Tests/Samples.antt =====
-- Sample values for the runs: a payload, keys, a server with one handler, a session and a client.
use hush_rs.Base.{ℕ, ◌+◌, ◌≤◌, ◌≡◌, refl, [], ◌∷◌, length, replicate, arith, some, false}
use hush_rs.Std.Words.{Bytes}
use hush_rs.Std.Utf8.{ascii, is_utf8}
use hush_rs.Std.Eq.{nat_eq}
use hush_rs.Std.HashMap
use hush_rs.Tlv.Value.{Value, Map, end, entry, max_payload_size, max_decode_depth}
use hush_rs.Tlv.Encode.Grammar.{payload}
use hush_rs.Tlv.Varint.Written.{varint}
use hush_rs.Tlv.Decode.Scalars.{IsPortable}
use hush_rs.Tlv.Decode.Steps.{nesting}
use hush_rs.Session.Store
use hush_rs.Session.Store.{Session, SessionStore, SessionConfig, default_config}
use hush_rs.Frame.Body.{success, Response}
use hush_rs.Frame.Body.RoundTrip.{IsCarried}
use hush_rs.Middleware.{responded, Handler}
use hush_rs.Server.{sync, Handlers, is_dead}
use hush_rs.Server.State.{Heap}
use hush_rs.Client.{Transport, Client}
use hush_rs.Client.Calls.{meant, by_outcome}

abbrev pub greeting : Map
greeting = entry (ascii "name") (Value.string (ascii "ada")) end

greeting-IsPortable : IsPortable (Value.map greeting)
unfolding IsPortable is_utf8
greeting-IsPortable = ((tt, tt), (refl, refl, tt))

greeting_small : length (payload (Value.map greeting)) ≤ max_payload_size
unfolding payload varint
greeting_small = omega arith

greeting_shallow : nesting (Value.map greeting) ≤ max_decode_depth
unfolding nesting
greeting_shallow = omega arith

pub greeting-IsCarried : IsCarried greeting
greeting-IsCarried = record {
  portable = greeting-IsPortable;
  small = greeting_small;
  shallow = greeting_shallow;
}

abbrev pub some_key : Bytes
some_key = replicate 32 7

abbrev pub some_nonce : Bytes
some_nonce = replicate 12 9

abbrev pub greeted : Response
greeted = record { status = success; payload = some greeting; seq = 0 }

-- A server with one handler, which sends the payload back and counts, and a session with a client.
abbrev pub echo : Handler ℕ
echo req n = (responded (record { status = success; payload = some req.payload; seq = 0 }), n + 1)

abbrev pub table : Handlers ℕ
table = (0x0101, sync echo) ∷ []

abbrev pub held : Session
held = record { id = 1; api_key_id = ascii "k"; key = some_key; created_at = 0; last_used = 0 }

abbrev pub client : Client
client = record { transport = Transport.quinn; session = held; seq = 5; session_key = some_key }

abbrev pub holding : SessionStore
holding = record {
  config = record { idle_timeout = 300; max_lifetime = 1000; gc_interval = 60 };
  sessions = (1, held) ∷ [];
  next_id = 2;
}

pub held_found : Store.get 1 holding ≡ some held
unfolding Store.get HashMap.get
held_found = refl

pub held_alive : is_dead 100 holding (some held) ≡ false
unfolding is_dead Store.is_expired Store.is_idle_dead
held_alive = refl

pub echo_meant :
    meant 5
      (record { opcode = 0x0101; payload = greeting; session_id = 1; api_key_id = ascii "k" })
      0
      (HashMap.get 0x0101 table)
    ≡ some greeted
unfolding HashMap.get meant by_outcome
echo_meant = refl

-- No session store is allocated.
abbrev pub no_stores : Heap
no_stores = record { size = 0; at = λ i. holding }
