-- ===== src/Tests/SessionRuns.antt =====
-- The theorems on src/session.rs at concrete values.
use hush_rs.Base.{
  List, ◌+◌, ◌≡◌, refl, [], ◌∷◌, ◌++◌, length, replicate, arith, Option, some, ok, true,
}
use hush_rs.Std.Words.{Bytes, to_be_bytes}
use hush_rs.Std.Utf8.{ascii, is_utf8}
use hush_rs.Std.Io.{unexpected_eof, Writer}
use hush_rs.Std.Eq.{nat_eq}
use hush_rs.Session.Crypto.Toy.{toy, toy-IsSound}
use hush_rs.Session.Cipher.{encrypt, decrypt, decrypt-encrypt, nonce_size, tag_size}
use hush_rs.Session.Store.{Session, new_session, SessionStore, SessionConfig, get}
use mathlib.Core.Quot
use hush_rs.Session.Store.View.{View, change, lifetime_of, change-change}
use hush_rs.Session.Store.Registers.{
  collects, Operation, inserts, deletes, run_all, registers, get-run_all,
}
use hush_rs.Session.Handshake.{ApiKey, hello, negotiate_client, negotiate_server}
use hush_rs.Session.Handshake.Agreement.{handshake_agrees}

abbrev some_key : Bytes
some_key = replicate 32 7

abbrev some_nonce : Bytes
some_nonce = replicate 12 9

decrypt-encrypt_example :
    (sealed : Bytes) × (encrypt toy some_nonce some_key (1 ∷ 2 ∷ []) ≡ ok sealed)
    × (length sealed ≡ 2 + (nonce_size + tag_size))
    × (decrypt toy some_key sealed ≡ ok (1 ∷ 2 ∷ []))
decrypt-encrypt_example =
    decrypt-encrypt toy toy-IsSound some_nonce some_key (1 ∷ 2 ∷ []) refl refl (omega arith)

abbrev ada : ApiKey
ada = record { id = ascii "ada"; secret = 1 ∷ 2 ∷ 3 ∷ [] }

abbrev keys : Bytes → Option Bytes
keys id = some (1 ∷ 2 ∷ 3 ∷ [])

abbrev unsent : Writer
unsent = record { outgoing = []; is_open = true }

ada_is_text : is_utf8 ada.id ≡ true
unfolding is_utf8
ada_is_text = refl

handshake_agrees_example :
    (session_key : Bytes) × (length session_key ≡ 32)
    × (negotiate_server toy
          (5 ∷ [])
          (toy.public_key (5 ∷ []))
          keys
          7
          10
          (record { incoming = hello toy ada.id (4 ∷ []) ++ (99 ∷ []); ending = unexpected_eof })
          unsent
        ≡ ok (
          new_session 10 7 ada.id session_key,
          record { incoming = 99 ∷ []; ending = unexpected_eof },
          record { outgoing = toy.public_key (5 ∷ []) ++ to_be_bytes 8 7; is_open = true },
        ))
    × (negotiate_client toy (4 ∷ []) 12 ada unsent (record {
      incoming = (toy.public_key (5 ∷ []) ++ to_be_bytes 8 7) ++ (98 ∷ []);
      ending = unexpected_eof;
    })
        ≡ ok (
          new_session 12 7 ada.id session_key,
          record { outgoing = hello toy ada.id (4 ∷ []); is_open = true },
          record { incoming = 98 ∷ []; ending = unexpected_eof },
        ))
handshake_agrees_example =
    handshake_agrees toy toy-IsSound (4 ∷ []) (5 ∷ []) 12 10 7 ada keys unsent unsent (99 ∷ [])
      (98 ∷ []) unexpected_eof unexpected_eof refl refl (omega arith) (omega arith) ada_is_text refl
      (omega arith)

abbrev settings : SessionConfig
settings = record { idle_timeout = 300; max_lifetime = 1000; gc_interval = 0 }

abbrev held : Session
held = record { id = 1; api_key_id = ascii "k"; key = some_key; created_at = 0; last_used = 0 }

abbrev holding : SessionStore
holding = record { config = settings; sessions = (1, held) ∷ []; next_id = 2 }

-- A session is stored again under its id, and another id is deleted.
some_operations : List Operation
some_operations = inserts held ∷ inserts (record held { created_at = 900 }) ∷ deletes 2 ∷ []

get-run_all_example :
    get 1 (run_all some_operations holding) ≡ registers 1000 1 some_operations (get 1 holding)
get-run_all_example = get-run_all some_operations 1 holding (tt, tt)

abbrev told : View
told = Quot.mk (record { store = holding; unique = (tt, tt) })

change-change_example :
    change (inserts (record held { id = 2 })) (change (collects 500) told)
    ≡ change (collects 500) (change (inserts (record held { id = 2 })) told)
unfolding lifetime_of
change-change_example =
    change-change (inserts (record held { id = 2 })) (collects 500) told (omega arith)
