-- ===== src/Examples/Notes/Client.antt =====
-- `run_client` of examples/crud.rs: the calls that the client makes, and what it prints. The text of a
-- key in hexadecimal and the connection are arguments.
use hush_rs.Base.{ℕ, List, [], ◌∷◌, ◌++◌, Option, none, some, Result, ok, err, get_elem?}
use hush_rs.Std.Words.{Bytes}
use hush_rs.Std.Utf8.{ascii}
use hush_rs.Std.Act.{Act, Attempt, done, panics, ◌>>=◌, done_with, does}
use hush_rs.Tlv.Value.{Value, Map}
use hush_rs.Tlv.Map
use hush_rs.Frame.Body.{Response}
use hush_rs.Session.Handshake.{ApiKey}
use hush_rs.Examples.Notes.{read_count, read_notes, or_else}

-- What is printed.
pub data Printed : Type 0 where
  session : ℕ → Printed
  created : ℕ → Bytes → Printed
  total : ℕ → Printed
  listed : ℕ → Bytes → Printed
  updated : ℕ → Printed
  shown : ℕ → Bytes → Printed
  deleted : ℕ → Printed
  remaining : ℕ → Printed

-- What is behind the connection, and what was printed.
pub record Console (W : Type 0) : Type 0 where
  pub peer : W
  pub printed : List Printed

-- The client ends or panics, and does not fail otherwise.
abbrev pub Running : Type 0 → Type 0 → Type 0
Running W A = Act (Console W) ⊥ A

abbrev pub unwrap_option : {W A : Type 0} → Option A → Running W A
unwrap_option (some a) w = (done a, w)
unwrap_option none w = (panics, w)

abbrev of_result : {W E A : Type 0} → List Printed → Result E A × W → Attempt ⊥ A × Console W
of_result printed (ok a, w) = (done a, record { peer = w; printed = printed })
of_result printed (err e, w) = (panics, record { peer = w; printed = printed })

-- `.expect(..)`
abbrev pub expecting : {W E A : Type 0} → (W → Result E A × W) → Running W A
expecting m w = of_result w.printed (m w.peer)

abbrev pub print : {W : Type 0} → Printed → Running W (Unit {0})
print line = does (λ w. record w { printed = w.printed ++ (line ∷ []) })

abbrev pub payload_map : Response → Map
payload_map resp = or_else Map.new resp.payload

-- `resp.payload.as_ref().and_then(|p| p.get_uint64("id"))`
abbrev id_in : Option Map → Option ℕ
id_in none = none
id_in (some m) = Map.get_uint64 (ascii "id") m

abbrev pub text_in : Option Map → Option Bytes
text_in none = none
text_in (some m) = Map.get_string (ascii "text") m

abbrev text_map : Bytes → Map
text_map text = Map.set (ascii "text") (Value.string text) Map.new

abbrev pub id_map : ℕ → Map
id_map id = Map.set (ascii "id") (Value.uint64 id) Map.new

-- `client.do_(opcode, payload)`
abbrev pub Calling : Type 0 → Type 0 → Type 0
Calling W E = ℕ → Option Map → W → Result E Response × W

module _ {W E : Type 0} (ask : Calling W E) where
  -- The loop over the titles
  unfoldable pub create_each : List Bytes → Running W (List ℕ)
  create_each [] = done_with []
  create_each (title ∷ titles) = do
    resp ← expecting (ask 0x0001 (some (text_map title)))
    id ← unwrap_option (id_in resp.payload)
    _ ← print (created id title)
    ids ← create_each titles
    done_with (id ∷ ids)

  -- The loop over the notes of a list
  unfoldable pub print_each : List (ℕ × Bytes) → Running W (Unit {0})
  print_each [] = done_with tt
  print_each ((id, text) ∷ notes) = do _ ← print (listed id text); print_each notes

  -- A list, and its count in the line that `line` makes
  unfoldable pub print_notes : (ℕ → Printed) → Running W (Unit {0})
  print_notes line = do
    resp ← expecting (ask 0x0002 none)
    _ ← print (line (read_count (payload_map resp)))
    print_each (read_notes (payload_map resp))

  -- `run_client`, on the connection
  unfoldable pub use_notes : Running W (Unit {0})
  use_notes = do
    ids ← create_each (ascii "buy milk" ∷ ascii "call mom" ∷ ascii "fix the bug" ∷ [])
    _ ← print_notes total
    first ← unwrap_option (get_elem? ids 0)
    _ ← expecting (
        ask 0x0004
          (some (Map.set (ascii "text") (Value.string (ascii "buy milk and eggs")) (id_map first))))
    _ ← print (updated first)
    resp ← expecting (ask 0x0003 (some (id_map first)))
    _ ← print (shown first (or_else (ascii "?") (text_in resp.payload)))
    third ← unwrap_option (get_elem? ids 2)
    _ ← expecting (ask 0x0005 (some (id_map third)))
    _ ← print (deleted third)
    print_notes remaining

  -- `run_client`; `connect` dials and gives the session id.
  unfoldable pub run_client :
      (Bytes → Option Bytes)
      → (Bytes → ApiKey → W → Result E ℕ × W)
      → Bytes
      → Bytes
      → Bytes
      → Running W (Unit {0})
  run_client hex_decode connect key_id key_secret_hex port = do
    secret ← unwrap_option (hex_decode key_secret_hex)
    let api_key : ApiKey = record { id = key_id; secret = secret }
    sid ← expecting (connect (ascii "127.0.0.1:" ++ port) api_key)
    _ ← print (session sid)
    use_notes
