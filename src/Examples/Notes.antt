-- ===== src/Examples/Notes.antt =====
-- examples/crud.rs: the handlers that `run_server` registers, on the notes that they share, and the
-- loop of `run_client` that reads a list of notes.
pub mod Kept
pub mod Listed
pub mod Client
pub mod Asked
pub mod Ran
use hush_rs.Session.Store.{MapKeyStore, ApiKeyStore}
use hush_rs.Examples.Commands.{Command, command_of}
use hush_rs.Base.{
  ℕ, zero, suc, ◌+◌, ◌%◌, ◌^◌, ◌==◌, Bool, true, false, List, [], ◌∷◌, length, Option, none, some,
  if◌then◌else◌,
}
use hush_rs.Std.Words.{Bytes}
use hush_rs.Std.Utf8.{ascii}
use hush_rs.Std.Eq.{nat_eq, bytes_instance}
use hush_rs.Std.HashMap
use hush_rs.Std.HashMap.{HashMap}
use hush_rs.Tlv.Value.{Value, Items, Map, nil, cons}
use hush_rs.Tlv.Map
use hush_rs.Frame.Body.{StatusCode, success, bad_request, not_found, Response}
use hush_rs.Middleware.{Request, Outcome, responded, Handler}
use hush_rs.Server.{HandlerType, sync, stream, Handlers, handle}

-- `notes` and `next_id`
pub record Notes : Type 0 where
  pub notes : HashMap ℕ Bytes
  pub next_id : ℕ

unfoldable pub no_notes : Notes
no_notes = record { notes = []; next_id = 1 }

-- `Ok(Response { status, payload: Some(m), seq: 0 })`
abbrev pub respond_with : StatusCode → Map → Outcome
respond_with status m = responded (record { status = status; payload = some m; seq = 0 })

abbrev pub complain : StatusCode → Bytes → Outcome
complain status text = respond_with status (Map.set (ascii "error") (Value.string text) Map.new)

-- `Some(id) if id != 0 => id`
abbrev pub non_zero : Option ℕ → Option ℕ
non_zero none = none
non_zero (some id) = if id == 0 then none else some id

unfoldable pub required_id : Map → Option ℕ
required_id payload = non_zero (Map.get_uint64 (ascii "id") payload)

unfoldable pub created : ℕ → Outcome
created id = respond_with success (Map.set (ascii "id") (Value.uint64 id) Map.new)

-- Create
abbrev pub create_text : Option Bytes → Notes → Outcome × Notes
create_text none s = (complain bad_request (ascii "text required"), s)
create_text (some text) s = (
  created s.next_id,
  record { notes = HashMap.insert s.next_id text s.notes; next_id = (s.next_id + 1) % 2 ^ 64 },
)

unfoldable pub create_note : Handler Notes
create_note req s = create_text (Map.get_string (ascii "text") req.payload) s

unfoldable pub note_map : ℕ → Bytes → Map
note_map id text =
    Map.set (ascii "text") (Value.string text) (Map.set (ascii "id") (Value.uint64 id) Map.new)

-- List, in the order in which the table of notes is iterated
unfoldable pub note_items : HashMap ℕ Bytes → Items
note_items [] = nil
note_items ((id, text) ∷ m) = cons (Value.map (note_map id text)) (note_items m)

unfoldable pub notes_map : HashMap ℕ Bytes → Map
notes_map snapshot =
    Map.set (ascii "count") (Value.uint64 (length snapshot))
      (Map.set (ascii "notes") (Value.array (note_items snapshot)) Map.new)

unfoldable pub list_notes : Handler Notes
list_notes req s = (respond_with success (notes_map s.notes), s)

-- Get
abbrev pub show_note : ℕ → Option Bytes → Outcome
show_note id (some text) = respond_with success (note_map id text)
show_note id none = complain not_found (ascii "note not found")

abbrev pub get_by : Option ℕ → Notes → Outcome × Notes
get_by none s = (complain bad_request (ascii "id required"), s)
get_by (some id) s = (show_note id (HashMap.get id s.notes), s)

unfoldable pub get_note : Handler Notes
get_note req s = get_by (required_id req.payload) s

-- Update
abbrev pub update_by : Option ℕ → Option Bytes → Notes → Outcome × Notes
update_by none found s = (complain bad_request (ascii "id required"), s)
update_by (some id) none s = (complain bad_request (ascii "text required"), s)
update_by (some id) (some text) s =
    if HashMap.contains_key id s.notes
    then (
      respond_with success (
          Map.set (ascii "updated") (Value.bool true)
            (Map.set (ascii "id") (Value.uint64 id) Map.new)),
      record s { notes = HashMap.insert id text s.notes },
    )
    else (complain not_found (ascii "note not found"), s)

unfoldable pub update_note : Handler Notes
update_note req s =
    update_by (required_id req.payload) (Map.get_string (ascii "text") req.payload) s

-- Delete
abbrev pub is_there : Option Bytes → Bool
is_there none = false
is_there (some text) = true

abbrev pub delete_by : Option ℕ → Notes → Outcome × Notes
delete_by none s = (complain bad_request (ascii "id required"), s)
delete_by (some id) s = (
  respond_with success
      (Map.set (ascii "deleted") (Value.bool (is_there (HashMap.get id s.notes))) Map.new),
  record s { notes = HashMap.remove id s.notes },
)

unfoldable pub delete_note : Handler Notes
delete_note req s = delete_by (required_id req.payload) s

-- The five calls of `srv.handle`.
unfoldable pub notes_table : Handlers Notes
notes_table = handle [] 0x0005 delete_note (
    handle [] 0x0004 update_note
      (handle [] 0x0003 get_note (handle [] 0x0002 list_notes (handle [] 0x0001 create_note []))))

-- The state behind a request, and behind many.
abbrev pub state_after : Option (HandlerType Notes) → Request → Notes → Notes
state_after none req s = s
state_after (some (stream handler)) req s = s
state_after (some (sync handler)) req s = (handler req s).1

unfoldable pub serve_all : List Request → Notes → Notes
serve_all [] s = s
serve_all (req ∷ reqs) s = serve_all reqs (state_after (HashMap.get req.opcode notes_table) req s)

abbrev pub or_else {ℓ} : {A : Type ℓ} → A → Option A → A
or_else a none = a
or_else a (some b) = b

-- What `run_client` makes of the answer to List: the count, and the notes.
unfoldable pub read_count : Map → ℕ
read_count payload = or_else 0 (Map.get_uint64 (ascii "count") payload)

unfoldable pub read_item : Map → ℕ × Bytes
read_item m = (
  or_else 0 (Map.get_uint64 (ascii "id") m),
  or_else (ascii "?") (Map.get_string (ascii "text") m),
)

unfoldable pub read_items : Items → List (ℕ × Bytes)
read_items nil = []
read_items (cons (Value.map m) items) = read_item m ∷ read_items items
read_items (cons _ items) = read_items items

abbrev pub items_of : Option Value → List (ℕ × Bytes)
items_of (some (Value.array items)) = read_items items
items_of _ = []

unfoldable pub read_notes : Map → List (ℕ × Bytes)
read_notes payload = items_of (Map.get (ascii "notes") payload)

-- `main`
unfoldable pub main : List Bytes → Command
main args = command_of 5 args

-- `KeyStore` and its `get`
unfoldable pub key_store : MapKeyStore → ApiKeyStore
key_store keys id = HashMap.get id keys
