-- ===== src/Examples/Notes/Asked.antt =====
-- The calls of `run_client` of examples/crud.rs, answered by the handlers of `run_server`.
use hush_rs.Base.{
  ℕ, ◌≡◌, refl, ◌==◌, true, false, List, [], ◌∷◌, ◌++◌, Option, none, some, Result, ok, err, length,
  arith, append_assoc, append-nil,
}
use hush_rs.Std.Words.{Bytes}
use hush_rs.Std.Utf8.{ascii}
use hush_rs.Std.Eq.{nat_eq, bytes_eq}
use hush_rs.Std.Act.{done}
use hush_rs.Std.HashMap
use hush_rs.Std.HashMap.{HashMap, get-insert, get-remove}
use hush_rs.Tlv.Value.{Value, Map}
use hush_rs.Tlv.Map
use hush_rs.Frame.Body.{Response, success}
use hush_rs.Middleware.{Request, Outcome, responded, failed, panicked}
use hush_rs.Server.{HandlerType, sync, stream, handle, payload_or_empty}
use hush_rs.Middleware.{wrapped, wrap_all}
use hush_rs.Examples.Notes.{
  Notes, list_notes, get_note, update_note, delete_note, notes_table, note_map, required_id,
  is_there,
}
use hush_rs.Examples.Notes.Listed.{read_notes-list_notes}
use hush_rs.Examples.Notes.Client.{Printed, listed, Calling, print_each, print_notes, id_map}

-- A call answered by the handlers directly; `failure` is what a call gives that gets no response.
abbrev of_outcome : {E : Type 0} → E → Outcome × Notes → Result E Response × Notes
of_outcome failure (responded resp, s) = (ok resp, s)
of_outcome failure (failed e, s) = (err failure, s)
of_outcome failure (panicked, s) = (err failure, s)

abbrev by_handler :
    {E : Type 0} → E → Option (HandlerType Notes) → Request → Notes → Result E Response × Notes
by_handler failure none req s = (err failure, s)
by_handler failure (some (stream f)) req s = (err failure, s)
by_handler failure (some (sync f)) req s = of_outcome failure (f req s)

unfoldable pub ask_notes : {E : Type 0} → E → ℕ → Bytes → Calling Notes E
ask_notes failure session_id api_key_id opcode payload s =
    by_handler failure (HashMap.get opcode notes_table)
      (record {
        opcode = opcode;
        payload = payload_or_empty payload;
        session_id = session_id;
        api_key_id = api_key_id;
      })
      s

pub contains_key-found :
    (id : ℕ) (text : Bytes) (m : HashMap ℕ Bytes)
    → HashMap.get id m ≡ some text
    → HashMap.contains_key id m ≡ true
unfolding HashMap.get HashMap.contains_key
contains_key-found id text [] h = cc
contains_key-found id text ((k, v) ∷ m) h = ground (arith, contains_key-found id text m)

abbrev pub answered_with : Map → Response
answered_with m = record { status = success; payload = some m; seq = 0 }

abbrev pub list_lines : HashMap ℕ Bytes → List Printed
list_lines [] = []
list_lines ((id, text) ∷ notes) = listed id text ∷ list_lines notes

module _ {E : Type 0} (failure : E) (sid : ℕ) (aid : Bytes) where
  abbrev ask : Calling Notes E
  ask = ask_notes failure sid aid

  pub print_each_lem :
      (notes : List (ℕ × Bytes)) (s : Notes) (out : List Printed)
      → print_each ask notes (record { peer = s; printed = out })
        ≡ (done tt, record { peer = s; printed = out ++ list_lines notes })
  unfolding print_each
  print_each_lem [] s out = rw (append-nil out) refl
  print_each_lem ((id, text) ∷ notes) s out =
      rw (print_each_lem notes s (out ++ (listed id text ∷ [])))
        (rw (append_assoc out (listed id text ∷ []) (list_lines notes)) refl)

  pub print_notes_lem :
      (line : ℕ → Printed) (s : Notes) (out : List Printed)
      → print_notes ask line (record { peer = s; printed = out }) ≡ (
        done tt,
        record { peer = s; printed = (out ++ (line (length s.notes) ∷ [])) ++ list_lines s.notes },
      )
  unfolding print_notes ask_notes notes_table handle wrapped wrap_all HashMap.get HashMap.insert
      list_notes
  print_notes_lem line s out =
      let (answered, notes_read, count_read) =
        read_notes-list_notes
          (record { opcode = 0x0002; payload = Map.new; session_id = sid; api_key_id = aid }) s in
      rw (notes_read, count_read) (print_each_lem s.notes s (out ++ (line (length s.notes) ∷ [])))

  pub update_lem :
      (id : ℕ) (text : Bytes) (s : Notes)
      → (id == 0) ≡ false
      → HashMap.contains_key id s.notes ≡ true
      → ask 0x0004 (some (Map.set (ascii "text") (Value.string text) (id_map id))) s ≡ (
        ok (
            answered_with (
              Map.set
                (ascii "updated")
                (Value.bool true)
                (Map.set (ascii "id") (Value.uint64 id) Map.new))),
        record s { notes = HashMap.insert id text s.notes },
      )
  unfolding ask_notes notes_table handle wrapped wrap_all HashMap.get HashMap.insert update_note
      required_id Map.get_string Map.get Map.set Map.new Map.get_uint64 bytes_eq
  update_lem id text s positive there = rw (positive, there) refl

  pub get_lem :
      (id : ℕ) (text : Bytes) (s : Notes)
      → (id == 0) ≡ false
      → HashMap.get id s.notes ≡ some text
      → ask 0x0003 (some (id_map id)) s ≡ (ok (answered_with (note_map id text)), s)
  unfolding ask_notes notes_table handle wrapped wrap_all HashMap.get HashMap.insert get_note
      required_id Map.get_string Map.get Map.set Map.new Map.get_uint64 bytes_eq note_map
  get_lem id text s positive there = rw (positive, there) refl

  pub delete_lem :
      (id : ℕ) (s : Notes)
      → (id == 0) ≡ false
      → ask 0x0005 (some (id_map id)) s ≡ (
        ok (
            answered_with
              (Map.set (ascii "deleted") (Value.bool (is_there (HashMap.get id s.notes))) Map.new)),
        record s { notes = HashMap.remove id s.notes },
      )
  unfolding ask_notes notes_table handle wrapped wrap_all HashMap.get HashMap.insert delete_note
      required_id Map.get_string Map.get Map.set Map.new Map.get_uint64 bytes_eq
  delete_lem id s positive = rw positive refl
