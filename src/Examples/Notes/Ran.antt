-- ===== src/Examples/Notes/Ran.antt =====
-- `run_client` of examples/crud.rs against the handlers of `run_server`.
use hush_rs.Base.{
  ℕ, ◌+◌, ◌%◌, ◌^◌, ◌<◌, ◌≡◌, refl, ◌==◌, false, List, [], ◌∷◌, ◌++◌, none, some, length, arith,
  if◌then◌else◌,
}
use hush_rs.Std.Words.{Bytes}
use hush_rs.Std.Utf8.{ascii}
use hush_rs.Std.Eq.{nat_eq, bytes_eq}
use hush_rs.Std.Act.{done}
use hush_rs.Std.HashMap
use hush_rs.Std.HashMap.{HashMap, get-insert, get-remove}
use hush_rs.Tlv.Map
use hush_rs.Server.{handle}
use hush_rs.Middleware.{wrapped, wrap_all}
use hush_rs.Examples.Notes.{Notes, create_note, notes_table, note_map, created}
use hush_rs.Examples.Notes.Client.{
  Printed, total, updated, shown, deleted, remaining, Calling, create_each, use_notes,
}
use hush_rs.Examples.Notes.Asked.{
  ask_notes, contains_key-found, list_lines, print_notes_lem, update_lem, get_lem, delete_lem,
}

-- The notes behind the three calls of Create, and behind the whole run of the client.
abbrev three_created : Notes → Notes
three_created s =
    let second = (s.next_id + 1) % 2 ^ 64 in
    let third = (second + 1) % 2 ^ 64 in
    record {
      notes = HashMap.insert third (ascii "fix the bug") (
          HashMap.insert second (ascii "call mom")
            (HashMap.insert s.next_id (ascii "buy milk") s.notes));
      next_id = (third + 1) % 2 ^ 64;
    }

abbrev creation_lines : Notes → List Printed → List Printed
creation_lines s out =
    let second = (s.next_id + 1) % 2 ^ 64 in
    let third = (second + 1) % 2 ^ 64 in
    ((out ++ (Printed.created s.next_id (ascii "buy milk") ∷ []))
      ++ (Printed.created second (ascii "call mom") ∷ []))
    ++ (Printed.created third (ascii "fix the bug") ∷ [])

abbrev left_behind : Notes → Notes
left_behind s =
    let third = ((s.next_id + 1) % 2 ^ 64 + 1) % 2 ^ 64 in
    let s1 = three_created s in
    record s1 {
      notes = HashMap.remove third (HashMap.insert s.next_id (ascii "buy milk and eggs") s1.notes);
    }

-- What the client prints.
abbrev pub all_lines : Notes → List Printed → List Printed
all_lines s out =
    let third = ((s.next_id + 1) % 2 ^ 64 + 1) % 2 ^ 64 in
    let s1 = three_created s in
    let s3 = left_behind s in
    let listed1 = (creation_lines s out ++ (total (length s1.notes) ∷ [])) ++ list_lines s1.notes in
    let changed =
      ((listed1 ++ (updated s.next_id ∷ [])) ++ (shown s.next_id (ascii "buy milk and eggs") ∷ []))
      ++ (deleted third ∷ []) in
    (changed ++ (remaining (length s3.notes) ∷ [])) ++ list_lines s3.notes

module _ {E : Type 0} (failure : E) (sid : ℕ) (aid : Bytes) where
  abbrev ask : Calling Notes E
  ask = ask_notes failure sid aid

  create_each_lem :
      (s : Notes) (out : List Printed)
      → create_each ask
          (ascii "buy milk" ∷ ascii "call mom" ∷ ascii "fix the bug" ∷ [])
          (record { peer = s; printed = out })
        ≡ (
          done
              (s.next_id ∷ (s.next_id + 1) % 2 ^ 64 ∷ ((s.next_id + 1) % 2 ^ 64 + 1) % 2 ^ 64 ∷ []),
          record { peer = three_created s; printed = creation_lines s out },
        )
  unfolding create_each ask_notes notes_table handle wrapped wrap_all HashMap.get HashMap.insert
      create_note created Map.get_string Map.get Map.set Map.new Map.get_uint64 bytes_eq
  create_each_lem s out = refl

  get-three_created :
      (s : Notes) (id : ℕ)
      → s.next_id + 2 < 2 ^ 64
      → HashMap.get id (three_created s).notes ≡ (
          if s.next_id == id
          then some (ascii "buy milk")
          else if s.next_id + 1 == id
          then some (ascii "call mom")
          else if s.next_id + 2 == id
          then some (ascii "fix the bug")
          else HashMap.get id s.notes)
  get-three_created s id small =
      let second = (s.next_id + 1) % 2 ^ 64 in
      let third = (second + 1) % 2 ^ 64 in
      let m1 = HashMap.insert s.next_id (ascii "buy milk") s.notes in
      let m2 = HashMap.insert second (ascii "call mom") m1 in
      rw
        (
          get-insert third id (ascii "fix the bug") m2,
          get-insert second id (ascii "call mom") m1,
          get-insert s.next_id id (ascii "buy milk") s.notes,
        )
        (grind arith)

  use_notes_lem :
      (s : Notes) (out : List Printed)
      → 0 < s.next_id
      → s.next_id + 2 < 2 ^ 64
      → use_notes ask (record { peer = s; printed = out })
        ≡ (done tt, record { peer = left_behind s; printed = all_lines s out })
  unfolding use_notes Map.get_string note_map Map.set Map.new bytes_eq
  use_notes_lem s out positive small =
      let n = s.next_id in
      let third = ((n + 1) % 2 ^ 64 + 1) % 2 ^ 64 in
      let s1 = three_created s in
      let s2 : Notes = record s1 {
        notes = HashMap.insert n (ascii "buy milk and eggs") s1.notes;
      } in
      let first_there : HashMap.get n s1.notes ≡ some (ascii "buy milk") =
        rw (get-three_created s n small) (grind arith) in
      let rewritten : HashMap.get n s2.notes ≡ some (ascii "buy milk and eggs") =
        rw (get-insert n n (ascii "buy milk and eggs") s1.notes) (grind arith) in
      let n_positive : (n == 0) ≡ false = grind arith in
      let third_positive : (third == 0) ≡ false = grind arith in
      rw
        (
          create_each_lem s out,
          print_notes_lem failure sid aid total s1 (creation_lines s out),
          update_lem failure sid aid n (ascii "buy milk and eggs") s1 n_positive
              (contains_key-found n _ s1.notes first_there),
          get_lem failure sid aid n (ascii "buy milk and eggs") s2 n_positive rewritten,
          delete_lem failure sid aid third s2 third_positive,
        )
        (print_notes_lem failure sid aid remaining (left_behind s) _)

-- The client's part of the notes example, against the handlers of its server with any notes, ends
-- without a panic, if the server's counter is at least 1 and at most 2^64 - 3: what it prints is what
-- the server holds at the time, the note that it updated has the new text, the second that it created
-- is there, the one that it deleted is not, and all other notes are as they were.
pub use_notes-ask_notes :
    {E : Type 0} (failure : E) (sid : ℕ) (aid : Bytes) (s : Notes)
    → 0 < s.next_id
    → s.next_id + 2 < 2 ^ 64
    → ((use_notes (ask_notes failure sid aid) (record { peer = s; printed = [] })).0 ≡ done tt)
      × ((use_notes (ask_notes failure sid aid) (record { peer = s; printed = [] })).1.printed
          ≡ all_lines s [])
      × ((id : ℕ)
          → HashMap.get id
              (use_notes
                (ask_notes failure sid aid)
                (record { peer = s; printed = [] })).1.peer.notes
            ≡ (if s.next_id == id
                then some (ascii "buy milk and eggs")
                else if s.next_id + 1 == id
                then some (ascii "call mom")
                else if s.next_id + 2 == id
                then none
                else HashMap.get id s.notes))
use_notes-ask_notes failure sid aid s positive small =
    let n = s.next_id in
    let third = ((n + 1) % 2 ^ 64 + 1) % 2 ^ 64 in
    let s1 = three_created s in
    let m2 = HashMap.insert n (ascii "buy milk and eggs") s1.notes in
    rw (use_notes_lem failure sid aid s [] positive small) (
      refl,
      refl,
      λ id.
          rw
            (
              get-remove third id m2,
              get-insert n id (ascii "buy milk and eggs") s1.notes,
              get-three_created failure sid aid s id small,
            )
            (grind arith),
    )
