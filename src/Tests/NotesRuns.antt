-- ===== src/Tests/NotesRuns.antt =====
-- The client of the notes example on a server that holds a note already.
use hush_rs.Base.{ℕ, ◌+◌, ◌≡◌, ◌==◌, [], ◌∷◌, none, some, arith, if◌then◌else◌}
use hush_rs.Std.Utf8.{ascii}
use hush_rs.Std.Eq.{nat_eq}
use hush_rs.Std.Act.{done}
use hush_rs.Std.HashMap
use hush_rs.Examples.Notes.{Notes}
use hush_rs.Examples.Notes.Client.{use_notes}
use hush_rs.Examples.Notes.Asked.{ask_notes}
use hush_rs.Examples.Notes.Ran.{all_lines, use_notes-ask_notes}

abbrev one_note : Notes
one_note = record { notes = (1, ascii "water the plants") ∷ []; next_id = 2 }

use_notes-ask_notes_example :
    ((use_notes (ask_notes tt 1 (ascii "k")) (record { peer = one_note; printed = [] })).0
      ≡ done tt)
    × ((use_notes (ask_notes tt 1 (ascii "k")) (record { peer = one_note; printed = [] })).1.printed
        ≡ all_lines one_note [])
    × ((id : ℕ)
        → HashMap.get id
            (use_notes
              (ask_notes tt 1 (ascii "k"))
              (record { peer = one_note; printed = [] })).1.peer.notes
          ≡ (if 2 == id
              then some (ascii "buy milk and eggs")
              else if 2 + 1 == id
              then some (ascii "call mom")
              else if 2 + 2 == id
              then none
              else HashMap.get id one_note.notes))
use_notes-ask_notes_example =
    use_notes-ask_notes tt 1 (ascii "k") one_note (omega arith) (omega arith)
