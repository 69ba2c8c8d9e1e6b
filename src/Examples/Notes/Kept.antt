-- ===== src/Examples/Notes/Kept.antt =====
-- The life of a note in examples/crud.rs.
use hush_rs.Base.{
  ℕ, ◌+◌, ◌^◌, ◌≤◌, ◌<◌, ◌==◌, ◌≡◌, ◌≢◌, refl, List, [], ◌∷◌, All, length, Option, none, some,
  if◌then◌else◌, arith, ==_self,
}
use hush_rs.Std.Words.{Bytes}
use hush_rs.Std.Utf8.{ascii}
use hush_rs.Std.Eq.{nat_eq}
use hush_rs.Std.HashMap
use hush_rs.Std.HashMap.{get-insert, get-remove}
use hush_rs.Tlv.Map
use hush_rs.Frame.Body.{success}
use hush_rs.Middleware.{Request, wrapped, wrap_all}
use hush_rs.Server.{handle}
use hush_rs.Examples.Notes.{
  Notes, no_notes, respond_with, required_id, created, create_text, create_note, note_map,
  list_notes, get_note, update_by, update_note, delete_by, delete_note, notes_table, state_after,
  serve_all,
}

-- The request neither updates nor deletes the note.
abbrev pub IsApart : ℕ → Request → Type 0
IsApart id req = required_id req.payload ≡ some id → (req.opcode ≢ 4) × (req.opcode ≢ 5)

-- The note is there, under an id that was given.
record Has (id : ℕ) (text : Bytes) (s : Notes) : Type 0 where
  given : id < s.next_id
  there : HashMap.get id s.notes ≡ some text

-- Ids are given in turn.
abbrev Grows : Notes → Notes → ℕ → Type 0
Grows s s' n = (s.next_id ≤ s'.next_id) × (s'.next_id ≤ s.next_id + n)

module _ (s : Notes) (small : s.next_id + 1 < 2 ^ 64) where
  create-Grows : (found : Option Bytes) → Grows s (create_text found s).1 1
  create-Grows none = omega arith
  create-Grows (some text) = omega arith

  create-Has :
      (found : Option Bytes) (id : ℕ) (text : Bytes)
      → Has id text s
      → Has id text (create_text found s).1
  create-Has none id text h = h
  create-Has (some t) id text h = record {
    given = ground (arith, h.given);
    there = ground (arith, get-insert s.next_id id t s.notes, h.given, h.there);
  }

module _ (s : Notes) where
  update-same :
      (target : Option ℕ) (found : Option Bytes) → (update_by target found s).1.next_id ≡ s.next_id
  update-same none found = refl
  update-same (some j) none = refl
  update-same (some j) (some t) = ground arith

  update-Has :
      (target : Option ℕ) (found : Option Bytes) (id : ℕ) (text : Bytes)
      → target ≢ some id
      → HashMap.get id s.notes ≡ some text
      → HashMap.get id (update_by target found s).1.notes ≡ some text
  update-Has none found id text ne h = h
  update-Has (some j) none id text ne h = h
  update-Has (some j) (some t) id text ne h = ground (arith, get-insert j id t s.notes)

  delete-same : (target : Option ℕ) → (delete_by target s).1.next_id ≡ s.next_id
  delete-same none = refl
  delete-same (some j) = refl

  delete-Has :
      (target : Option ℕ) (id : ℕ) (text : Bytes)
      → target ≢ some id
      → HashMap.get id s.notes ≡ some text
      → HashMap.get id (delete_by target s).1.notes ≡ some text
  delete-Has none id text ne h = h
  delete-Has (some j) id text ne h = ground (arith, get-remove j id s.notes)

state_by :
    (req : Request) (s : Notes)
    → state_after (HashMap.get req.opcode notes_table) req s ≡ (
        if 5 == req.opcode
        then (delete_note req s).1
        else if 4 == req.opcode
        then (update_note req s).1
        else if 1 == req.opcode
        then (create_note req s).1
        else s)
unfolding notes_table handle HashMap.get HashMap.insert wrapped wrap_all list_notes get_note
state_by req s = ground arith

-- One request.
module _ (req : Request) (s : Notes) (small : s.next_id + 1 < 2 ^ 64) where
  serve-Grows : Grows s (state_after (HashMap.get req.opcode notes_table) req s) 1
  unfolding create_note update_note delete_note
  serve-Grows = rw (state_by req s) (
      ground (
        arith,
        create-Grows s small (Map.get_string (ascii "text") req.payload),
        update-same s (required_id req.payload) (Map.get_string (ascii "text") req.payload),
        delete-same s (required_id req.payload),
      ))

  serve-Has :
      (id : ℕ) (text : Bytes)
      → IsApart id req
      → Has id text s
      → Has id text (state_after (HashMap.get req.opcode notes_table) req s)
  unfolding create_note update_note delete_note
  serve-Has id text apart h = record {
    given = omega (arith, h.given, serve-Grows.0);
    there = rw (state_by req s) (
        ground (
          arith,
          apart,
          h.there,
          (create-Has s small (Map.get_string (ascii "text") req.payload) id text h).there,
          update-Has s (required_id req.payload) (Map.get_string (ascii "text") req.payload) id
              text,
          delete-Has s (required_id req.payload) id text,
        ));
  }

serve_all-Grows :
    (reqs : List Request) (s : Notes)
    → s.next_id + length reqs < 2 ^ 64
    → Grows s (serve_all reqs s) (length reqs)
unfolding serve_all
serve_all-Grows [] s small = omega arith
serve_all-Grows (req ∷ reqs) s small =
    let one = serve-Grows req s (omega arith) in
    let rest =
      serve_all-Grows reqs (state_after (HashMap.get req.opcode notes_table) req s)
        (omega (arith, one)) in
    omega (arith, one, rest)

serve_all-Has :
    (reqs : List Request) (s : Notes) (id : ℕ) (text : Bytes)
    → s.next_id + length reqs < 2 ^ 64
    → All (IsApart id) reqs
    → Has id text s
    → Has id text (serve_all reqs s)
unfolding serve_all
serve_all-Has [] s id text small apart h = h
serve_all-Has (req ∷ reqs) s id text small (here, later) h =
    let one = serve-Grows req s (omega arith) in
    serve_all-Has reqs (state_after (HashMap.get req.opcode notes_table) req s) id text
      (omega (arith, one)) later (serve-Has req s (omega arith) id text here h)

first_id : (n : ℕ) → 1 + n < 2 ^ 64 → no_notes.next_id + n < 2 ^ 64
unfolding no_notes
first_id n h = h

first_bound : (n : ℕ) (s : Notes) → Grows no_notes s n → s.next_id ≤ 1 + n
unfolding no_notes
first_bound n s h = h.1

-- After any requests to a new server, a Create with a text is answered with an id. Whatever requests
-- follow, with fewer than 2^64 - 2 in all, as long as none of them updates or deletes that id, a Get
-- of it is answered with the text.
pub get_note-create_note :
    (before between : List Request) (asked making : Request) (text : Bytes)
    → length before + (length between + 2) < 2 ^ 64
    → Map.get_string (ascii "text") making.payload ≡ some text
    → let s = serve_all before no_notes in
      let (answer, s') = create_note making s in
      All (IsApart s.next_id) between
      → required_id asked.payload ≡ some s.next_id
      → (answer ≡ created s.next_id)
        × ((get_note asked (serve_all between s')).0
            ≡ respond_with success (note_map s.next_id text))
unfolding create_note get_note
get_note-create_note before between asked making text small e apart asks =
    let s = serve_all before no_notes in
    let first = serve_all-Grows before no_notes (first_id (length before) (omega arith)) in
    let bound = first_bound (length before) s first in
    let made : Notes = (create_text (some text) s).1 in
    let kept = serve_all-Has between made s.next_id text (omega (arith, bound)) apart (record {
      given = omega (arith, bound);
      there = rw (get-insert s.next_id s.next_id text s.notes, ==_self s.next_id);
    }) in
    rw (e, asks, kept.there) (refl, refl)
