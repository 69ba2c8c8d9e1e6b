-- ===== src/Examples/Notes/Listed.antt =====
-- What a client reads of a list of notes.
use hush_rs.Base.{ℕ, ◌≡◌, refl, [], ◌∷◌, length}
use hush_rs.Std.Words.{Bytes}
use hush_rs.Std.Eq.{bytes_eq}
use hush_rs.Std.HashMap.{HashMap}
use hush_rs.Tlv.Map
use hush_rs.Frame.Body.{success}
use hush_rs.Middleware.{Request}
use hush_rs.Examples.Notes.{
  Notes, respond_with, note_map, note_items, notes_map, list_notes, read_count, read_item,
  read_items, read_notes,
}

read_item-note_map : (id : ℕ) (text : Bytes) → read_item (note_map id text) ≡ (id, text)
unfolding read_item note_map Map.set Map.new Map.get Map.get_uint64 Map.get_string bytes_eq
read_item-note_map id text = refl

read_items-note_items : (m : HashMap ℕ Bytes) → read_items (note_items m) ≡ m
unfolding read_items note_items
read_items-note_items [] = refl
read_items-note_items ((id, text) ∷ m) = rw (read_item-note_map id text, read_items-note_items m)

-- What the client reads of the answer to List is what the server has: all notes, each with its id and
-- text, and their number; and the server keeps them.
pub read_notes-list_notes :
    (req : Request) (s : Notes)
    → (list_notes req s ≡ (respond_with success (notes_map s.notes), s))
      × (read_notes (notes_map s.notes) ≡ s.notes)
      × (read_count (notes_map s.notes) ≡ length s.notes)
unfolding list_notes read_notes read_count notes_map Map.set Map.new Map.get Map.get_uint64 bytes_eq
read_notes-list_notes req s = (refl, read_items-note_items s.notes, refl)
