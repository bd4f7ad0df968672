-- ===== src/Client/TextView/Emission.antt =====
-- What an insertion leaves in the text buffer: the handler stops GTK's own insertion and makes one of
-- its own, for which it is called again.
use virtual_blackboard.Prelude.{
  ℕ, ◌≡◌, refl, ◌∙◌, true, false, List, [], ◌++◌, append-nil, take, take_all, length, ltb,
  if◌then◌else◌, Bool-cases, inl, inr, Outcome, ok, ◌>>=◌, arith,
}
use virtual_blackboard.Client.TextView.{
  Gtk, TextBuffer, insert_count, on_delete_range, on_insert_text,
}
use virtual_blackboard.Client.TextView.Whole.{nowhere, is_fit, insert_count-length}

-- A buffer in which no insertion is prepared.
abbrev pub unprepared : (before selection after : List ℕ) → TextBuffer
unprepared before selection after = record {
  before = before;
  selection = selection;
  after = after;
  prepared = false;
}

-- What GTK documents of `gtk_text_buffer_insert`: the handler runs, and if it does not stop the
-- signal, the text is inserted.
abbrev pub Emits : Gtk → (List ℕ → TextBuffer → Outcome TextBuffer) → Type 0
Emits g insert =
    (text : List ℕ) (b : TextBuffer)
    → insert text b ≡ (
        on_insert_text g insert text b >>= λ r.
        ok (if r.1 then r.0 else record r.0 { before = r.0.before ++ text }))

-- What it documents of a deletion: if the handler does not stop the signal, the range is deleted.
abbrev pub Deletes : Gtk → Type 0
Deletes g =
    (b : TextBuffer)
    → g.delete_selection b ≡ (
        if (on_delete_range b).1
        then (on_delete_range b).0
        else record (on_delete_range b).0 { selection = [] })

module _ (g : Gtk) (insert : List ℕ → TextBuffer → Outcome TextBuffer)
    (emits : Emits g insert) where
  -- The handler's own insertion passes.
  insert_prepared :
      (text before selection after : List ℕ)
      → insert text
          (record { before = before; selection = selection; after = after; prepared = true })
        ≡ ok (unprepared (before ++ text) selection after)
  unfolding on_insert_text
  insert_prepared text before selection after =
      emits text (record { before = before; selection = selection; after = after; prepared = true })

  -- From a buffer in which no insertion is prepared, an insertion ends, puts the bytes that
  -- `on_insert_text` lets pass in the place of the selection, once, and leaves no insertion prepared.
  pub insert-edited :
      Deletes g
      → (text before selection after : List ℕ)
      → insert text (unprepared before selection after)
        ≡ ok (
            unprepared
              (before
                ++ take
                    (insert_count g.utf8_strlen (g.place (unprepared before selection after)) text)
                    text)
              []
              after)
  unfolding on_insert_text on_delete_range
  insert-edited deletes text before selection after =
      let b = unprepared before selection after in
      let count = insert_count g.utf8_strlen (g.place b) text in
      emits text b ∙ elim (Bool-cases (ltb 0 count)) [
        | inl some ↦ rw (some, deletes b, insert_prepared (take count text) before [] after) refl
        | inr none ↦
            let zero_bytes : count ≡ 0 = ground arith in rw (zero_bytes, deletes b, append-nil) refl
      ]

  -- `gtk_text_buffer_set_text` inserts into a buffer that has been emptied. If GTK places the
  -- insertion at the start of its only line, a text of at most 15 lines with at most 79 bytes each
  -- becomes the content of the buffer.
  pub insert_whole :
      Deletes g
      → (text : List ℕ) → g.place (unprepared [] [] []) ≡ nowhere
      → is_fit 14 0 text ≡ true
      → insert text (unprepared [] [] []) ≡ ok (unprepared text [] [])
  insert_whole deletes text e f =
      let n = insert_count-length g.utf8_strlen text f in
      let all = take_all (length text) text (omega arith) in
      rw (insert-edited deletes text [] [] [], e, n, all) refl
