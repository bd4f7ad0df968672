-- ===== src/Tests/TextView.antt =====
-- The theorems about the text view at short texts.
use virtual_blackboard.Prelude.{
  ℕ, ◌+◌, ◌≤◌, ◌≡◌, refl, List, [], ◌∷◌, ◌++◌, length, take, replicate, ok, zero, suc, Outcome,
  out_of_fuel, ◌>>=◌, if◌then◌else◌, Bool-cases, inl, inr, arith,
}
use virtual_blackboard.Client.TextView.{
  newline, Gtk, TextBuffer, insert_count, on_insert_text, on_delete_range,
}
use virtual_blackboard.Client.TextView.Rows.{newlines_in, insert_count-rows}
use virtual_blackboard.Client.TextView.Whole.{nowhere, at_last_line, insert_count-overfull}
use virtual_blackboard.Client.TextView.Emission.{
  unprepared, Emits, Deletes, insert-edited, insert_whole,
}

-- Every byte is a character.
abbrev pub bytewise : List ℕ → ℕ → ℕ
bytewise memory max = max

abbrev two_lines : List ℕ
two_lines = 72 ∷ 105 ∷ 10 ∷ 33 ∷ []

abbrev pub gtk : Gtk
gtk = record {
  place = λ b. nowhere;
  utf8_strlen = bytewise;
  delete_selection = λ b. record b { selection = [] };
}

insert_count-rows_example :
    (insert_count bytewise nowhere two_lines ≤ length two_lines)
    × (nowhere.lines + newlines_in (take (insert_count bytewise nowhere two_lines) two_lines) ≤ 16)
insert_count-rows_example = insert_count-rows bytewise nowhere two_lines (omega arith)

-- A `gtk_text_buffer_insert` that may be called twice deep.
abbrev pub insert_nested : (depth : ℕ) → List ℕ → TextBuffer → Outcome TextBuffer
insert_nested zero text b = out_of_fuel
insert_nested (suc depth) text b = on_insert_text gtk (insert_nested depth) text b >>= λ r.
    ok (if r.1 then r.0 else record r.0 { before = r.0.before ++ text })

pub insert_nested-Emits : Emits gtk (insert_nested 2)
unfolding on_insert_text
insert_nested-Emits text b = elim (Bool-cases b.prepared) [
  | inl e ↦ ground arith
  | inr e ↦ ground arith
]

pub gtk-Deletes : Deletes gtk
unfolding on_delete_range
gtk-Deletes b = refl

insert-edited_example :
    insert_nested 2 two_lines (unprepared [] (65 ∷ []) (66 ∷ []))
    ≡ ok (unprepared ([] ++ take (insert_count bytewise nowhere two_lines) two_lines) [] (66 ∷ []))
insert-edited_example =
    insert-edited gtk (insert_nested 2) insert_nested-Emits gtk-Deletes two_lines [] (65 ∷ [])
      (66 ∷ [])

insert_whole_example :
    insert_nested 2 two_lines (unprepared [] [] []) ≡ ok (unprepared two_lines [] [])
insert_whole_example =
    insert_whole gtk (insert_nested 2) insert_nested-Emits gtk-Deletes two_lines refl refl

abbrev full_line : List ℕ
full_line = replicate 80 65

insert_count-overfull_example :
    at_last_line.lines
      + newlines_in (
          take
            (insert_count bytewise at_last_line (newline ∷ (full_line ++ newline ∷ [])))
            (newline ∷ (full_line ++ newline ∷ [])))
    ≡ 16
insert_count-overfull_example = insert_count-overfull bytewise full_line [] refl refl
