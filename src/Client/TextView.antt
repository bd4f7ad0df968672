-- ===== src/Client/TextView.antt =====
-- The text of the board as the user edits it: `on_insert_text` and `on_delete_range` of
-- src/client/gui.c, which GTK calls before it changes the text buffer.
pub mod Rows
pub mod Whole
pub mod Emission
use virtual_blackboard.Prelude.{
  ℕ, zero, suc, ◌+◌, ◌-◌, Bool, true, false, List, [], ◌∷◌, ◌++◌, take, drop, ltb, leb, ◌==◌, ◌&&◌,
  if◌then◌else◌, Outcome, ok, out_of_fuel, ◌>>=◌,
}
use virtual_blackboard.Server.World.{blackboard_columns, blackboard_rows}

abbrev pub newline : ℕ
newline = 10

-- What GTK says of the place of an insertion: `gtk_text_iter_get_bytes_in_line`, `..._get_line`,
-- `..._get_line_index` and `gtk_text_buffer_get_line_count`.
pub record Place : Type 0 where
  pub line_bytes : ℕ
  pub insert_line : ℕ
  pub insert_column : ℕ
  pub lines : ℕ

-- The text around the insertion, with the text that is selected there, and the static variable
-- `insertPreparationAlreadyDone`.
pub record TextBuffer : Type 0 where
  pub before : List ℕ
  pub selection : List ℕ
  pub after : List ℕ
  pub prepared : Bool

-- GTK's part: the place of an insertion, `g_utf8_strlen` on the memory behind a pointer, and
-- `gtk_text_buffer_delete` of the selection.
pub record Gtk : Type 0 where
  pub place : TextBuffer → Place
  pub utf8_strlen : (memory : List ℕ) → (max : ℕ) → ℕ
  pub delete_selection : TextBuffer → TextBuffer

-- The loop that counts the new lines for which the board has room, `count` of them so far.
unfoldable pub count_newlines : (lines count : ℕ) → List ℕ → ℕ
count_newlines lines count [] = count
count_newlines lines count (c ∷ cs) =
    count_newlines lines
      (if (c == newline) && ltb (lines + count) blackboard_rows then count + 1 else count) cs

-- What becomes of the inner `while`: the insertion ends behind `count` bytes, or goes on with the
-- next line and the `rest` of the text.
pub data Next : Type 0 where
  stop : (count : ℕ) → Next
  next : (count : ℕ) → (rest : List ℕ) → Next

module _ (utf8_strlen : (memory : List ℕ) → (max : ℕ) → ℕ) (text : List ℕ) where
  -- The last `n` bytes of the first `count` ones hold no complete character.
  unfoldable pub is_cut : (count n : ℕ) → Bool
  is_cut count n = leb n count && (utf8_strlen (drop (count - n) text) n == 0)

  -- The UTF-8 corrections.
  unfoldable pub correct : (count : ℕ) → ℕ
  correct count =
      if is_cut count 3
      then count - 3
      else if is_cut count 2
      then count - 2
      else if is_cut count 1
      then count - 1
      else count

  -- The loop for a text without a new line; the text's `rest` begins behind `count` bytes.
  unfoldable pub fill_line : (j count : ℕ) → (rest : List ℕ) → ℕ
  fill_line j count [] = count
  fill_line j count (c ∷ rest) =
      if leb blackboard_columns j
      then correct count
      else if c == newline
      then count
      else fill_line (j + 1) (count + 1) rest

  module _ (p : Place) (newlines : ℕ) where
    -- The inner `while` for line `i`. `width` is the `j + 1` of the code.
    unfoldable pub insert_line_from : (i width count : ℕ) → (rest : List ℕ) → Next
    insert_line_from i width count [] = stop count
    insert_line_from i width count (c ∷ rest) =
        if leb blackboard_columns width
        then (if c == newline
            then (if leb (i + p.insert_line + 1) blackboard_rows
                then next (count + 1) rest
                else next count (c ∷ rest))
            else stop (correct count))
        else if leb newlines i
        then (if c == newline then stop count else insert_line_from i (width + 1) (count + 1) rest)
        else if c == newline
        then next (count + 1) rest
        else insert_line_from i (width + 1) (count + 1) rest

    -- `j + 1` at the start of line `i`.
    unfoldable pub first_width : (i : ℕ) → ℕ
    first_width i =
        if i == 0
        then p.insert_column + 1
        else if leb newlines i
        then p.line_bytes - p.insert_column
        else 1

    -- The outer loop, `k` rounds of which are left.
    unfoldable pub insert_lines : (k i count : ℕ) → (rest : List ℕ) → ℕ
    insert_lines zero i count rest = count
    insert_lines (suc k) i count rest = elim (insert_line_from i (first_width i) count rest) [
      | stop n ↦ n
      | next n rest' ↦ insert_lines k (i + 1) n rest'
    ]

-- `insertCount`: how many bytes of the text are inserted.
unfoldable pub insert_count : (utf8_strlen : List ℕ → ℕ → ℕ) → Place → (text : List ℕ) → ℕ
insert_count utf8_strlen p text =
    let newlines = count_newlines p.lines 0 text in
    if newlines == 0
    then fill_line utf8_strlen text
        (if p.insert_line + 1 == p.lines then p.line_bytes + 1 else p.line_bytes) 0 text
    else insert_lines utf8_strlen text p newlines (newlines + 1) 0 0 text

-- `on_delete_range` lets every deletion pass.
unfoldable pub on_delete_range : TextBuffer → TextBuffer × Bool
on_delete_range b = (b, false)

-- The handler, with the call of `gtk_text_buffer_insert` as a parameter. The second part of the
-- result says that the emission of the signal is stopped.
unfoldable pub on_insert_text :
    (g : Gtk)
    → (insert : List ℕ → TextBuffer → Outcome TextBuffer) → (text : List ℕ) → TextBuffer
    → Outcome (TextBuffer × Bool)
on_insert_text g insert text b =
    if b.prepared
    then ok (record b { prepared = false }, false)
    else (let count = insert_count g.utf8_strlen (g.place b) text in
        let b' = g.delete_selection b in
        if ltb 0 count
        then (insert (take count text) (record b' { prepared = true }) >>= λ u. ok (u, true))
        else ok (b', true))
