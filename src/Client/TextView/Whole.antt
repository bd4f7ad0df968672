-- ===== src/Client/TextView/Whole.antt =====
-- Texts that are inserted whole, and lines that are cut.
use virtual_blackboard.Prelude.{
  ℕ, zero, suc, ◌+◌, ◌-◌, ◌≤◌, ◌<◌, ◌≡◌, ◌∙◌, refl, sym, ap, Bool, true, false, List, [], ◌∷◌, ◌++◌,
  take, take-append, append_assoc, length, length-append, ltb, ◌==◌, ◌&&◌, if◌then◌else◌,
  Bool-cases, inl, inr, if_rule, arith,
}
use virtual_blackboard.Client.TextView.{
  newline, Place, count_newlines, Next, stop, next, fill_line, insert_line_from, first_width,
  insert_lines, insert_count,
}
use virtual_blackboard.Client.TextView.Rows.{newlines_in, count_newlines_all, correct-le}

-- The place of an insertion into an empty buffer.
abbrev pub nowhere : Place
nowhere = record { line_bytes = 0; insert_line = 0; insert_column = 0; lines = 1 }

-- The text has at most `rows` new lines, and no line of it is longer than 79 bytes, `column` bytes of
-- the first line being there already.
abbrev pub is_fit : (rows column : ℕ) → List ℕ → Bool
is_fit rows column [] = true
is_fit rows column (c ∷ cs) =
    if c == newline
    then ltb 0 rows && is_fit (rows - 1) 0 cs
    else ltb column 79 && is_fit rows (column + 1) cs

newlines_in-le :
    (text : List ℕ) (rows column : ℕ) → is_fit rows column text ≡ true → newlines_in text ≤ rows
newlines_in-le [] rows column h = omega arith
newlines_in-le (c ∷ cs) rows column h =
    ground (arith, newlines_in-le cs (rows - 1) 0, newlines_in-le cs rows (column + 1))

module _ (utf8_strlen : List ℕ → ℕ → ℕ) (text : List ℕ) where
  -- A line takes at most what is left of its 80 bytes.
  fill_line-le :
      (rest : List ℕ) (j count : ℕ) → fill_line utf8_strlen text j count rest ≤ count + (80 - j)
  unfolding fill_line
  fill_line-le [] j count = omega arith
  fill_line-le (c ∷ rest) j count =
      ground (arith, correct-le utf8_strlen text count, fill_line-le rest (j + 1) (count + 1))

  fill_line_whole :
      (rest : List ℕ) (j count rows column : ℕ)
      → j ≤ column + 1
      → newlines_in rest ≡ 0
      → is_fit rows column rest ≡ true
      → fill_line utf8_strlen text j count rest ≡ count + length rest
  unfolding fill_line
  fill_line_whole [] j count rows column h z f = omega arith
  fill_line_whole (c ∷ rest) j count rows column h z f =
      ground (arith, fill_line_whole rest (j + 1) (count + 1) rows (column + 1))

  module _ (p : Place) (newlines : ℕ) where
    -- The inner loop at a new line that is taken, and at another byte for which there is room.
    at_newline :
        (i width count c : ℕ) (rest : List ℕ)
        → (c == newline) ≡ true
        → i + p.insert_line + 1 ≤ 15
        → i < newlines
        → insert_line_from utf8_strlen text p newlines i width count (c ∷ rest)
          ≡ next (count + 1) rest
    unfolding insert_line_from
    at_newline i width count c rest hit row more = ground arith

    at_byte :
        (i width count c : ℕ) (rest : List ℕ)
        → (c == newline) ≡ false
        → width < 80
        → insert_line_from utf8_strlen text p newlines i width count (c ∷ rest)
          ≡ insert_line_from utf8_strlen text p newlines i (width + 1) (count + 1) rest
    unfolding insert_line_from
    at_byte i width count c rest miss room = ground arith

    -- How the outer loop goes on.
    abbrev resume : (k i : ℕ) → Next → ℕ
    resume k i x = elim x [
      | stop n ↦ n
      | next n rest ↦ insert_lines utf8_strlen text p newlines k (i + 1) n rest
    ]

    at_end :
        (i width count : ℕ)
        → insert_line_from utf8_strlen text p newlines i width count [] ≡ stop count
    unfolding insert_line_from
    at_end i width count = refl

    -- In an empty buffer every line starts at its first column.
    thin :
        p.insert_column ≡ 0
        → p.line_bytes ≡ 0
        → (i : ℕ) → first_width utf8_strlen text p newlines (i + 1) ≤ 0 + 1
    unfolding first_width
    thin c0 b0 i = ground arith

    -- A round of the outer loop.
    insert_lines_suc :
        (k i count : ℕ) (rest : List ℕ)
        → insert_lines utf8_strlen text p newlines (k + 1) i count rest
          ≡ resume k i (
              insert_line_from utf8_strlen text p newlines i
                (first_width utf8_strlen text p newlines i)
                count
                rest)
    unfolding insert_lines
    insert_lines_suc k i count rest =
        let e : k + 1 ≡ suc k = omega arith in
        ap (λ (m : ℕ). insert_lines utf8_strlen text p newlines m i count rest) e

    insert_lines_whole :
        p.insert_line ≡ 0
        → p.insert_column ≡ 0
        → p.line_bytes ≡ 0
        → newlines ≤ 14
        → (rest : List ℕ) (k i width count rows column : ℕ) → width ≤ column + 1
        → i + newlines_in rest ≡ newlines
        → i + k ≡ newlines
        → is_fit rows column rest ≡ true
        → resume k i (insert_line_from utf8_strlen text p newlines i width count rest)
          ≡ count + length rest
    unfolding insert_lines
    insert_lines_whole l0 c0 b0 few [] k i width count rows column w n m f =
        rw (at_end i width count) (omega arith)
    insert_lines_whole l0 c0 b0 few (c ∷ rest) zero i width count rows column w n m f =
        let miss : (c == newline) ≡ false = ground arith in
        rw (at_byte i width count c rest miss (ground arith)) (
          insert_lines_whole l0 c0 b0 few rest zero i (width + 1) (count + 1) rows (column + 1)
            (omega arith) (ground arith) m (ground arith)
          ∙ omega arith)
    insert_lines_whole l0 c0 b0 few (c ∷ rest) (suc k) i width count rows column w n m f =
        elim (Bool-cases (c == newline)) [
          | inl hit ↦ rw (at_newline i width count c rest hit (omega arith) (omega arith)) (
              insert_lines_whole l0 c0 b0 few rest k (i + 1)
                (first_width utf8_strlen text p newlines (i + 1)) (count + 1) (rows - 1) 0
                (thin c0 b0 i) (ground arith) (omega arith) (ground arith)
              ∙ omega arith)
          | inr miss ↦ rw (at_byte i width count c rest miss (ground arith)) (
              insert_lines_whole l0 c0 b0 few rest (suc k) i (width + 1) (count + 1) rows
                (column + 1) (omega arith) (ground arith) m (ground arith)
              ∙ omega arith)
        ]

first_width_zero :
    (utf8_strlen : List ℕ → ℕ → ℕ) (text : List ℕ) (n : ℕ)
    → first_width utf8_strlen text nowhere n 0 ≤ 0 + 1
unfolding first_width
first_width_zero utf8_strlen text n = omega arith

-- A text of at most 15 lines with at most 79 bytes each is inserted whole into an empty buffer.
pub insert_count-length :
    (utf8_strlen : List ℕ → ℕ → ℕ) (text : List ℕ)
    → is_fit 14 0 text ≡ true
    → insert_count utf8_strlen nowhere text ≡ length text
unfolding insert_count
insert_count-length utf8_strlen text f =
    let few = newlines_in-le text 14 0 f in
    let n = newlines_in text in
    let all : count_newlines 1 0 text ≡ n =
      count_newlines_all 1 text 0 (omega arith) ∙ omega arith in
    rw all (
      if_rule (λ (k : ℕ). k ≡ length text) (n == 0)
        (λ none.
          fill_line_whole utf8_strlen text text 1 0 14 0 (omega arith) (ground arith) f
          ∙ omega arith)
        (λ some.
          let open_first : first_width utf8_strlen text nowhere n 0 ≤ 0 + 1 =
            first_width_zero utf8_strlen text n in
          insert_lines_suc utf8_strlen text nowhere n n 0 0 text
          ∙ insert_lines_whole utf8_strlen text nowhere n refl refl refl few text n 0
              (first_width utf8_strlen text nowhere n 0) 0 14 0 open_first (omega arith)
              (omega arith) f
          ∙ omega arith))

-- The end of a buffer of 14 lines whose last line is empty.
abbrev pub at_last_line : Place
at_last_line = record { line_bytes = 0; insert_line = 13; insert_column = 0; lines = 14 }

count_newlines_full :
    (lines count : ℕ) (text : List ℕ) → 15 ≤ lines + count → count_newlines lines count text ≡ count
unfolding count_newlines
count_newlines_full lines count [] h = refl
count_newlines_full lines count (c ∷ cs) h = ground (arith, count_newlines_full lines count cs h)

module _ (utf8_strlen : List ℕ → ℕ → ℕ) (text : List ℕ) where
  -- The last line takes 80 bytes, and the new line behind them.
  last_line :
      (line : List ℕ) (width count : ℕ) (rest : List ℕ)
      → width + length line ≡ 80
      → newlines_in line ≡ 0
      → insert_line_from utf8_strlen text at_last_line 1 1 width count (line ++ newline ∷ rest)
        ≡ next (count + length line + 1) rest
  unfolding insert_line_from
  last_line [] width count rest w z = ground arith
  last_line (c ∷ line) width count rest w z =
      rw
        (at_byte utf8_strlen text at_last_line 1 1 width count c (line ++ newline ∷ rest)
          (ground arith) (omega arith))
        (last_line line (width + 1) (count + 1) rest (omega arith) (ground arith)
          ∙ ap (λ (n : ℕ). next n rest) (omega arith))

first_line :
    (utf8_strlen : List ℕ → ℕ → ℕ) (text tail : List ℕ)
    → insert_lines utf8_strlen text at_last_line 1 2 0 0 (newline ∷ tail)
      ≡ resume utf8_strlen text at_last_line 1 0 1
          (insert_line_from utf8_strlen text at_last_line 1 1 0 1 tail)
unfolding insert_lines first_width insert_line_from
first_line utf8_strlen text tail = refl

newlines_in-append : (xs ys : List ℕ) → newlines_in (xs ++ ys) ≡ newlines_in xs + newlines_in ys
newlines_in-append [] ys = omega arith
newlines_in-append (x ∷ xs) ys = omega (arith, newlines_in-append xs ys)

overfull :
    (utf8_strlen : List ℕ → ℕ → ℕ) (line rest : List ℕ)
    → length line ≡ 80
    → newlines_in line ≡ 0
    → insert_count utf8_strlen at_last_line (newline ∷ (line ++ newline ∷ rest)) ≡ length line + 2
unfolding insert_count count_newlines insert_lines
overfull utf8_strlen line rest size plain =
    let tail = line ++ newline ∷ rest in
    let text = newline ∷ tail in
    let one : count_newlines 14 0 text ≡ 1 = count_newlines_full 14 1 tail (omega arith) in
    rw one (
      first_line utf8_strlen text tail
      ∙ ap (resume utf8_strlen text at_last_line 1 0 1)
          (last_line utf8_strlen text line 0 1 rest (omega arith) plain)
      ∙ omega arith)

-- At the end of a board of 14 lines, behind an empty one, a text that starts with a new line and goes
-- on with a line of 80 bytes and another new line makes 16 lines, one more than the board has.
pub insert_count-overfull :
    (utf8_strlen : List ℕ → ℕ → ℕ) (line rest : List ℕ)
    → length line ≡ 80
    → newlines_in line ≡ 0
    → at_last_line.lines
        + newlines_in (
            take
              (insert_count utf8_strlen at_last_line (newline ∷ (line ++ newline ∷ rest)))
              (newline ∷ (line ++ newline ∷ rest)))
      ≡ 16
insert_count-overfull utf8_strlen line rest size plain =
    let head = newline ∷ (line ++ newline ∷ []) in
    let whole : newline ∷ (line ++ newline ∷ rest) ≡ head ++ rest =
      ap (◌∷◌ newline) (sym (append_assoc line (newline ∷ []) rest)) in
    let n : length line + 2 ≡ length head = omega (arith, length-append line (newline ∷ [])) in
    let text = newline ∷ (line ++ newline ∷ rest) in
    let taken : take (insert_count utf8_strlen at_last_line text) text ≡ head =
      ap (λ (k : ℕ). take k text) (overfull utf8_strlen line rest size plain ∙ n)
      ∙ ap (take (length head)) whole
      ∙ take-append head rest in
    rw taken (omega (arith, plain, newlines_in-append line (newline ∷ [])))
