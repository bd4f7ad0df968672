-- ===== src/Client/TextView/Rows.antt =====
-- How many bytes and how many new lines an insertion adds.
use virtual_blackboard.Prelude.{
  ℕ, zero, suc, ◌+◌, ◌≤◌, ◌≡◌, refl, true, false, List, [], ◌∷◌, take, drop, length, leb, ◌==◌,
  if◌then◌else◌, subst, if_rule, arith,
}
use virtual_blackboard.Server.World.{blackboard_columns, blackboard_rows}
use virtual_blackboard.Client.TextView.{
  newline, Place, count_newlines, Next, stop, next, correct, fill_line, insert_line_from,
  first_width, insert_lines, insert_count,
}

-- The new lines of a text.
abbrev pub newlines_in : List ℕ → ℕ
newlines_in [] = 0
newlines_in (c ∷ cs) = (if c == newline then 1 else 0) + newlines_in cs

-- As many of them are counted as there is room for.
pub count_newlines-le :
    (lines count : ℕ) (text : List ℕ)
    → lines + count ≤ 15
    → (lines + count_newlines lines count text ≤ 15) × (count ≤ count_newlines lines count text)
unfolding count_newlines
count_newlines-le lines count [] h = (h, omega arith)
count_newlines-le lines count (c ∷ cs) h =
    ground (arith, count_newlines-le lines count cs, count_newlines-le lines (count + 1) cs)

pub count_newlines_all :
    (lines : ℕ) (text : List ℕ) (count : ℕ)
    → lines + count + newlines_in text ≤ 15
    → count_newlines lines count text ≡ count + newlines_in text
unfolding count_newlines
count_newlines_all lines [] count h = omega arith
count_newlines_all lines (c ∷ cs) count h =
    ground (arith, count_newlines_all lines cs count, count_newlines_all lines cs (count + 1))

module _ (text : List ℕ) where
  -- The new lines of the first `n` bytes.
  abbrev pub rows : ℕ → ℕ
  rows n = newlines_in (take n text)

pub rows_mono : (text : List ℕ) (n m : ℕ) → n ≤ m → rows text n ≤ rows text m
rows_mono text zero m h = omega arith
rows_mono text (suc n) zero h = absurd (omega arith)
rows_mono [] (suc n) (suc m) h = omega arith
rows_mono (c ∷ cs) (suc n) (suc m) h = omega (arith, rows_mono cs n m (omega arith))

-- One byte more, `above` being `count + 1`.
pub record More (text : List ℕ) (count above c : ℕ) (rest : List ℕ) : Type 0 where
  pub behind : drop above text ≡ rest
  pub added : rows text above ≡ rows text count + (if c == newline then 1 else 0)
  pub inside : above ≤ length text

more_suc :
    (text : List ℕ) (count c : ℕ) (rest : List ℕ)
    → drop count text ≡ c ∷ rest
    → More text count (suc count) c rest
more_suc [] zero c rest e = absurd (ground arith)
more_suc [] (suc n) c rest e = absurd (ground arith)
more_suc (x ∷ xs) zero c rest e = record {
  behind = ground arith;
  added = ground arith;
  inside = omega arith;
}
more_suc (x ∷ xs) (suc n) c rest e =
    let m = more_suc xs n c rest e in
    record { behind = m.behind; added = omega (arith, m.added); inside = omega (arith, m.inside) }

pub more :
    (text : List ℕ) (count c : ℕ) (rest : List ℕ)
    → drop count text ≡ c ∷ rest
    → More text count (count + 1) c rest
more text count c rest e =
    subst (λ (k : ℕ). More text count k c rest) (omega arith) (more_suc text count c rest e)

-- At most `k` new lines more than in the first `count` bytes, and no byte behind the text.
pub record Within (text : List ℕ) (count k n : ℕ) : Type 0 where
  pub short : n ≤ length text
  pub few : rows text n ≤ rows text count + k

module _ (utf8_strlen : List ℕ → ℕ → ℕ) (text : List ℕ) where
  pub correct-le : (count : ℕ) → correct utf8_strlen text count ≤ count
  unfolding correct
  correct-le count = ground arith

  correct-Within :
      (count : ℕ) → count ≤ length text → Within text count 0 (correct utf8_strlen text count)
  correct-Within count h =
      let le = correct-le count in
      record {
        short = omega (arith, le);
        few = omega (arith, rows_mono text (correct utf8_strlen text count) count le);
      }

  here-Within : (count : ℕ) → count ≤ length text → Within text count 0 count
  here-Within count h = record { short = h; few = omega arith }

  -- A byte that is no new line.
  after-Within :
      (count c k n : ℕ) (rest : List ℕ)
      → drop count text ≡ c ∷ rest
      → (c == newline) ≡ false
      → Within text (count + 1) k n
      → Within text count k n
  after-Within count c k n rest e no_newline w =
      let m = more text count c rest e in
      record { short = w.short; few = ground (arith, m.added, w.few) }

  pub fill_line-Within :
      (rest : List ℕ) (j count : ℕ)
      → count ≤ length text
      → drop count text ≡ rest
      → Within text count 0 (fill_line utf8_strlen text j count rest)
  unfolding fill_line
  fill_line-Within [] j count h e = here-Within count h
  fill_line-Within (c ∷ rest) j count h e =
      let m = more text count c rest e in
      if_rule (Within text count 0) (leb blackboard_columns j) (λ _. correct-Within count h)
        (λ _.
          if_rule (Within text count 0) (c == newline) (λ _. here-Within count h)
            (λ no_newline.
              after-Within count c 0 _ rest e no_newline
                (fill_line-Within rest (j + 1) (count + 1) m.inside m.behind)))

  -- What the inner loop may come to.
  abbrev Stepped : ℕ → Next → Type 0
  Stepped count (stop n) = Within text count 0 n
  Stepped count (next n rest) = Within text count 1 n × (drop n text ≡ rest)

  -- The two ways on: a new line is taken, or another byte.
  taken-Stepped :
      (count : ℕ) (rest : List ℕ)
      → drop count text ≡ newline ∷ rest
      → Stepped count (next (count + 1) rest)
  taken-Stepped count rest e =
      let m = more text count newline rest e in
      (record { short = m.inside; few = ground (arith, m.added) }, m.behind)

  after-Stepped :
      (count c : ℕ) (rest : List ℕ) (x : Next)
      → drop count text ≡ c ∷ rest
      → (c == newline) ≡ false
      → Stepped (count + 1) x
      → Stepped count x
  after-Stepped count c rest (stop n) e no_newline w = after-Within count c 0 n rest e no_newline w
  after-Stepped count c rest (next n r) e no_newline w =
      (after-Within count c 1 n rest e no_newline w.0, w.1)

  insert_line_from-Stepped :
      (p : Place) (newlines i : ℕ) (rest : List ℕ) (width count : ℕ)
      → count ≤ length text
      → drop count text ≡ rest
      → Stepped count (insert_line_from utf8_strlen text p newlines i width count rest)
  unfolding insert_line_from
  insert_line_from-Stepped p newlines i [] width count h e = here-Within count h
  insert_line_from-Stepped p newlines i (c ∷ rest) width count h e =
      let m = more text count c rest e in
      let taken : (c == newline) ≡ true → Stepped count (next (count + 1) rest) =
        λ hit. taken-Stepped count rest (ground arith) in
      let on : (c == newline) ≡ false
          → Stepped count
              (insert_line_from utf8_strlen text p newlines i (width + 1) (count + 1) rest) =
        λ miss.
          after-Stepped count c rest _ e miss (
            insert_line_from-Stepped p newlines i rest (width + 1) (count + 1) m.inside m.behind) in
      if_rule (Stepped count) (leb blackboard_columns width)
        (λ _.
          if_rule (Stepped count) (c == newline)
            (λ hit.
              if_rule (Stepped count) (leb (i + p.insert_line + 1) blackboard_rows) (λ _. taken hit)
                (λ _. (record { short = h; few = omega arith }, e)))
            (λ _. correct-Within count h))
        (λ _.
          if_rule (Stepped count) (leb newlines i)
            (λ _. if_rule (Stepped count) (c == newline) (λ _. here-Within count h) on)
            (λ _. if_rule (Stepped count) (c == newline) taken on))

  insert_lines-Within :
      (p : Place) (newlines k i count : ℕ) (rest : List ℕ)
      → count ≤ length text
      → drop count text ≡ rest
      → Within text count k (insert_lines utf8_strlen text p newlines k i count rest)
  unfolding insert_lines
  insert_lines-Within p newlines zero i count rest h e = here-Within count h
  insert_lines-Within p newlines (suc k) i count rest h e =
      ended
        (insert_line_from utf8_strlen text p newlines i (first_width utf8_strlen text p newlines i)
          count rest)
        (insert_line_from-Stepped p newlines i rest (first_width utf8_strlen text p newlines i)
          count h e)
        (λ n r short behind. insert_lines-Within p newlines k (i + 1) n r short behind)
    where
      ended :
          (x : Next)
          → Stepped count x
          → ((n : ℕ) (r : List ℕ)
              → n ≤ length text
              → drop n text ≡ r
              → Within text n k (insert_lines utf8_strlen text p newlines k (i + 1) n r))
          → Within text count (suc k) (elim x [
            | stop n ↦ n
            | next n rest' ↦ insert_lines utf8_strlen text p newlines k (i + 1) n rest'
          ])
      ended (stop n) w later = record { short = w.short; few = omega (arith, w.few) }
      ended (next n r) w later =
          let l = later n r w.0.short w.1 in
          record { short = l.short; few = omega (arith, l.few, w.0.few) }

-- An insertion takes no more than the text, and leaves at most 16 lines where there were at most 15.
pub insert_count-rows :
    (utf8_strlen : List ℕ → ℕ → ℕ) (p : Place) (text : List ℕ)
    → p.lines ≤ 15
    → (insert_count utf8_strlen p text ≤ length text)
      × (p.lines + newlines_in (take (insert_count utf8_strlen p text) text) ≤ 16)
unfolding insert_count
insert_count-rows utf8_strlen p text few =
    let room = (count_newlines-le p.lines 0 text (omega arith)).0 in
    let n = count_newlines p.lines 0 text in
    let j : ℕ = if p.insert_line + 1 == p.lines then p.line_bytes + 1 else p.line_bytes in
    if_rule (λ (k : ℕ). (k ≤ length text) × (p.lines + newlines_in (take k text) ≤ 16)) (n == 0)
      (λ _.
        let w = fill_line-Within utf8_strlen text text j 0 (omega arith) refl in
        (w.short, omega (arith, w.few)))
      (λ _.
        let w = insert_lines-Within utf8_strlen text p n (n + 1) 0 0 text (omega arith) refl in
        (w.short, omega (arith, w.few, room)))
