-- ===== src/Server/Logging/Order.antt =====
-- The log file against the calls of `log_message`, for every order of calls and rounds.
use virtual_blackboard.Prelude.{
  ℕ, zero, suc, ◌+◌, ◌-◌, ◌*◌, ◌≤◌, ◌<◌, ◌≡◌, ◌∙◌, refl, sym, ap, Bool, true, false, ◌&&◌, List, [],
  ◌∷◌, ◌++◌, append_assoc, append-nil, map, length, length-append, take, drop, take-append,
  replicate, ltb, leb, ok, exited, Returns, returns, Returns-mono, subst, length-drop, Bool-cases,
  inl, inr, ◌==◌, if◌then◌else◌, arith,
}
use virtual_blackboard.Net.Strings.{codes, NoNul, strlen-append}
use virtual_blackboard.Client.Print.{decimal}
use virtual_blackboard.Server.Logging.{
  msgsize, before_message, LogMessage, Log, write_mq, log_message, transfer, read_mq, line, line_of,
  logger_round, Event, logs, turns, happen, run,
}

-- A call of `log_message`.
pub record Entry : Type 0 where
  pub level : ℕ
  pub text : List ℕ
  pub now : ℕ

-- The message of a call.
abbrev boxed : Entry → LogMessage
boxed e = record {
  level = e.level;
  time = e.now;
  message = e.text ++ replicate (msgsize - length e.text) 0;
}

-- The calls among the events, and the number of the logger's rounds.
abbrev pub logged : List Event → List Entry
logged [] = []
logged (logs level text now ∷ es) = record { level = level; text = text; now = now } ∷ logged es
logged (turns stale ∷ es) = logged es

abbrev pub rounds : List Event → ℕ
rounds [] = 0
rounds (logs level text now ∷ es) = rounds es
rounds (turns stale ∷ es) = suc (rounds es)

-- The words before a line, by the level of the call: debug messages have one in debug mode only, and
-- no other level has one.
abbrev pub words : Bool → List (ℕ × List ℕ)
words debug =
    (1, codes "[ERROR]") ∷ (2, codes "[INFO]") ∷ (if debug then (3, codes "[DEBUG]") ∷ [] else [])

-- The line of a call: the word, the time, the text, each with a space behind it, and a new line.
abbrev pub entry_line : List (ℕ × List ℕ) → Entry → List ℕ
entry_line [] e = []
entry_line ((level, word) ∷ table) e =
    if e.level == level
    then word ++ (32 ∷ decimal e.now ++ (32 ∷ e.text ++ 32 ∷ 10 ∷ []))
    else entry_line table e

line_of-entry :
    (debug : Bool) (e : Entry)
    → line_of debug e.level (decimal e.now) e.text ≡ entry_line (words debug) e
unfolding line_of line
line_of-entry true e = refl
line_of-entry false e = elim (Bool-cases (e.level == 3)) [
  | inl hit ↦ rw hit refl
  | inr miss ↦ rw miss refl
]

-- The lines of the calls, one after the other.
abbrev pub lines : Bool → List Entry → List ℕ
lines debug [] = []
lines debug (e ∷ es) = entry_line (words debug) e ++ lines debug es

-- Strings that are carried whole.
abbrev pub Short : List Entry → Type 0
Short [] = Unit {0}
Short (e ∷ es) = (length e.text < msgsize - before_message) × NoNul e.text × Short es

-- Every call finds room in the queue behind `pending` messages, and every round finds a message.
abbrev pub has_room : (qbytes pending : ℕ) → List Event → Bool
has_room qbytes pending [] = true
has_room qbytes pending (logs level text now ∷ es) =
    leb (msgsize * (pending + 1)) qbytes && has_room qbytes (pending + 1) es
has_room qbytes pending (turns stale ∷ es) = ltb 0 pending && has_room qbytes (pending - 1) es

take-replicate : (n m : ℕ) → n ≤ m → take {A = ℕ} n (replicate m 0) ≡ replicate n 0
take-replicate zero m h = refl
take-replicate (suc n) zero h = absurd (omega arith)
take-replicate (suc n) (suc m) h = ap (◌∷◌ 0) (take-replicate n m (omega arith))

-- The part of a padded text that is carried.
take_padded :
    (text : List ℕ) (n m : ℕ)
    → length text ≤ n
    → n ≤ length text + m
    → take n (text ++ replicate m 0) ≡ text ++ replicate (n - length text) 0
take_padded [] n m le h =
    let e : n ≡ n - 0 = omega arith in
    take-replicate n m (omega arith) ∙ ap (λ (k : ℕ). replicate k 0) e
take_padded (x ∷ xs) zero m le h = absurd (omega arith)
take_padded (x ∷ xs) (suc n) m le h =
    let e : n - length xs ≡ suc n - suc (length xs) = omega arith in
    ap (◌∷◌ x)
      (take_padded xs n m (omega arith) (omega arith) ∙ ap (λ (k : ℕ). xs ++ replicate k 0) e)

map-boxed : (ts : List Entry) (e : Entry) → map boxed (ts ++ e ∷ []) ≡ map boxed ts ++ boxed e ∷ []
map-boxed [] e = refl
map-boxed (t ∷ ts) e = ap (◌∷◌ (boxed t)) (map-boxed ts e)

length-map : (ts : List Entry) → length (map boxed ts) ≡ length ts
length-map [] = refl
length-map (t ∷ ts) = ap suc (length-map ts)

Short-append : (xs ys : List Entry) → Short xs → Short ys → Short (xs ++ ys)
Short-append [] ys h k = k
Short-append (x ∷ xs) ys h k = (h.0, h.1, Short-append xs ys h.2 k)

-- A call that finds room.
log_message-room :
    (qbytes : ℕ) (e : Entry) (l : Log)
    → length e.text < msgsize
    → leb (msgsize * (length l.queue + 1)) qbytes ≡ true
    → log_message qbytes e.level e.text e.now l ≡ ok (record l { queue = l.queue ++ boxed e ∷ [] })
unfolding log_message write_mq
log_message-room qbytes e l short room = ground arith

log_message-full :
    (qbytes : ℕ) (e : Entry) (l : Log)
    → length e.text < msgsize
    → leb (msgsize * (length l.queue + 1)) qbytes ≡ false
    → log_message qbytes e.level e.text e.now l ≡ exited
unfolding log_message write_mq
log_message-full qbytes e l short full = ground arith

-- A round reads the oldest message back.
logger_round-line :
    (debug : Bool) (stale : List ℕ) (t : Entry) (ms : List LogMessage) (file : List ℕ)
    → length t.text < msgsize - before_message
    → NoNul t.text
    → logger_round debug stale (record { queue = boxed t ∷ ms; file = file })
      ≡ ok (record { queue = ms; file = file ++ entry_line (words debug) t })
unfolding logger_round read_mq transfer
logger_round-line debug stale t ms file short clean =
    let k = 238 - length t.text in
    let left : 239 - length t.text ≡ suc k = omega arith in
    let cut =
      take_padded t.text 239 (255 - length t.text) (omega arith) (omega arith)
      ∙ ap (λ (j : ℕ). t.text ++ replicate j 0) left in
    let back : (t.text ++ 0 ∷ replicate k 0) ++ drop 239 stale
        ≡ t.text ++ 0 ∷ (replicate k 0 ++ drop 239 stale) =
      append_assoc t.text (0 ∷ replicate k 0) (drop 239 stale) in
    rw
      (
        cut,
        back,
        strlen-append t.text (replicate k 0 ++ drop 239 stale) clean,
        take-append t.text (0 ∷ (replicate k 0 ++ drop 239 stale)),
        line_of-entry debug t,
      )
      refl

-- What a run leaves: the lines of the first `k` calls are written, the others wait in the queue.
abbrev pub Written : (debug : Bool) (before : List ℕ) (k : ℕ) → List Entry → Log → Type 0
Written debug before k all l =
    (l.file ≡ before ++ lines debug (take k all)) × (l.queue ≡ map boxed (drop k all))

Short-middle :
    (xs : List Entry) (y : Entry) (ys : List Entry)
    → Short (xs ++ y ∷ ys)
    → length y.text < msgsize - before_message
Short-middle [] y ys h = h.0
Short-middle (x ∷ xs) y ys h = Short-middle xs y ys h.2

run-Written :
    (qbytes : ℕ) (debug : Bool) (es : List Event) (ts : List Entry) (file : List ℕ)
    → Short (ts ++ logged es)
    → has_room qbytes (length ts) es ≡ true
    → Returns
        (Written debug file (rounds es) (ts ++ logged es))
        (run qbytes debug es (record { queue = map boxed ts; file = file }))
unfolding run happen
run-Written qbytes debug [] ts file short room =
    returns (sym (append-nil file), ap (map boxed) (sym (append-nil ts)))
run-Written qbytes debug (logs level text now ∷ es) ts file short room =
    let e : Entry = record { level = level; text = text; now = now } in
    let shift = append_assoc ts (e ∷ []) (logged es) in
    let fits : length text < 255 = omega (arith, Short-middle ts e (logged es) short) in
    let n : length (ts ++ e ∷ []) ≡ length ts + 1 = length-append ts (e ∷ []) in
    let space : leb (msgsize * (length (map boxed ts) + 1)) qbytes ≡ true =
      rw (length-map ts) (ground arith) in
    let rest : has_room qbytes (length (ts ++ e ∷ [])) es ≡ true = rw n (ground arith) in
    let ih = run-Written qbytes debug es (ts ++ e ∷ []) file (subst Short (sym shift) short) rest in
    let l : Log = record { queue = map boxed ts; file = file } in
    rw (log_message-room qbytes e l fits space, sym (map-boxed ts e)) (rw (sym shift) ih)
run-Written qbytes debug (turns stale ∷ es) [] file short room = absurd (ground arith)
run-Written qbytes debug (turns stale ∷ es) (t ∷ ts) file short room =
    let one = entry_line (words debug) t in
    let all = ts ++ logged es in
    let n : suc (length ts) - 1 ≡ length ts = omega arith in
    let rest : has_room qbytes (length ts) es ≡ true =
      subst (λ (k : ℕ). has_room qbytes k es ≡ true) n (ground arith) in
    let ih = run-Written qbytes debug es ts (file ++ one) short.2 rest in
    rw (logger_round-line debug stale t (map boxed ts) file short.0 short.1) (
      Returns-mono ih
        (λ l h. (h.0 ∙ append_assoc file one (lines debug (take (rounds es) all)), h.1)))

-- From an empty log, for every order of calls and rounds in which each call of `log_message` finds
-- room in the queue and each round a message, with texts shorter than 239 bytes: nobody exits or
-- waits, the file holds the lines of the first calls, one for each round, in the order of the calls,
-- each with the word of its level, its time and its text, and less the debug messages if debug mode
-- is off, and the messages of the other calls wait in the queue.
pub run-lines :
    (qbytes : ℕ) (debug : Bool) (es : List Event)
    → Short (logged es)
    → has_room qbytes 0 es ≡ true
    → Returns
        (λ l.
          (l.file ≡ lines debug (take (rounds es) (logged es)))
          × (length l.queue ≡ length (logged es) - rounds es))
        (run qbytes debug es (record { queue = []; file = [] }))
run-lines qbytes debug es short room =
    Returns-mono (run-Written qbytes debug es [] [] short room) (λ l h. (
      h.0,
      ap length h.1
          ∙ (length-map (drop (rounds es) (logged es)) ∙ length-drop (rounds es) (logged es)),
    ))

-- `n` calls with no round between them.
abbrev pub burst : (n : ℕ) → (level : ℕ) → (text : List ℕ) → (now : ℕ) → List Event
burst zero level text now = []
burst (suc n) level text now = logs level text now ∷ burst n level text now

-- A burst of calls that the queue cannot take ends the process that logs, even if the queue had
-- room for the first of them.
pub run-burst :
    (qbytes : ℕ) (debug : Bool) (n level : ℕ) (text : List ℕ) (now : ℕ) (l : Log)
    → length text < msgsize
    → msgsize * length l.queue ≤ qbytes
    → qbytes < msgsize * (length l.queue + n)
    → run qbytes debug (burst n level text now) l ≡ exited
unfolding run happen
run-burst qbytes debug zero level text now l short fits h = absurd (omega arith)
run-burst qbytes debug (suc n) level text now l short fits h =
    let e : Entry = record { level = level; text = text; now = now } in
    elim (Bool-cases (leb (msgsize * (length l.queue + 1)) qbytes)) [
      | inl room ↦
          let q = l.queue ++ boxed e ∷ [] in
          let size : length q ≡ length l.queue + 1 = length-append l.queue (boxed e ∷ []) in
          rw (log_message-room qbytes e l short room) (
            run-burst qbytes debug n level text now (record l { queue = q }) short
              (ground (arith, size)) (omega (arith, size, h)))
      | inr full ↦ rw (log_message-full qbytes e l short full) refl
    ]
