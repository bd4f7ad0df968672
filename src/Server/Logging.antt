-- ===== src/Server/Logging.antt =====
-- The log: `log_message` (src/server/utils.c) writes to a message queue (src/server/mq.c, mq.h)
-- from which the logger process (src/server/logger.c) fills the file.
pub mod Order
use virtual_blackboard.Prelude.{
  ℕ, zero, suc, ◌+◌, ◌-◌, ◌*◌, Bool, true, false, List, [], ◌∷◌, ◌++◌, length, take, drop,
  replicate, ltb, leb, ◌==◌, if◌then◌else◌, Outcome, ok, fault, blocked, exited, ◌>>=◌,
}
use virtual_blackboard.Net.Strings.{codes, strlen}
use virtual_blackboard.Client.Print.{decimal}

abbrev pub msgsize : ℕ
msgsize = 255

-- `struct logmessage`, less the constant `type`.
pub record LogMessage : Type 0 where
  pub level : ℕ
  pub time : ℕ
  pub message : List ℕ

-- The bytes of `level`, of its padding and of `time` on a 64-bit machine. They stand behind `type`,
-- and `msgsnd` and `msgrcv` count them as part of the `msgsize` bytes that they carry.
abbrev pub before_message : ℕ
before_message = 16

-- The queue of the kernel, the oldest message first, and the logger's file.
pub record Log : Type 0 where
  pub queue : List LogMessage
  pub file : List ℕ

-- `write_mq` does not wait: a queue that has no room ends the process that calls it. `qbytes` is
-- the kernel's limit on the bytes of the queue.
unfoldable pub write_mq : (qbytes : ℕ) → LogMessage → Log → Outcome Log
write_mq qbytes m l =
    if leb (msgsize * (length l.queue + 1)) qbytes
    then ok (record l { queue = l.queue ++ m ∷ [] })
    else exited

-- `log_message` at the time `now`: `strcpy` of the text and its NUL into zeroed memory.
unfoldable pub log_message : (qbytes level : ℕ) → (text : List ℕ) → (now : ℕ) → Log → Outcome Log
log_message qbytes level text now l =
    if ltb (length text) msgsize
    then write_mq qbytes
        (record {
          level = level;
          time = now;
          message = text ++ replicate (msgsize - length text) 0;
        })
        l
    else fault

-- What arrives in the reader's buffer, which holds `stale` before: the last bytes of the message are
-- not carried.
unfoldable pub transfer : (stale : List ℕ) → LogMessage → LogMessage
transfer stale m = record m {
  message = take (msgsize - before_message) m.message ++ drop (msgsize - before_message) stale;
}

-- `read_mq` waits for a message.
unfoldable pub read_mq : (stale : List ℕ) → Log → Outcome (LogMessage × Log)
read_mq stale l = elim l.queue [
  | [] ↦ blocked
  | m ∷ rest ↦ ok (transfer stale m, record l { queue = rest })
]

-- One line of the file: `fprintf(file, "[...] %ld %s \n", ...)`.
unfoldable pub line : (label time text : List ℕ) → List ℕ
line label time text = label ++ (time ++ (codes " " ++ (text ++ codes " \n")))

-- The `switch` on the level.
unfoldable pub line_of : (debug : Bool) → (level : ℕ) → (time text : List ℕ) → List ℕ
line_of debug level time text =
    if level == 1
    then line (codes "[ERROR] ") time text
    else if level == 2
    then line (codes "[INFO] ") time text
    else if level == 3
    then (if debug then line (codes "[DEBUG] ") time text else [])
    else []

-- One round of the logger's loop.
unfoldable pub logger_round : (debug : Bool) → (stale : List ℕ) → Log → Outcome Log
logger_round debug stale l = do
  (m, l) ← read_mq stale l
  n ← strlen m.message
  ok (record l { file = l.file ++ line_of debug m.level (decimal m.time) (take n m.message) })

-- The logger's debug mode: the first argument starts with `1`.
unfoldable pub debug_mode : (arguments : List (List ℕ)) → Bool
debug_mode ((c ∷ cs) ∷ rest) = c == 49
debug_mode other = false

-- What happens to the log, in the order in which it happens: a thread of the server logs a text, or
-- the logger makes a round in a buffer that holds `stale`.
pub data Event : Type 0 where
  logs : (level : ℕ) → (text : List ℕ) → (now : ℕ) → Event
  turns : (stale : List ℕ) → Event

unfoldable pub happen : (qbytes : ℕ) → (debug : Bool) → Event → Log → Outcome Log
happen qbytes debug (logs level text now) l = log_message qbytes level text now l
happen qbytes debug (turns stale) l = logger_round debug stale l

unfoldable pub run : (qbytes : ℕ) → (debug : Bool) → List Event → Log → Outcome Log
unfolding happen
run qbytes debug [] l = ok l
run qbytes debug (e ∷ es) l = happen qbytes debug e l >>= λ l'. run qbytes debug es l'
