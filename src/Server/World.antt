-- ===== src/Server/World.antt =====
-- The state that the server's threads share, and the calls on it: sockets, log messages,
-- semaphores (src/server/semaphore.c), the blackboard's memory (src/server/blackboard.c) and the
-- trigger of the broadcasting agent (src/server/broadcasting.c).
use Prim.Native.String.{String}
use virtual_blackboard.Prelude.{
  ℕ, zero, suc, ◌+◌, ◌-◌, Bool, true, List, [], ◌∷◌, ◌++◌, take, drop, ◌==◌, if◌then◌else◌, Outcome,
  ok, blocked, ◌≡◌, ◌<◌, length, ap, arith,
}
use virtual_blackboard.ClientList.{ClientList}
use virtual_blackboard.Net.Strings.{codes}

-- `BLACKBOARD_COLUMNS * BLACKBOARD_ROWS` of commons.h.
abbrev pub blackboard_columns : ℕ
blackboard_columns = 80

abbrev pub blackboard_rows : ℕ
blackboard_rows = 15

abbrev pub blackboard_bytesize : ℕ
blackboard_bytesize = 1200

-- What a connection still delivers: bytes, and then the end of the stream or an error.
pub record Stream : Type 0 where
  pub bytes : List ℕ
  pub broken : Bool

-- `enum broadcast_t`.
pub data Broadcast : Type 0 where
  status blackboard clear : Broadcast

-- The return values 0, 1 and -1 of a handler.
pub data Code : Type 0 where
  success refused failed : Code

-- `stale` is what fresh memory happens to hold, `sends` says which sockets still accept data, and
-- `clock` is the text of `asctime`: these three belong to the environment.
pub record World : Type 0 where
  pub clients : ClientList
  pub cid_counter : ℕ
  pub streams : ℕ → Stream
  pub sent : List (ℕ × List ℕ)
  pub board : List ℕ
  pub bsem : ℕ
  pub asem : ℕ
  pub archive : List ℕ
  pub broadcast_type : Broadcast
  pub signalled : Bool
  pub log : List (ℕ × String)
  pub interrupted : Bool
  pub closed : List ℕ
  pub stale : ℕ → ℕ
  pub sends : ℕ → Bool
  pub clock : List ℕ

-- What the handlers log, by its level, the newest message first. That the queue takes the message is
-- assumed here: the function of src/server/utils.c is in Server/Logging.
unfoldable pub log_message : (level : ℕ) → String → World → World
log_message level text w = record w { log = (level, text) ∷ w.log }

abbrev pub log_error : String → World → World
log_error = log_message 1

abbrev pub log_info : String → World → World
log_info = log_message 2

abbrev pub log_debug : String → World → World
log_debug = log_message 3

-- A buffer of `n` fresh bytes of which the first ones have been received.
unfoldable pub fill : (n : ℕ) → (stale : ℕ → ℕ) → List ℕ → List ℕ
fill zero stale bs = []
fill (suc n) stale [] = stale n ∷ fill n stale []
fill (suc n) stale (b ∷ bs) = b ∷ fill n stale bs

-- The sign of `recv`'s result.
pub data Received : Type 0 where
  positive zero_bytes negative : Received

advance : Stream → (n : ℕ) → Stream
advance s n = record s { bytes = drop n s.bytes }

set_stream : (ℕ → Stream) → ℕ → Stream → ℕ → Stream
set_stream f sfd s i = if i == sfd then s else f i

ending : Stream → Received
ending s = if s.broken then negative else zero_bytes

-- `recv(sfd, buf, n, MSG_WAITALL)` with `n > 0` into fresh memory: up to `n` bytes, fewer if the
-- connection ends before, and 0 or an error if nothing is left. The buffer comes with the result.
unfoldable pub recv : (sfd n : ℕ) → World → World × Received × List ℕ
unfolding advance set_stream ending fill
recv sfd n w =
    let s = w.streams sfd in
    (
      record w { streams = set_stream w.streams sfd (advance s n) },
      elim s.bytes [ [] ↦ ending s | b ∷ bs ↦ positive ],
      fill n w.stale s.bytes,
    )

-- A connection with bytes left delivers some of them.
pub recv_positive :
    (sfd n b : ℕ) (rest : List ℕ) (w : World)
    → (w.streams sfd).bytes ≡ b ∷ rest
    → (recv sfd n w).1 ≡ positive
unfolding recv
recv_positive sfd n b rest w e = rw e

pub recv_buffer :
    (sfd n : ℕ) (bs : List ℕ) (w : World)
    → (w.streams sfd).bytes ≡ bs
    → (recv sfd n w).2 ≡ fill n w.stale bs
unfolding recv
recv_buffer sfd n bs w e = ap (fill n w.stale) e

-- What a connection still delivers after a `recv`.
pub recv_rest :
    (sfd n : ℕ) (w : World) → ((recv sfd n w).0.streams sfd).bytes ≡ drop n (w.streams sfd).bytes
unfolding recv set_stream advance
recv_rest sfd n w = ground arith

-- A `recv` that succeeds found a byte at least.
pub recv_found :
    (sfd n : ℕ) (w : World) → (recv sfd n w).1 ≡ positive → 0 < length (w.streams sfd).bytes
unfolding recv ending
recv_found sfd n w e = ground arith

-- `send`: whether it succeeded. What was sent last comes first.
unfoldable pub send : (sfd : ℕ) → (bytes : List ℕ) → (n : ℕ) → World → World × Bool
send sfd bytes n w =
    (record w { sent = if w.sends sfd then (sfd, take n bytes) ∷ w.sent else w.sent }, w.sends sfd)

-- The semaphore of the blackboard: -1 waits until the value is positive.
unfoldable pub lock_bsem : World → Outcome World
lock_bsem w = if w.bsem == 0 then blocked else ok (record w { bsem = w.bsem - 1 })

unfoldable pub unlock_bsem : World → World
unlock_bsem w = record w { bsem = w.bsem + 1 }

unfoldable pub lock_asem : World → Outcome World
lock_asem w = if w.asem == 0 then blocked else ok (record w { asem = w.asem - 1 })

unfoldable pub unlock_asem : World → World
unlock_asem w = record w { asem = w.asem + 1 }

-- Memory that holds zeros.
unfoldable pub zeros : ℕ → List ℕ
zeros zero = []
zeros (suc n) = 0 ∷ zeros n

-- `memset(blackboard, 0, BLACKBOARD_BYTESIZE)`.
unfoldable pub wipe : World → World
wipe w = record w { board = zeros blackboard_bytesize }

-- `memcpy(blackboard, content, n)`.
unfoldable pub write_board : (content : List ℕ) → (n : ℕ) → World → World
write_board content n w = record w { board = take n content ++ drop n w.board }

-- The content that `init_blackboard` gives to the new segment.
unfoldable pub init_blackboard : List ℕ
init_blackboard = codes "Welcome!" ++ zeros (blackboard_bytesize - 8)

-- The body of `trigger_broadcast`, between the two calls on its mutex, which are in Server/Locks: the
-- newest type replaces an older one that the agent has not served.
unfoldable pub trigger_broadcast : Broadcast → World → World
trigger_broadcast kind w = record w { broadcast_type = kind; signalled = true }

abbrev pub trigger_status : World → World
trigger_status = trigger_broadcast status

abbrev pub trigger_blackboard : World → World
trigger_blackboard = trigger_broadcast blackboard

abbrev pub trigger_clear : World → World
trigger_clear = trigger_broadcast clear

-- `close(sfd)`.
unfoldable pub close : (sfd : ℕ) → World → World
close sfd w = record w { closed = sfd ∷ w.closed }

-- A change of the client list alone.
unfoldable pub with_clients : World → ClientList → World
with_clients w s = record w { clients = s }
