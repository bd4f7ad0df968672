-- ===== src/Server/Threads.antt =====
-- The threads that share the blackboard and the two semaphores, interleaved in any order: the
-- client threads in `board_handler` and `login_handler` (src/server/message_handler.c), the
-- broadcasting agent (src/server/broadcasting.c), and the archiver with its debug thread
-- (src/server/archiver.c).
pub mod Counts
pub mod Rounds
pub mod Clear
pub mod Single
pub mod Lost
use virtual_blackboard.Prelude.{ℕ, ◌+◌, ◌<◌, ◌≡◌, ◌≢◌, ◌==◌, if◌then◌else◌, Outcome, ok, blocked}
use virtual_blackboard.Prelude.Family.{put}
use virtual_blackboard.Net.{m_board, m_clear}
use virtual_blackboard.Server.World.{
  World, success, failed, lock_bsem, unlock_bsem, lock_asem, unlock_asem, wipe,
}
use virtual_blackboard.Server.BoardHandler.{archive_blackboard, receive_board, finish}

-- Where a thread stands, with the local variables that are live there.
pub data Pc : Type 0 where
  -- A client thread between two messages.
  idle : Pc
  -- `board_handler`, behind the test of the write access: before the first and the second
  -- `lock_sem(asem_id)`, before `lock_sem(bsem_id)`, `memset`, `recv` and `unlock_sem(bsem_id)`.
  triggering : (sfd length : ℕ) → Pc
  waiting : (sfd length : ℕ) → Pc
  updating : (sfd length mtype : ℕ) → Pc
  wiping : (sfd length mtype : ℕ) → Pc
  receiving : (sfd length mtype : ℕ) → Pc
  releasing : (mtype : ℕ) → Pc
  -- `login_handler`, copying the initial board.
  copying : Pc
  -- The agent waits for its trigger, or copies the board.
  served : Pc
  reading : Pc
  -- `main` of the archiver, before each of its six calls.
  listening opening saving closing notifying resetting : Pc
  -- `debug_thread`.
  sleeping sampling sampled : Pc

-- The world, the entries that the archiver's `main` has written, and the clears that it has let
-- through; the program does not keep these two numbers.
pub record Shared : Type 0 where
  pub world : World
  pub saves : ℕ
  pub passed : ℕ

-- `wait_sem(asem_id)`: waits until the semaphore is zero.
unfoldable pub wait_asem : World → Outcome World
wait_asem w = if w.asem == 0 then ok w else blocked

abbrev pub in_world : Shared → World → Shared
in_world m w = record m { world = w }

-- One step of one thread. Which message comes next, from whom, and whether its sender has the write
-- access is left open; a message that is refused changes nothing here.
pub data Move (m : Shared) : Pc → Shared → Pc → Type 0 where
  take_board : {sfd length : ℕ} → Move m idle m (updating sfd length m_board)
  take_clear : {sfd length : ℕ} → Move m idle m (triggering sfd length)
  trigger :
      {sfd length : ℕ} {u : World}
      → lock_asem m.world ≡ ok u
      → Move m (triggering sfd length) (in_world m u) (waiting sfd length)
  pass :
      {sfd length : ℕ} {u : World}
      → lock_asem m.world ≡ ok u
      → Move m
          (waiting sfd length)
          (record m { world = u; passed = m.passed + 1 })
          (updating sfd length m_clear)
  lock :
      {sfd length mtype : ℕ} {u : World}
      → lock_bsem m.world ≡ ok u
      → Move m (updating sfd length mtype) (in_world m u) (wiping sfd length mtype)
  wipe_board :
      {sfd length mtype : ℕ}
      → Move m (wiping sfd length mtype) (in_world m (wipe m.world)) (receiving sfd length mtype)
  skip :
      {sfd length mtype : ℕ} → length ≡ 0 → Move m (receiving sfd length mtype) m (releasing mtype)
  receive :
      {sfd length mtype : ℕ} {u : World}
      → length ≢ 0
      → receive_board sfd length m.world ≡ (u, success)
      → Move m (receiving sfd length mtype) (in_world m u) (releasing mtype)
  lose :
      {sfd length mtype : ℕ} {u : World}
      → length ≢ 0
      → receive_board sfd length m.world ≡ (u, failed)
      → Move m (receiving sfd length mtype) (in_world m u) idle
  release : {mtype : ℕ} → Move m (releasing mtype) (in_world m (finish mtype m.world)) idle
  copy : {u : World} → lock_bsem m.world ≡ ok u → Move m idle (in_world m u) copying
  copied : Move m copying (in_world m (unlock_bsem m.world)) idle
  read : {u : World} → lock_bsem m.world ≡ ok u → Move m served (in_world m u) reading
  done : Move m reading (in_world m (unlock_bsem m.world)) served
  notice : {u : World} → wait_asem m.world ≡ ok u → Move m listening (in_world m u) opening
  open_board : {u : World} → lock_bsem m.world ≡ ok u → Move m opening (in_world m u) saving
  save :
      {u : World}
      → archive_blackboard m.world ≡ ok u
      → Move m saving (record m { world = u; saves = m.saves + 1 }) closing
  close_board : Move m closing (in_world m (unlock_bsem m.world)) notifying
  notify : Move m notifying (in_world m (unlock_asem m.world)) resetting
  reset : Move m resetting (in_world m (unlock_asem m.world)) listening
  wake : {u : World} → lock_bsem m.world ≡ ok u → Move m sleeping (in_world m u) sampling
  sample : {u : World} → archive_blackboard m.world ≡ ok u → Move m sampling (in_world m u) sampled
  sleep : Move m sampled (in_world m (unlock_bsem m.world)) sleeping

-- The archiver, its debug thread and the agent are the first three threads, the others belong to
-- clients. Without debug mode the second one never moves.
pub record System : Type 0 where
  pub shared : Shared
  pub pc : ℕ → Pc

abbrev pub start : ℕ → Pc
start i = if i == 0 then listening else if i == 1 then sleeping else if i == 2 then served else idle

pub data Step (n : ℕ) (s : System) : System → Type 0 where
  pick :
      (i : ℕ) {m : Shared} {p : Pc}
      → i < n
      → Move s.shared (s.pc i) m p
      → Step n s (record { shared = m; pc = put s.pc i p })

abbrev pub initially : World → System
initially w = record { shared = record { world = w; saves = 0; passed = 0 }; pc = start }

-- What `n` threads that start on `w` can come to.
pub data Reach (n : ℕ) (w : World) : System → Type 0 where
  here : Reach n w (initially w)
  next : {s t : System} → Reach n w s → Step n s t → Reach n w t

-- One more move of thread `i`.
pub go :
    {n : ℕ} {w : World} {s : System} (i : ℕ) {m : Shared} {p : Pc}
    → i < n
    → Move s.shared (s.pc i) m p
    → Reach n w s
    → Reach n w (record { shared = m; pc = put s.pc i p })
go i lt mv r = next r (pick i lt mv)
