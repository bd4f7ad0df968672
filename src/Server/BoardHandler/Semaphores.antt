-- ===== src/Server/BoardHandler/Semaphores.antt =====
-- What the parts of `board_handler` and of the archiver do to the two semaphores, wherever these
-- stand.
use virtual_blackboard.Prelude.{ℕ, ◌+◌, ◌≡◌, ok, arith}
use virtual_blackboard.Server.World.{
  World, success, failed, recv, lock_bsem, unlock_bsem, lock_asem, write_board, log_message,
  trigger_broadcast,
}
use virtual_blackboard.Server.BoardHandler.{archive_blackboard, receive_board, finish}

-- What a call does to the two semaphores.
abbrev pub Semaphores : (bsem asem : ℕ) → World → Type 0
Semaphores b a u = (u.bsem ≡ b) × (u.asem ≡ a)

module _ (w : World) where
  abbrev pub Untouched : World → Type 0
  Untouched u = (u.board ≡ w.board) × (u.archive ≡ w.archive) × (u.clock ≡ w.clock)

  pub lock_bsem-Semaphores :
      (u : World) → lock_bsem w ≡ ok u → (u.bsem + 1 ≡ w.bsem) × (u.asem ≡ w.asem)
  unfolding lock_bsem
  lock_bsem-Semaphores u e = ground arith

  pub lock_asem-Semaphores :
      (u : World) → lock_asem w ≡ ok u → (u.asem + 1 ≡ w.asem) × (u.bsem ≡ w.bsem)
  unfolding lock_asem
  lock_asem-Semaphores u e = ground arith

  pub archive-Semaphores : (u : World) → archive_blackboard w ≡ ok u → Semaphores w.bsem w.asem u
  unfolding archive_blackboard
  archive-Semaphores u e = ground arith

  pub receive_board-success :
      (sfd length : ℕ) (u : World)
      → receive_board sfd length w ≡ (u, success)
      → Semaphores w.bsem w.asem u
  unfolding receive_board recv write_board log_message
  receive_board-success sfd length u e = ground arith

  pub receive_board-failed :
      (sfd length : ℕ) (u : World)
      → receive_board sfd length w ≡ (u, failed)
      → Semaphores (w.bsem + 1) w.asem u
  unfolding receive_board recv write_board log_message unlock_bsem
  receive_board-failed sfd length u e = ground arith

  pub finish-Semaphores : (mtype : ℕ) → Semaphores (w.bsem + 1) w.asem (finish mtype w)
  unfolding finish unlock_bsem trigger_broadcast
  finish-Semaphores mtype = ground arith

  -- What a call leaves of the blackboard, the archive and the clock.
  pub lock_bsem-Untouched : (u : World) → lock_bsem w ≡ ok u → Untouched u
  unfolding lock_bsem
  lock_bsem-Untouched u e = ground arith

  pub lock_asem-Untouched : (u : World) → lock_asem w ≡ ok u → Untouched u
  unfolding lock_asem
  lock_asem-Untouched u e = ground arith

  pub finish-Untouched : (mtype : ℕ) → Untouched (finish mtype w)
  unfolding finish unlock_bsem trigger_broadcast
  finish-Untouched mtype = ground arith

  pub receive_board-archive :
      (sfd length : ℕ) (u : World)
      → receive_board sfd length w ≡ (u, success)
      → u.archive ≡ w.archive
  unfolding receive_board recv write_board log_message
  receive_board-archive sfd length u e = ground arith
