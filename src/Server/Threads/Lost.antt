-- ===== src/Server/Threads/Lost.antt =====
-- Two client threads: the board message of a client that is no longer the writer, between the
-- archiver's entry and the clear that waits for it.
use virtual_blackboard.Prelude.{ℕ, ◌-◌, ◌<◌, ◌≡◌, ◌≢◌, refl, true, ◌∙◌, ◌++◌, ok, arith}
use virtual_blackboard.Net.{m_board, m_clear}
use virtual_blackboard.Net.Strings.{text_of}
use virtual_blackboard.Server.World.{
  World, success, lock_bsem, unlock_bsem, lock_asem, unlock_asem, wipe, zeros,
}
use virtual_blackboard.Server.Invariant.{has_nul}
use virtual_blackboard.Server.BoardHandler.{receive_board, finish}
use virtual_blackboard.Server.BoardHandler.Semaphores.{
  receive_board-success, receive_board-archive, finish-Semaphores, finish-Untouched,
}
use virtual_blackboard.Server.BoardHandler.Access.{archive_entry, archive_blackboard-ok}
use virtual_blackboard.Server.Threads.{
  wiping, wait_asem, take_board, take_clear, trigger, pass, lock, wipe_board, receive, release,
  notice, open_board, save, close_board, notify, System, Reach, here, go,
}

lock_asem-ok : (w : World) → 0 < w.asem → lock_asem w ≡ ok (record w { asem = w.asem - 1 })
unfolding lock_asem
lock_asem-ok w h = ground arith

lock_bsem-ok : (w : World) → 0 < w.bsem → lock_bsem w ≡ ok (record w { bsem = w.bsem - 1 })
unfolding lock_bsem
lock_bsem-ok w h = ground arith

-- Both semaphores are free.
abbrev pub free : World → World
free w = record w { bsem = 1; asem = 1 }

abbrev pub saved : World → World
saved w = record w { archive = w.archive ++ archive_entry w.clock (text_of w.board) }

-- The state in which the late message is received: the archiver has written its entry and given
-- the blackboard back, and the late sender has wiped it.
abbrev pub late : World → World
late w = record (saved w) { bsem = 0; asem = 0; board = zeros 1200 }

-- What the last two semaphore operations of the clear find.
free_after :
    (v u : World) (sfd length : ℕ)
    → receive_board sfd length (late v) ≡ (u, success)
    → (0 < (unlock_asem (finish m_board u)).asem) × (0 < (unlock_asem (finish m_board u)).bsem)
unfolding unlock_asem
free_after v u sfd length e =
    let (b, a) = receive_board-success (late v) sfd length u e in
    let (fb, fa) = finish-Semaphores u m_board in (omega (arith, a, fa), omega (arith, b, fb))

-- Take any world whose blackboard holds a string, with its semaphores free, and the clear of one
-- client and a board message of another one that have both passed the test of the write access.
-- Whatever content of the message is received at the moment of `late`, the threads can come to a
-- state in which the clear is about to wipe that content, while the archive has got nothing but the
-- text of before.
pub clear-overtaken :
    (v u : World) (sfd length : ℕ)
    → has_nul v.board ≡ true
    → length ≢ 0
    → receive_board sfd length (late v) ≡ (u, success)
    → (s : System) × Reach 5 (free v) s
      × (s.pc 3 ≡ wiping 4 0 m_clear)
      × (s.shared.world.board ≡ u.board)
      × (s.shared.world.archive ≡ v.archive ++ archive_entry v.clock (text_of v.board))
unfolding lock_asem lock_bsem wait_asem wipe unlock_bsem unlock_asem
clear-overtaken v u sfd length nul some_bytes e =
    let (fa, fb) = free_after v u sfd length e in
    let kept = finish-Untouched u m_board in
    (
      _,
      go 3 (omega arith) (lock (lock_bsem-ok _ fb)) (
          go 3 (omega arith) (pass (lock_asem-ok _ fa)) (
            go 0 (omega arith) notify (
              go 4 (omega arith) release (
                go 4 (omega arith) (receive some_bytes e) (
                  go 4 (omega arith) wipe_board (
                    go 4 (omega arith) (lock refl) (
                      go 0 (omega arith) close_board (
                        go 0 (omega arith) (save (archive_blackboard-ok _ nul)) (
                          go 0 (omega arith) (open_board refl) (
                            go 0 (omega arith) (notice refl) (
                              go 3 (omega arith) (trigger refl) (
                                go 4 (omega arith) (take_board {sfd = sfd} {length = length}) (
                                  go 3 (omega arith) (take_clear {sfd = 4} {length = 0})
                                    here))))))))))))),
      refl,
      kept.0,
      kept.1 ∙ receive_board-archive (late v) sfd length u e,
    )
