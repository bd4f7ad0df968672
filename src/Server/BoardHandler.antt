-- ===== src/Server/BoardHandler.antt =====
-- `board_handler` of src/server/message_handler.c: a new content of the blackboard, or a clear,
-- which waits for the archiver (src/server/archiver.c) first.
pub mod Content
pub mod Access
pub mod Streams
pub mod Semaphores
use virtual_blackboard.Prelude.{
  ℕ, ◌+◌, ◌<◌, Bool, List, [], ◌∷◌, ◌++◌, take, ltb, ◌==◌, if◌then◌else◌, Outcome, ok, blocked,
  ◌>>=◌,
}
use virtual_blackboard.ClientList.{has_write_access}
use virtual_blackboard.Net.{m_board, m_clear}
use virtual_blackboard.Net.Strings.{codes, strlen}
use virtual_blackboard.Server.World.{
  World, Code, success, failed, positive, zero_bytes, negative, recv, log_error, log_info,
  lock_bsem, unlock_bsem, lock_asem, unlock_asem, wipe, write_board, trigger_blackboard,
  trigger_clear,
}

-- `archive_blackboard`: one entry of the archive, with the time and the board's text.
pub archive_blackboard : World → Outcome World
archive_blackboard w = do
  n ← strlen w.board
  ok (record w {
    archive =
        w.archive
        ++ (codes "### "
            ++ (w.clock ++ (codes ">>> START\n" ++ (take n w.board ++ codes "\n<<< END\n"))));
  })

-- One round of the archiver's loop, which starts when the trigger semaphore is zero.
pub archiver_round : World → Outcome World
archiver_round w =
    if w.asem == 0
    then (do
      w ← lock_bsem w
      w ← archive_blackboard w
      let w = unlock_bsem w
      ok (unlock_asem (unlock_asem w)))
    else blocked

-- Trigger the archiver and wait for it to finish: the second lock waits while the archiver runs
-- its round.
pub await_archiver : World → Outcome World
await_archiver w = do w ← lock_asem w; w ← archiver_round w; lock_asem w

-- The content is read and copied, at most 1199 bytes of it.
unfoldable pub receive_board : (sfd length : ℕ) → World → World × Code
receive_board sfd length w =
    let (w', received, content) = recv sfd length w in
    elim received [
      | negative ↦
          (log_info "board handler: connection error or closed by client" (unlock_bsem w'), failed)
      | _ ↦
          if ltb 1199 length
          then (write_board content 1199 (log_error "board handler: board too long" w'), success)
          else (write_board content length w', success)
    ]

-- The last part: the semaphore is released and the broadcast triggered.
pub finish : (mtype : ℕ) → World → World
finish mtype w =
    if mtype == m_board
    then trigger_blackboard (unlock_bsem w)
    else if mtype == m_clear
    then trigger_clear (unlock_bsem w)
    else unlock_bsem w

-- A failed `recv` ends the handler at once.
pub conclude : (mtype : ℕ) → World × Code → Outcome (World × Code)
conclude mtype (w, failed) = ok (w, failed)
conclude mtype (w, code) = ok (finish mtype w, success)

-- The part behind the check of the write access and the archiver.
pub update_board : (sfd length mtype : ℕ) → World → Outcome (World × Code)
update_board sfd length mtype w = do
  w ← lock_bsem w
  let w = wipe w
  if length == 0 then ok (finish mtype w, success) else conclude mtype (receive_board sfd length w)

unfoldable pub board_handler : (sfd length mtype : ℕ) → World → Outcome (World × Code)
board_handler sfd length mtype w = do
  access ← has_write_access sfd w.clients
  if ltb access 1 then ok (log_error "board handler: user without write access" w, success) else (do
    w ← if mtype == m_clear then await_archiver w else ok w
    update_board sfd length mtype w)
