-- ===== src/Server/BoardHandler/Streams.antt =====
-- What `board_handler` leaves of the connection.
use virtual_blackboard.Prelude.{
  ℕ, ◌-◌, ◌≡◌, ◌≤◌, inl, inr, Bool-cases, length, length-drop, ◌==◌, ok, arith,
}
use virtual_blackboard.Server.World.{
  World, Code, success, refused, failed, zeros, blackboard_bytesize, recv, recv_rest, log_message,
  lock_bsem, unlock_bsem, lock_asem, unlock_asem, wipe, write_board, trigger_broadcast,
}
use virtual_blackboard.Server.BoardHandler.{
  archive_blackboard, archiver_round, await_archiver, receive_board, finish, conclude, update_board,
  board_handler,
}

archiver_round-streams : (w u : World) → archiver_round w ≡ ok u → u.streams ≡ w.streams
unfolding archiver_round archive_blackboard lock_bsem unlock_bsem unlock_asem
archiver_round-streams w u e = ground arith

await_archiver-streams : (w u : World) → await_archiver w ≡ ok u → u.streams ≡ w.streams
unfolding await_archiver lock_asem
await_archiver-streams w u e = grind (arith, archiver_round-streams)

finish-streams : (mtype : ℕ) (w : World) → (finish mtype w).streams ≡ w.streams
unfolding finish trigger_broadcast unlock_bsem
finish-streams mtype w = ground arith

receive_board-streams :
    (sfd n : ℕ) (w : World) → (receive_board sfd n w).0.streams ≡ (recv sfd n w).0.streams
unfolding receive_board write_board log_message unlock_bsem
receive_board-streams sfd n w = ground arith

-- What is left of a connection after a `recv`.
pub recv_shorter :
    (sfd n : ℕ) (w : World)
    → length ((recv sfd n w).0.streams sfd).bytes ≤ length (w.streams sfd).bytes
recv_shorter sfd n w = rw (recv_rest sfd n w) (omega (arith, length-drop n (w.streams sfd).bytes))

conclude-streams :
    (mtype : ℕ) (c r : World × Code) → conclude mtype c ≡ ok r → r.0.streams ≡ c.0.streams
unfolding conclude
conclude-streams mtype (w, success) r e = ground (arith, finish-streams mtype w)
conclude-streams mtype (w, refused) r e = ground (arith, finish-streams mtype w)
conclude-streams mtype (w, failed) r e = ground arith

update_board-streams :
    (sfd n mtype : ℕ) (w : World) (r : World × Code)
    → update_board sfd n mtype w ≡ ok r
    → length (r.0.streams sfd).bytes ≤ length (w.streams sfd).bytes
unfolding update_board lock_bsem wipe
update_board-streams sfd n mtype w r e =
    let w' = record w { bsem = w.bsem - 1; board = zeros blackboard_bytesize } in
    elim (Bool-cases (n == 0)) [
      | inl none_sent ↦ ground (arith, finish-streams mtype w')
      | inr some_sent ↦ ground (
        arith,
        conclude-streams mtype (receive_board sfd n w') r,
        receive_board-streams sfd n w',
        recv_shorter sfd n w',
      )
    ]

pub board_handler-streams :
    (sfd n mtype : ℕ) (w : World) (r : World × Code)
    → board_handler sfd n mtype w ≡ ok r
    → length (r.0.streams sfd).bytes ≤ length (w.streams sfd).bytes
unfolding board_handler log_message
board_handler-streams sfd n mtype w r e =
    grind (arith, await_archiver-streams, update_board-streams)
