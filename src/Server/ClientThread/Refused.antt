-- ===== src/Server/ClientThread/Refused.antt =====
-- A board message from a client without write access.
use virtual_blackboard.Prelude.{ℕ, suc, ◌≡◌, ◌∙◌, ap, drop, List, ◌∷◌, ok}
use virtual_blackboard.ClientList.Seg.{Roster}
use virtual_blackboard.ClientList.Lookup.{client_at, is_at}
use virtual_blackboard.Net.{m_board, ntohs, ntoh_header}
use virtual_blackboard.Server.World.{
  World, success, recv, recv_positive, recv_buffer, recv_rest, fill, log_message, log_error,
}
use virtual_blackboard.Server.Invariant.{Inv}
use virtual_blackboard.Server.LoginHandler.{header_of}
use virtual_blackboard.Server.BoardHandler.{board_handler}
use virtual_blackboard.Server.BoardHandler.Access.{board_handler-refused}
use virtual_blackboard.Server.ClientThread.{dispatch, serve}

refused_run :
    (w : World) (xs : Roster)
    → Inv w xs
    → (sfd n : ℕ) → is_at sfd (client_at w.clients.user_write xs) ≡ 0
    → board_handler sfd n m_board (recv sfd 3 w).0
      ≡ ok (log_error "board handler: user without write access" (recv sfd 3 w).0, success)
unfolding recv
refused_run w xs v sfd n reader = board_handler-refused (recv sfd 3 w).0 xs v sfd n m_board reader

-- A client without write access that sends a board message is not disconnected, and the content of
-- its message is not read: the loop goes on, and takes the content for the next messages.
pub serve-refused :
    (w : World) (xs : Roster)
    → Inv w xs
    → (fuel sfd high low : ℕ) (content : List ℕ)
    → (w.streams sfd).bytes ≡ m_board ∷ high ∷ low ∷ content
    → is_at sfd (client_at w.clients.user_write xs) ≡ 0
    → let next = log_error "board handler: user without write access" (recv sfd 3 w).0 in
      (serve (suc fuel) sfd w ≡ serve fuel sfd next) × ((next.streams sfd).bytes ≡ content)
unfolding serve dispatch header_of ntoh_header fill log_message recv
serve-refused w xs v fuel sfd high low content arrived reader = (
  rw (
    recv_positive sfd 3 m_board _ w arrived,
    recv_buffer sfd 3 _ w arrived,
    refused_run w xs v sfd (ntohs high low) reader,
  ),
  recv_rest sfd 3 w ∙ ap (drop 3) arrived,
)
