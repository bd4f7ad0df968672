-- ===== src/Server/ClientThread.antt =====
-- `client_handler` of src/server/client_thread.c: the life of one connection. A connection
-- delivers finitely many bytes and each round of the loop takes at least one of them, so the loop
-- is given one round more than there are bytes.
pub mod Refused
pub mod Full
pub mod Message
pub mod Session
pub mod Lifetime
use virtual_blackboard.Prelude.{
  ℕ, zero, suc, ◌==◌, if◌then◌else◌, length, Outcome, ok, out_of_fuel, ◌>>=◌,
}
use virtual_blackboard.ClientList.{remove_client}
use virtual_blackboard.ClientList.Seg.{Ptr}
use virtual_blackboard.Net.{
  m_board, m_clear, m_request, m_reply, m_shutdown, sizeof_net_header, NetHeader,
}
use virtual_blackboard.Server.World.{
  World, Code, success, failed, positive, recv, log_error, log_info, trigger_status, with_clients,
  close,
}
use virtual_blackboard.Server.LoginHandler.{login_handler, header_of}
use virtual_blackboard.Server.BoardHandler.{board_handler}
use virtual_blackboard.Server.RequestHandler.{request_handler}
use virtual_blackboard.Server.ReplyHandler.{reply_handler}
use virtual_blackboard.Server.ShutdownHandler.{shutdown_handler}

-- The `switch` over the message type.
unfoldable pub dispatch : (sfd : ℕ) → NetHeader → World → Outcome (World × Code)
dispatch sfd header w =
    if header.type == m_board
    then board_handler sfd header.size header.type w
    else if header.type == m_clear
    then if header.size == 0 then board_handler sfd 0 header.type w else ok (w, failed)
    else if header.type == m_request
    then request_handler sfd w
    else if header.type == m_reply
    then reply_handler sfd w
    else if header.type == m_shutdown
    then shutdown_handler sfd w
    else ok (log_error "client thread: message type unknown" w, failed)

-- The loop over the messages.
unfoldable pub serve : (fuel : ℕ) → (sfd : ℕ) → World → Outcome World
serve zero sfd w = out_of_fuel
serve (suc fuel) sfd w =
    let (w', received, buffer) = recv sfd sizeof_net_header w in
    elim received [
      | positive ↦ dispatch sfd (header_of buffer) w' >>= λ (w'', code). elim code [
        | failed ↦ ok w''
        | _ ↦ serve fuel sfd w''
      ]
      | _ ↦ ok (log_info "client thread: connection error or closed by client" w')
    ]

-- The end of the thread: the client leaves the list and the others are told.
unfoldable pub leave : (sfd : ℕ) → World → Outcome World
leave sfd w = do
  (s, code) ← remove_client sfd w.clients
  ok (close sfd (trigger_status (with_clients w s)))

-- `fresh` is what `malloc` returns for the client's entry.
unfoldable pub client_handler : (fresh : Ptr) → (sfd : ℕ) → World → Outcome World
client_handler fresh sfd w =
    login_handler fresh sfd (log_info "client thread: handle a new login" w) >>= λ (w', code).
    elim code [
      | success ↦ (do
        let w' = log_info "client thread: login successful" w'
        w'' ← serve (suc (length (w'.streams sfd).bytes)) sfd w'
        leave sfd w'')
      | _ ↦ ok (close sfd (log_error "client thread: login failed" w'))
    ]
