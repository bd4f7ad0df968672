-- ===== src/Server/ShutdownHandler.antt =====
-- `shutdown_handler` of src/server/message_handler.c: a request to stop the system.
pub mod Docent
use virtual_blackboard.Prelude.{ℕ, true, ◌==◌, if◌then◌else◌, Outcome, ok, ◌>>=◌}
use virtual_blackboard.ClientList.{lock_clientlist, unlock_clientlist, is_docent}
use virtual_blackboard.Server.World.{
  World, Code, success, failed, log_error, log_debug, with_clients,
}

-- `interrupted` stands for the signal SIGINT that is sent to the whole process group.
unfoldable pub shutdown_handler : (sfd : ℕ) → World → Outcome (World × Code)
shutdown_handler sfd w = do
  let w = log_debug "shutdown handler: got shutdown request" w
  s ← lock_clientlist w.clients
  docent ← is_docent sfd s
  let w = with_clients w (unlock_clientlist s)
  if docent == 0
      then ok (log_error "shutdown handler: non-RFC compliant client kicked" w, failed)
      else ok (record w { interrupted = true }, success)
