-- ===== src/Client/Commands.antt =====
-- The messages that the client sends, and its command thread: src/client/command_thread.c, and
-- `send_board_content` of src/client/liveagent_thread.c.
use virtual_blackboard.Prelude.{
  ℕ, ◌+◌, ◌%◌, ◌^◌, true, false, List, [], ◌∷◌, ◌++◌, length, ◌==◌, if◌then◌else◌, none, some,
  Outcome, ok, fault, blocked, ◌>>=◌,
}
use virtual_blackboard.Net.{m_login, m_board, m_clear, m_shutdown, m_request, m_reply, htons}
use virtual_blackboard.Client.State.{
  Client, cdata_lock, cdata_unlock, board_lock, board_unlock, send,
}

-- The bytes of each message.
unfoldable pub login_message : (role : ℕ) → (name : List ℕ) → List ℕ
unfolding htons
login_message role name = m_login ∷ htons ((1 + length name) % 2 ^ 16) ++ (role ∷ name)

unfoldable pub clear_message : List ℕ
clear_message = m_clear ∷ 0 ∷ 0 ∷ []

unfoldable pub request_message : (write : ℕ) → List ℕ
unfolding htons
request_message write = m_request ∷ htons 1 ++ write ∷ []

unfoldable pub reply_message : (write cid : ℕ) → List ℕ
unfolding htons
reply_message write cid = m_reply ∷ htons 3 ++ (write ∷ htons cid)

unfoldable pub shutdown_message : List ℕ
shutdown_message = m_shutdown ∷ 0 ∷ 0 ∷ []

unfoldable pub board_message : (buffer : List ℕ) → List ℕ
unfolding htons
board_message buffer = m_board ∷ htons (length buffer % 2 ^ 16) ++ buffer

unfoldable pub send_login : (role : ℕ) → (name : List ℕ) → Client → Client
send_login role name = send (login_message role name)

unfoldable pub send_board_clean : Client → Client
send_board_clean = send clear_message

unfoldable pub send_request : (write : ℕ) → Client → Client
send_request write = send (request_message write)

unfoldable pub send_reply : (write cid : ℕ) → Client → Client
send_reply write cid = send (reply_message write cid)

unfoldable pub send_shutdown : Client → Client
send_shutdown = send shutdown_message

-- The board's mutex is held while the message is sent. `blackboard` is NULL until the user has
-- changed the text.
unfoldable pub send_board_content : Client → Outcome Client
send_board_content c = do
  c ← board_lock c
  elim c.blackboard [
    | none ↦ fault
    | some buffer ↦ ok (board_unlock (send (board_message buffer) c))
  ]

-- The newest command replaces an older one that the thread has not served.
unfoldable pub trigger_command : (type : ℕ) → Client → Client
trigger_command type c = record c { command_type = type; triggered = true }

-- The login with the mutex of the user's data taken.
login : Client → Outcome Client
login c = do c ← cdata_lock c; ok (cdata_unlock (send_login c.role c.name c))

-- A docent always asks for the write access, the others ask for what they do not have.
request_command : Client → Client
request_command c =
    if c.role == 2 then send_request 1 c else send_request (if c.write == 0 then 1 else 0) c

-- One round of the command thread: it waits for the trigger and serves the type that was set last.
unfoldable pub command_round : Client → Outcome Client
unfolding login request_command
command_round c =
    if c.triggered
    then (let c' = record c { triggered = false } in
        if c.command_type == m_login
        then login c'
        else if c.command_type == m_clear
        then ok (send_board_clean c')
        else if c.command_type == m_request
        then ok (request_command c')
        else if c.command_type == m_shutdown
        then ok (send_shutdown c')
        else ok c')
    else blocked

-- The start of the thread logs the user in.
unfoldable pub command_start : Client → Outcome Client
unfolding login
command_start = login

unfoldable pub trigger_liveagent : Client → Client
trigger_liveagent c = record c { liveagent = true }

-- One round of the live agent.
unfoldable pub liveagent_round : Client → Outcome Client
liveagent_round c =
    if c.liveagent then send_board_content (record c { liveagent = false }) else blocked

-- The signal SIGALRM, when the timer has run down.
unfoldable pub alarm : Client → Outcome Client
alarm c = if c.timer then send_board_content (record c { timer = false }) else blocked
