-- ===== src/Server/ReplyHandler.antt =====
-- `reply_handler` of src/server/message_handler.c: the docent's answer to a request.
pub mod Answer
use virtual_blackboard.Prelude.{
  ℕ, ◌+◌, Bool, List, [], ◌∷◌, ◌==◌, if◌then◌else◌, length, Outcome, ok, ◌>>=◌,
}
use virtual_blackboard.ClientList.{
  ClientList, load, lock_clientlist, unlock_clientlist, is_docent, set_write_user, get_user_cid,
}
use virtual_blackboard.ClientList.Seg.{Ptr, null}
use virtual_blackboard.Net.{e_message, sizeof_net_error, ntohs}
use virtual_blackboard.Net.Strings.{codes}
use virtual_blackboard.Net.Build.{build_error}
use virtual_blackboard.Server.World.{
  World, Code, success, failed, positive, zero_bytes, negative, recv, send, log_error, log_debug,
  trigger_status, with_clients,
}

abbrev pub leave : World → ClientList → Code → Outcome (World × Code)
leave w s code = ok (with_clients w (unlock_clientlist s), code)

abbrev pub denied_text : List ℕ
denied_text = codes "Request denied by docent"

-- `user` is dereferenced before the test against NULL below.
deny : (user : Ptr) → World → ClientList → Outcome (World × Code)
deny user w s = do
  e ← load s.cell user
  let error = build_error e_message denied_text (length denied_text)
  let (w, sent) = send e.cdata.sfd error (sizeof_net_error + length denied_text) w
  leave (log_debug "reply handler: write access denied" w) s success

grant : (user : Ptr) → World → ClientList → Outcome (World × Code)
grant user w s =
    if user == null
    then leave (log_error "reply handler: user not found" w) s success
    else leave (trigger_status (log_debug "reply handler: write access granted" w))
        (set_write_user user s) success

answer : (write cid : ℕ) → World → ClientList → Outcome (World × Code)
answer write cid w s = do
  user ← get_user_cid cid s
  if write == 0 then deny user w s else grant user w s

-- The handler behind `recv`, for the two fields of the message in host byte order.
pub reply : (sfd write cid : ℕ) → World → Outcome (World × Code)
reply sfd write cid w = do
  s ← lock_clientlist w.clients
  docent ← is_docent sfd s
  if docent == 0
      then leave (log_error "reply handler: non-RFC compliant client kicked" w) s failed
      else answer write cid w s

-- The fields `write` and `cid` of the received bytes.
fields : List ℕ → ℕ × ℕ
unfolding ntohs
fields (write ∷ high ∷ low ∷ rest) = (write, ntohs high low)
fields _ = (0, 0)

unfoldable pub reply_handler : (sfd : ℕ) → World → Outcome (World × Code)
unfolding fields
reply_handler sfd w =
    let (w', received, buffer) = recv sfd 3 w in
    let (write, cid) = fields buffer in
    elim received [
      | positive ↦ reply sfd write cid (log_debug "reply handler: got reply from docent" w')
      | zero_bytes ↦ ok (log_error "reply handler: connection closed by client" w', failed)
      | negative ↦ ok (log_error "reply handler: connection error" w', failed)
    ]
