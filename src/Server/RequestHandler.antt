-- ===== src/Server/RequestHandler.antt =====
-- `request_handler` of src/server/message_handler.c: a client asks for the write access or gives
-- it back, and the docent takes it back.
pub mod Policy
pub mod Streams
use virtual_blackboard.Prelude.{
  ℕ, ◌+◌, Bool, true, false, not, List, [], ◌∷◌, ◌==◌, if◌then◌else◌, length, Outcome, ok, ◌>>=◌,
}
use virtual_blackboard.ClientList.{
  ClientList, load, lock_clientlist, unlock_clientlist, has_write_access, is_docent, get_docent,
  get_write_user, set_write_user, docent_exists, tutor_exists, get_user_sfd,
}
use virtual_blackboard.ClientList.Seg.{Ptr, null}
use virtual_blackboard.Net.{e_message, sizeof_net_error, sizeof_net_query}
use virtual_blackboard.Net.Strings.{codes, strlen}
use virtual_blackboard.Net.Build.{build_error, build_query}
use virtual_blackboard.Server.World.{
  World, Code, success, failed, Received, positive, zero_bytes, negative, recv, send, log_error,
  log_info, trigger_status, with_clients,
}

-- The return with the mutex released.
abbrev pub leave : World → ClientList → Code → Outcome (World × Code)
leave w s code = ok (with_clients w (unlock_clientlist s), code)

abbrev pub revoked_text : List ℕ
revoked_text = codes "Your write access was revoked by the docent."

-- The docent requests the write privilege: the old owner gets a message.
docent_request : World → ClientList → Outcome (World × Code)
docent_request w s = do
  let user = get_write_user s
  let s = set_write_user (get_docent s) s
  let w = log_info "request handler: write access revoked" w
  e ← load s.cell user
  let error = build_error e_message revoked_text (length revoked_text)
  let (w, sent) = send e.cdata.sfd error (sizeof_net_error + length revoked_text) w
  leave (trigger_status w) s success

-- Give back write access.
give_back : World → ClientList → Outcome (World × Code)
give_back w s = leave (trigger_status w) (set_write_user (get_docent s) s) success

-- No docent exists: a client can gain write access if nobody has it.
self_service : (sfd : ℕ) → World → ClientList → Outcome (World × Code)
self_service sfd w s =
    if not (tutor_exists s == 0)
    then leave w s success
    else do user ← get_user_sfd sfd s; leave (trigger_status w) (set_write_user user s) success

-- The query to the docent.
query_docent : (user docent : Ptr) → World → ClientList → Outcome (World × Code)
query_docent user docent w s = do
  e ← load s.cell user
  n ← strlen e.cdata.name
  let query = build_query e.cdata.cid e.cdata.name n
  d ← load s.cell docent
  let (w, sent) = send d.cdata.sfd query (sizeof_net_query + n) w
  if sent
      then leave (log_info "request handler: write access requested" w) s success
      else leave w s failed

ask_docent : (sfd : ℕ) → (docent : Ptr) → World → ClientList → Outcome (World × Code)
ask_docent sfd docent w s = do
  user ← get_user_sfd sfd s
  if user == null then leave w s failed else query_docent user docent w s

-- The three ways to change the write access.
change_access : (sfd write : ℕ) → World → ClientList → Outcome (World × Code)
change_access sfd write w s = do
  docent ← is_docent sfd s
  if not (docent == 0)
      then docent_request w s
      else if write == 0
      then give_back w s
      else if docent_exists s == 0
      then self_service sfd w s
      else ask_docent sfd (get_docent s) w s

-- The handler behind `recv`, for the value of the field `write`.
pub request : (sfd write : ℕ) → World → Outcome (World × Code)
request sfd write w = do
  s ← lock_clientlist w.clients
  access ← has_write_access sfd s
  if write == access then leave w s success else change_access sfd write w s

-- The byte that was received.
byte : List ℕ → ℕ
byte [] = 0
byte (b ∷ bs) = b

unfoldable pub request_handler : (sfd : ℕ) → World → Outcome (World × Code)
unfolding byte
request_handler sfd w =
    let (w', received, buffer) = recv sfd 1 w in
    elim received [
      | positive ↦ request sfd (byte buffer) w'
      | zero_bytes ↦ ok (log_error "request handler: connection closed by client" w', failed)
      | negative ↦ ok (log_error "request handler: connection error" w', failed)
    ]
