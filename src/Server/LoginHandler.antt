-- ===== src/Server/LoginHandler.antt =====
-- `login_handler` of src/server/message_handler.c: the first message of a connection.
pub mod Admitted
pub mod Full
pub mod Total
pub mod Race
use virtual_blackboard.Prelude.{
  ℕ, ◌+◌, not, List, [], ◌∷◌, ◌++◌, ltb, ◌==◌, if◌then◌else◌, length, Outcome, ok, ◌>>=◌,
}
use virtual_blackboard.ClientList.{
  indifferent, student, docent, lock_clientlist, unlock_clientlist, add_client, docent_exists,
  get_next_cid,
}
use virtual_blackboard.ClientList.Seg.{Ptr, ClientData}
use virtual_blackboard.Net.{
  m_login, e_login, sizeof_net_header, sizeof_net_board, sizeof_net_error, NetHeader, ntoh_header,
}
use virtual_blackboard.Net.Strings.{codes, strlen}
use virtual_blackboard.Net.Build.{build_board, build_error}
use virtual_blackboard.Server.World.{
  World, Code, success, refused, failed, positive, zero_bytes, negative, recv, send, log_error,
  log_info, lock_bsem, unlock_bsem, trigger_status, with_clients,
}

-- The header that was received, or the stale bytes that the buffer held.
unfoldable pub header_of : List ℕ → NetHeader
unfolding ntoh_header
header_of (type ∷ high ∷ low ∷ rest) = ntoh_header type high low
header_of _ = record { type = 0; size = 0 }

-- The client data behind `memset`, with the id that `get_next_cid` gave.
abbrev pub cleared : (cid : ℕ) → ClientData
cleared cid = record { cid = cid; sfd = 0; role = 0; name = 0 ∷ [] }

-- The socket is set, the received bytes go over the fields `role` and `name`, and the name's last
-- byte stays 0.
unfoldable pub client_data : (cid sfd : ℕ) → (buffer : List ℕ) → ClientData
client_data cid sfd [] = record (cleared cid) { sfd = sfd }
client_data cid sfd (role ∷ name) = record (cleared cid) {
  sfd = sfd;
  role = role;
  name = name ++ 0 ∷ [];
}

-- The role that the server assigns.
unfoldable pub assign_role : (role : ℕ) → World → Outcome (World × ℕ)
assign_role role w =
    if role == indifferent
    then (do
      s ← lock_clientlist w.clients
      let given = if not (docent_exists s == 0) then student else docent
      ok (with_clients w (unlock_clientlist s), given))
    else if role == student
    then ok (w, student)
    else if role == docent
    then ok (w, if not (docent_exists w.clients == 0) then student else docent)
    else ok (log_error "login handler: invalid role." w, student)

-- The current board goes to the new client.
pub send_initial_board : (sfd : ℕ) → World → Outcome World
send_initial_board sfd w = do
  w ← lock_bsem w
  n ← strlen w.board
  let message = build_board w.board n
  let (w', sent) = send sfd message (sizeof_net_board + n) (unlock_bsem w)
  ok w'

abbrev pub too_many_text : List ℕ
too_many_text = codes "There are too many clients. Sorry!"

-- No id is left. `cdata->sfd` has not been set yet.
pub reject : ClientData → World → World × Code
reject cdata w =
    let error = build_error e_login too_many_text (length too_many_text) in
    let (w', sent) =
      send cdata.sfd error (sizeof_net_error + length too_many_text)
        (log_error "login handler: too many clients" w) in
    (w', failed)

-- The client is entered in the list, gets the board, and the others are told. `fresh` is what
-- `malloc` returns for its entry.
pub seat : (fresh : Ptr) → ClientData → World → Outcome (World × Code)
unfolding send_initial_board
seat fresh cdata w = do
  s ← add_client fresh cdata w.clients
  w ← send_initial_board cdata.sfd (with_clients w s)
  ok (log_info "login handler: client login successful" (trigger_status w), success)

pub enter : (fresh : Ptr) → ClientData → World → Outcome (World × Code)
enter fresh cdata w = do
  (w, role) ← assign_role cdata.role w
  seat fresh (record cdata { role = role }) w

-- The part behind the two calls of `recv`.
pub admit : (fresh : Ptr) → (sfd : ℕ) → (buffer : List ℕ) → World → Outcome (World × Code)
unfolding reject
admit fresh sfd buffer w =
    let (counter, cid) = get_next_cid w.cid_counter in
    let w' = record w { cid_counter = counter } in
    if cid == 0 then ok (reject (cleared cid) w') else enter fresh (client_data cid sfd buffer) w'

-- The login message itself.
pub receive_login : (fresh : Ptr) → (sfd size : ℕ) → World → Outcome (World × Code)
receive_login fresh sfd size w =
    let (w', received, buffer) = recv sfd size w in
    elim received [
      | positive ↦ admit fresh sfd buffer w'
      | zero_bytes ↦ ok (log_error "login handler: connection closed by client" w', failed)
      | negative ↦ ok (log_error "login handler: connection error" w', failed)
    ]

unfoldable pub login_handler : (fresh : Ptr) → (sfd : ℕ) → World → Outcome (World × Code)
unfolding receive_login
login_handler fresh sfd w =
    let (w', received, buffer) = recv sfd sizeof_net_header w in
    let header = header_of buffer in
    if not (header.type == m_login)
    then ok (log_error "login handler: got wrong message type." w', refused)
    else elim received [
      | positive ↦
          if ltb header.size 2
          then ok (log_error "login handler: login message too short." w', failed)
          else receive_login fresh sfd header.size w'
      | _ ↦ ok (log_error "login handler: connection closed by client" w', failed)
    ]
