-- ===== src/Server/Broadcasting.antt =====
-- The broadcasting agent of src/server/broadcasting.c.
pub mod Recipients
pub mod Trigger
pub mod Numbers
use virtual_blackboard.Prelude.{
  ℕ, zero, suc, ◌+◌, ◌-◌, ◌%◌, ◌^◌, Bool, true, false, List, ◌&&◌, ◌==◌, if◌then◌else◌, Outcome, ok,
  blocked, out_of_fuel, ◌>>=◌,
}
use virtual_blackboard.ClientList.{
  ClientList, load, max_entries, start_iteration, iteration_next, end_iteration, docent_exists,
  tutor_exists, get_client_count, get_write_user,
}
use virtual_blackboard.ClientList.Seg.{Ptr, null, ClientData}
use virtual_blackboard.Net.{sizeof_net_header, sizeof_net_status}
use virtual_blackboard.Net.Strings.{strlen}
use virtual_blackboard.Net.Build.{build_status, build_board}
use virtual_blackboard.Server.World.{
  World, Broadcast, status, blackboard, clear, send, log_debug, lock_bsem, unlock_bsem,
  with_clients,
}

-- The message for one client, made from its entry.
pub deliver : (message : Ptr → ClientData → List ℕ × ℕ) → (current : Ptr) → World → Outcome World
deliver message current w = do
  e ← load w.clients.cell current
  let (bytes, n) = message current e.cdata
  let (w', sent) = send e.cdata.sfd bytes n w
  ok w'

-- One round of the loop of both broadcasts: the client's message, unless its entry is skipped, and
-- the next entry.
pub broadcast_step :
    (message : Ptr → ClientData → List ℕ × ℕ)
    → (skip : Ptr → Bool) → (current : Ptr) → World
    → Outcome (World × Ptr)
broadcast_step message skip current w = do
  w ← if skip current then ok w else deliver message current w
  (s, next) ← iteration_next w.clients
  ok (with_clients w s, next)

-- The loop `while (current != NULL)`.
pub broadcast_loop :
    (fuel : ℕ)
    → (message : Ptr → ClientData → List ℕ × ℕ) → (skip : Ptr → Bool) → (current : Ptr) → World
    → Outcome World
broadcast_loop zero message skip current w = out_of_fuel
broadcast_loop (suc fuel) message skip current w = elim (current == null) [
  | true ↦ ok w
  | false ↦ broadcast_step message skip current w >>= λ (w', next).
      broadcast_loop fuel message skip next w'
]

-- The numbers of users that a status message carries: `uint8_t`, `uint8_t` and `uint16_t`.
unfoldable pub user_counts : ClientList → ℕ × ℕ × ℕ
user_counts s =
    let dcount = docent_exists s in
    let tcount = tutor_exists s in
    (dcount, tcount, (get_client_count s + 2 ^ 32 - dcount - tcount) % 2 ^ 16)

unfoldable pub status_message : ClientList → Ptr → ClientData → List ℕ × ℕ
status_message s current c =
    let (dcount, tcount, scount) = user_counts s in
    let permission = if current == get_write_user s then 1 else 0 in
    (build_status c.role c.cid permission dcount tcount scount, sizeof_net_status)

unfoldable pub broadcast_status : World → Outcome World
broadcast_status w = do
  (s, current) ← start_iteration w.clients
  w ← broadcast_loop max_entries (status_message s) (λ _. false) current (with_clients w s)
  ok (
      log_debug "broadcasting agent: status sent to all connected clients"
        (with_clients w (end_iteration w.clients)))

-- `excl_w` leaves out the user with write access.
unfoldable pub broadcast_blackboard : (excl_w : Bool) → World → Outcome World
broadcast_blackboard excl_w w = do
  w ← lock_bsem w
  n ← strlen w.board
  let message = build_board w.board n
  let w = unlock_bsem w
  (s, current) ← start_iteration w.clients
  w ←
      broadcast_loop max_entries (λ p c. (message, sizeof_net_header + n))
        (λ p. (p == get_write_user s) && excl_w) current (with_clients w s)
  ok (
      log_debug "broadcasting agent: blackboard sent to all connected clients"
        (with_clients w (end_iteration w.clients)))

-- One round of the agent's loop: it waits for the trigger and serves the type that was set last.
unfoldable pub agent_round : World → Outcome World
agent_round w =
    if w.signalled
    then (let w' = record w { signalled = false } in
        elim w.broadcast_type [
          | status ↦ broadcast_status (log_debug "broadcasting agent: received status trigger" w')
          | blackboard ↦
              broadcast_blackboard true
                (log_debug "broadcasting agent: received blackboard trigger" w')
          | clear ↦
              broadcast_blackboard false (log_debug "broadcasting agent: received clear trigger" w')
        ])
    else blocked
