-- ===== src/Tests.antt =====
-- The theorems at a small class: a docent and a student who has the write access.
pub mod Messages
pub mod Locks
pub mod Threads
pub mod TextView
pub mod Startup
pub mod Reached
pub mod Logging
pub mod Options
pub mod LoginThread
use virtual_blackboard.Prelude.{
  ℕ, ◌+◌, length, ◌≡◌, refl, true, false, none, some, List, [], ◌∷◌, inr, ok, fault, blocked,
  Returns, ltb, ◌==◌, ◌&&◌, if◌then◌else◌, ◌<◌, arith,
}
use virtual_blackboard.ClientList.{
  empty, ClientList, add_client, remove_client, max_entries, get_next_cid,
}
use virtual_blackboard.ClientList.Seg.{ClientData, Roster, entry, update}
use virtual_blackboard.ClientList.Represents.{Represents, empty-Represents}
use virtual_blackboard.ClientList.Lookup.{find_addr, client_at, is_at}
use virtual_blackboard.ClientList.Add.{node, Added, add_client-Added}
use virtual_blackboard.ClientList.Unlink.{Removed}
use virtual_blackboard.ClientList.Remove.{
  without, connected, has_sfd, remove_client-Removed, remove_client-missing,
}
use virtual_blackboard.ClientList.Ids.{counter_after, get_next_cid-counter_after}
use virtual_blackboard.Net.{ntohs, e_login}
use virtual_blackboard.Net.Strings.{strlen}
use virtual_blackboard.Net.Build.{build_board, build_error}
use virtual_blackboard.Server.World.{
  World, Broadcast, Code, fill, recv, send, log_error, trigger_status, trigger_broadcast,
}
use virtual_blackboard.Server.ReplyHandler.{reply_handler}
use virtual_blackboard.Server.ReplyHandler.Answer.{
  granted_writer, reply_handler-Gives, reply_handler-fault,
}
use virtual_blackboard.Server.BoardHandler.{board_handler}
use virtual_blackboard.Server.BoardHandler.Content.{painted, painted-IsBoard}
use virtual_blackboard.Server.BoardHandler.Access.{Handled, archive_after, board_handler-Handled}
use virtual_blackboard.Server.ShutdownHandler.{shutdown_handler}
use virtual_blackboard.Server.ShutdownHandler.Docent.{shutdown_handler-docent}
use virtual_blackboard.Server.Broadcasting.{broadcast_status, broadcast_blackboard, agent_round}
use virtual_blackboard.Server.Broadcasting.Recipients.{
  delivered, broadcast_status-delivered, broadcast_blackboard-delivered,
}
use virtual_blackboard.Server.Broadcasting.Numbers.{status_bytes}
use virtual_blackboard.Server.Broadcasting.Trigger.{agent_round-latest}
use virtual_blackboard.Server.ClientThread.{client_handler, serve}
use virtual_blackboard.Server.ClientThread.Refused.{serve-refused}
use virtual_blackboard.Server.Invariant.{Inv, Gives}
use virtual_blackboard.Server.LoginHandler.{login_handler, too_many_text}
use virtual_blackboard.Server.LoginHandler.Admitted.{Admitted, newcomer, login_handler-Admitted}
use virtual_blackboard.Server.LoginHandler.Race.{two_logins, two_logins-docents}
use virtual_blackboard.Server.ClientThread.Full.{messages_to, too_many_message, client_handler-full}
use virtual_blackboard.Server.RequestHandler.{request_handler}
use virtual_blackboard.Server.RequestHandler.Policy.{new_writer, request_handler-Gives}

abbrev alice : ClientData
alice = record { cid = 1; sfd = 4; role = 2; name = 65 ∷ 0 ∷ [] }

abbrev bob : ClientData
bob = record { cid = 2; sfd = 5; role = 1; name = 66 ∷ 0 ∷ [] }

abbrev carol : ClientData
carol = record { cid = 3; sfd = 6; role = 1; name = 67 ∷ 0 ∷ [] }

abbrev roster : Roster
roster = node 10 alice ∷ node 20 bob ∷ []

abbrev classroom : ClientList
classroom = record {
  cell = update (update (λ _. none) 10 (some (entry alice 20 0))) 20 (some (entry bob 0 10));
  cl_first = 10;
  cl_last = 20;
  user_docent = 10;
  user_write = 20;
  iterator = 0;
  client_counter = 2;
  locked = false;
}

classroom-Represents : Represents classroom roster
classroom-Represents = record {
  linked = (omega arith, refl, (omega arith, refl, tt));
  distinct = (refl, (refl, tt));
  first = refl;
  last = refl;
  counted = refl;
  docent_held = inr refl;
  write_held = inr refl;
}

-- Every connection delivers the same bytes; the board says "Hi".
abbrev world : List ℕ → World
world bytes = record {
  clients = classroom;
  cid_counter = 2;
  streams = λ sfd. record { bytes = bytes; broken = false };
  sent = [];
  board = painted 2 (72 ∷ 105 ∷ []);
  bsem = 1;
  asem = 1;
  archive = [];
  broadcast_type = Broadcast.status;
  signalled = false;
  log = [];
  interrupted = false;
  closed = [];
  stale = λ i. 0;
  sends = λ sfd. true;
  clock = [];
}

world-Inv : (bytes : List ℕ) → Inv (world bytes) roster
world-Inv bytes = record {
  represents = classroom-Represents;
  unlocked = refl;
  granted = λ d w. absurd (omega arith);
  few = omega arith;
  counter = omega arith;
  is_board = painted-IsBoard 2 (72 ∷ 105 ∷ []) refl;
  bsem_free = refl;
  asem_free = refl;
  named = (refl, (refl, tt));
}

few : 2 < max_entries
unfolding max_entries
few = omega arith

add_client-Added_example :
    (t : ClientList) × (add_client 30 carol classroom ≡ ok t) × Added 30 carol classroom t roster
add_client-Added_example =
    add_client-Added 30 carol classroom roster (λ e. absurd (omega arith)) refl classroom-Represents
      refl

remove_client-Removed_example :
    (t : ClientList) × (remove_client 5 classroom ≡ ok (t, 0))
    × Removed (find_addr (has_sfd 5) roster) classroom t (without 5 roster)
unfolding connected
remove_client-Removed_example =
    remove_client-Removed classroom 5 roster classroom-Represents refl few refl

remove_client-missing_example : remove_client 9 classroom ≡ fault
unfolding connected
remove_client-missing_example =
    remove_client-missing classroom 9 roster classroom-Represents refl few refl

-- Bob gives the write access back.
request_handler-Gives_example :
    Gives
      (new_writer 5 0 classroom roster)
      (world (0 ∷ []))
      roster
      (request_handler 5 (world (0 ∷ [])))
request_handler-Gives_example =
    request_handler-Gives (world (0 ∷ [])) roster (world-Inv (0 ∷ [])) 5 0 [] refl

-- Alice grants the access to Bob.
reply_handler-Gives_example :
    Gives
      (granted_writer 4 1 (ntohs 0 2) classroom roster)
      (world (1 ∷ 0 ∷ 2 ∷ []))
      roster
      (reply_handler 4 (world (1 ∷ 0 ∷ 2 ∷ [])))
reply_handler-Gives_example =
    reply_handler-Gives (world (1 ∷ 0 ∷ 2 ∷ [])) roster (world-Inv (1 ∷ 0 ∷ 2 ∷ [])) 4 1 0 2 [] refl
      (inr (λ e. absurd (omega arith)))

-- Alice denies the request of client 7, who has left.
reply_handler-fault_example : reply_handler 4 (world (0 ∷ 0 ∷ 7 ∷ [])) ≡ fault
unfolding is_at client_at find_addr ntohs
reply_handler-fault_example =
    reply_handler-fault (world (0 ∷ 0 ∷ 7 ∷ [])) roster (world-Inv (0 ∷ 0 ∷ 7 ∷ [])) 4 0 7 [] refl
      refl refl

board_handler-Handled_example :
    Returns
      (Handled (archive_after 3 (world [])) 5 0 (world []) roster)
      (board_handler 5 0 3 (world []))
unfolding is_at client_at
board_handler-Handled_example = board_handler-Handled (world []) roster (world-Inv []) 5 0 3 refl

shutdown_handler-docent_example :
    Returns
      (λ r. Inv r.0 roster × (r.0.interrupted ≡ true) × (r.1 ≡ Code.success))
      (shutdown_handler 4 (world []))
unfolding is_at client_at
shutdown_handler-docent_example = shutdown_handler-docent (world []) roster (world-Inv []) 4

broadcast_status-delivered_example :
    Returns
      (λ u.
        Inv u roster
        × (u.sent
            ≡ delivered
                (λ p c. (status_bytes classroom roster p c, 11))
                (λ _. false)
                (λ _. true)
                roster
                [])
        × (u.signalled ≡ false))
      (broadcast_status (world []))
broadcast_status-delivered_example = broadcast_status-delivered (world []) roster (world-Inv [])

broadcast_blackboard-delivered_example :
    (n : ℕ) × (strlen (painted 2 (72 ∷ 105 ∷ [])) ≡ ok n)
    × Returns
        (λ u.
          Inv u roster
          × (u.sent
              ≡ delivered
                  (λ p c. (build_board (painted 2 (72 ∷ 105 ∷ [])) n, 3 + n))
                  (λ p. (p == 20) && true)
                  (λ _. true)
                  roster
                  []))
        (broadcast_blackboard true (world []))
broadcast_blackboard-delivered_example =
    broadcast_blackboard-delivered (world []) roster (world-Inv []) true

-- Carol logs in and asks to be docent; Alice is, so that she is a student.
login_handler-Admitted_example :
    Returns
      (Admitted 30
        (newcomer 3 6 2 (fill 1 (λ i. 0) (67 ∷ [])) classroom)
        (world (0 ∷ 0 ∷ 2 ∷ 2 ∷ 67 ∷ []))
        roster)
      (login_handler 30 6 (world (0 ∷ 0 ∷ 2 ∷ 2 ∷ 67 ∷ [])))
unfolding ntohs
login_handler-Admitted_example =
    login_handler-Admitted 30 (world (0 ∷ 0 ∷ 2 ∷ 2 ∷ 67 ∷ [])) roster
      (world-Inv (0 ∷ 0 ∷ 2 ∷ 2 ∷ 67 ∷ [])) (λ e. absurd (omega arith)) refl (omega arith) 6 0 2 0 2
      (67 ∷ []) refl refl

-- The classroom after the last id was given out.
abbrev exhausted : World
exhausted = record (world (0 ∷ 0 ∷ 2 ∷ 1 ∷ 67 ∷ [])) { cid_counter = 65535 }

exhausted-Inv : Inv exhausted roster
exhausted-Inv =
    let v = world-Inv (0 ∷ 0 ∷ 2 ∷ 1 ∷ 67 ∷ []) in
    record {
      represents = v.represents;
      unlocked = v.unlocked;
      granted = v.granted;
      few = omega arith;
      counter = omega arith;
      is_board = v.is_board;
      bsem_free = v.bsem_free;
      asem_free = v.asem_free;
      named = v.named;
    }

refused_when_full :
    Returns
      (λ u.
        Inv u roster
        × (u.clients ≡ classroom)
        × (messages_to 6 u.sent ≡ messages_to 6 exhausted.sent)
        × (messages_to 0 u.sent ≡ (
            if exhausted.sends 0
            then too_many_message ∷ messages_to 0 exhausted.sent
            else messages_to 0 exhausted.sent))
        × (u.closed ≡ 6 ∷ exhausted.closed))
      (client_handler 30 6 exhausted)
unfolding ntohs
refused_when_full =
    client_handler-full 30 exhausted roster exhausted-Inv refl 6 0 2 0 1 (67 ∷ [])
      (λ e. absurd (omega arith)) refl refl

-- Alice sends a board message of one byte while Bob has the write access.
serve-refused_example :
    let before = world (2 ∷ 0 ∷ 1 ∷ 72 ∷ []) in
    let next = log_error "board handler: user without write access" (recv 4 3 before).0 in
    (serve 2 4 before ≡ serve 1 4 next) × ((next.streams 4).bytes ≡ 72 ∷ [])
unfolding is_at client_at
serve-refused_example =
    serve-refused (world (2 ∷ 0 ∷ 1 ∷ 72 ∷ [])) roster (world-Inv (2 ∷ 0 ∷ 1 ∷ 72 ∷ [])) 1 4 0 1
      (72 ∷ []) refl refl

-- Carol and Dan log in as docents of an empty class at once.
abbrev dan : ClientData
dan = record { cid = 4; sfd = 7; role = 2; name = 68 ∷ 0 ∷ [] }

abbrev before_class : World
before_class = record (world []) { clients = empty; cid_counter = 4 }

before_class-Inv : Inv before_class []
before_class-Inv = record {
  represents = empty-Represents;
  unlocked = refl;
  granted = λ d w. absurd (d refl);
  few = omega arith;
  counter = omega arith;
  is_board = painted-IsBoard 2 (72 ∷ 105 ∷ []) refl;
  bsem_free = refl;
  asem_free = refl;
  named = tt;
}

two_logins-docents_example :
    Returns
      (λ r.
        Inv r.0 (node 30 (record carol { role = 2 }) ∷ node 40 dan ∷ [])
        × (r.0.clients.user_docent ≡ 40)
        × (r.0.clients.user_write ≡ 40))
      (two_logins 30 40 (record carol { role = 2 }) dan before_class)
two_logins-docents_example =
    two_logins-docents 30 40 (record carol { role = 2 }) dan before_class [] before_class-Inv
      (λ e. absurd (omega arith)) (λ e. absurd (omega arith)) refl refl (omega arith) refl refl refl
      refl refl
