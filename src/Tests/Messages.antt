-- ===== src/Tests/Messages.antt =====
-- The theorems on the client, on its messages at the server, and on the life of a connection.
use virtual_blackboard.Prelude.{
  ◌≢◌, out_of_fuel, zero, suc, length-append, ℕ, ◌≡◌, ◌⊎◌, refl, true, false, none, some, List, [],
  ◌∷◌, ◌++◌, take, ok, fault, Returns, ◌≤◌, length, replicate, length-replicate, arith,
}
use virtual_blackboard.ClientList.Lookup.{client_at, is_at, find_addr}
use virtual_blackboard.ClientList.Remove.{connected}
use virtual_blackboard.Net.{htons, ntohs}
use virtual_blackboard.Net.Strings.{codes, NoNul, strlen}
use virtual_blackboard.Net.Build.{build_board, build_status, build_query}
use virtual_blackboard.Server.World.{World}
use virtual_blackboard.Server.Invariant.{Gives}
use virtual_blackboard.Server.LoginHandler.{login_handler}
use virtual_blackboard.Server.LoginHandler.Admitted.{Admitted, assigned, newcomer}
use virtual_blackboard.Server.ClientThread.{client_handler}
use virtual_blackboard.Server.ClientThread.Session.{Kept}
use virtual_blackboard.Server.ClientThread.Lifetime.{client_handler-Kept}
use virtual_blackboard.Client.State.{Window, Client, send}
use virtual_blackboard.Client.Print.{decimal}
use virtual_blackboard.Client.Window.Refresh.{Allows}
use virtual_blackboard.Client.Commands.{login_message, board_message, reply_message}
use virtual_blackboard.Client.TextView.{insert_count}
use virtual_blackboard.Client.TextView.Whole.{nowhere, is_fit}
use virtual_blackboard.Client.TextView.Emission.{insert-edited}
use virtual_blackboard.Client.Events.{on_text_buffer_changed}
use virtual_blackboard.Client.Events.Changes.{Restarted, Exhausted, on_text_buffer_changed-Sends}
use virtual_blackboard.Client.Listener.Ends.{listener_handler_ends}
use virtual_blackboard.Client.Listener.{listener_handler, listener_round, query_text}
use virtual_blackboard.Client.Listener.Status.{Informed, listener_round-status}
use virtual_blackboard.Client.Listener.Dialogs.{listener_round-query, listener_round-overflow}
use virtual_blackboard.Protocol.Messages.{served}
use virtual_blackboard.Protocol.Login.{login_message-Admitted}
use virtual_blackboard.Protocol.Board.{receiving, Inserts, board_message-shown}
use virtual_blackboard.Protocol.Grant.{reply_message-Gives}
use virtual_blackboard.Tests.TextView.{
  bytewise, gtk, insert_nested, insert_nested-Emits, gtk-Deletes,
}
use virtual_blackboard.Tests.{classroom, roster, world, world-Inv}

-- Carol logs in, asks for the write access, and hangs up.
abbrev session : World
session = world (0 ∷ 0 ∷ 2 ∷ 1 ∷ 67 ∷ 5 ∷ 0 ∷ 1 ∷ 1 ∷ [])

client_handler-Kept_example : Returns (Kept 10 roster) (client_handler 30 6 session)
unfolding ntohs assigned connected
client_handler-Kept_example =
    client_handler-Kept 30 session roster (world-Inv (0 ∷ 0 ∷ 2 ∷ 1 ∷ 67 ∷ 5 ∷ 0 ∷ 1 ∷ 1 ∷ []))
      (λ e. absurd (omega arith)) refl (omega arith) 6 0 2 0 1 (67 ∷ 5 ∷ 0 ∷ 1 ∷ 1 ∷ []) refl refl
      refl refl

login_message-Admitted_example :
    Returns
      (Admitted 30 (newcomer 3 6 2 (67 ∷ []) classroom) (world (login_message 2 (67 ∷ []))) roster)
      (login_handler 30 6 (world (login_message 2 (67 ∷ []))))
unfolding login_message htons
login_message-Admitted_example =
    login_message-Admitted 30 (world (login_message 2 (67 ∷ []))) roster
      (world-Inv (login_message 2 (67 ∷ []))) (λ e. absurd (omega arith)) refl (omega arith) 6 2 67
      [] [] (omega arith) refl

-- Alice grants the access to Bob.
reply_message-Gives_example :
    Gives 20 (world (reply_message 1 2)) roster (served 4 (world (reply_message 1 2)))
unfolding is_at client_at find_addr reply_message htons
reply_message-Gives_example =
    reply_message-Gives (world (reply_message 1 2)) roster (world-Inv (reply_message 1 2)) 4 2 true
      [] (omega arith) refl (λ e. absurd (omega arith)) refl

-- Alice's client before anything has arrived.
abbrev window : Window
window = record {
  status_write = [];
  status_role = [];
  status_version = [];
  status_users = [];
  request_label = [];
  request_write = true;
  remove_permissions = false;
  log_blackboard = false;
  quit_all = false;
  editable = false;
  shown = [];
  popups = [];
  running = true;
}

abbrev client : List ℕ → Client
client bytes = record {
  cid = 0;
  role = 0;
  write = 1;
  dozenten = 0;
  tutoren = 0;
  studenten = 0;
  name = 65 ∷ [];
  cdata_mutex = false;
  board_mutex = false;
  blackboard = none;
  command_type = 0;
  triggered = false;
  liveagent = false;
  timer = false;
  dilat = record { start = 0; last = 0; changes = 0; max_reset = 6; counter = 0 };
  window = window;
  header = 0 ∷ 0 ∷ 0 ∷ [];
  stream = record { bytes = bytes; broken = false };
  sent = [];
  answer = λ question. true;
  now = 100;
  accepts = true;
  inserted = λ text. take (insert_count bytewise nowhere text) text;
}

-- GTK inserts into the empty buffer.
gtk-Inserts : Inserts (insert_nested 2) (client []).inserted
gtk-Inserts text = insert-edited gtk (insert_nested 2) insert_nested-Emits gtk-Deletes text [] [] []

abbrev greeting : List ℕ
greeting = 72 ∷ 105 ∷ []

-- Bob writes "Hi".
board_message-shown_example :
    Returns
      (λ r.
        (n : ℕ) × (strlen r.0.board ≡ ok n)
        × (take n r.0.board ≡ take 1199 greeting)
        × Returns
            (λ u.
              (u.0.window.shown
                ≡ take (insert_count bytewise nowhere (take 1199 greeting)) (take 1199 greeting))
              × ((u.0.window.shown ≡ take 1199 greeting)
                  ⊎ (is_fit 14 0 (take 1199 greeting) ≡ false)))
            (listener_round (receiving (build_board r.0.board n ++ []) (client []))))
      (served 5 (world (board_message greeting)))
unfolding is_at client_at board_message htons
board_message-shown_example =
    board_message-shown (world (board_message greeting)) roster (world-Inv (board_message greeting))
      5 greeting [] (omega arith) (omega arith) refl refl gtk (insert_nested 2) insert_nested-Emits
      gtk-Deletes refl (client []) [] refl gtk-Inserts

listener_round-status_example :
    Returns
      (λ r.
        Informed 2 1 0 1 1 0 r.0 × Allows 2 0 r.0.window × (r.0.stream.bytes ≡ []) × (r.1 ≡ true))
      (listener_round (client (build_status 2 1 0 1 1 0)))
unfolding build_status htons
listener_round-status_example =
    listener_round-status (client (build_status 2 1 0 1 1 0)) refl (omega arith) 2 1 0 1 1 0 []
      (omega arith) (omega arith) refl

listener_round-query_example :
    Returns
      (λ r.
        (r.0.sent ≡ (send (reply_message 1 2) (client (build_query 2 (66 ∷ []) 1))).sent)
        × (r.0.stream.bytes ≡ [])
        × (r.1 ≡ true))
      (listener_round (client (build_query 2 (66 ∷ []) 1)))
unfolding build_query htons decimal
listener_round-query_example =
    listener_round-query (client (build_query 2 (66 ∷ []) 1)) 2 (66 ∷ []) [] [] (omega arith)
      (omega arith) (omega arith) refl

on_text_buffer_changed-Sends_example :
    Returns
      (λ u.
        (u.blackboard ≡ some greeting)
        × (Restarted greeting (client []) u ⊎ Exhausted greeting (client []) u))
      (on_text_buffer_changed greeting (client []))
on_text_buffer_changed-Sends_example = on_text_buffer_changed-Sends (client []) greeting refl refl

listener_handler_ends_example : listener_handler (client (build_status 2 1 0 1 1 0)) ≢ out_of_fuel
listener_handler_ends_example = listener_handler_ends (client (build_status 2 1 0 1 1 0))

-- Carol's name has 1100 bytes.
long_name : List ℕ
long_name = replicate 1100 66

replicate-NoNul : (n : ℕ) → NoNul (replicate n 66)
replicate-NoNul zero = tt
replicate-NoNul (suc n) = ((λ e. absurd (omega arith)), replicate-NoNul n)

long_name-NoNul : NoNul long_name
unfolding long_name
long_name-NoNul = replicate-NoNul 1100

length-long_name : length long_name ≡ 1100
unfolding long_name
length-long_name = length-replicate {A = ℕ} 1100 66

long_query : 1024 ≤ length (query_text long_name 3)
long_query = omega (
  arith,
  length-long_name,
  length-append long_name
      (codes "' (ID:" ++ (decimal 3 ++ codes ") wirklich Schreibrechte geben?")),
)

abbrev victim : Client
victim = client (build_query 3 (long_name ++ []) (length long_name) ++ [])

listener_round-overflow_example : listener_round victim ≡ fault
listener_round-overflow_example =
    listener_round-overflow victim 3 long_name [] [] (omega arith) long_name-NoNul
      (omega (arith, length-long_name)) long_query refl
