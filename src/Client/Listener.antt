-- ===== src/Client/Listener.antt =====
-- The thread that listens to the server: src/client/listener_thread.c. Memory from `alloc` is
-- zeroed, so that a message of which less has arrived is read as if zeros followed.
pub mod Status
pub mod Ends
pub mod Dialogs
use virtual_blackboard.Prelude.{
  ℕ, zero, suc, ◌+◌, Bool, true, false, List, [], ◌∷◌, ◌++◌, take, drop, length, ltb, ◌==◌,
  if◌then◌else◌, Outcome, ok, fault, out_of_fuel, ◌>>=◌,
}
use virtual_blackboard.Net.{m_status, m_board, m_query, m_error, ntohs, NetHeader, ntoh_header}
use virtual_blackboard.Net.Strings.{codes, text_of}
use virtual_blackboard.Client.State.{Window, Client, cdata_lock, cdata_unlock}
use virtual_blackboard.Client.Print.{decimal, sprintf}
use virtual_blackboard.Client.Window.{popup_message, popup_question_dialog, update_gui_state}
use virtual_blackboard.Client.Board.{update_board}
use virtual_blackboard.Client.Commands.{send_reply}

-- A byte of zeroed memory into which the list was received.
abbrev pub byte_at : (i : ℕ) → List ℕ → ℕ
byte_at i [] = 0
byte_at zero (b ∷ bs) = b
byte_at (suc i) (b ∷ bs) = byte_at i bs

-- `recv(socket, ..., n, MSG_WAITALL)`: what was received, and the state behind it.
abbrev pub recv : (n : ℕ) → Client → List ℕ × Client
recv n c =
    (take n c.stream.bytes, record c { stream = record c.stream { bytes = drop n c.stream.bytes } })

-- The memory of the header, which the thread allocates once.
abbrev header_in : List ℕ → NetHeader
header_in bs = ntoh_header (byte_at 0 bs) (byte_at 1 bs) (byte_at 2 bs)

-- The message has 8 bytes behind its header: more of them are written past its end.
unfoldable pub status_case : (size : ℕ) → Client → Outcome Client
unfolding ntohs
status_case size c =
    let (msg, c) = recv size c in
    if ltb 8 (length msg) then fault else (do
      c ← cdata_lock c
      update_gui_state (
          cdata_unlock (record c {
            role = byte_at 0 msg;
            cid = ntohs (byte_at 1 msg) (byte_at 2 msg);
            write = byte_at 3 msg;
            dozenten = byte_at 4 msg;
            tutoren = byte_at 5 msg;
            studenten = ntohs (byte_at 6 msg) (byte_at 7 msg);
          })))

abbrev pub error_text : (ecode : ℕ) → (detail : List ℕ) → List ℕ
error_text ecode detail = codes "Fehler " ++ (decimal ecode ++ (codes ": " ++ detail))

-- The popup, through a buffer of 256 bytes. The button for requests may be used again.
unfoldable pub error_case : (size : ℕ) → Client → Outcome Client
error_case size c =
    let (msg, c) = recv size c in
    (do
      tmp ← sprintf 256 (error_text (byte_at 0 msg) (text_of (drop 1 msg)))
      let c = popup_message tmp c
      ok (record c { window = record c.window { request_write = true } }))

unfoldable pub board_case : (size : ℕ) → Client → Outcome Client
board_case size c = let (msg, c) = recv size c in update_board (text_of msg) c

abbrev pub query_text : (name : List ℕ) → (cid : ℕ) → List ℕ
query_text name cid =
    codes "Wollen Sie dem Benutzer '"
    ++ (name ++ (codes "' (ID:" ++ (decimal cid ++ codes ") wirklich Schreibrechte geben?")))

-- The question, through a buffer of 1024 bytes, and the user's answer.
unfoldable pub query_case : (size : ℕ) → Client → Outcome Client
unfolding ntohs
query_case size c =
    let (msg, c) = recv size c in
    let cid = ntohs (byte_at 0 msg) (byte_at 1 msg) in
    (do
      tmp ← sprintf 1024 (query_text (text_of (drop 2 msg)) cid)
      ok (send_reply (popup_question_dialog tmp c) cid c))

-- The `switch` over the message type.
unfoldable pub receive_message : NetHeader → Client → Outcome Client
receive_message hdr c =
    if hdr.type == m_status
    then status_case hdr.size c
    else if hdr.type == m_error
    then error_case hdr.size c
    else if hdr.type == m_board
    then board_case hdr.size c
    else if hdr.type == m_query
    then query_case hdr.size c
    else ok c

abbrev closed_text : List ℕ
closed_text = codes "Verbindung wurde getrennt, Client wird beendet!"

-- The end of the connection: the window is closed, unless there was an error.
hang_up : Client → Client
hang_up c =
    if c.stream.broken
    then c
    else (let c = popup_message closed_text c in
        record c { window = record c.window { running = false } })

-- One round of the loop, and whether it goes on.
unfoldable pub listener_round : Client → Outcome (Client × Bool)
unfolding hang_up ntoh_header
listener_round c =
    let (got, c') = recv 3 c in
    let c' = record c' { header = got ++ drop (length got) c.header } in
    elim got [
      | [] ↦ ok (hang_up c', false)
      | b ∷ bs ↦ receive_message (header_in c'.header) c' >>= λ c''. ok (c'', true)
    ]

listen : (fuel : ℕ) → Client → Outcome Client
listen zero c = out_of_fuel
listen (suc fuel) c =
    listener_round c >>= λ (c', more). elim more [ true ↦ listen fuel c' | false ↦ ok c' ]

-- Each round takes a byte at least.
unfoldable pub listener_handler : Client → Outcome Client
unfolding listen
listener_handler c = listen (suc (length c.stream.bytes)) (record c { header = 0 ∷ 0 ∷ 0 ∷ [] })
