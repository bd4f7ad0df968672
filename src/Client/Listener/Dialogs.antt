-- ===== src/Client/Listener/Dialogs.antt =====
-- Queries, error messages and boards of the server at the client.
use virtual_blackboard.Prelude.{
  ℕ, suc, ◌+◌, ◌%◌, ◌^◌, ◌≤◌, ◌<◌, ◌≡◌, ◌∙◌, refl, true, false, List, [], ◌∷◌, ◌++◌, drop,
  take-append, drop-append, length, length-append, ◌==◌, if◌then◌else◌, ok, fault, ◌>>=◌, Returns,
  returns, Returns-bind, ap, arith,
}
use virtual_blackboard.Net.{m_board, m_query, m_error, ntoh_header, htons, ntohs-htons}
use virtual_blackboard.Net.Strings.{codes, text_of, NoNul}
use virtual_blackboard.Net.Build.{build_board, build_query, build_error}
use virtual_blackboard.Client.State.{Client, send}
use virtual_blackboard.Client.Print.{decimal, sprintf_fits, sprintf_overflow}
use virtual_blackboard.Client.Window.{popup_message, popup_question_dialog}
use virtual_blackboard.Client.Board.Shown.{update_board-Holds}
use virtual_blackboard.Client.Commands.{reply_message, send_reply}
use virtual_blackboard.Client.Listener.{
  listener_round, receive_message, error_case, board_case, query_case, query_text, error_text,
}

-- The message that was received, and what is behind it.
header_run :
    (c : Client) (type : ℕ) (msg rest : List ℕ)
    → length msg < 65536
    → c.stream.bytes ≡ type ∷ htons (length msg) ++ (msg ++ rest)
    → listener_round c ≡ (
        receive_message
          (record { type = type; size = length msg })
          (record c {
            header = type ∷ htons (length msg) ++ drop 3 c.header;
            stream = record c.stream { bytes = msg ++ rest };
          })
        >>= λ u. ok (u, true))
unfolding listener_round htons ntoh_header
header_run c type msg rest short arrived = rw (arrived, ntohs-htons (length msg) short)

text_of-take : (cs : List ℕ) → NoNul cs → text_of cs ≡ cs
unfolding text_of
text_of-take [] h = refl
text_of-take (c ∷ cs) h =
    let z : (c == 0) ≡ false = ground (arith, h.0) in rw (z, text_of-take cs h.1)

-- The bytes that the builders make of a text in its memory.
build_query_bytes :
    (cid : ℕ) (name more rest : List ℕ)
    → length name < 65534
    → build_query cid (name ++ more) (length name) ++ rest
      ≡ m_query ∷ htons (length (htons cid ++ name)) ++ ((htons cid ++ name) ++ rest)
unfolding build_query htons
build_query_bytes cid name more rest short =
    let e : (2 + length name) % 2 ^ 16 ≡ suc (suc (length name)) = omega arith in
    rw (take-append name more, e)

build_error_bytes :
    (ecode : ℕ) (text more rest : List ℕ)
    → length text < 65535
    → build_error ecode (text ++ more) (length text) ++ rest
      ≡ m_error ∷ htons (length (ecode ∷ text)) ++ ((ecode ∷ text) ++ rest)
unfolding build_error htons
build_error_bytes ecode text more rest short =
    let e : (1 + length text) % 2 ^ 16 ≡ suc (length text) = omega arith in
    rw (take-append text more, e)

build_board_bytes :
    (text more rest : List ℕ)
    → length text < 65536
    → build_board (text ++ more) (length text) ++ rest
      ≡ m_board ∷ htons (length text) ++ (text ++ rest)
unfolding build_board htons
build_board_bytes text more rest short =
    let e : length text % 2 ^ 16 ≡ length text = omega arith in rw (take-append text more, e)

name_fits : (name : List ℕ) (cid : ℕ) → length (query_text name cid) < 1024 → length name < 65534
name_fits name cid fits = omega (
  arith,
  length-append name (codes "' (ID:" ++ (decimal cid ++ codes ") wirklich Schreibrechte geben?")),
)

-- A query that the server built is shown to the user with the name and the id that were put in, and
-- the answer goes back as a reply with the same id: 1 for yes, 0 for no. The question must fit into
-- its buffer of 1024 bytes.
pub listener_round-query :
    (c : Client) (cid : ℕ) (name more rest : List ℕ)
    → cid < 65536
    → NoNul name
    → length (query_text name cid) < 1024
    → c.stream.bytes ≡ build_query cid (name ++ more) (length name) ++ rest
    → Returns
        (λ r.
          (r.0.sent
            ≡ (send (reply_message (if c.answer (query_text name cid) then 1 else 0) cid) c).sent)
          × (r.0.stream.bytes ≡ rest)
          × (r.1 ≡ true))
        (listener_round c)
unfolding htons receive_message query_case popup_question_dialog send_reply send
listener_round-query c cid name more rest ids text fits arrived =
    let short : length name < 65534 = name_fits name cid fits in
    let e = arrived ∙ build_query_bytes cid name more rest short in
    rw
      (
        header_run c m_query (htons cid ++ name) rest (omega arith) e,
        take-append name rest,
        drop-append name rest,
        text_of-take name text,
        ntohs-htons cid ids,
        sprintf_fits 1024 _ fits,
      )
      (returns (refl, refl, refl))

-- A name that makes the question longer is written past the end of the buffer: a user chooses the
-- name at the login, and the docent's client fails when that user asks for the write access.
pub listener_round-overflow :
    (c : Client) (cid : ℕ) (name more rest : List ℕ)
    → cid < 65536
    → NoNul name
    → length name < 65534
    → 1024 ≤ length (query_text name cid)
    → c.stream.bytes ≡ build_query cid (name ++ more) (length name) ++ rest
    → listener_round c ≡ fault
unfolding htons receive_message query_case
listener_round-overflow c cid name more rest ids text short long arrived =
    let e = arrived ∙ build_query_bytes cid name more rest short in
    rw (
      header_run c m_query (htons cid ++ name) rest (omega arith) e,
      take-append name rest,
      text_of-take name text,
      ntohs-htons cid ids,
      sprintf_overflow 1024 _ long,
    )

-- An error message that the server built is shown with its code and its text, and the button for
-- requests may be used again. The text must fit into its buffer of 256 bytes.
pub listener_round-error :
    (c : Client) (ecode : ℕ) (text more rest : List ℕ)
    → NoNul text
    → length (error_text ecode text) < 256
    → c.stream.bytes ≡ build_error ecode (text ++ more) (length text) ++ rest
    → Returns
        (λ r.
          (r.0.window.popups ≡ error_text ecode text ∷ c.window.popups)
          × (r.0.window.request_write ≡ true)
          × (r.0.stream.bytes ≡ rest)
          × (r.1 ≡ true))
        (listener_round c)
unfolding htons receive_message error_case popup_message
listener_round-error c ecode text more rest clean fits arrived =
    let short : length text < 65535 =
      omega (arith, length-append (decimal ecode) (58 ∷ 32 ∷ text)) in
    let e = arrived ∙ build_error_bytes ecode text more rest short in
    rw
      (
        header_run c m_error (ecode ∷ text) rest (omega arith) e,
        take-append text rest,
        drop-append text rest,
        text_of-take text clean,
        sprintf_fits 256 _ fits,
      )
      (returns (refl, refl, refl, refl))

-- A board that the server built goes to the text view, and the loop goes on behind it. The board's
-- mutex of the client must be free.
pub listener_round-board :
    (c : Client) (text more rest : List ℕ)
    → c.board_mutex ≡ false
    → NoNul text
    → length text < 65536
    → c.stream.bytes ≡ build_board (text ++ more) (length text) ++ rest
    → Returns
        (λ r. (r.0.window.shown ≡ c.inserted text) × (r.0.stream.bytes ≡ rest) × (r.1 ≡ true))
        (listener_round c)
unfolding receive_message board_case
listener_round-board c text more rest free clean short arrived =
    let e = arrived ∙ build_board_bytes text more rest short in
    rw
      (
        header_run c m_board text rest short e,
        take-append text rest,
        drop-append text rest,
        text_of-take text clean,
      )
      (Returns-bind
        (update_board-Holds text
          (record c {
            header = m_board ∷ htons (length text) ++ drop 3 c.header;
            stream = record c.stream { bytes = rest };
          })
          free)
        (λ u (shown, stream). returns (shown, ap (λ b. b.bytes) stream, refl)))
