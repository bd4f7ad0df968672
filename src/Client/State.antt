-- ===== src/Client/State.antt =====
-- The state that the client's threads share: src/client/shared.h, the static variables of
-- src/client/client.c and src/client/command_thread.c, and the mutexes of src/client/utils.c. A C
-- string is the list of its bytes without the NUL.
use virtual_blackboard.Prelude.{
  ℕ, Bool, true, false, List, ◌∷◌, Option, Outcome, ok, blocked, if◌then◌else◌,
}
use virtual_blackboard.Server.World.{Stream}

-- What the window shows. A flag says that a widget reacts to the user; `shown` is the text in the
-- buffer of the text view.
pub record Window : Type 0 where
  pub status_write : List ℕ
  pub status_role : List ℕ
  pub status_version : List ℕ
  pub status_users : List ℕ
  pub request_label : List ℕ
  pub request_write : Bool
  pub remove_permissions : Bool
  pub log_blackboard : Bool
  pub quit_all : Bool
  pub editable : Bool
  pub shown : List ℕ
  pub popups : List (List ℕ)
  pub running : Bool

-- The variables of the live agent's trigger in client.c. `counter` is the static variable of
-- `on_text_buffer_changed`.
pub record Dilat : Type 0 where
  pub start : ℕ
  pub last : ℕ
  pub changes : ℕ
  pub max_reset : ℕ
  pub counter : ℕ

-- `answer` is what the user says to a question, `now` the time, `accepts` says whether the socket
-- takes data, and `inserted` is what the text view's buffer holds after GTK has inserted a text into
-- the empty buffer, with the calls of `on_insert_text` that this makes: these four belong to the
-- environment.
pub record Client : Type 0 where
  pub cid : ℕ
  pub role : ℕ
  pub write : ℕ
  pub dozenten : ℕ
  pub tutoren : ℕ
  pub studenten : ℕ
  pub name : List ℕ
  pub cdata_mutex : Bool
  pub board_mutex : Bool
  pub blackboard : Option (List ℕ)
  pub command_type : ℕ
  pub triggered : Bool
  pub liveagent : Bool
  pub timer : Bool
  pub dilat : Dilat
  pub window : Window
  pub header : List ℕ
  pub stream : Stream
  pub sent : List (List ℕ)
  pub answer : List ℕ → Bool
  pub now : ℕ
  pub accepts : Bool
  pub inserted : List ℕ → List ℕ

unfoldable pub cdata_lock : Client → Outcome Client
cdata_lock c = if c.cdata_mutex then blocked else ok (record c { cdata_mutex = true })

unfoldable pub cdata_unlock : Client → Client
cdata_unlock c = record c { cdata_mutex = false }

unfoldable pub board_lock : Client → Outcome Client
board_lock c = if c.board_mutex then blocked else ok (record c { board_mutex = true })

unfoldable pub board_unlock : Client → Client
board_unlock c = record c { board_mutex = false }

-- `send`. What was sent last comes first.
unfoldable pub send : List ℕ → Client → Client
send bytes c = record c { sent = if c.accepts then bytes ∷ c.sent else c.sent }
