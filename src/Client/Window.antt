-- ===== src/Client/Window.antt =====
-- The window: `updateGUIstate` of src/client/client.c, and the dialogs of
-- src/client/gui.c.
pub mod Refresh
use virtual_blackboard.Prelude.{
  ℕ, ◌+◌, Bool, true, false, not, List, [], ◌∷◌, ◌++◌, ◌==◌, if◌then◌else◌, some, Outcome, ok,
  ◌>>=◌,
}
use virtual_blackboard.Net.{m_clear, m_shutdown, m_request}
use virtual_blackboard.Net.Strings.{codes}
use virtual_blackboard.Client.State.{Window, Dilat, Client, cdata_lock, cdata_unlock}
use virtual_blackboard.Client.Print.{decimal, sprintf}

-- `popupMessage`, with the message on top of the older ones.
unfoldable pub popup_message : List ℕ → Client → Client
popup_message message c = record c {
  window = record c.window { popups = message ∷ c.window.popups };
}

-- `popupQuestionDialog`: 1 for yes, 0 for no or a closed dialog.
unfoldable pub popup_question_dialog : (question : List ℕ) → Client → ℕ
popup_question_dialog question c = if c.answer question then 1 else 0

-- "Zeit der letzten Änderung" and the time.
unfoldable pub version_text : (now : ℕ) → List ℕ
version_text now =
    codes "Zeit der letzten " ++ (0xC3 ∷ 0x84 ∷ (codes "nderung\n[" ++ (decimal now ++ codes "]")))

write_text : (write : ℕ) → List ℕ
write_text write =
    codes "Tafelrechte\n" ++ (if write == 0 then codes "[lesen]" else codes "[schreiben]")

role_name : (role write : ℕ) → List ℕ
role_name role write =
    if role == 2 then codes "Dozent" else if write == 0 then codes "Student" else codes "Tutor"

role_text : (name : List ℕ) → (role write cid : ℕ) → List ℕ
role_text name role write cid =
    codes "Name: \t["
    ++ (name
        ++ (codes "]\nRolle: \t["
            ++ (role_name role write ++ (codes "]\nCID:\t[" ++ (decimal cid ++ codes "]")))))

users_text : (dozenten tutoren studenten : ℕ) → List ℕ
users_text dozenten tutoren studenten =
    codes "Dozenten: \t["
    ++ (decimal dozenten
        ++ (codes "]\nTutoren: \t["
            ++ (decimal tutoren
                ++ (codes "]\nStudenten: \t[" ++ (decimal studenten ++ codes "]")))))

request_text : (write : ℕ) → List ℕ
request_text write =
    codes "Schreibrecht " ++ (if write == 0 then codes "anfragen" else codes "abgeben")

-- With the write access, the measurement of the user's changes starts again.
restart : Client → Dilat
restart c =
    if c.write == 1 then record c.dilat { start = c.now; last = c.now; changes = 0 } else c.dilat

-- The labels go through one buffer of 256 bytes.
unfoldable pub update_gui_state : Client → Outcome Client
unfolding version_text write_text role_name role_text users_text request_text restart
update_gui_state c = do
  c ← cdata_lock c
  write_label ← sprintf 256 (write_text c.write)
  role_label ← sprintf 256 (role_text c.name c.role c.write c.cid)
  version_label ← sprintf 256 (version_text c.now)
  users_label ← sprintf 256 (users_text c.dozenten c.tutoren c.studenten)
  request_label ← sprintf 256 (request_text c.write)
  ok (
      cdata_unlock (record c {
        dilat = restart c;
        window = record c.window {
          status_write = write_label;
          status_role = role_label;
          status_version = version_label;
          status_users = users_label;
          request_label = request_label;
          request_write = not (c.role == 2);
          remove_permissions = c.role == 2;
          log_blackboard = not (c.write == 0);
          quit_all = c.role == 2;
          editable = not (c.write == 0);
        };
      }))
