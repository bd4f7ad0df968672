-- ===== src/Client/Events.antt =====
-- The handlers of the window's events in src/client/client.c.
pub mod Changes
pub mod Buttons
use virtual_blackboard.Prelude.{
  ℕ, suc, ◌+◌, ◌-◌, ◌/◌, Bool, true, false, not, List, ltb, leb, ◌==◌, if◌then◌else◌, some, Outcome,
  ok, ◌>>=◌,
}
use virtual_blackboard.Net.{m_clear, m_shutdown, m_request}
use virtual_blackboard.Net.Strings.{codes}
use virtual_blackboard.Client.State.{Window, Dilat, Client, board_lock, board_unlock}
use virtual_blackboard.Client.Print.{sprintf}
use virtual_blackboard.Client.Window.{popup_question_dialog, version_text}
use virtual_blackboard.Client.Commands.{trigger_command, trigger_liveagent}

abbrev quit_text : List ℕ
quit_text = codes "Wollen Sie das Programm wirklich beenden?"

abbrev quit_all_text : List ℕ
quit_all_text = codes "Wollen Sie das Programm und den Server wirklich beenden?"

-- `gtk_main_quit()`.
unfoldable pub gtk_main_quit : Client → Client
gtk_main_quit c = record c { window = record c.window { running = false } }

-- TRUE keeps the window open.
unfoldable pub on_application_exit : Client → Client × Bool
on_application_exit c =
    if popup_question_dialog quit_text c == 0 then (c, true) else (gtk_main_quit c, false)

unfoldable pub on_button_request_write_clicked : Client → Client
on_button_request_write_clicked c =
    let c' = trigger_command m_request c in
    record c' { window = record c'.window { request_write = false } }

unfoldable pub on_button_quit_all_clicked : Client → Client
on_button_quit_all_clicked c =
    if popup_question_dialog quit_all_text c == 0
    then c
    else gtk_main_quit (trigger_command m_shutdown c)

unfoldable pub on_button_quit_clicked : Client → Client
on_button_quit_clicked c = if popup_question_dialog quit_text c == 0 then c else gtk_main_quit c

unfoldable pub on_button_log_clicked : Client → Client
on_button_log_clicked = trigger_command m_clear

unfoldable pub on_button_remove_permissions_clicked : Client → Client
on_button_remove_permissions_clicked = trigger_command m_request

-- The rate of changes: after a pause of more than ten seconds the measurement starts again. A
-- clock that went back gives a quotient that is not positive.
measure : Client → Dilat
measure c =
    let d =
      if ltb 10 (c.now - c.dilat.last)
      then record c.dilat { start = c.now; changes = 0 }
      else c.dilat in
    let d = record d { changes = d.changes + 1 } in
    let rate : ℕ =
      if c.now == d.start
      then 5
      else if ltb c.now d.start
      then 0
      else d.changes / (c.now - d.start) in
    record d { max_reset = if leb rate 4 then 5 else rate }

-- The timer starts anew, unless it did so too often: then the live agent sends at once.
arm : Client → Client
arm c =
    if ltb c.dilat.counter c.dilat.max_reset
    then record c { timer = true; dilat = record c.dilat { counter = c.dilat.counter + 1 } }
    else trigger_liveagent (record c { dilat = record c.dilat { counter = 0 } })

unfoldable pub on_text_buffer_changed : (text : List ℕ) → Client → Outcome Client
unfolding measure arm
on_text_buffer_changed text c =
    if c.write == 1
    then (do
      c ← board_lock (record c { dilat = measure c })
      let c = board_unlock (record c { blackboard = some text })
      version_label ← sprintf 256 (version_text c.now)
      let c = arm (record c { window = record c.window { status_version = version_label } })
      ok (record c { dilat = record c.dilat { last = c.now } }))
    else ok c
