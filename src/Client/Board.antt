-- ===== src/Client/Board.antt =====
-- `updateBoard` of src/client/client.c: a board of the server goes to the text view, whose callbacks
-- are the handlers of the user's own changes too.
pub mod Shown
use virtual_blackboard.Prelude.{ℕ, List, [], ◌∷◌, Outcome, ok, ◌>>=◌}
use virtual_blackboard.Client.State.{Window, Client}
use virtual_blackboard.Client.Print.{sprintf}
use virtual_blackboard.Client.Window.{version_text}
use virtual_blackboard.Client.Events.{on_text_buffer_changed}

-- The signal "changed", after the buffer has got the text.
unfoldable pub changed : (text : List ℕ) → Client → Outcome Client
changed text c =
    on_text_buffer_changed text (record c { window = record c.window { shown = text } })

-- The two parts of `gtk_text_buffer_set_text`: the old text is deleted, and what `on_insert_text`
-- leaves of the new one is inserted. Each emits "changed" if the text has changed.
unfoldable pub delete_shown : Client → Outcome Client
unfolding changed
delete_shown c = elim c.window.shown [ [] ↦ ok c | b ∷ bs ↦ changed [] c ]

unfoldable pub insert_shown : (text : List ℕ) → Client → Outcome Client
unfolding changed
insert_shown text c = elim text [ [] ↦ ok c | b ∷ bs ↦ changed (b ∷ bs) c ]

unfoldable pub update_board : (text : List ℕ) → Client → Outcome Client
update_board text c = do
  version_label ← sprintf 256 (version_text c.now)
  c ← delete_shown (record c { window = record c.window { status_version = version_label } })
  insert_shown (c.inserted text) c
