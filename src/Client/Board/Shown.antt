-- ===== src/Client/Board/Shown.antt =====
-- What `update_board` leaves in the text view.
use virtual_blackboard.Prelude.{
  ℕ, ◌≡◌, ◌≢◌, ◌∙◌, refl, sym, ap, subst, false, List, [], ◌∷◌, ok, out_of_fuel, Returns, returns,
  Returns-bind, Returns-mono, arith,
}
use virtual_blackboard.Client.State.{Client}
use virtual_blackboard.Client.Print.{sprintf, sprintf_fits}
use virtual_blackboard.Client.Window.{version_text}
use virtual_blackboard.Client.Window.Refresh.{version_text_fits}
use virtual_blackboard.Client.Events.Changes.{
  on_text_buffer_changed-SameText, on_text_buffer_changed-stream, on_text_buffer_changed-fuel,
}
use virtual_blackboard.Client.Board.{changed, delete_shown, insert_shown, update_board}

-- The text is in the buffer, and the mutex is free.
abbrev pub Holds : (text : List ℕ) → Client → Client → Type 0
Holds text c u =
    (u.window.shown ≡ text)
    × (u.stream ≡ c.stream)
    × (u.inserted ≡ c.inserted)
    × (u.board_mutex ≡ false)

changed-Holds :
    (text : List ℕ) (c : Client) → c.board_mutex ≡ false → Returns (Holds text c) (changed text c)
unfolding changed
changed-Holds text c free =
    on_text_buffer_changed-SameText (record c { window = record c.window { shown = text } }) text
      free

delete_shown-Holds :
    (text : List ℕ) (c : Client)
    → c.window.shown ≡ text
    → c.board_mutex ≡ false
    → Returns (Holds [] c) (delete_shown c)
unfolding delete_shown
delete_shown-Holds [] c e free =
    subst (λ s. Returns (Holds [] c) (elim s [ [] ↦ ok c | b ∷ bs ↦ changed [] c ])) (sym e)
      (returns (e, refl, refl, free))
delete_shown-Holds (b ∷ bs) c e free = rw e (changed-Holds [] c free)

insert_shown-Holds :
    (text : List ℕ) (c : Client)
    → c.window.shown ≡ []
    → c.board_mutex ≡ false
    → Returns (Holds text c) (insert_shown text c)
unfolding insert_shown
insert_shown-Holds [] c e free = returns (e, refl, refl, free)
insert_shown-Holds (b ∷ bs) c e free = changed-Holds (b ∷ bs) c free

-- The text view holds what GTK makes of the text in the empty buffer, whatever it held before.
pub update_board-Holds :
    (text : List ℕ) (c : Client)
    → c.board_mutex ≡ false
    → Returns
        (λ u. (u.window.shown ≡ c.inserted text) × (u.stream ≡ c.stream))
        (update_board text c)
unfolding update_board
update_board-Holds text c free = rw (sprintf_fits 256 _ (version_text_fits c.now)) (
    Returns-bind
      (delete_shown-Holds c.window.shown
        (record c { window = record c.window { status_version = version_text c.now } }) refl free)
      (λ u (empty, stream, same, free').
        Returns-mono (insert_shown-Holds (u.inserted text) u empty free')
          (λ v (shown, stream', same', free'').
            (shown ∙ ap (λ (f : List ℕ → List ℕ). f text) same, stream' ∙ stream))))

changed-stream : (text : List ℕ) (c u : Client) → changed text c ≡ ok u → u.stream ≡ c.stream
unfolding changed
changed-stream text c u e =
    on_text_buffer_changed-stream (record c { window = record c.window { shown = text } }) u text e

changed-fuel : (text : List ℕ) (c : Client) → changed text c ≢ out_of_fuel
unfolding changed
changed-fuel text c =
    on_text_buffer_changed-fuel (record c { window = record c.window { shown = text } }) text

delete_shown-stream : (c u : Client) → delete_shown c ≡ ok u → u.stream ≡ c.stream
unfolding delete_shown
delete_shown-stream c u e = ground (arith, changed-stream [] c u)

insert_shown-stream :
    (text : List ℕ) (c u : Client) → insert_shown text c ≡ ok u → u.stream ≡ c.stream
unfolding insert_shown
insert_shown-stream [] c u e = ground arith
insert_shown-stream (b ∷ bs) c u e = changed-stream (b ∷ bs) c u e

delete_shown-fuel : (c : Client) → delete_shown c ≢ out_of_fuel
unfolding delete_shown
delete_shown-fuel c e = ground (arith, changed-fuel [] c)

insert_shown-fuel : (text : List ℕ) (c : Client) → insert_shown text c ≢ out_of_fuel
unfolding insert_shown
insert_shown-fuel [] c e = ground arith
insert_shown-fuel (b ∷ bs) c e = changed-fuel (b ∷ bs) c e

pub update_board-stream :
    (text : List ℕ) (c u : Client) → update_board text c ≡ ok u → u.stream ≡ c.stream
unfolding update_board sprintf
update_board-stream text c u e = grind (arith, delete_shown-stream, insert_shown-stream)

pub update_board-fuel : (text : List ℕ) (c : Client) → update_board text c ≢ out_of_fuel
unfolding update_board sprintf
update_board-fuel text c e = grind (arith, delete_shown-fuel, insert_shown-fuel)
