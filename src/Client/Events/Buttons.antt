-- ===== src/Client/Events/Buttons.antt =====
-- What the buttons of the window send.
use virtual_blackboard.Prelude.{
  ℕ, ◌≡◌, refl, false, inl, inr, Bool-cases, ◌==◌, if◌then◌else◌, Returns, returns, blocked,
}
use virtual_blackboard.Client.State.{Client, send}
use virtual_blackboard.Client.Commands.{
  request_message, clear_message, send_request, send_board_clean, trigger_command, command_round,
}
use virtual_blackboard.Client.Events.{on_button_request_write_clicked, on_button_log_clicked}

-- The button for requests is disabled, and the command thread then sends one request: a docent and
-- a user without write access ask for it, a tutor gives it back. The thread then waits again.
pub on_button_request_write_clicked-sends :
    (c : Client)
    → Returns
        (λ u.
          (u.sent
            ≡ (send
                (request_message (if c.role == 2 then 1 else if c.write == 0 then 1 else 0))
                c).sent)
          × (u.window.request_write ≡ false)
          × (command_round u ≡ blocked))
        (command_round (on_button_request_write_clicked c))
unfolding on_button_request_write_clicked command_round trigger_command send_request send
on_button_request_write_clicked-sends c = elim (Bool-cases (c.role == 2)) [
  | inl lead ↦ rw lead (returns (refl, refl, refl))
  | inr other ↦ rw other (returns (refl, refl, refl))
]

-- A command that is triggered while another one is still pending replaces it: the earlier one is
-- never sent.
pub command_round-latest :
    (c : Client) (earlier : ℕ)
    → Returns
        (λ u. (u.sent ≡ (send clear_message c).sent) × (command_round u ≡ blocked))
        (command_round (on_button_log_clicked (trigger_command earlier c)))
unfolding on_button_log_clicked command_round trigger_command send_board_clean send
command_round-latest c earlier = returns (refl, refl)
