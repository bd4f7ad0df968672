-- ===== src/Client/Events/Changes.antt =====
-- What becomes of a change of the text: `on_text_buffer_changed` of src/client/client.c.
use virtual_blackboard.Prelude.{
  ℕ, ◌+◌, ◌-◌, ◌/◌, ◌≤◌, ◌<◌, ◌≡◌, ◌≢◌, ◌⊎◌, refl, ap, true, false, ◌&&◌, inl, inr, Bool-cases,
  List, ltb, ◌==◌, if◌then◌else◌, some, Outcome, ok, out_of_fuel, Returns, returns, arith,
}
use virtual_blackboard.Client.State.{Client, board_lock, board_unlock, send}
use virtual_blackboard.Client.Print.{sprintf, sprintf_fits}
use virtual_blackboard.Client.Window.Refresh.{version_text_fits}
use virtual_blackboard.Client.Commands.{
  board_message, send_board_content, trigger_liveagent, liveagent_round, alarm,
}
use virtual_blackboard.Client.Events.{measure, arm, on_text_buffer_changed}

-- The start of the measurement and the changes since then, this one included. A pause of more than
-- ten seconds starts it anew.
abbrev pub since : Client → ℕ × ℕ
since c = if ltb (c.dilat.last + 10) c.now then (c.now, 1) else (c.dilat.start, c.dilat.changes + 1)

-- How often the timer may be started before the live agent sends: the changes in a second, and 5 at
-- least.
abbrev pub limit : Client → ℕ
limit c =
    let rate = (since c).1 / (c.now - (since c).0) in
    if ltb (since c).0 c.now && ltb 5 rate then rate else 5

measure-limit : (c : Client) → (measure c).max_reset ≡ limit c
unfolding measure
measure-limit c = ground arith

measure-counter : (c : Client) → (measure c).counter ≡ c.dilat.counter
unfolding measure
measure-counter c = ground arith

-- When it runs, the thread or the signal handler sends the text.
abbrev pub Sends : (text : List ℕ) → Client → Outcome Client → Type 0
Sends text c = Returns λ u. (u.sent ≡ (send (board_message text) c).sent) × (u.board_mutex ≡ false)

-- The timer runs again, and will send the text.
abbrev pub Restarted : (text : List ℕ) → Client → Client → Type 0
Restarted text c u =
    (c.dilat.counter < limit c)
    × (u.dilat.counter ≡ c.dilat.counter + 1)
    × (u.timer ≡ true)
    × (u.liveagent ≡ c.liveagent)
    × Sends text c (alarm u)

-- The timer was restarted too often: the live agent will send the text, and the count starts anew.
abbrev pub Exhausted : (text : List ℕ) → Client → Client → Type 0
Exhausted text c u =
    (limit c ≤ c.dilat.counter)
    × (u.dilat.counter ≡ 0)
    × (u.liveagent ≡ true)
    × (u.timer ≡ c.timer)
    × Sends text c (liveagent_round u)

-- After a change by a user with write access, the text is kept and its sending is due. As long as the
-- restarts that are counted stay below `limit`, the timer starts anew and one more is counted;
-- otherwise the live agent is triggered and the count is 0 again. Whichever of the two it is, it
-- sends the whole text and releases the mutex, and the other one is as before.
pub on_text_buffer_changed-Sends :
    (c : Client) (text : List ℕ)
    → c.write ≡ 1
    → c.board_mutex ≡ false
    → Returns
        (λ u. (u.blackboard ≡ some text) × (Restarted text c u ⊎ Exhausted text c u))
        (on_text_buffer_changed text c)
unfolding on_text_buffer_changed arm board_lock board_unlock alarm liveagent_round trigger_liveagent
    send_board_content send
on_text_buffer_changed-Sends c text writer free =
    let m = measure-limit c in
    let n = measure-counter c in
    rw (writer, free, sprintf_fits 256 _ (version_text_fits c.now))
      (elim (Bool-cases (ltb (measure c).counter (measure c).max_reset)) [
        | inl again ↦
            let less : c.dilat.counter < limit c = rw (← n) (rw (← m) (ground arith)) in
            rw again
              (returns (refl, inl (less, ap (λ k. k + 1) n, refl, refl, returns (refl, refl))))
        | inr enough ↦
            let all : limit c ≤ c.dilat.counter = rw (← n) (rw (← m) (ground arith)) in
            rw enough (returns (refl, inr (all, refl, refl, refl, returns (refl, refl))))
      ])

-- The handler leaves the text, the connection and the mutex as they are.
abbrev pub SameText : Client → Client → Type 0
SameText c u =
    (u.window.shown ≡ c.window.shown)
    × (u.stream ≡ c.stream)
    × (u.inserted ≡ c.inserted)
    × (u.board_mutex ≡ false)

pub on_text_buffer_changed-SameText :
    (c : Client) (text : List ℕ)
    → c.board_mutex ≡ false
    → Returns (SameText c) (on_text_buffer_changed text c)
unfolding on_text_buffer_changed arm board_lock board_unlock trigger_liveagent
on_text_buffer_changed-SameText c text free = elim (Bool-cases (c.write == 1)) [
  | inl writer ↦
      rw (writer, free, sprintf_fits 256 _ (version_text_fits c.now))
        (elim (Bool-cases (ltb (measure c).counter (measure c).max_reset)) [
          | inl again ↦ rw again (returns (refl, refl, refl, refl))
          | inr enough ↦ rw enough (returns (refl, refl, refl, refl))
        ])
  | inr reader ↦ rw reader (returns (refl, refl, refl, free))
]

pub on_text_buffer_changed-stream :
    (c u : Client) (text : List ℕ) → on_text_buffer_changed text c ≡ ok u → u.stream ≡ c.stream
unfolding on_text_buffer_changed arm board_lock board_unlock trigger_liveagent sprintf
on_text_buffer_changed-stream c u text e = ground arith

pub on_text_buffer_changed-fuel :
    (c : Client) (text : List ℕ) → on_text_buffer_changed text c ≢ out_of_fuel
unfolding on_text_buffer_changed board_lock sprintf
on_text_buffer_changed-fuel c text e = ground arith
