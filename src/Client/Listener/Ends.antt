-- ===== src/Client/Listener/Ends.antt =====
-- The loop of the listener.
use virtual_blackboard.Prelude.{
  ℕ, zero, suc, ◌≤◌, ◌<◌, ◌≡◌, ◌≢◌, true, false, List, [], ◌∷◌, length, drop, length-drop, Outcome,
  ok, fault, blocked, exited, out_of_fuel, ◌>>=◌, ◌++◌, ◌⊎◌, inl, inr, take, refl, ap, arith,
}
use virtual_blackboard.Net.{NetHeader}
use virtual_blackboard.Client.State.{Client, cdata_lock, cdata_unlock, send}
use virtual_blackboard.Client.Print.{sprintf}
use virtual_blackboard.Client.Window.{popup_message, update_gui_state}
use virtual_blackboard.Client.Board.Shown.{update_board-stream, update_board-fuel}
use virtual_blackboard.Client.Commands.{send_reply}
use virtual_blackboard.Client.Listener.{
  status_case, error_case, board_case, query_case, receive_message, header_in, hang_up,
  listener_round, listen, listener_handler,
}

update_gui_state-stream : (c u : Client) → update_gui_state c ≡ ok u → u.stream ≡ c.stream
unfolding update_gui_state cdata_lock cdata_unlock sprintf
update_gui_state-stream c u e = ground arith

update_gui_state-fuel : (c : Client) → update_gui_state c ≢ out_of_fuel
unfolding update_gui_state cdata_lock cdata_unlock sprintf
update_gui_state-fuel c e = ground arith

-- A message takes bytes from the connection, and its case ends.
module _ (c : Client) (size : ℕ) where
  shorter : length (drop size c.stream.bytes) ≤ length c.stream.bytes
  shorter = omega (arith, length-drop size c.stream.bytes)

  status_case-shorter :
      (u : Client) → status_case size c ≡ ok u → length u.stream.bytes ≤ length c.stream.bytes
  unfolding status_case cdata_lock cdata_unlock
  status_case-shorter u e = grind (arith, shorter, update_gui_state-stream)

  status_case-fuel : status_case size c ≢ out_of_fuel
  unfolding status_case cdata_lock cdata_unlock
  status_case-fuel e = grind (arith, update_gui_state-fuel)

  error_case-shorter :
      (u : Client) → error_case size c ≡ ok u → length u.stream.bytes ≤ length c.stream.bytes
  unfolding error_case sprintf popup_message
  error_case-shorter u e = ground (arith, shorter)

  error_case-fuel : error_case size c ≢ out_of_fuel
  unfolding error_case sprintf
  error_case-fuel e = ground arith

  board_case-shorter :
      (u : Client) → board_case size c ≡ ok u → length u.stream.bytes ≤ length c.stream.bytes
  unfolding board_case
  board_case-shorter u e = grind (arith, shorter, update_board-stream)

  board_case-fuel : board_case size c ≢ out_of_fuel
  unfolding board_case
  board_case-fuel e = grind (arith, update_board-fuel)

  query_case-shorter :
      (u : Client) → query_case size c ≡ ok u → length u.stream.bytes ≤ length c.stream.bytes
  unfolding query_case sprintf send_reply send
  query_case-shorter u e = ground (arith, shorter)

  query_case-fuel : query_case size c ≢ out_of_fuel
  unfolding query_case sprintf
  query_case-fuel e = ground arith

module _ (hdr : NetHeader) (c : Client) where
  receive_message-shorter :
      (u : Client) → receive_message hdr c ≡ ok u → length u.stream.bytes ≤ length c.stream.bytes
  unfolding receive_message
  receive_message-shorter u e = ground (
    arith,
    status_case-shorter c hdr.size u,
    error_case-shorter c hdr.size u,
    board_case-shorter c hdr.size u,
    query_case-shorter c hdr.size u,
  )

  receive_message-fuel : receive_message hdr c ≢ out_of_fuel
  unfolding receive_message
  receive_message-fuel e = ground (
    arith,
    status_case-fuel c hdr.size,
    error_case-fuel c hdr.size,
    board_case-fuel c hdr.size,
    query_case-fuel c hdr.size,
  )

-- A round with bytes left handles one message, with fewer bytes left.
round_run :
    (c : Client) (b : ℕ) (bs : List ℕ)
    → c.stream.bytes ≡ b ∷ bs
    → (hdr : NetHeader) × (d : Client) × (listener_round c
        ≡ (receive_message hdr d >>= λ u. ok (u, true)))
      × (length d.stream.bytes ≤ length bs)
unfolding listener_round
round_run c b bs some =
    let got = b ∷ take 2 bs in
    let mem = got ++ drop (length got) c.header in
    (
      header_in mem,
      record c { header = mem; stream = record c.stream { bytes = drop 2 bs } },
      rw some,
      omega (arith, length-drop 2 bs),
    )

end_run : (c : Client) → c.stream.bytes ≡ [] → (d : Client) × (listener_round c ≡ ok (d, false))
unfolding listener_round
end_run c none_left = (hang_up (record c { stream = record c.stream { bytes = [] } }), rw none_left)

listen-message :
    (fuel : ℕ) (m : Outcome Client)
    → m ≢ out_of_fuel
    → ((u : Client) → m ≡ ok u → listen fuel u ≢ out_of_fuel)
    → (m >>= (λ u. ok (u, true)) >>= λ (c', more). elim more [
      | true ↦ listen fuel c'
      | false ↦ ok c'
    ])
      ≢ out_of_fuel
listen-message fuel (ok u) ends next e = next u refl e
listen-message fuel fault ends next e = ground arith
listen-message fuel blocked ends next e = ground arith
listen-message fuel exited ends next e = ground arith
listen-message fuel out_of_fuel ends next e = ends refl

List-cases : (xs : List ℕ) → (xs ≡ []) ⊎ ((b : ℕ) × (bs : List ℕ) × (xs ≡ b ∷ bs))
List-cases [] = inl refl
List-cases (b ∷ bs) = inr (b, bs, refl)

listen_ends : (fuel : ℕ) (c : Client) → length c.stream.bytes < fuel → listen fuel c ≢ out_of_fuel
unfolding listen
listen_ends zero c enough = absurd (omega arith)
listen_ends (suc fuel) c enough = elim (List-cases c.stream.bytes) [
  | inl none_left ↦ let (d, run) = end_run c none_left in rw run (λ e. ground arith)
  | inr (b, bs, some) ↦
      let (hdr, d, run, less) = round_run c b bs some in
      rw run (
        listen-message fuel (receive_message hdr d) (receive_message-fuel hdr d) (λ u e.
          let fewer = receive_message-shorter hdr d u e in
          let all : length c.stream.bytes ≡ suc (length bs) = ap length some in
          listen_ends fuel u (omega arith)))
]

-- Whatever the server sends, and however the connection ends, the rounds of the listener's loop are
-- enough: it ends, waits for a mutex or fails.
pub listener_handler_ends : (c : Client) → listener_handler c ≢ out_of_fuel
unfolding listener_handler
listener_handler_ends c =
    listen_ends (suc (length c.stream.bytes)) (record c { header = 0 ∷ 0 ∷ 0 ∷ [] }) (omega arith)
