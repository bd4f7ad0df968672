-- ===== src/Server/LoginHandler/Total.antt =====
-- The result of `login_handler` of src/server/message_handler.c for whatever the connection delivers.
use virtual_blackboard.Prelude.{
  ℕ, ◌+◌, ◌≡◌, ◌≢◌, refl, true, false, not, ltb, none, inl, inr, List, [], ◌∷◌, ◌==◌, Bool-cases,
  Returns, Returns-mono, Returns-if, returns, ap, arith,
}
use virtual_blackboard.ClientList.{get_next_cid}
use virtual_blackboard.ClientList.Seg.{Ptr, null, Cells, Roster, Seg, has}
use virtual_blackboard.ClientList.Ids.{get_next_cid_step}
use virtual_blackboard.Net.{m_login}
use virtual_blackboard.Server.World.{World, recv, send, log_message}
use virtual_blackboard.Server.Invariant.{Inv, Sound, has_nul, has_nul-append}
use virtual_blackboard.Server.LoginHandler.{
  header_of, client_data, reject, admit, receive_login, login_handler,
}
use virtual_blackboard.Server.LoginHandler.Admitted.{Inv-counted, enter-Admitted}
use virtual_blackboard.Server.LoginHandler.Full.{admit_full}
use virtual_blackboard.Server.ClientThread.Message.{Received-cases, recv-Inv}

-- An address without an entry is no client's.
free-has :
    (h : Cells) (p e fresh : Ptr) (xs : Roster)
    → Seg h p xs e
    → h fresh ≡ none
    → has fresh xs ≡ false
free-has h p e fresh [] s free = refl
free-has h p e fresh (n ∷ xs) s free =
    ground (arith, s.1, free-has h n.addr e fresh xs s.2 free, ap h)

client_data-has_nul :
    (cid sfd : ℕ) (buffer : List ℕ) → has_nul (client_data cid sfd buffer).name ≡ true
unfolding client_data
client_data-has_nul cid sfd [] = refl
client_data-has_nul cid sfd (role ∷ name) = has_nul-append name (0 ∷ []) refl

module _ (fresh : Ptr) (ne : fresh ≢ null) (sfd : ℕ) where
  -- Behind the two calls of `recv`, for whatever was received.
  admit-Returns :
      (w : World) (xs : Roster) (buffer : List ℕ)
      → Inv w xs
      → has fresh xs ≡ false
      → Returns (λ r. Sound r.0) (admit fresh sfd buffer w)
  unfolding admit reject send log_message
  admit-Returns w xs buffer v out =
      let step = get_next_cid_step w.cid_counter v.counter in
      elim (Bool-cases (ltb w.cid_counter 65535)) [
        | inl room ↦
            let counted : (get_next_cid w.cid_counter).0 ≡ w.cid_counter + 1 =
              ground (arith, step) in
            let given : (get_next_cid w.cid_counter).1 ≡ w.cid_counter + 1 = ground (arith, step) in
            let some_id : (w.cid_counter + 1 == 0) ≡ false = ground arith in
            let c = client_data (w.cid_counter + 1) sfd buffer in
            rw (counted, given, some_id)
              (Returns-mono
                (enter-Admitted fresh c (record w { cid_counter = w.cid_counter + 1 }) xs ne out
                  (Inv-counted w xs v (ground arith)) (omega (arith, v.few))
                  (client_data-has_nul _ sfd buffer))
                (λ r a. (_, a.0)))
        | inr full ↦
            rw (admit_full fresh sfd buffer w (ground (arith, v.counter))) (returns (xs, v))
      ]

  receive_login-Returns :
      (w : World) (xs : Roster) (size : ℕ)
      → Inv w xs
      → has fresh xs ≡ false
      → Returns (λ r. Sound r.0) (receive_login fresh sfd size w)
  unfolding receive_login log_message recv
  receive_login-Returns w xs size v out =
      let v' = recv-Inv sfd size w xs v in
      elim (Received-cases (recv sfd size w).1) [
        | inl got ↦ rw got (admit-Returns (recv sfd size w).0 xs _ v' out)
        | inr (inl end) ↦ rw end (returns (xs, v'))
        | inr (inr err) ↦ rw err (returns (xs, v'))
      ]

  -- Whatever arrives for a login, it returns and keeps the invariant.
  pub login_handler-Returns :
      (w : World) (xs : Roster)
      → Inv w xs
      → w.clients.cell fresh ≡ none
      → Returns (λ r. Sound r.0) (login_handler fresh sfd w)
  unfolding login_handler log_message recv
  login_handler-Returns w xs v free =
      let v' = recv-Inv sfd 3 w xs v in
      let out = free-has w.clients.cell null null fresh xs v.represents.linked free in
      let header = header_of (recv sfd 3 w).2 in
      Returns-if (not (header.type == m_login)) (returns (xs, v'))
        (elim (Received-cases (recv sfd 3 w).1) [
          | inl got ↦ rw got (
              Returns-if (ltb header.size 2) (returns (xs, v'))
                (receive_login-Returns (recv sfd 3 w).0 xs header.size v' out))
          | inr (inl end) ↦ rw end (returns (xs, v'))
          | inr (inr err) ↦ rw err (returns (xs, v'))
        ])
