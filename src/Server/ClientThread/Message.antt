-- ===== src/Server/ClientThread/Message.antt =====
-- One message of a client that is not the docent.
use virtual_blackboard.Prelude.{
  ℕ, ◌≡◌, ◌≤◌, ◌⊎◌, refl, ap, true, false, ◌∷◌, inl, inr, Bool-cases, Option, none, some, length,
  ◌==◌, Outcome, ok, Returns, returns, Returns-and, Returns-if, Returns-mono, arith,
}
use virtual_blackboard.ClientList.{unlock_clientlist}
use virtual_blackboard.ClientList.Seg.{ClientData, Roster}
use virtual_blackboard.ClientList.Represents.{Represents-locked, lock_lem}
use virtual_blackboard.ClientList.Lookup.{client_at, is_at, is_docent_lem}
use virtual_blackboard.Net.{m_board, m_clear, m_request, m_reply, m_shutdown, NetHeader}
use virtual_blackboard.Server.World.{
  World, Code, failed, Received, positive, zero_bytes, negative, recv, log_message, log_error,
  with_clients,
}
use virtual_blackboard.Server.Invariant.{Inv, Shape-write}
use virtual_blackboard.Server.BoardHandler.{board_handler}
use virtual_blackboard.Server.BoardHandler.Access.{board_handler-Handled, board_handler-refused}
use virtual_blackboard.Server.BoardHandler.Streams.{recv_shorter, board_handler-streams}
use virtual_blackboard.Server.RequestHandler.{request, request_handler}
use virtual_blackboard.Server.RequestHandler.Policy.{request-Gives}
use virtual_blackboard.Server.RequestHandler.Streams.{request-streams}
use virtual_blackboard.Server.ReplyHandler.{reply_handler}
use virtual_blackboard.Server.ReplyHandler.Answer.{reply-other}
use virtual_blackboard.Server.ShutdownHandler.{shutdown_handler}
use virtual_blackboard.Server.ClientThread.{dispatch}

-- The invariant holds, the docent is the same, and the connection has no more bytes than before.
abbrev pub After : (sfd : ℕ) → World → Roster → World × Code → Type 0
After sfd w xs r =
    Inv r.0 xs
    × (r.0.clients.user_docent ≡ w.clients.user_docent)
    × (length (r.0.streams sfd).bytes ≤ length (w.streams sfd).bytes)

pub Received-cases : (r : Received) → (r ≡ positive) ⊎ ((r ≡ zero_bytes) ⊎ (r ≡ negative))
Received-cases positive = inl refl
Received-cases zero_bytes = inr (inl refl)
Received-cases negative = inr (inr refl)

pub is_at-cases : (sfd : ℕ) (o : Option ClientData) → (is_at sfd o ≡ 0) ⊎ (is_at sfd o ≡ 1)
unfolding is_at
is_at-cases sfd none = inl refl
is_at-cases sfd (some c) = elim (Bool-cases (c.sfd == sfd)) [
  | inl hit ↦ inr (rw hit)
  | inr miss ↦ inl (rw miss)
]

-- A `recv` changes the connection alone.
pub recv-Inv : (sfd n : ℕ) (w : World) (xs : Roster) → Inv w xs → Inv (recv sfd n w).0 xs
unfolding recv
recv-Inv sfd n w xs v = v

pub Inv-released :
    (w : World) (xs : Roster)
    → Inv w xs
    → Inv (record w { clients = record w.clients { locked = false } }) xs
Inv-released w xs v =
    Shape-write w.clients _ _ _ _ xs w.clients.user_write v.represents.write_held v.granted v

module _ (w : World) (xs : Roster) (v : Inv w xs) (sfd : ℕ) where
  pub board_handler-After : (n mtype : ℕ) → Returns (After sfd w xs) (board_handler sfd n mtype w)
  unfolding log_message
  board_handler-After n mtype = elim (is_at-cases sfd (client_at w.clients.user_write xs)) [
    | inl reader ↦
        rw (board_handler-refused w xs v sfd n mtype reader) (returns (v, refl, omega arith))
    | inr writer ↦
        Returns-mono
          (Returns-and (board_handler-Handled w xs v sfd n mtype writer)
            (board_handler-streams sfd n mtype w))
          (λ r (h, s). (h.0, ap (λ c. c.user_docent) h.1, s))
  ]

  request-After : (write : ℕ) → Returns (After sfd w xs) (request sfd write w)
  request-After write =
      Returns-mono (Returns-and (request-Gives w xs v sfd write) (request-streams sfd write w))
        (λ r ((inv, writer, docent), s).
          (inv, docent, omega (arith, ap (λ f. length (f sfd).bytes) s)))

module _ (w : World) (xs : Roster) (v : Inv w xs) (sfd : ℕ) where
  -- What holds after the message was read holds for the state before.
  read-After :
      (n : ℕ) (o : Outcome (World × Code))
      → Returns (After sfd (recv sfd n w).0 xs) o
      → Returns (After sfd w xs) o
  unfolding recv
  read-After n o h =
      let less = recv_shorter sfd n w in
      Returns-mono h (λ r (inv, docent, s). (inv, docent, omega arith))

  pub request_handler-After : Returns (After sfd w xs) (request_handler sfd w)
  unfolding request_handler log_message recv
  request_handler-After =
      let w' = (recv sfd 1 w).0 in
      read-After 1 _ (elim (Received-cases (recv sfd 1 w).1) [
        | inl got ↦ rw got (request-After w' xs (recv-Inv sfd 1 w xs v) sfd _)
        | inr (inl end) ↦ rw end (returns (recv-Inv sfd 1 w xs v, refl, omega arith))
        | inr (inr err) ↦ rw err (returns (recv-Inv sfd 1 w xs v, refl, omega arith))
      ])

  reply_handler-After :
      is_at sfd (client_at w.clients.user_docent xs) ≡ 0
      → Returns (After sfd w xs) (reply_handler sfd w)
  unfolding reply_handler log_message with_clients unlock_clientlist recv
  reply_handler-After other =
      let w' = record (recv sfd 3 w).0 {
        log = (3, "reply handler: got reply from docent") ∷ (recv sfd 3 w).0.log;
      } in
      read-After 3 _ (elim (Received-cases (recv sfd 3 w).1) [
        | inl got ↦
            rw (got, reply-other w' xs (recv-Inv sfd 3 w xs v) sfd _ _ (unfold recv in other))
              (returns (Inv-released w' xs (recv-Inv sfd 3 w xs v), refl, omega arith))
        | inr (inl end) ↦ rw end (returns (recv-Inv sfd 3 w xs v, refl, omega arith))
        | inr (inr err) ↦ rw err (returns (recv-Inv sfd 3 w xs v, refl, omega arith))
      ])

  shutdown_handler-After :
      is_at sfd (client_at w.clients.user_docent xs) ≡ 0
      → Returns (After sfd w xs) (shutdown_handler sfd w)
  unfolding shutdown_handler log_message with_clients unlock_clientlist
  shutdown_handler-After other =
      let r = Represents-locked w.clients xs true v.represents in
      rw
        (
          lock_lem w.clients v.unlocked,
          is_docent_lem (record w.clients { locked = true }) xs r sfd,
          other,
        )
        (returns (Inv-released w xs v, refl, omega arith))

  -- Whatever message the client sends, its handler returns.
  pub dispatch-After :
      (h : NetHeader)
      → is_at sfd (client_at w.clients.user_docent xs) ≡ 0
      → Returns (After sfd w xs) (dispatch sfd h w)
  unfolding dispatch log_message
  dispatch-After h other =
      let kicked : Returns (After sfd w xs) (ok (w, failed)) = returns (v, refl, omega arith) in
      let unknown : Returns (After sfd w xs)
          (ok (log_error "client thread: message type unknown" w, failed)) =
        returns (v, refl, omega arith) in
      Returns-if (h.type == m_board) (board_handler-After w xs v sfd h.size h.type) (
        Returns-if (h.type == m_clear)
          (Returns-if (h.size == 0) (board_handler-After w xs v sfd 0 h.type) kicked)
          (Returns-if (h.type == m_request) request_handler-After (
            Returns-if (h.type == m_reply) (reply_handler-After other)
              (Returns-if (h.type == m_shutdown) (shutdown_handler-After other) unknown))))
