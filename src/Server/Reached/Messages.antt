-- ===== src/Server/Reached/Messages.antt =====
-- What the turn of a message keeps, from whomever it comes.
use virtual_blackboard.Prelude.{
  ℕ, ◌≡◌, ◌≢◌, false, ap, ◌∙◌, Returns-if, ◌∷◌, inl, inr, ◌==◌, Bool-cases, Returns, Returns-mono,
  returns, Keeps, Returns-Keeps, Keeps-fault, arith,
}
use virtual_blackboard.ClientList.Seg.{null, Roster}
use virtual_blackboard.ClientList.Lookup.{client_at}
use virtual_blackboard.Net.{m_board, m_clear, m_request, m_reply, m_shutdown, NetHeader}
use virtual_blackboard.Server.World.{World, Code, recv, log_message, with_clients}
use virtual_blackboard.ClientList.{unlock_clientlist}
use virtual_blackboard.Server.Invariant.{Inv}
use virtual_blackboard.Server.BoardHandler.{board_handler}
use virtual_blackboard.Server.RequestHandler.{request_handler}
use virtual_blackboard.Server.ShutdownHandler.{shutdown_handler}
use virtual_blackboard.Server.ReplyHandler.{reply, reply_handler}
use virtual_blackboard.Server.ReplyHandler.Answer.{target, reply-Gives, reply-other, reply-fault}
use virtual_blackboard.Server.ShutdownHandler.Docent.{shutdown_handler-docent}
use virtual_blackboard.Server.ClientThread.{dispatch}
use virtual_blackboard.Server.ClientThread.Message.{
  Received-cases, is_at-cases, recv-Inv, Inv-released, board_handler-After, request_handler-After,
}

-- The invariant holds for the same clients.
abbrev pub Same : Roster → World × Code → Type 0
Same xs r = Inv r.0 xs

module _ (w : World) (xs : Roster) (v : Inv w xs) (sfd : ℕ) where
  -- Behind `recv` a reply faults or keeps the invariant.
  reply-Keeps : (write cid : ℕ) → Keeps (Same xs) (reply sfd write cid w)
  unfolding with_clients unlock_clientlist log_message
  reply-Keeps write cid = elim (Bool-cases (write == 0)) [
    | inl denies ↦ elim (Bool-cases (target cid xs == null)) [
      | inl gone ↦ elim (is_at-cases sfd (client_at w.clients.user_docent xs)) [
        | inl other ↦
            rw (reply-other w xs v sfd write cid other)
              (Returns-Keeps (returns (Inv-released w xs v)))
        | inr docent ↦ Keeps-fault (Same xs) (
            ap (λ k. reply sfd k cid w) (ground arith)
            ∙ reply-fault w xs v sfd cid docent (ground arith))
      ]
      | inr there ↦
          Returns-Keeps
            (Returns-mono (reply-Gives w xs v sfd write cid (inl (ground arith))) λ r g. g.0)
    ]
    | inr grants ↦
        Returns-Keeps
          (Returns-mono (reply-Gives w xs v sfd write cid (inr (ground arith))) λ r g. g.0)
  ]

module _ (w : World) (xs : Roster) (v : Inv w xs) (sfd : ℕ) where
  reply_handler-Keeps : Keeps (Same xs) (reply_handler sfd w)
  unfolding reply_handler log_message recv
  reply_handler-Keeps =
      let v' = recv-Inv sfd 3 w xs v in
      let w' = record (recv sfd 3 w).0 {
        log = (3, "reply handler: got reply from docent") ∷ (recv sfd 3 w).0.log;
      } in
      elim (Received-cases (recv sfd 3 w).1) [
        | inl got ↦ rw got (reply-Keeps w' xs v' sfd _ _)
        | inr (inl end) ↦ rw end (Returns-Keeps (returns v'))
        | inr (inr err) ↦ rw err (Returns-Keeps (returns v'))
      ]

  board-Returns : (n mtype : ℕ) → Returns (Same xs) (board_handler sfd n mtype w)
  board-Returns n mtype = Returns-mono (board_handler-After w xs v sfd n mtype) λ r a. a.0

  request-Returns : Returns (Same xs) (request_handler sfd w)
  request-Returns = Returns-mono (request_handler-After w xs v sfd) λ r a. a.0

  shutdown-Returns : Returns (Same xs) (shutdown_handler sfd w)
  shutdown-Returns = Returns-mono (shutdown_handler-docent w xs v sfd) λ r a. a.0

  -- The handler of any message but a reply returns, whoever sends it.
  pub dispatch-Returns : (h : NetHeader) → h.type ≢ m_reply → Returns (Same xs) (dispatch sfd h w)
  unfolding dispatch log_message
  dispatch-Returns h no_reply =
      let other : (h.type == m_reply) ≡ false = ground arith in
      rw other (
        Returns-if (h.type == m_board) (board-Returns h.size h.type) (
          Returns-if (h.type == m_clear)
            (Returns-if (h.size == 0) (board-Returns 0 h.type) (returns v))
            (Returns-if (h.type == m_request) request-Returns
              (Returns-if (h.type == m_shutdown) shutdown-Returns (returns v)))))

  -- Whatever message a client sends, the docent or another: if its handler returns, the invariant
  -- holds for the same clients.
  pub dispatch-Keeps : (h : NetHeader) → Keeps (Same xs) (dispatch sfd h w)
  unfolding dispatch
  dispatch-Keeps h = elim (Bool-cases (h.type == m_reply)) [
    | inl answers ↦ let ty : h.type ≡ m_reply = ground arith in rw ty reply_handler-Keeps
    | inr other ↦ Returns-Keeps (dispatch-Returns h (λ e. ground arith))
  ]
