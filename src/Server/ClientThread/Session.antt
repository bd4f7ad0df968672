-- ===== src/Server/ClientThread/Session.antt =====
-- The loop of a client thread.
use virtual_blackboard.Prelude.{
  ℕ, zero, suc, ◌≡◌, ◌<◌, ◌∙◌, inl, inr, length, length-drop, ok, Returns, returns, Returns-bind,
  arith,
}
use virtual_blackboard.ClientList.Seg.{Ptr, Roster}
use virtual_blackboard.ClientList.Lookup.{client_at, is_at}
use virtual_blackboard.Server.World.{
  World, Code, success, refused, failed, recv, recv_rest, recv_found, log_message,
}
use virtual_blackboard.Server.Invariant.{Inv}
use virtual_blackboard.Server.LoginHandler.{header_of}
use virtual_blackboard.Server.ClientThread.{serve}
use virtual_blackboard.Server.ClientThread.Message.{After, Received-cases, recv-Inv, dispatch-After}

-- The invariant holds, and `d` is the docent.
abbrev pub Kept : Ptr → Roster → World → Type 0
Kept d xs u = Inv u xs × (u.clients.user_docent ≡ d)

-- What a round leaves behind is enough for the rounds that follow.
abbrev Continues : (fuel sfd : ℕ) → Ptr → Roster → Type 0
Continues fuel sfd d xs =
    (u : World)
    → Inv u xs
    → u.clients.user_docent ≡ d
    → length (u.streams sfd).bytes < fuel
    → Returns (Kept d xs) (serve fuel sfd u)

-- The part of a round behind the handler.
continue-Kept :
    (fuel sfd : ℕ) (d : Ptr) (xs : Roster)
    → Continues fuel sfd d xs
    → (w : World) → length (w.streams sfd).bytes < fuel
    → w.clients.user_docent ≡ d
    → (r : World × Code) → After sfd w xs r
    → Returns (Kept d xs) (elim r.1 [ failed ↦ ok r.0 | _ ↦ serve fuel sfd r.0 ])
continue-Kept fuel sfd d xs next w enough is (u, failed) (inv, docent, s) =
    returns (inv, docent ∙ is)
continue-Kept fuel sfd d xs next w enough is (u, success) (inv, docent, s) =
    next u inv (docent ∙ is) (omega arith)
continue-Kept fuel sfd d xs next w enough is (u, refused) (inv, docent, s) =
    next u inv (docent ∙ is) (omega arith)

-- The loop of a client thread ends: with one round more than there are bytes it returns.
pub serve-Kept :
    (fuel sfd : ℕ) (d : Ptr) (xs : Roster)
    → is_at sfd (client_at d xs) ≡ 0
    → Continues fuel sfd d xs
unfolding serve log_message recv
serve-Kept zero sfd d xs other w v is enough = absurd (omega arith)
serve-Kept (suc fuel) sfd d xs other w v is enough = elim (Received-cases (recv sfd 3 w).1) [
  | inl got ↦
      let found = recv_found sfd 3 w got in
      let left : length ((recv sfd 3 w).0.streams sfd).bytes < fuel =
        rw (recv_rest sfd 3 w) (omega (arith, length-drop 3 (w.streams sfd).bytes)) in
      rw got (
        Returns-bind
          (dispatch-After (recv sfd 3 w).0 xs (recv-Inv sfd 3 w xs v) sfd
            (header_of (recv sfd 3 w).2) (rw is other))
          (continue-Kept fuel sfd d xs (serve-Kept fuel sfd d xs other) (recv sfd 3 w).0 left (is)))
  | inr (inl end) ↦ rw end (returns (recv-Inv sfd 3 w xs v, is))
  | inr (inr err) ↦ rw err (returns (recv-Inv sfd 3 w xs v, is))
]
