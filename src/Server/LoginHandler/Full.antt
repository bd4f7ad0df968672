-- ===== src/Server/LoginHandler/Full.antt =====
-- A login that `login_handler` of src/server/message_handler.c turns away: no id is left.
use virtual_blackboard.Prelude.{
  ℕ, suc, ◌+◌, ◌≡◌, refl, List, ◌∷◌, length, ok, Returns, returns, arith,
}
use virtual_blackboard.ClientList.{get_next_cid}
use virtual_blackboard.ClientList.Seg.{Ptr, Roster}
use virtual_blackboard.ClientList.Ids.{get_next_cid_step}
use virtual_blackboard.Net.{m_login, e_login, ntohs}
use virtual_blackboard.Net.Build.{build_error}
use virtual_blackboard.Server.World.{World, failed, recv, send, fill, log_message}
use virtual_blackboard.Server.Invariant.{Inv}
use virtual_blackboard.Server.LoginHandler.{too_many_text, cleared, reject, admit, login_handler}
use virtual_blackboard.Server.LoginHandler.Admitted.{login_handler_run}

pub admit_full :
    (fresh : Ptr) (sfd : ℕ) (buffer : List ℕ) (w : World)
    → w.cid_counter ≡ 65535
    → admit fresh sfd buffer w ≡ ok (reject (cleared 0) w)
unfolding admit
admit_full fresh sfd buffer w full =
    let step = get_next_cid_step w.cid_counter (omega arith) in
    let counted : (get_next_cid w.cid_counter).0 ≡ w.cid_counter = ground (arith, step) in
    let none_left : (get_next_cid w.cid_counter).1 ≡ 0 = ground (arith, step) in
    rw (counted, none_left)

-- When all 65535 ids are used up, a login message of at least two bytes is answered with -1 and the
-- state keeps its clients and the invariant. The message that says so goes to the socket of the
-- cleared client data.
pub login_handler-full :
    (fresh : Ptr) (w : World) (xs : Roster)
    → Inv w xs
    → w.cid_counter ≡ 65535
    → (sfd high low k role : ℕ) (rest : List ℕ)
    → (w.streams sfd).bytes ≡ m_login ∷ high ∷ low ∷ role ∷ rest
    → ntohs high low ≡ suc (suc k)
    → Returns
        (λ r.
          Inv r.0 xs
          × (r.0.clients ≡ w.clients)
          × (r.0.sent
              ≡ (send
                  (cleared 0).sfd
                  (build_error e_login too_many_text (length too_many_text))
                  (4 + length too_many_text)
                  w).0.sent)
          × (r.0.closed ≡ w.closed)
          × (r.1 ≡ failed))
        (login_handler fresh sfd w)
unfolding recv send reject log_message
login_handler-full fresh w xs v full sfd high low k role rest arrived size =
    rw
      (
        login_handler_run fresh w sfd high low k role rest arrived size,
        admit_full fresh sfd (role ∷ fill (suc k) w.stale rest)
            (recv sfd (suc (suc k)) (recv sfd 3 w).0).0 full,
      )
      (returns (v, refl, refl, refl, refl))
