-- ===== src/Server/ClientThread/Full.antt =====
-- A connection that `client_handler` of src/server/client_thread.c takes when no id is left.
use virtual_blackboard.Prelude.{
  ℕ, suc, ◌≡◌, ◌≢◌, ◌∙◌, refl, ap, false, List, [], ◌∷◌, length, ◌==◌, if◌then◌else◌, Bool-cases,
  inl, inr, Returns, returns, Returns-bind, arith,
}
use virtual_blackboard.ClientList.Seg.{Ptr, Roster}
use virtual_blackboard.Net.{m_login, e_login, htons, ntohs}
use virtual_blackboard.Net.Strings.{codes}
use virtual_blackboard.Net.Build.{build_error}
use virtual_blackboard.Server.World.{World, log_message, log_info, send, close}
use virtual_blackboard.Server.Invariant.{Inv}
use virtual_blackboard.Server.LoginHandler.{too_many_text, cleared}
use virtual_blackboard.Server.LoginHandler.Full.{login_handler-full}
use virtual_blackboard.Server.ClientThread.{client_handler}

-- What has been sent to a descriptor, the newest message first.
abbrev pub messages_to : (sfd : ℕ) → List (ℕ × List ℕ) → List (List ℕ)
messages_to sfd [] = []
messages_to sfd ((i, message) ∷ sent) =
    if i == sfd then message ∷ messages_to sfd sent else messages_to sfd sent

-- The error message: type 255, a length of 35, code 10, and the text.
abbrev pub too_many_message : List ℕ
too_many_message = 255 ∷ 0 ∷ 35 ∷ 10 ∷ codes "There are too many clients. Sorry!"

sent_at_zero :
    (sfd : ℕ) (w : World)
    → sfd ≢ 0
    → let u =
        (send (cleared 0).sfd (build_error e_login too_many_text (length too_many_text)) 38 w).0 in
      (messages_to sfd u.sent ≡ messages_to sfd w.sent)
      × (messages_to 0 u.sent
          ≡ (if w.sends 0 then too_many_message ∷ messages_to 0 w.sent else messages_to 0 w.sent))
unfolding send build_error htons
sent_at_zero sfd w ne =
    let other : (0 == sfd) ≡ false = ground arith in
    elim (Bool-cases (w.sends 0)) [
      | inl takes ↦ rw takes (rw other refl, refl)
      | inr shut ↦ rw shut (refl, refl)
    ]

-- When all 65535 ids are used up, the thread of a connection whose login message has at least two
-- bytes returns and closes the connection, with the client list and the invariant kept. The client is
-- told nothing: the message that there are too many clients goes to the descriptor 0.
pub client_handler-full :
    (fresh : Ptr) (w : World) (xs : Roster)
    → Inv w xs
    → w.cid_counter ≡ 65535
    → (sfd high low k role : ℕ) (rest : List ℕ) → sfd ≢ 0
    → (w.streams sfd).bytes ≡ m_login ∷ high ∷ low ∷ role ∷ rest
    → ntohs high low ≡ suc (suc k)
    → Returns
        (λ u.
          Inv u xs
          × (u.clients ≡ w.clients)
          × (messages_to sfd u.sent ≡ messages_to sfd w.sent)
          × (messages_to 0 u.sent ≡ (
              if w.sends 0 then too_many_message ∷ messages_to 0 w.sent else messages_to 0 w.sent))
          × (u.closed ≡ sfd ∷ w.closed))
        (client_handler fresh sfd w)
unfolding client_handler log_message close
client_handler-full fresh w xs v full sfd high low k role rest ne arrived size =
    let start = log_info "client thread: handle a new login" w in
    Returns-bind (login_handler-full fresh start xs v full sfd high low k role rest arrived size)
      (λ r (inv, clients, sent, closed, code).
        let told = sent_at_zero sfd start ne in
        rw code (
          returns (
            inv,
            clients,
            ap (messages_to sfd) sent ∙ told.0,
            ap (messages_to 0) sent ∙ told.1,
            ap (◌∷◌ sfd) closed,
          )))
