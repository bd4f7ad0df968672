-- ===== src/Protocol/Grant.antt =====
-- The docent's answer to a request, from the dialog in the docent's window to the server.
use virtual_blackboard.Prelude.{
  ℕ, ◌<◌, ◌≡◌, ◌≢◌, ◌∙◌, sym, subst, ap, inl, Bool, true, false, List, ◌++◌, ◌==◌, if◌then◌else◌,
  arith,
}
use virtual_blackboard.ClientList.{ClientList}
use virtual_blackboard.ClientList.Seg.{null, Roster}
use virtual_blackboard.ClientList.Lookup.{client_at, is_at}
use virtual_blackboard.Net.{m_reply, m_request, htons, ntohs-htons}
use virtual_blackboard.Server.World.{World, recv}
use virtual_blackboard.Server.Invariant.{Inv, Gives}
use virtual_blackboard.Server.ClientThread.{dispatch}
use virtual_blackboard.Server.ReplyHandler.Answer.{target, granted_writer, reply_handler-Gives}
use virtual_blackboard.Server.RequestHandler.Policy.{new_writer, request_handler-Gives}
use virtual_blackboard.Client.Commands.{reply_message, request_message}
use virtual_blackboard.Protocol.Messages.{served, served_run, served_rest}

-- Who has the write access after the docent's answer.
docent_grants :
    (s : ClientList) (xs : Roster) (sfd cid : ℕ) (granted : Bool)
    → is_at sfd (client_at s.user_docent xs) ≡ 1
    → target cid xs ≢ null
    → granted_writer sfd (if granted then 1 else 0) cid s xs
      ≡ (if granted then target cid xs else s.user_write)
unfolding granted_writer
docent_grants s xs sfd cid true docent there =
    let found : (target cid xs == null) ≡ false = ground arith in rw (docent, found)
docent_grants s xs sfd cid false docent there = rw docent

-- A reply of the docent's client about a client that is still there: if it is granted, the write
-- access goes to that client, and otherwise it stays where it is.
pub reply_message-Gives :
    (w : World) (xs : Roster)
    → Inv w xs
    → (sfd cid : ℕ) (granted : Bool) (rest : List ℕ) → cid < 65536
    → is_at sfd (client_at w.clients.user_docent xs) ≡ 1
    → target cid xs ≢ null
    → (w.streams sfd).bytes ≡ reply_message (if granted then 1 else 0) cid ++ rest
    → Gives (if granted then target cid xs else w.clients.user_write) w xs (served sfd w)
unfolding dispatch reply_message htons recv
reply_message-Gives w xs v sfd cid granted rest ids docent there arrived =
    let write = if granted then 1 else 0 in
    let read = ntohs-htons cid ids in
    let left = served_rest sfd m_reply 0 3 _ w arrived in
    subst (λ p. Gives p w xs (served sfd w))
      (docent_grants w.clients xs sfd cid granted docent there)
      (subst (λ k. Gives (granted_writer sfd write k w.clients xs) w xs (served sfd w)) read
        (rw (served_run sfd m_reply 0 3 _ w arrived) (
          reply_handler-Gives (recv sfd 3 w).0 xs v sfd write _ _ rest left
            (inl (λ gone. there (ap (λ k. target k xs) (sym read) ∙ gone))))))

-- A request of the client's for the write access, or to give it back.
pub request_message-Gives :
    (w : World) (xs : Roster)
    → Inv w xs
    → (sfd write : ℕ) (rest : List ℕ) → (w.streams sfd).bytes ≡ request_message write ++ rest
    → Gives (new_writer sfd write w.clients xs) w xs (served sfd w)
unfolding dispatch request_message htons
request_message-Gives w xs v sfd write rest arrived =
    rw (served_run sfd m_request 0 1 _ w arrived) (
      unfold recv in
      request_handler-Gives (recv sfd 3 w).0 xs v sfd write rest
        (served_rest sfd m_request 0 1 _ w arrived))
