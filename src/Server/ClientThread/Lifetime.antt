-- ===== src/Server/ClientThread/Lifetime.antt =====
-- The whole life of a connection whose client is a student.
use virtual_blackboard.Prelude.{
  ℕ, suc, ◌+◌, ◌≡◌, ◌≢◌, ◌<◌, ◌∙◌, refl, subst, false, List, [], ◌∷◌, ◌++◌, length, length-append,
  ◌==◌, if◌then◌else◌, ◌>>=◌, Returns, returns, Returns-bind, arith,
}
use virtual_blackboard.ClientList.{student, docent}
use virtual_blackboard.ClientList.Seg.{Ptr, null, ClientData, Roster, has}
use virtual_blackboard.ClientList.Represents.{Represents}
use virtual_blackboard.ClientList.Add.{node}
use virtual_blackboard.ClientList.Remove.{connected, remove_client-Removed}
use virtual_blackboard.ClientList.Granted.{Removed-IsGranted}
use virtual_blackboard.ClientList.Rosters.{
  connected-append, without-append, find_addr-append, is_at-append, Held-ne-fresh,
}
use virtual_blackboard.Net.{m_login, ntohs}
use virtual_blackboard.Server.World.{
  World, fill, log_message, trigger_broadcast, with_clients, close,
}
use virtual_blackboard.Server.Invariant.{Shape-few, Inv, Named}
use virtual_blackboard.Server.LoginHandler.Admitted.{assigned, newcomer, login_handler-Admitted}
use virtual_blackboard.Server.ClientThread.{serve, leave, client_handler}
use virtual_blackboard.Server.ClientThread.Session.{Kept, serve-Kept}

Named-prefix : (xs ys : Roster) → Named (xs ++ ys) → Named xs
Named-prefix [] ys v = tt
Named-prefix (n ∷ xs) ys v = (v.0, Named-prefix xs ys v.1)

other_docent :
    (d p q docent : Ptr) → docent ≡ d → p ≡ q → d ≢ q → (if p == docent then null else docent) ≡ d
other_docent d p q docent is at ne = ground arith

-- The newest client leaves: the list stands for the others again.
leave-Kept :
    (fresh sfd : ℕ) (c : ClientData) (d : Ptr) (w : World) (xs : Roster)
    → c.sfd ≡ sfd
    → connected sfd xs ≡ false
    → d ≢ fresh
    → Kept d (xs ++ node fresh c ∷ []) w
    → Returns (Kept d xs) (leave sfd w)
unfolding leave close trigger_broadcast with_clients
leave-Kept fresh sfd c d w xs e off ne (v, is) =
    let ys = xs ++ node fresh c ∷ [] in
    let (t, run, m) =
      remove_client-Removed w.clients sfd ys v.represents v.unlocked (Shape-few _ _ _ _ _ ys v)
        (connected-append sfd fresh c xs e) in
    let at = find_addr-append sfd fresh c xs e off in
    rw run (
      returns (
        record {
          represents = subst (Represents t) (without-append sfd fresh c xs e off) m.represents;
          unlocked = m.unlocked;
          granted = Removed-IsGranted _ w.clients t _ m v.granted;
          few = omega (arith, v.few, length-append xs (node fresh c ∷ []));
          counter = v.counter;
          is_board = v.is_board;
          bsem_free = v.bsem_free;
          asem_free = v.asem_free;
          named = Named-prefix xs _ v.named;
        },
        m.docent_is ∙ other_docent d _ fresh _ is at ne,
      ))

-- The loop and the departure of the newest client.
session-Kept :
    (fresh sfd : ℕ) (c : ClientData) (d : Ptr) (w : World) (xs : Roster)
    → c.sfd ≡ sfd
    → connected sfd xs ≡ false
    → d ≢ fresh
    → Kept d (xs ++ node fresh c ∷ []) w
    → Returns
        (Kept d xs)
        (serve (suc (length (w.streams sfd).bytes)) sfd w >>= λ w''. leave sfd w'')
session-Kept fresh sfd c d w xs e off ne (v, is) =
    Returns-bind
      (serve-Kept _ sfd d (xs ++ node fresh c ∷ []) (is_at-append sfd d fresh c xs ne off) w v is
        (omega arith))
      (λ u kept. leave-Kept fresh sfd c d u xs e off ne kept)

-- The thread of a client that logs in and becomes a student returns, whatever the client sends
-- afterwards and however the connection ends: no pointer is misused, no lock is waited for and the
-- rounds of its loop are enough. After it the client list stands for the clients from before the
-- login, the docent is the same and the invariant holds.
pub client_handler-Kept :
    (fresh : Ptr) (w : World) (xs : Roster)
    → Inv w xs
    → fresh ≢ null
    → has fresh xs ≡ false
    → w.cid_counter < 65535
    → (sfd high low k role : ℕ) (rest : List ℕ)
    → (w.streams sfd).bytes ≡ m_login ∷ high ∷ low ∷ role ∷ rest
    → ntohs high low ≡ suc (suc k)
    → assigned role w.clients ≡ student
    → connected sfd xs ≡ false
    → Returns (Kept w.clients.user_docent xs) (client_handler fresh sfd w)
unfolding client_handler log_message
client_handler-Kept fresh w xs v ne out room sfd high low k role rest arrived size is_student off =
    let d = w.clients.user_docent in
    let start = record w { log = (2, "client thread: handle a new login") ∷ w.log } in
    let c = newcomer (w.cid_counter + 1) sfd role (fill (suc k) w.stale rest) w.clients in
    let ys = xs ++ node fresh c ∷ [] in
    let apart = Held-ne-fresh d fresh xs v.represents.docent_held ne out in
    Returns-bind
      (login_handler-Admitted fresh start xs v ne out room sfd high low k role rest arrived size)
      (λ r (inv, docent_is, writer_is, board, signalled, type, code). rw code (
        session-Kept fresh sfd c d (log_message 2 "client thread: login successful" r.0) xs refl off
          apart (inv, docent_is ∙ rw is_student)))
