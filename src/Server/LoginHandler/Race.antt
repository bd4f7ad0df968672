-- ===== src/Server/LoginHandler/Race.antt =====
-- Two logins at once: `login_handler` of src/server/message_handler.c looks for a docent before it
-- takes the client list's mutex to enter the client.
use virtual_blackboard.Prelude.{
  ◌+◌, ◌<◌, ◌≡◌, ◌≢◌, true, false, [], ◌∷◌, ◌++◌, length, length-append, Outcome, ok, ◌>>=◌,
  Returns, Returns-bind, Returns-mono, Returns-and, arith,
}
use virtual_blackboard.ClientList.{docent, docent_exists}
use virtual_blackboard.ClientList.Seg.{Ptr, null, ClientData, Roster, has}
use virtual_blackboard.ClientList.Add.{node}
use virtual_blackboard.Server.World.{
  World, Code, send, log_message, lock_bsem, unlock_bsem, trigger_broadcast, with_clients,
}
use virtual_blackboard.Server.Invariant.{Inv, has_nul}
use virtual_blackboard.Server.LoginHandler.{assign_role, send_initial_board, seat}
use virtual_blackboard.Server.LoginHandler.Admitted.{seat-Admitted}

-- Both threads choose the role, and then both enter their clients.
unfoldable pub two_logins : (p q : Ptr) → (a b : ClientData) → World → Outcome (World × Code)
two_logins p q a b w = do
  (w, role_a) ← assign_role a.role w
  (w, role_b) ← assign_role b.role w
  (w, code) ← seat p (record a { role = role_a }) w
  seat q (record b { role = role_b }) w

seat-counter :
    (p : Ptr) (c : ClientData) (w : World) (r : World × Code)
    → seat p c w ≡ ok r
    → r.0.cid_counter ≡ w.cid_counter
unfolding seat send_initial_board lock_bsem unlock_bsem with_clients send log_message
    trigger_broadcast
seat-counter p c w r e = ground arith

no_docent :
    (c : ClientData) (w : World)
    → c.role ≡ docent
    → w.clients.user_docent ≡ null
    → assign_role c.role w ≡ ok (w, docent)
unfolding assign_role docent_exists
no_docent c w lead vacant = rw (lead, vacant)

-- If there is no docent and two clients log in as docent at once, both enter the list as docent. The
-- second one has the docent's rights then, the first one has the role without them.
pub two_logins-docents :
    (p q : Ptr) (a b : ClientData) (w : World) (xs : Roster)
    → Inv w xs
    → p ≢ null
    → q ≢ null
    → has p xs ≡ false
    → has q (xs ++ node p (record a { role = docent }) ∷ []) ≡ false
    → length xs + 1 < w.cid_counter
    → has_nul a.name ≡ true
    → has_nul b.name ≡ true
    → a.role ≡ docent
    → b.role ≡ docent
    → w.clients.user_docent ≡ null
    → Returns
        (λ r.
          Inv r.0 (
            (xs ++ node p (record a { role = docent }) ∷ [])
            ++ node q (record b { role = docent }) ∷ [])
          × (r.0.clients.user_docent ≡ q)
          × (r.0.clients.user_write ≡ q))
        (two_logins p q a b w)
unfolding two_logins
two_logins-docents p q a b w xs v np nq out_p out_q few named_a named_b lead_a lead_b vacant =
    let first = record a { role = docent } in
    let ys = xs ++ node p first ∷ [] in
    rw (no_docent a w lead_a vacant, no_docent b w lead_b vacant)
      (Returns-bind
        (Returns-and (seat-Admitted p first w xs np out_p v (omega arith) named_a)
          (seat-counter p first w))
        (λ r ((inv, d, e, f, g, h, i), counter).
          Returns-mono
            (seat-Admitted q (record b { role = docent }) r.0 ys nq out_q inv
              (omega (arith, length-append xs (node p first ∷ []))) named_b)
            (λ u (inv', docent_is', write_is', f', g', h', i'). (inv', docent_is', write_is'))))
