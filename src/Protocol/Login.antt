-- ===== src/Protocol/Login.antt =====
-- The login message of the client at the server.
use virtual_blackboard.Prelude.{
  ℕ, suc, ◌+◌, ◌/◌, ◌%◌, ◌^◌, ◌<◌, ◌≡◌, ◌≢◌, ◌∙◌, subst, ap, false, List, ◌∷◌, ◌++◌, length,
  Returns, arith,
}
use virtual_blackboard.ClientList.Seg.{Ptr, null, Roster, has}
use virtual_blackboard.Net.{htons, ntohs, ntohs-htons}
use virtual_blackboard.Server.World.{World}
use virtual_blackboard.Server.Invariant.{Inv}
use virtual_blackboard.Server.LoginHandler.{login_handler}
use virtual_blackboard.Server.LoginHandler.Admitted.{Admitted, newcomer, login_handler-Admitted}
use virtual_blackboard.Client.Commands.{login_message}
use virtual_blackboard.Protocol.Messages.{fill-append}

-- The client's login message, with a name of 1 to 65534 bytes, is admitted by the server while ids
-- are left: the new client has exactly that name, and the role that `assigned` makes of the role
-- that was asked for.
pub login_message-Admitted :
    (fresh : Ptr) (w : World) (xs : Roster)
    → Inv w xs
    → fresh ≢ null
    → has fresh xs ≡ false
    → w.cid_counter < 65535
    → (sfd role b : ℕ) (bs rest : List ℕ) → length bs < 65534
    → (w.streams sfd).bytes ≡ login_message role (b ∷ bs) ++ rest
    → Returns
        (Admitted fresh (newcomer (w.cid_counter + 1) sfd role (b ∷ bs) w.clients) w xs)
        (login_handler fresh sfd w)
unfolding login_message htons
login_message-Admitted fresh w xs v ne out room sfd role b bs rest short arrived =
    let n : (1 + suc (length bs)) % 2 ^ 16 ≡ suc (suc (length bs)) = omega arith in
    let size =
      ap (λ k. ntohs (k / 256 % 256) (k % 256)) n
      ∙ ntohs-htons (suc (suc (length bs))) (omega arith) in
    subst
      (λ name.
        Returns (Admitted fresh (newcomer (w.cid_counter + 1) sfd role name w.clients) w xs)
          (login_handler fresh sfd w))
      (fill-append (b ∷ bs) rest w.stale)
      (login_handler-Admitted fresh w xs v ne out room sfd _ _ (length bs) role (b ∷ bs ++ rest)
        arrived size)
