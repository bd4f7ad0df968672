-- ===== src/Server/ShutdownHandler/Docent.antt =====
-- Who may stop the system.
use virtual_blackboard.Prelude.{
  ℕ, ◌≡◌, refl, true, ◌==◌, if◌then◌else◌, Bool-cases, inl, inr, Returns, returns,
}
use virtual_blackboard.ClientList.{unlock_clientlist}
use virtual_blackboard.ClientList.Seg.{Roster}
use virtual_blackboard.ClientList.Represents.{Represents-locked, lock_lem}
use virtual_blackboard.ClientList.Lookup.{client_at, is_at, is_docent_lem}
use virtual_blackboard.Server.World.{World, success, failed, log_message, with_clients}
use virtual_blackboard.Server.Invariant.{Inv, Shape-write}
use virtual_blackboard.Server.ShutdownHandler.{shutdown_handler}

-- The handler returns with the invariant kept. If the sender is the docent the interrupt is sent
-- and the code is 0; otherwise nothing is sent and the code is -1, which ends the connection.
pub shutdown_handler-docent :
    (w : World) (xs : Roster)
    → Inv w xs
    → (sfd : ℕ)
    → let other = is_at sfd (client_at w.clients.user_docent xs) == 0 in
      Returns
        (λ r.
          Inv r.0 xs
          × (r.0.interrupted ≡ (if other then w.interrupted else true))
          × (r.1 ≡ (if other then failed else success)))
        (shutdown_handler sfd w)
unfolding shutdown_handler log_message with_clients unlock_clientlist
shutdown_handler-docent w xs v sfd =
    let held = record w.clients { locked = true } in
    let r = Represents-locked w.clients xs true v.represents in
    let s =
      Shape-write w.clients _ _ _ _ xs w.clients.user_write v.represents.write_held v.granted v in
    rw (lock_lem w.clients v.unlocked, is_docent_lem held xs r sfd)
      (elim (Bool-cases (is_at sfd (client_at w.clients.user_docent xs) == 0)) [
        | inl other ↦ rw other (returns (s, refl, refl))
        | inr docent ↦ rw docent (returns (s, refl, refl))
      ])
