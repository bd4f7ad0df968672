-- ===== src/Server/Reached/Departures.antt =====
-- What the turn of a departure keeps.
use virtual_blackboard.Prelude.{
  ℕ, ◌≤◌, ◌≡◌, refl, true, inl, inr, [], ◌∷◌, length, ◌==◌, Bool-cases, Returns, returns, Keeps,
  Returns-Keeps, Keeps-fault, arith,
}
use virtual_blackboard.ClientList.Seg.{Roster}
use virtual_blackboard.ClientList.Remove.{
  connected, without, remove_client-Removed, remove_client-missing,
}
use virtual_blackboard.ClientList.Granted.{Removed-IsGranted}
use virtual_blackboard.Server.World.{World, trigger_broadcast, with_clients, close}
use virtual_blackboard.Server.Invariant.{Inv, Sound, Shape-few, Named}
use virtual_blackboard.Server.ClientThread.{leave}

Named-without : (sfd : ℕ) (xs : Roster) → Named xs → Named (without sfd xs)
unfolding without
Named-without sfd [] v = tt
Named-without sfd (n ∷ xs) v = elim (Bool-cases (n.cdata.sfd == sfd)) [
  | inl hit ↦ rw hit v.1
  | inr miss ↦ rw miss (v.0, Named-without sfd xs v.1)
]

length-without : (sfd : ℕ) (xs : Roster) → length (without sfd xs) ≤ length xs
unfolding without
length-without sfd [] = omega arith
length-without sfd (n ∷ xs) = ground (arith, length-without sfd xs)

-- The departure of a client that is connected.
pub leave-Returns :
    (w : World) (xs : Roster) (sfd : ℕ)
    → Inv w xs
    → connected sfd xs ≡ true
    → Returns Sound (leave sfd w)
unfolding leave close trigger_broadcast with_clients
leave-Returns w xs sfd v on =
    let (t, run, m) =
      remove_client-Removed w.clients sfd xs v.represents v.unlocked (Shape-few _ _ _ _ _ xs v)
        on in
    rw run (
      returns (
        without sfd xs,
        record {
          represents = m.represents;
          unlocked = m.unlocked;
          granted = Removed-IsGranted _ w.clients t _ m v.granted;
          few = omega (arith, v.few, length-without sfd xs);
          counter = v.counter;
          is_board = v.is_board;
          bsem_free = v.bsem_free;
          asem_free = v.asem_free;
          named = Named-without sfd xs v.named;
        },
      ))

pub leave-Keeps : (w : World) (xs : Roster) (sfd : ℕ) → Inv w xs → Keeps Sound (leave sfd w)
unfolding leave
leave-Keeps w xs sfd v = elim (Bool-cases (connected sfd xs)) [
  | inl on ↦ Returns-Keeps (leave-Returns w xs sfd v on)
  | inr off ↦
      let run =
        remove_client-missing w.clients sfd xs v.represents v.unlocked (Shape-few _ _ _ _ _ xs v)
          off in
      Keeps-fault Sound (rw run refl)
]
