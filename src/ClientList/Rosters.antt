-- ===== src/ClientList/Rosters.antt =====
-- Rosters with one more client at the end: who has a socket, and what a removal gives back.
use virtual_blackboard.Prelude.{ℕ, ◌≡◌, ◌≢◌, ap, true, false, inl, inr, [], ◌∷◌, ◌++◌, arith}
use virtual_blackboard.ClientList.Seg.{Ptr, null, ClientData, Roster, has}
use virtual_blackboard.ClientList.Represents.{Held}
use virtual_blackboard.ClientList.Lookup.{find_addr, client_at, is_at}
use virtual_blackboard.ClientList.Add.{node}
use virtual_blackboard.ClientList.Remove.{has_sfd, without, connected}

pub connected-append :
    (sfd : ℕ) (p : Ptr) (c : ClientData) (xs : Roster)
    → c.sfd ≡ sfd
    → connected sfd (xs ++ node p c ∷ []) ≡ true
unfolding connected
connected-append sfd p c [] e = ground arith
connected-append sfd p c (n ∷ xs) e = ground (arith, connected-append sfd p c xs e)

-- Removing the newest client by its socket gives the old roster back.
pub without-append :
    (sfd : ℕ) (p : Ptr) (c : ClientData) (xs : Roster)
    → c.sfd ≡ sfd
    → connected sfd xs ≡ false
    → without sfd (xs ++ node p c ∷ []) ≡ xs
unfolding connected without
without-append sfd p c [] e off = ground arith
without-append sfd p c (n ∷ xs) e off = ground (arith, without-append sfd p c xs e)

pub find_addr-append :
    (sfd : ℕ) (p : Ptr) (c : ClientData) (xs : Roster)
    → c.sfd ≡ sfd
    → connected sfd xs ≡ false
    → find_addr (has_sfd sfd) (xs ++ node p c ∷ []) ≡ p
unfolding connected find_addr
find_addr-append sfd p c [] e off = ground arith
find_addr-append sfd p c (n ∷ xs) e off = ground (arith, find_addr-append sfd p c xs e)

-- A pointer that is not the newest client's does not belong to the newest client's socket.
pub is_at-append :
    (sfd : ℕ) (d p : Ptr) (c : ClientData) (xs : Roster)
    → d ≢ p
    → connected sfd xs ≡ false
    → is_at sfd (client_at d (xs ++ node p c ∷ [])) ≡ 0
unfolding connected client_at is_at
is_at-append sfd d p c [] ne off = ground arith
is_at-append sfd d p c (n ∷ xs) ne off = ground (arith, is_at-append sfd d p c xs ne)

-- A fresh address is no client's.
pub Held-ne-fresh : (d p : Ptr) (xs : Roster) → Held d xs → p ≢ null → has p xs ≡ false → d ≢ p
Held-ne-fresh d p xs (inl nil) ne out e = ground arith
Held-ne-fresh d p xs (inr in_list) ne out e = ground (arith, ap (λ a. has a xs) e)
