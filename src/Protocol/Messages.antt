-- ===== src/Protocol/Messages.antt =====
-- One message of a client in the loop of its thread at the server.
use virtual_blackboard.Prelude.{ℕ, ◌≡◌, ◌∙◌, refl, ap, List, [], ◌∷◌, ◌++◌, length, drop, Outcome}
use virtual_blackboard.Net.{ntohs, ntoh_header, sizeof_net_header}
use virtual_blackboard.Server.World.{World, Code, recv, recv_buffer, recv_rest, fill}
use virtual_blackboard.Server.LoginHandler.{header_of}
use virtual_blackboard.Server.ClientThread.{dispatch}

-- What a round of `serve` does once the header has arrived.
abbrev pub served : (sfd : ℕ) → World → Outcome (World × Code)
served sfd w =
    dispatch sfd (header_of (recv sfd sizeof_net_header w).2) (recv sfd sizeof_net_header w).0

pub served_run :
    (sfd type high low : ℕ) (rest : List ℕ) (w : World)
    → (w.streams sfd).bytes ≡ type ∷ high ∷ low ∷ rest
    → served sfd w ≡ dispatch sfd (record { type = type; size = ntohs high low }) (recv sfd 3 w).0
unfolding header_of ntoh_header fill
served_run sfd type high low rest w arrived = rw (recv_buffer sfd 3 _ w arrived)

pub served_rest :
    (sfd type high low : ℕ) (rest : List ℕ) (w : World)
    → (w.streams sfd).bytes ≡ type ∷ high ∷ low ∷ rest
    → ((recv sfd 3 w).0.streams sfd).bytes ≡ rest
served_rest sfd type high low rest w arrived = recv_rest sfd 3 w ∙ ap (drop 3) arrived

-- A message that has arrived whole is read without stale memory.
pub fill-append : (cs rest : List ℕ) (stale : ℕ → ℕ) → fill (length cs) stale (cs ++ rest) ≡ cs
unfolding fill
fill-append [] rest stale = refl
fill-append (c ∷ cs) rest stale = ap (◌∷◌ c) (fill-append cs rest stale)
