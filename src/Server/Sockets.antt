-- ===== src/Server/Sockets.antt =====
-- The loop of main of src/server/server.c that listens on every address it can.
use virtual_blackboard.Prelude.{
  ℕ, ◌+◌, ◌≤◌, ◌≡◌, ◌∙◌, refl, true, List, [], ◌∷◌, ◌++◌, append_assoc, append-nil, length,
  length-append, ltb, lt→ltb, if◌then◌else◌, Outcome, ok, fault, ◌>>=◌, arith,
}

-- What `socket`, `bind` and `listen` do with an address that `getaddrinfo` found.
pub data Address : Type 0 where
  no_socket : Address
  unbound unheard listening : (sfd : ℕ) → Address

-- The array `socket_fds`, and the descriptors that have been closed again.
pub record Bound : Type 0 where
  pub socket_fds : List ℕ
  pub closed_fds : List ℕ

-- The places of the array.
abbrev pub max_sockets : ℕ
max_sockets = 125

-- One address: a socket that does not listen is closed.
unfoldable pub bind_socket : Address → Bound → Outcome Bound
bind_socket no_socket t = ok t
bind_socket (unbound sfd) t = ok (record t { closed_fds = t.closed_fds ++ sfd ∷ [] })
bind_socket (unheard sfd) t = ok (record t { closed_fds = t.closed_fds ++ sfd ∷ [] })
bind_socket (listening sfd) t =
    if ltb (length t.socket_fds) max_sockets
    then ok (record t { socket_fds = t.socket_fds ++ sfd ∷ [] })
    else fault

unfoldable pub bind_sockets : List Address → Bound → Outcome Bound
bind_sockets [] t = ok t
bind_sockets (a ∷ rest) t = bind_socket a t >>= λ t'. bind_sockets rest t'

abbrev pub nothing_bound : Bound
nothing_bound = record { socket_fds = []; closed_fds = [] }

-- The sockets that listen, and the others that were opened, in the order of the addresses.
abbrev pub listeners : List Address → List ℕ
listeners [] = []
listeners (listening sfd ∷ rest) = sfd ∷ listeners rest
listeners (other ∷ rest) = listeners rest

abbrev pub failures : List Address → List ℕ
failures [] = []
failures (no_socket ∷ rest) = failures rest
failures (unbound sfd ∷ rest) = sfd ∷ failures rest
failures (unheard sfd ∷ rest) = sfd ∷ failures rest
failures (listening sfd ∷ rest) = failures rest

module _ (open_fds closed : List ℕ) where
  abbrev bound : Bound
  bound = record { socket_fds = open_fds; closed_fds = closed }

bind_sockets_from :
    (found : List Address) (open_fds closed : List ℕ)
    → length open_fds + length (listeners found) ≤ 125
    → bind_sockets found (bound open_fds closed)
      ≡ ok (bound (open_fds ++ listeners found) (closed ++ failures found))
unfolding bind_sockets bind_socket
bind_sockets_from [] open_fds closed h = rw (append-nil, append-nil) refl
bind_sockets_from (no_socket ∷ rest) open_fds closed h = bind_sockets_from rest open_fds closed h
bind_sockets_from (unbound sfd ∷ rest) open_fds closed h =
    bind_sockets_from rest open_fds (closed ++ sfd ∷ []) h
    ∙ rw (append_assoc closed (sfd ∷ []) (failures rest)) refl
bind_sockets_from (unheard sfd ∷ rest) open_fds closed h =
    bind_sockets_from rest open_fds (closed ++ sfd ∷ []) h
    ∙ rw (append_assoc closed (sfd ∷ []) (failures rest)) refl
bind_sockets_from (listening sfd ∷ rest) open_fds closed h =
    let room : ltb (length open_fds) 125 ≡ true = lt→ltb (length open_fds) 125 (omega (arith, h)) in
    let size = length-append open_fds (sfd ∷ []) in
    rw room (
      bind_sockets_from rest (open_fds ++ sfd ∷ []) closed (omega (arith, h, size))
      ∙ rw (append_assoc open_fds (sfd ∷ []) (listeners rest)) refl)

-- With at most 125 sockets that can listen, the array holds exactly these, in the order of the
-- addresses, and every other socket that was opened has been closed.
pub bind_sockets_lem :
    (found : List Address)
    → length (listeners found) ≤ 125
    → bind_sockets found nothing_bound
      ≡ ok (record { socket_fds = listeners found; closed_fds = failures found })
bind_sockets_lem found h = bind_sockets_from found [] [] (omega (arith, h))
