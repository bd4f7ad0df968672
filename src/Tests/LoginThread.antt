-- ===== src/Tests/LoginThread.antt =====
-- The theorems about the accept loop at two new connections.
use virtual_blackboard.Prelude.{
  ℕ, ◌+◌, ◌≡◌, refl, some, List, [], ◌∷◌, replicate, length, true, Returns,
}
use virtual_blackboard.Server.LoginThread.{Acceptor, starts, run, ready, login_round}
use virtual_blackboard.Server.LoginThread.Handover.{login_round-overtaken}

abbrev early : List ℕ
early = 7 ∷ []

-- The sockets 3 and 4 listen, and each has a connection.
login_round-overtaken_example :
    (a : Acceptor) × (login_round
        (λ s. some (s + 4))
        (ready (λ i. true))
        (3 ∷ 4 ∷ [])
        (record { accept_fd = 0; created = 0; taken = [] })
      ≡ some a)
    × Returns
        (λ b. (b.taken ≡ replicate (length early + 1) 8) × (b.created ≡ 0))
        (run (replicate (length early + 1) starts) a)
login_round-overtaken_example =
    login_round-overtaken (λ s. some (s + 4)) (λ i. true) (3 ∷ 4 ∷ []) 0 8 early refl
