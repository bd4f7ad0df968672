-- ===== src/Tests/Startup.antt =====
-- The theorems about the start of the server at three addresses, one of which is in use.
use virtual_blackboard.Prelude.{◌≡◌, true, false, List, [], ◌∷◌, arith}
use virtual_blackboard.Server.Invariant.{Inv}
use virtual_blackboard.Server.Sockets.{Address, no_socket, unbound, listening, listeners}
use virtual_blackboard.Server.Startup.{System, running, ended, ◌>>=◌, reap, start, stop}
use virtual_blackboard.Server.Startup.Cleanup.{
  clean, good, started, attempts, is_running, start-stop, start-attempts,
}
use virtual_blackboard.Server.Startup.First.{first_world, start-Inv}
use virtual_blackboard.Tests.{world}

abbrev found : List Address
found = listening 3 ∷ unbound 4 ∷ no_socket ∷ []

start-stop_example :
    (start (good true found) (clean true) >>= λ _ s. stop s) ≡ ended true (clean false)
start-stop_example = start-stop found true (omega arith) (omega arith)

start-attempts_example :
    (start (good false found) (clean false) ≡ ended false started)
    × (is_running (attempts (good true found ∷ []) (reap started)) ≡ false)
start-attempts_example =
    start-attempts found false (good true found ∷ []) (omega arith) (omega arith)

start-Inv_example :
    (s : System) × (start (good true found) (clean false) ≡ running (listeners found) s)
    × Inv (first_world s (world [])) []
start-Inv_example = start-Inv found false (world []) (omega arith) (omega arith)
