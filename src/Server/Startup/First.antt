-- ===== src/Server/Startup/First.antt =====
-- The state that the threads of a server find when it has started.
use virtual_blackboard.Prelude.{
  ℕ, ◌≤◌, ◌<◌, ◌≡◌, refl, Bool, true, false, Option, none, some, List, [], length, arith,
}
use virtual_blackboard.ClientList.{empty}
use virtual_blackboard.ClientList.Represents.{empty-Represents}
use virtual_blackboard.Net.Strings.{codes}
use virtual_blackboard.Server.World.{World, Broadcast, init_blackboard, zeros}
use virtual_blackboard.Server.Invariant.{Inv, IsBoard}
use virtual_blackboard.Server.BoardHandler.Content.{painted, painted-IsBoard}
use virtual_blackboard.Server.Sockets.{Address, listeners}
use virtual_blackboard.Server.Startup.{System, running, start}
use virtual_blackboard.Server.Startup.Cleanup.{clean, started, good, start-started}

abbrev value_of : Option ℕ → ℕ
value_of none = 0
value_of (some n) = n

abbrev content_of : Option (List ℕ) → List ℕ
content_of none = []
content_of (some b) = b

-- The static variables of the server and what the system holds; the rest of `w` is the environment.
unfoldable pub first_world : System → World → World
first_world s w = record w {
  clients = empty;
  cid_counter = 0;
  sent = [];
  board = content_of s.board;
  bsem = value_of s.bsem;
  asem = value_of s.asem;
  broadcast_type = Broadcast.status;
  signalled = false;
  interrupted = false;
}

init_blackboard-IsBoard : IsBoard init_blackboard
unfolding init_blackboard painted zeros
init_blackboard-IsBoard = painted-IsBoard 8 (codes "Welcome!") refl

-- The first state keeps the invariant, with nobody logged in.
pub first_world-Inv : (w : World) → Inv (first_world started w) []
unfolding first_world
first_world-Inv w = record {
  represents = empty-Represents;
  unlocked = refl;
  granted = λ h. absurd (h refl);
  few = omega arith;
  counter = omega arith;
  is_board = init_blackboard-IsBoard;
  bsem_free = refl;
  asem_free = refl;
  named = tt;
}

-- After a start on a system without leftovers, the threads find the invariant, with nobody logged in.
pub start-Inv :
    (found : List Address) (lock_file : Bool) (w : World)
    → 0 < length (listeners found)
    → length (listeners found) ≤ 125
    → (s : System) × (start (good true found) (clean lock_file) ≡ running (listeners found) s)
      × Inv (first_world s w) []
start-Inv found lock_file w some_one few =
    (started, start-started found lock_file some_one few, first_world-Inv w)
