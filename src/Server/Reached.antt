-- ===== src/Server/Reached.antt =====
-- The server as a whole: the turns of its threads on the shared state, one after the other. A client
-- thread of src/server/client_thread.c takes a turn for the login, for each message and for the
-- departure, the agent of src/server/broadcasting.c takes one for each round.
pub mod Messages
pub mod Departures
pub mod Invariant
use virtual_blackboard.Prelude.{ℕ, ◌≡◌, ◌≢◌, Bool, none, ok}
use virtual_blackboard.ClientList.Seg.{Ptr, null}
use virtual_blackboard.Net.{NetHeader}
use virtual_blackboard.Server.World.{World, Code, Stream}
use virtual_blackboard.Server.LoginHandler.{login_handler}
use virtual_blackboard.Server.ClientThread.{dispatch, leave}
use virtual_blackboard.Server.Broadcasting.{agent_round}

-- A turn that returns. Between two turns the connections may change in any way: bytes arrive,
-- clients break off, sockets are opened or take no more data. `fresh` is what `malloc` returns, an
-- address where no entry is.
pub data Turn : World → World → Type 0 where
  message :
      {w u : World} (sfd : ℕ) (header : NetHeader) (code : Code)
      → dispatch sfd header w ≡ ok (u, code)
      → Turn w u
  login :
      {w u : World} (fresh : Ptr) (sfd : ℕ) (code : Code)
      → fresh ≢ null
      → w.clients.cell fresh ≡ none
      → login_handler fresh sfd w ≡ ok (u, code)
      → Turn w u
  departure : {w u : World} (sfd : ℕ) → leave sfd w ≡ ok u → Turn w u
  broadcast : {w u : World} → agent_round w ≡ ok u → Turn w u
  network :
      {w : World} (streams : ℕ → Stream) (sends : ℕ → Bool)
      → Turn w (record w { streams = streams; sends = sends })

-- The states after any number of turns.
pub data Reached (first : World) : World → Type 0 where
  start : Reached first first
  turn : {w u : World} → Reached first w → Turn w u → Reached first u
