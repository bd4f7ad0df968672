-- ===== src/Tests/Reached.antt =====
-- The theorems about the reached states on a server at which one client logs in.
use virtual_blackboard.Prelude.{
  ◌≡◌, ◌≢◌, refl, true, false, none, [], ◌∷◌, Returns, Returns-value, arith,
}
use virtual_blackboard.ClientList.Seg.{Ptr, null}
use virtual_blackboard.Net.{m_login, m_board, NetHeader}
use virtual_blackboard.Server.World.{World, Broadcast}
use virtual_blackboard.Server.Invariant.{Sound}
use virtual_blackboard.Server.LoginHandler.{login_handler}
use virtual_blackboard.Server.LoginHandler.Total.{login_handler-Returns}
use virtual_blackboard.Server.ClientThread.{dispatch}
use virtual_blackboard.Server.Broadcasting.{agent_round}
use virtual_blackboard.Server.World.{trigger_broadcast}
use virtual_blackboard.Server.Startup.Cleanup.{started}
use virtual_blackboard.Server.Startup.First.{first_world, first_world-Inv}
use virtual_blackboard.Server.Reached.{login, network, Reached, start, turn}
use virtual_blackboard.Server.Reached.Invariant.{Reached-Sound, Reached-Returns}
use virtual_blackboard.Tests.{world}

abbrev idle : World
idle = first_world started (world [])

-- The bytes of a login as "ab" for any role.
abbrev dialled : World
dialled = record idle {
  streams = λ sfd. record { bytes = m_login ∷ 0 ∷ 3 ∷ 0 ∷ 97 ∷ 98 ∷ []; broken = false };
  sends = λ sfd. true;
}

dialled-Reached : Reached idle dialled
dialled-Reached = turn start (network dialled.streams dialled.sends)

abbrev cell_of : Ptr
cell_of = 30

somewhere : cell_of ≢ null
somewhere e = absurd (omega arith)

no_cell : dialled.clients.cell cell_of ≡ none
unfolding first_world
no_cell = refl

abbrev entered : World
entered =
    (Returns-value (
      login_handler-Returns cell_of somewhere 5 dialled [] (first_world-Inv (world []))
        no_cell)).0.0

entered-Reached : Reached idle entered
entered-Reached = turn dialled-Reached (
    login cell_of 5 _ somewhere no_cell
      (Returns-value (
        login_handler-Returns cell_of somewhere 5 dialled [] (first_world-Inv (world []))
          no_cell)).1)

Reached-Sound_example : Sound entered
Reached-Sound_example = Reached-Sound (world []) entered entered-Reached

abbrev board_header : NetHeader
board_header = record { type = m_board; size = 4 }

Reached-Returns_example :
    Returns (λ r. Sound r.0) (dispatch 5 board_header dialled)
    × Returns (λ r. Sound r.0) (login_handler cell_of 5 dialled)
    × Returns Sound (agent_round (trigger_broadcast Broadcast.clear dialled))
Reached-Returns_example =
    Reached-Returns (world []) dialled dialled-Reached 5 board_header (λ e. absurd (omega arith))
      cell_of somewhere no_cell Broadcast.clear
