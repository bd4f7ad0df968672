-- ===== src/Server/Broadcasting/Trigger.antt =====
-- The trigger of the broadcasting agent.
use virtual_blackboard.Prelude.{◌≡◌, false, blocked, Returns, Returns-mono}
use virtual_blackboard.ClientList.Seg.{Roster}
use virtual_blackboard.Server.World.{
  World, Broadcast, log_message, trigger_broadcast, trigger_status,
}
use virtual_blackboard.Server.Invariant.{Inv}
use virtual_blackboard.Server.Broadcasting.{agent_round}
use virtual_blackboard.Server.Broadcasting.Numbers.{status_bytes}
use virtual_blackboard.Server.Broadcasting.Recipients.{delivered, broadcast_status-delivered}

-- If a status is triggered after any other broadcast that the agent has not yet served, the agent
-- sends the status messages alone and then waits again: the earlier broadcast is never sent.
pub agent_round-latest :
    (w : World) (xs : Roster)
    → Inv w xs
    → (earlier : Broadcast)
    → Returns
        (λ u.
          (u.sent
            ≡ delivered (λ p c. (status_bytes w.clients xs p c, 11)) (λ _. false) w.sends xs w.sent)
          × (agent_round u ≡ blocked))
        (agent_round (trigger_status (trigger_broadcast earlier w)))
unfolding agent_round trigger_broadcast log_message
agent_round-latest w xs v earlier =
    Returns-mono (broadcast_status-delivered _ xs v) λ u (inv, sent, idle). (sent, rw idle)
