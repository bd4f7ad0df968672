-- ===== src/Server/Reached/Invariant.antt =====
-- The invariant in every state that the server reaches.
use virtual_blackboard.Prelude.{
  ◌≡◌, ◌≢◌, none, ◌⊎◌, refl, ℕ, Bool, Returns, Returns-mono, Keeps, Returns-Keeps, Bool-cases, inl,
  inr, true, false, [],
}
use virtual_blackboard.ClientList.Seg.{Ptr, null, Roster}
use virtual_blackboard.Net.{m_reply, NetHeader}
use virtual_blackboard.Server.World.{
  World, Broadcast, status, blackboard, clear, log_message, trigger_broadcast,
}
use virtual_blackboard.Server.Invariant.{Inv, Sound}
use virtual_blackboard.Server.LoginHandler.Total.{login_handler-Returns}
use virtual_blackboard.Server.LoginHandler.{login_handler}
use virtual_blackboard.Server.ClientThread.{dispatch}
use virtual_blackboard.Server.Broadcasting.{broadcast_blackboard, agent_round}
use virtual_blackboard.Server.Broadcasting.Recipients.{
  broadcast_status-delivered, broadcast_blackboard-delivered,
}
use virtual_blackboard.Server.Startup.Cleanup.{started}
use virtual_blackboard.Server.Startup.First.{first_world, first_world-Inv}
use virtual_blackboard.Server.Reached.{
  Turn, message, login, departure, broadcast, network, Reached, start, turn,
}
use virtual_blackboard.Server.Reached.Messages.{dispatch-Keeps, dispatch-Returns}
use virtual_blackboard.Server.Reached.Departures.{leave-Keeps}

Broadcast-cases : (b : Broadcast) → (b ≡ status) ⊎ ((b ≡ blackboard) ⊎ (b ≡ clear))
Broadcast-cases status = inl refl
Broadcast-cases blackboard = inr (inl refl)
Broadcast-cases clear = inr (inr refl)

-- A round of the agent that was triggered returns.
agent_round-Returns :
    (w : World) (xs : Roster) → Inv w xs → w.signalled ≡ true → Returns Sound (agent_round w)
unfolding agent_round log_message
agent_round-Returns w xs v due =
    let shown : (excl_w : Bool) (u : World)
        → Inv u xs
        → Returns Sound (broadcast_blackboard excl_w u) =
      λ excl_w u h.
        Returns-mono (broadcast_blackboard-delivered u xs h excl_w).2 (λ t d. (xs, d.0)) in
    elim (Broadcast-cases w.broadcast_type) [
      | inl is ↦ rw (due, is) (Returns-mono (broadcast_status-delivered _ xs v) λ t d. (xs, d.0))
      | inr (inl is) ↦ rw (due, is) (shown true _ v)
      | inr (inr is) ↦ rw (due, is) (shown false _ v)
    ]

-- Without a trigger the agent waits.
agent_round-Keeps : (w : World) (xs : Roster) → Inv w xs → Keeps Sound (agent_round w)
unfolding agent_round
agent_round-Keeps w xs v = elim (Bool-cases w.signalled) [
  | inl due ↦ Returns-Keeps (agent_round-Returns w xs v due)
  | inr idle ↦ λ u run. absurd (cc (rw idle at run))
]

Turn-Sound : {w u : World} → Turn w u → Sound w → Sound u
Turn-Sound {w} (message sfd h code run) (xs, v) = (xs, dispatch-Keeps w xs v sfd h _ run)
Turn-Sound {w} (login fresh sfd code ne free run) (xs, v) =
    Returns-Keeps (login_handler-Returns fresh ne sfd w xs v free) _ run
Turn-Sound {w} (departure sfd run) (xs, v) = leave-Keeps w xs sfd v _ run
Turn-Sound {w} (broadcast run) (xs, v) = agent_round-Keeps w xs v _ run
Turn-Sound (network streams sends) (xs, v) = (xs, v)

reached : {first w : World} → Sound first → Reached first w → Sound w
reached v start = v
reached v (turn r t) = Turn-Sound t (reached v r)

-- Whatever the clients and the network do, in every state that the server reaches by turns of its
-- threads, one after the other, from a start without leftovers, the invariant holds for some list of
-- clients.
pub Reached-Sound : (env w : World) → Reached (first_world started env) w → Sound w
Reached-Sound env w r = reached ([], first_world-Inv env) r

-- In every state that the server reaches from a start without leftovers, three things return, with
-- the invariant kept: the handler of any message but a reply, from any socket; a login, whatever
-- arrives for it, if `malloc` gives an address where no entry is; and the agent's round after any
-- trigger. None of them reads through a bad pointer, runs out of rounds or waits for a lock forever.
pub Reached-Returns :
    (env w : World)
    → Reached (first_world started env) w
    → (sfd : ℕ) (header : NetHeader) → header.type ≢ m_reply
    → (fresh : Ptr) → fresh ≢ null
    → w.clients.cell fresh ≡ none
    → (b : Broadcast)
    → Returns (λ r. Sound r.0) (dispatch sfd header w)
      × Returns (λ r. Sound r.0) (login_handler fresh sfd w)
      × Returns Sound (agent_round (trigger_broadcast b w))
unfolding trigger_broadcast
Reached-Returns env w r sfd header no_reply fresh ne free b =
    let (xs, v) = Reached-Sound env w r in
    (
      Returns-mono (dispatch-Returns w xs v sfd header no_reply) (λ t h. (xs, h)),
      login_handler-Returns fresh ne sfd w xs v free,
      agent_round-Returns (record w { signalled = true; broadcast_type = b }) xs v refl,
    )
