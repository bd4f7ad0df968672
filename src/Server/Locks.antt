-- ===== src/Server/Locks.antt =====
-- The mutex of the trigger (src/server/broadcasting.c) and the mutex of the client list
-- (src/server/client_list.c), between the client threads and the broadcasting agent:
-- `request_handler` of src/server/message_handler.c triggers a broadcast while it holds the second,
-- and the agent holds the first while it walks along the list.
pub mod Deadlock
use virtual_blackboard.Prelude.{
  ℕ, ◌<◌, ◌≡◌, Bool, true, false, ◌==◌, if◌then◌else◌, Outcome, ok, ◌>>=◌,
}
use virtual_blackboard.Prelude.Family.{put}
use virtual_blackboard.ClientList.{
  lock_clientlist, unlock_clientlist, set_write_user, get_docent, start_iteration, end_iteration,
}
use virtual_blackboard.Server.World.{World, Broadcast, status, trigger_broadcast, with_clients}

-- Where a thread stands.
pub data Pc : Type 0 where
  -- A client thread outside of both mutexes.
  idle : Pc
  -- `request_handler` behind `lock_clientlist()`.
  asking : Pc
  -- `trigger_broadcast`, before it takes its mutex, with it, and behind it. `held` says that the
  -- caller holds the mutex of the client list.
  entering inside : (held : Bool) → (kind : Broadcast) → Pc
  left : (held : Bool) → Pc
  -- The agent: in `pthread_cond_wait`, before `start_iteration`, in its loop, and behind
  -- `end_iteration`.
  waiting woken walking resting : Pc

pub record Shared : Type 0 where
  pub world : World
  pub trigger_mutex : Bool

abbrev pub in_world : Shared → World → Shared
in_world m w = record m { world = w }

-- The client list is given back.
abbrev pub unlocked : Shared → Shared
unlocked m = in_world m (with_clients m.world (unlock_clientlist m.world.clients))

-- One step of `request_handler`, and of the callers of `trigger_broadcast` that do not hold the mutex
-- of the client list. Who asks for what is left open.
pub data Request (m : Shared) : Pc → Shared → Pc → Type 0 where
  ask :
      {u : World}
      → (lock_clientlist m.world.clients >>= λ s. ok (with_clients m.world s)) ≡ ok u
      → Request m idle (in_world m u) asking
  -- The returns that trigger nothing under the mutex.
  refuse : Request m asking (unlocked m) idle
  -- The docent takes the access back, or a client gives it back.
  change :
      Request m asking
        (in_world m
          (with_clients m.world (set_write_user (get_docent m.world.clients) m.world.clients)))
        (entering true status)
  trigger : {kind : Broadcast} → Request m idle m (entering false kind)
  leave : {held : Bool} → Request m (left held) (if held then unlocked m else m) idle

-- One step of `trigger_broadcast`: it takes its mutex, or sets the type, signals and gives it back.
pub data Trigger (m : Shared) : Pc → Shared → Pc → Type 0 where
  enter :
      {held : Bool} {kind : Broadcast}
      → m.trigger_mutex ≡ false
      → Trigger m (entering held kind) (record m { trigger_mutex = true }) (inside held kind)
  set :
      {held : Bool} {kind : Broadcast}
      → Trigger m
          (inside held kind)
          (record m { world = trigger_broadcast kind m.world; trigger_mutex = false })
          (left held)

-- One step of the agent. What it sends is left open.
pub data Agent (m : Shared) : Pc → Shared → Pc → Type 0 where
  -- `pthread_cond_wait` comes back with the mutex.
  wake :
      m.world.signalled ≡ true
      → m.trigger_mutex ≡ false
      → Agent m waiting
          (record m { world = record m.world { signalled = false }; trigger_mutex = true })
          woken
  walk :
      {u : World}
      → (start_iteration m.world.clients >>= λ (s, p). ok (with_clients m.world s)) ≡ ok u
      → Agent m woken (in_world m u) walking
  end : Agent m walking (in_world m (with_clients m.world (end_iteration m.world.clients))) resting
  -- `pthread_cond_wait` gives the mutex up.
  rest : Agent m resting (record m { trigger_mutex = false }) waiting

-- One step of one thread.
pub data Move (m : Shared) (q : Pc) (k : Shared) (p : Pc) : Type 0 where
  by_request : Request m q k p → Move m q k p
  by_trigger : Trigger m q k p → Move m q k p
  by_agent : Agent m q k p → Move m q k p

-- The agent is the first thread, the others belong to clients.
pub record System : Type 0 where
  pub shared : Shared
  pub pc : ℕ → Pc

pub data Step (n : ℕ) (s : System) : System → Type 0 where
  pick :
      (i : ℕ) {m : Shared} {p : Pc}
      → i < n
      → Move s.shared (s.pc i) m p
      → Step n s (record { shared = m; pc = put s.pc i p })

-- What `n` threads can come to from a state.
pub data Runs (n : ℕ) (s : System) : System → Type 0 where
  here : Runs n s s
  next : {t u : System} → Runs n s t → Step n t u → Runs n s u

abbrev pub start : ℕ → Pc
start i = if i == 0 then waiting else idle

-- The agent waits, and nobody holds the mutex of the trigger.
abbrev pub initially : World → System
initially w = record { shared = record { world = w; trigger_mutex = false }; pc = start }

-- One more move of thread `i`.
pub go :
    {n : ℕ} {r s : System} (i : ℕ) {m : Shared} {p : Pc}
    → i < n
    → Move s.shared (s.pc i) m p
    → Runs n r s
    → Runs n r (record { shared = m; pc = put s.pc i p })
go i lt mv r = next r (pick i lt mv)
