-- ===== src/Server/Locks/Deadlock.antt =====
-- The deadlock of src/server/broadcasting.c and src/server/message_handler.c: the agent holds the
-- mutex of the trigger and waits for the client list, and a client thread in `request_handler` holds
-- the client list and waits for the trigger.
use virtual_blackboard.Prelude.{ℕ, ◌<◌, ◌≡◌, Bool, true, false}
use virtual_blackboard.Prelude.Family.{put}
use virtual_blackboard.ClientList.{set_write_user, get_docent}
use virtual_blackboard.Server.World.{World, status, trigger_broadcast}
use virtual_blackboard.Server.Locks.{Pc, idle, asking, entering, inside, left, woken, System, start}

-- A client thread has no mutex and is not about to take both.
abbrev is_outside : Pc → Bool
is_outside idle = true
is_outside (entering false kind) = true
is_outside other = false

-- Both mutexes are taken, the agent and the second thread wait for each other, and the others hold
-- nothing.
abbrev pub Stuck : System → Type 0
Stuck v =
    (v.pc 0 ≡ woken)
    × (v.pc 1 ≡ entering true status)
    × (v.shared.world.clients.locked ≡ true)
    × (v.shared.trigger_mutex ≡ true)

abbrev Others : System → Type 0
Others v = (i : ℕ) → 1 < i → is_outside (v.pc i) ≡ true

-- A client's trigger has woken the agent, which holds the mutex of the trigger, while the client's
-- next message, a request that changes the write access, has taken the client list.
abbrev pub deadlock : World → System
deadlock w =
    let s = record w.clients { locked = true } in
    record {
      shared = record {
        world = record (trigger_broadcast status w) {
          clients = set_write_user (get_docent s) s;
          signalled = false;
        };
        trigger_mutex = true;
      };
      pc =
          put
            (put
              (put
                (put
                  (put (put (put start 1 (entering false status)) 1 (inside false status)) 1
                    (left false))
                  1 idle)
                1 asking)
              1 (entering true status))
            0 woken;
    }
