-- ===== src/Server/Startup/Cleanup.antt =====
-- A start and a stop, and what a start that fails leaves behind.
use virtual_blackboard.Prelude.{
  ℕ, ◌≤◌, ◌<◌, ◌≡◌, refl, Bool, true, false, not, Option, none, some, List, [], ◌∷◌, length, ◌==◌,
  if◌then◌else◌, if_rule, ap, Outcome, ok, arith,
}
use virtual_blackboard.Server.World.{init_blackboard}
use virtual_blackboard.Server.Sockets.{
  Address, Bound, nothing_bound, listeners, bind_sockets, bind_sockets_lem,
}
use virtual_blackboard.Server.Startup.{
  System, Process, running, ended, undefined, ◌>>=◌, reap, Env, create_lock, delete_lock, create_mq,
  init_bsem, init_asem, create_board, fork_child, create_objects, bind_all, start, delete_mq, stop,
}

-- No server runs, and none has left anything but perhaps its lock file.
abbrev pub clean : (lock_file : Bool) → System
clean lock_file = record {
  locked = false;
  lock_file = lock_file;
  queue = false;
  board = none;
  bsem = none;
  asem = none;
}

-- What a server has created that runs.
abbrev pub started : System
started = record {
  locked = true;
  lock_file = true;
  queue = true;
  board = some init_blackboard;
  bsem = some 1;
  asem = some 1;
}

-- Every call succeeds, except perhaps the first `fork`.
abbrev pub good : (forks_logger : Bool) → List Address → Env
good forks_logger found = record {
  opens = true;
  writes = true;
  addresses = some found;
  sets = true;
  forks_logger = forks_logger;
  forks_archiver = true;
}

bind_all_lem :
    (found : List Address) (s : System)
    → 0 < length (listeners found)
    → length (listeners found) ≤ 125
    → bind_all found s ≡ running (listeners found) s
unfolding bind_all
bind_all_lem found s some_one few =
    let not_none : (length (listeners found) == 0) ≡ false = ground arith in
    rw (bind_sockets_lem found few, bind_all, not_none) refl

pub start-started :
    (found : List Address) (lock_file : Bool)
    → 0 < length (listeners found)
    → length (listeners found) ≤ 125
    → start (good true found) (clean lock_file) ≡ running (listeners found) started
unfolding start create_lock create_objects create_mq init_bsem init_asem create_board fork_child
start-started found lock_file some_one few = rw (bind_all_lem found _ some_one few) refl

-- A server that starts on a system without leftovers and stops again leaves the system without
-- leftovers and without the lock file.
pub start-stop :
    (found : List Address) (lock_file : Bool)
    → 0 < length (listeners found)
    → length (listeners found) ≤ 125
    → (start (good true found) (clean lock_file) >>= λ _ s. stop s) ≡ ended true (clean false)
unfolding stop delete_mq delete_lock
start-stop found lock_file some_one few = rw (start-started found lock_file some_one few) refl

-- One start after the other, until a server runs.
unfoldable pub attempts : List Env → System → Process (List ℕ)
attempts [] s = ended false s
attempts (env ∷ envs) s = elim (start env s) [
  | ended success u ↦ attempts envs (reap u)
  | running fds u ↦ running fds u
  | undefined ↦ undefined
]

abbrev pub is_running : {A : Type 0} → Process A → Bool
is_running (running a s) = true
is_running other = false

-- The queue is there, whatever became of the process.
abbrev Leaves : {A : Type 0} → Process A → Type 0
Leaves (running a s) = s.queue ≡ true
Leaves (ended success s) = s.queue ≡ true
Leaves undefined = Unit {0}

-- The process does not run either.
abbrev Blocked : {A : Type 0} → Process A → Type 0
Blocked (running a s) = ⊥
Blocked (ended success s) = s.queue ≡ true
Blocked undefined = Unit {0}

Blocked-bind :
    {A B : Type 0} (m : Process A) (k : A → System → Process B)
    → Leaves m
    → ((a : A) (s : System) → s.queue ≡ true → Blocked (k a s))
    → Blocked (m >>= k)
Blocked-bind (running a s) k h next = next a s h
Blocked-bind (ended success s) k h next = h
Blocked-bind undefined k h next = tt

create_mq_exists : (s : System) → s.queue ≡ true → create_mq s ≡ ended false s
unfolding create_mq
create_mq_exists s q =
    ap (λ b. if b then ended false s else running tt (record s { queue = true })) q

create_objects-Blocked :
    (env : Env) (fds : List ℕ) (s : System) → s.queue ≡ true → Blocked (create_objects env fds s)
unfolding create_objects
create_objects-Blocked env fds s q = rw (create_mq_exists s q) q

-- What the loop over the addresses comes to.
sockets-Leaves :
    (r : Outcome Bound) (s : System)
    → s.queue ≡ true
    → Leaves (elim r [
      | ok t ↦ if length t.socket_fds == 0 then ended false s else running t.socket_fds s
      | _ ↦ undefined
    ])
sockets-Leaves (ok t) s q = if_rule Leaves (length t.socket_fds == 0) (λ _. q) (λ _. q)
sockets-Leaves other s q = tt

addresses-Leaves :
    (o : Option (List Address)) (s : System)
    → s.queue ≡ true
    → Leaves (elim o [ none ↦ ended false s | some found ↦ bind_all found s ])
unfolding bind_all
addresses-Leaves none s q = q
addresses-Leaves (some found) s q = sockets-Leaves (bind_sockets found nothing_bound) s q

create_lock-Leaves : (env : Env) (s : System) → s.queue ≡ true → Leaves (create_lock env s)
unfolding create_lock
create_lock-Leaves env s q =
    if_rule Leaves (not env.opens) (λ _. q)
      (λ _.
        if_rule Leaves s.locked (λ _. q) (λ _. if_rule Leaves (not env.writes) (λ _. q) (λ _. q)))

start-Blocked : (env : Env) (s : System) → s.queue ≡ true → Blocked (start env s)
unfolding start
start-Blocked env s q = Blocked-bind (create_lock env s) _ (create_lock-Leaves env s q) (λ _ t r.
    Blocked-bind (elim env.addresses [ none ↦ ended false t | some found ↦ bind_all found t ]) _
      (addresses-Leaves env.addresses t r) (λ fds u h. create_objects-Blocked env fds u h))

attempt-stuck :
    (m : Process (List ℕ)) (envs : List Env)
    → Blocked m
    → ((s : System) → s.queue ≡ true → is_running (attempts envs s) ≡ false)
    → is_running (elim m [
      | ended success u ↦ attempts envs (reap u)
      | running fds u ↦ running fds u
      | undefined ↦ undefined
    ])
      ≡ false
unfolding reap
attempt-stuck (running fds u) envs h later = elim h [ ]
attempt-stuck (ended success u) envs h later = later (record u { locked = false }) h
attempt-stuck undefined envs h later = refl

attempts_stuck :
    (envs : List Env) (s : System) → s.queue ≡ true → is_running (attempts envs s) ≡ false
unfolding attempts
attempts_stuck [] s q = refl
attempts_stuck (env ∷ envs) s q =
    attempt-stuck (start env s) envs (start-Blocked env s q) (λ t r. attempts_stuck envs t r)

-- If the first `fork` of a start on a system without leftovers fails, then the process ends and
-- leaves all that it has created: the queue, the blackboard, both semaphores and the lock file. No
-- later attempt to start the server succeeds, however many there are and whatever else succeeds in
-- them.
pub start-attempts :
    (found : List Address) (lock_file : Bool) (later : List Env)
    → 0 < length (listeners found)
    → length (listeners found) ≤ 125
    → (start (good false found) (clean lock_file) ≡ ended false started)
      × (is_running (attempts later (reap started)) ≡ false)
unfolding start create_lock create_objects create_mq init_bsem init_asem create_board fork_child
    reap
start-attempts found lock_file later some_one few =
    (rw (bind_all_lem found _ some_one few) refl, attempts_stuck later (reap started) refl)
