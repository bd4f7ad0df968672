-- ===== src/Server/Startup.antt =====
-- How the server starts and stops: main of src/server/server.c, the lock of
-- src/server/singelton.c, and the functions of src/server/mq.c, src/server/semaphore.c and
-- src/server/blackboard.c that create and delete what the processes share.
pub mod Cleanup
pub mod First
use virtual_blackboard.Prelude.{
  ℕ, Bool, true, false, not, Option, none, some, List, length, ◌==◌, if◌then◌else◌, ok,
}
use virtual_blackboard.Server.World.{init_blackboard}
use virtual_blackboard.Server.Sockets.{Address, nothing_bound, bind_sockets}

-- What outlives a process: the lock and its file, and the objects of System V under the program's
-- keys, if they exist: the message queue, the blackboard, and the values of the two semaphores.
pub record System : Type 0 where
  pub locked : Bool
  pub lock_file : Bool
  pub queue : Bool
  pub board : Option (List ℕ)
  pub bsem : Option ℕ
  pub asem : Option ℕ

-- A call of the process goes on with a value, ends the process with success or failure, or is
-- undefined behaviour.
pub data Process (A : Type 0) : Type 0 where
  running : A → System → Process A
  ended : (success : Bool) → System → Process A
  undefined : Process A

infixl 5 ◌>>=◌
abbrev pub ◌>>=◌ : {A B : Type 0} → Process A → (A → System → Process B) → Process B
running a s >>= f = f a s
ended success s >>= f = ended success s
undefined >>= f = undefined

-- `exit(EXIT_FAILURE)`.
abbrev pub exit_failure : {A : Type 0} → System → Process A
exit_failure s = ended false s

-- The kernel takes the lock from a process that ends.
unfoldable pub reap : System → System
reap s = record s { locked = false }

-- The environment: which calls succeed, and what `getaddrinfo` and the calls on the addresses give.
-- `writes` stands for `ftruncate`, `write` and `fsync` on the lock file, `sets` for `semctl`.
pub record Env : Type 0 where
  pub opens : Bool
  pub writes : Bool
  pub addresses : Option (List Address)
  pub sets : Bool
  pub forks_logger : Bool
  pub forks_archiver : Bool

-- `create_lock`: `open` creates the file also where another process holds the lock.
unfoldable pub create_lock : Env → System → Process Unit
create_lock env s =
    if not env.opens
    then exit_failure s
    else if s.locked
    then exit_failure (record s { lock_file = true })
    else if not env.writes
    then exit_failure (record s { lock_file = true; locked = true })
    else running tt (record s { lock_file = true; locked = true })

-- `delete_lock` gives the lock up and deletes the file.
unfoldable pub delete_lock : System → System
delete_lock s = record s { locked = false; lock_file = false }

-- The functions that create an object fail if it exists.
unfoldable pub create_mq : System → Process Unit
create_mq s = if s.queue then exit_failure s else running tt (record s { queue = true })

-- A new semaphore is zero until `semctl` sets it to 1.
unfoldable pub init_bsem : Env → System → Process Unit
init_bsem env s = elim s.bsem [
  | some n ↦ exit_failure s
  | none ↦
      if env.sets
      then running tt (record s { bsem = some 1 })
      else exit_failure (record s { bsem = some 0 })
]

unfoldable pub init_asem : Env → System → Process Unit
init_asem env s = elim s.asem [
  | some n ↦ exit_failure s
  | none ↦
      if env.sets
      then running tt (record s { asem = some 1 })
      else exit_failure (record s { asem = some 0 })
]

unfoldable pub create_board : System → Process Unit
create_board s = elim s.board [
  | some b ↦ exit_failure s
  | none ↦ running tt (record s { board = some init_blackboard })
]

-- `fork` in the server; the child calls `execlp` and is another process.
unfoldable pub fork_child : (forks : Bool) → System → Process Unit
fork_child forks s = if forks then running tt s else exit_failure s

-- From the message queue to the two processes; the sockets are the result.
unfoldable pub create_objects : Env → List ℕ → System → Process (List ℕ)
create_objects env fds s = create_mq s >>= λ _ s. init_bsem env s >>= λ _ s.
    create_board s >>= λ _ s. init_asem env s >>= λ _ s. fork_child env.forks_logger s >>= λ _ s.
    fork_child env.forks_archiver s >>= λ _ s. running fds s

-- The sockets, at least one.
unfoldable pub bind_all : List Address → System → Process (List ℕ)
bind_all found s = elim (bind_sockets found nothing_bound) [
  | ok t ↦ if length t.socket_fds == 0 then exit_failure s else running t.socket_fds s
  | _ ↦ undefined
]

-- `main` up to the creation of its threads.
unfoldable pub start : Env → System → Process (List ℕ)
start env s = create_lock env s >>= λ _ s.
    elim env.addresses [ none ↦ exit_failure s | some found ↦ bind_all found s ] >>= λ fds s.
    create_objects env fds s

-- `delete_sem` and `delete_blackboard` go on if the object is missing, `delete_mq` does not.
unfoldable pub delete_mq : System → Process Unit
delete_mq s = if s.queue then running tt (record s { queue = false }) else exit_failure s

unfoldable pub stop : System → Process Unit
stop s = delete_mq (record s { asem = none; board = none; bsem = none }) >>= λ _ s.
    ended true (delete_lock s)
