-- ===== src/Server/LoginThread.antt =====
-- The accept loop of src/server/login_thread.c, and the first statement of the client threads that
-- it creates (src/server/client_thread.c).
pub mod Handover
use virtual_blackboard.Prelude.{
  ℕ, zero, suc, ◌+◌, ◌-◌, Bool, true, false, Option, none, some, List, [], ◌∷◌, ◌++◌, ltb, ◌==◌,
  ◌||◌, if◌then◌else◌, Outcome, ok, blocked, ◌>>=◌,
}

-- The loop that prepares `select`: the highest descriptor, starting from `highest_fd`.
unfoldable pub highest_of : (highest_fd : ℕ) → (socket_fds : List ℕ) → ℕ
highest_of highest_fd [] = highest_fd
highest_of highest_fd (fd ∷ fds) = highest_of (if ltb highest_fd fd then fd else highest_fd) fds

-- `FD_ZERO` and `FD_SET` for each socket.
unfoldable pub fd_set : (socket_fds : List ℕ) → ℕ → Bool
fd_set [] i = false
fd_set (fd ∷ fds) i = (i == fd) || fd_set fds i

-- What the thread and its clients share: the variable `accept_fd`, the client threads that have been
-- created and have not yet read it, and the sockets that the others have read, the latest one last.
pub record Acceptor : Type 0 where
  pub accept_fd : ℕ
  pub created : ℕ
  pub taken : List ℕ

-- `accept` succeeds with `fd`, and a client thread is created with the address of `accept_fd`.
unfoldable pub accept_connection : (fd : ℕ) → Acceptor → Acceptor
accept_connection fd a = record a { accept_fd = fd; created = a.created + 1 }

-- A client thread reads `accept_fd` through its argument.
unfoldable pub start_client : Acceptor → Outcome Acceptor
start_client a =
    if a.created == 0
    then blocked
    else ok (record a { created = a.created - 1; taken = a.taken ++ a.accept_fd ∷ [] })

-- The sign of `select`'s result, and whether `errno` is EINTR.
pub data Selected : Type 0 where
  ready : (set : ℕ → Bool) → Selected
  interrupted : Selected
  broken : Selected

-- The loop over the sockets; `accept` is what the call returns for each of them, none for an error.
unfoldable pub accept_ready :
    (accept : ℕ → Option ℕ) → (set : ℕ → Bool) → (socket_fds : List ℕ) → Acceptor → Acceptor
accept_ready accept set [] a = a
accept_ready accept set (s ∷ rest) a =
    accept_ready accept set rest
      (if set s then elim (accept s) [ none ↦ a | some fd ↦ accept_connection fd a ] else a)

-- One round of the loop behind `select`: none if the thread ends.
unfoldable pub login_round :
    (accept : ℕ → Option ℕ) → Selected → (socket_fds : List ℕ) → Acceptor → Option Acceptor
login_round accept broken fds a = none
login_round accept interrupted fds a = some a
login_round accept (ready set) fds a = some (accept_ready accept set fds a)

-- The steps of the login thread and of its client threads, in the order in which they happen.
pub data Event : Type 0 where
  accepts : (fd : ℕ) → Event
  starts : Event

pub happen : Event → Acceptor → Outcome Acceptor
happen (accepts fd) a = ok (accept_connection fd a)
happen starts a = start_client a

pub run : List Event → Acceptor → Outcome Acceptor
run [] a = ok a
run (e ∷ es) a = happen e a >>= λ a'. run es a'
