-- ===== src/Server/LoginThread/Handover.antt =====
-- How the sockets of new connections reach their client threads.
use virtual_blackboard.Prelude.{
  ℕ, zero, suc, ◌+◌, ◌-◌, ◌≤◌, ◌<◌, ◌≡◌, ◌∙◌, refl, ap, Bool, true, false, Option, none, some, List,
  [], ◌∷◌, ◌++◌, append_assoc, append-nil, replicate, ltb, ◌==◌, if◌then◌else◌, ok, Returns,
  returns, Returns-mono, Bool-cases, Option-cases, inl, inr, length, length-append, arith,
}
use virtual_blackboard.Server.LoginThread.{
  highest_of, fd_set, Acceptor, accept_connection, start_client, ready, accept_ready, login_round,
  Event, accepts, starts, happen, run,
}

-- The connections that are accepted.
abbrev pub accepted : List Event → List ℕ
accepted [] = []
accepted (accepts fd ∷ es) = fd ∷ accepted es
accepted (starts ∷ es) = accepted es

-- No connection is accepted while a thread has still to read its socket, and no thread starts that
-- has not been created.
abbrev pub is_prompt : (waits : Bool) → List Event → Bool
is_prompt waits [] = true
is_prompt true (accepts fd ∷ es) = false
is_prompt false (accepts fd ∷ es) = is_prompt true es
is_prompt true (starts ∷ es) = is_prompt false es
is_prompt false (starts ∷ es) = false

-- The socket that a created thread will read.
abbrev pub pending : Acceptor → List ℕ
pending a = if a.created == 0 then [] else a.accept_fd ∷ []

-- While each thread starts before the next connection is accepted, the threads take the accepted
-- sockets, each one once and in the order in which they were accepted; only the last one may still
-- wait for its thread.
run-prompt :
    (es : List Event) (waits : Bool) (fd : ℕ) (before : List ℕ)
    → is_prompt waits es ≡ true
    → Returns
        (λ a.
          (a.created ≤ 1)
          × (a.taken ++ pending a ≡ before ++ ((if waits then fd ∷ [] else []) ++ accepted es)))
        (run es (record { accept_fd = fd; created = if waits then 1 else 0; taken = before }))
unfolding run happen accept_connection start_client
run-prompt [] true fd before h = returns (omega arith, refl)
run-prompt [] false fd before h = returns (omega arith, refl)
run-prompt (accepts new ∷ es) true fd before h = absurd (ground arith)
run-prompt (accepts new ∷ es) false fd before h = run-prompt es true new before h
run-prompt (starts ∷ es) true fd before h =
    Returns-mono (run-prompt es false fd (before ++ fd ∷ []) h)
      (λ a k. (k.0, k.1 ∙ append_assoc before (fd ∷ []) (accepted es)))
run-prompt (starts ∷ es) false fd before h = absurd (ground arith)

pub run-taken :
    (es : List Event) (fd : ℕ)
    → is_prompt false es ≡ true
    → Returns
        (λ a. (a.created ≤ 1) × (a.taken ++ pending a ≡ accepted es))
        (run es (record { accept_fd = fd; created = 0; taken = [] }))
run-taken es fd h = run-prompt es false fd [] h

-- The descriptors that `accept` returns in one round, in the order of the sockets.
abbrev pub arrivals : (accept : ℕ → Option ℕ) → (set : ℕ → Bool) → List ℕ → List ℕ
arrivals accept set [] = []
arrivals accept set (s ∷ rest) =
    if set s
    then elim (accept s) [
      | none ↦ arrivals accept set rest
      | some fd ↦ fd ∷ arrivals accept set rest
    ]
    else arrivals accept set rest

-- The last one of them, or `fd`.
abbrev last_of : ℕ → List ℕ → ℕ
last_of fd [] = fd
last_of fd (x ∷ xs) = last_of x xs

last_of-append : (fd x : ℕ) (xs : List ℕ) → last_of fd (xs ++ x ∷ []) ≡ x
last_of-append fd x [] = refl
last_of-append fd x (y ∷ ys) = last_of-append y x ys

-- A round creates a thread for each of them, and leaves the last one in the variable.
accept_ready-arrivals :
    (accept : ℕ → Option ℕ) (set : ℕ → Bool) (fds : List ℕ) (a : Acceptor)
    → accept_ready accept set fds a ≡ record a {
      accept_fd = last_of a.accept_fd (arrivals accept set fds);
      created = a.created + length (arrivals accept set fds);
    }
unfolding accept_ready accept_connection
accept_ready-arrivals accept set [] a = ground arith
accept_ready-arrivals accept set (s ∷ rest) a = elim (Bool-cases (set s)) [
  | inl on ↦ elim (Option-cases (accept s)) [
    | inl e ↦ rw (on, e) (accept_ready-arrivals accept set rest a)
    | inr (fd, e) ↦
        rw (on, e)
          (accept_ready-arrivals accept set rest
              (record a { accept_fd = fd; created = a.created + 1 })
            ∙ ground arith)
  ]
  | inr off ↦ rw off (accept_ready-arrivals accept set rest a)
]

-- `n` threads that start one after the other read the same variable.
run-starts :
    (n fd : ℕ) (before : List ℕ)
    → run (replicate n starts) (record { accept_fd = fd; created = n; taken = before })
      ≡ ok (record { accept_fd = fd; created = 0; taken = before ++ replicate n fd })
unfolding run happen start_client
run-starts zero fd before = rw append-nil
run-starts (suc n) fd before =
    let left : suc n - 1 ≡ n = omega arith in
    let some_left : (suc n == 0) ≡ false = ground arith in
    rw (some_left, left)
      (run-starts n fd (before ++ fd ∷ [])
        ∙ rw (append_assoc before (fd ∷ []) (replicate n fd)) refl)

-- If `accept` returns several descriptors in one round and the client threads start only after the
-- round, then each of them takes the last descriptor, and none takes an earlier one.
pub login_round-overtaken :
    (accept : ℕ → Option ℕ) (set : ℕ → Bool) (fds : List ℕ) (fd last : ℕ) (earlier : List ℕ)
    → arrivals accept set fds ≡ earlier ++ last ∷ []
    → (a : Acceptor) × (login_round accept
          (ready set)
          fds
          (record { accept_fd = fd; created = 0; taken = [] })
        ≡ some a)
      × Returns
          (λ b. (b.taken ≡ replicate (length earlier + 1) last) × (b.created ≡ 0))
          (run (replicate (length earlier + 1) starts) a)
unfolding login_round
login_round-overtaken accept set fds fd last earlier e =
    let n = length earlier + 1 in
    let a : Acceptor = record { accept_fd = last; created = n; taken = [] } in
    let size : length (earlier ++ last ∷ []) ≡ n = length-append earlier (last ∷ []) in
    let zero_more : 0 + n ≡ n = omega arith in
    (
      a,
      ap some (
          accept_ready-arrivals accept set fds (record { accept_fd = fd; created = 0; taken = [] })
          ∙ rw (e, last_of-append fd last earlier, size, zero_more) refl),
      rw (run-starts n last []) (returns (refl, refl)),
    )

highest_of-ge : (fds : List ℕ) (h : ℕ) → h ≤ highest_of h fds
unfolding highest_of
highest_of-ge [] h = omega arith
highest_of-ge (fd ∷ fds) h = ground (arith, highest_of-ge fds (if ltb h fd then fd else h))

-- Every descriptor that is put into the set is below the bound that `select` gets.
pub fd_set-lt : (fds : List ℕ) (h i : ℕ) → fd_set fds i ≡ true → i < highest_of h fds + 1
unfolding fd_set highest_of
fd_set-lt [] h i e = absurd (ground arith)
fd_set-lt (fd ∷ fds) h i e =
    let up : ℕ = if ltb h fd then fd else h in
    ground (arith, highest_of-ge fds up, fd_set-lt fds up i)
