-- ===== src/Server/Threads/Counts.antt =====
-- What the threads hold of the two semaphores, in every state that they can come to.
use virtual_blackboard.Prelude.{
  ℕ, suc, ◌+◌, ◌*◌, ◌≤◌, ◌≡◌, zero, ◌∙◌, Bool, true, false, ◌==◌, if◌then◌else◌, ok, ◌⊎◌, inl, inr,
  arith,
}
use virtual_blackboard.Prelude.Family.{put, total, total-put, total_zero}
use virtual_blackboard.Server.World.{World, unlock_bsem, unlock_asem, wipe}
use virtual_blackboard.Server.BoardHandler.Semaphores.{
  Untouched, lock_bsem-Untouched, lock_asem-Untouched, finish-Untouched, Semaphores,
  lock_bsem-Semaphores, lock_asem-Semaphores, archive-Semaphores, receive_board-success,
  receive_board-failed, finish-Semaphores,
}
use virtual_blackboard.Server.BoardHandler.{finish}
use virtual_blackboard.Server.Threads.{
  Pc, waiting, wiping, receiving, releasing, copying, reading, listening, opening, saving, closing,
  notifying, resetting, sampling, sampled, Shared, wait_asem, Move, take_board, trigger, pass, lock,
  receive, lose, release, copy, read, notice, open_board, save, wake, sample, System, start, Step,
  pick, initially, Reach, here, next,
}

-- 1 between `lock_sem(bsem_id)` and `unlock_sem(bsem_id)`.
abbrev pub inside : Pc → ℕ
inside (wiping _ _ _) = 1
inside (receiving _ _ _) = 1
inside (releasing _) = 1
inside copying = 1
inside reading = 1
inside saving = 1
inside closing = 1
inside sampling = 1
inside sampled = 1
inside _ = 0

-- 1 between the two `lock_sem(asem_id)`.
abbrev pub waits : Pc → ℕ
waits (waiting _ _) = 1
waits _ = 0

-- How often the archiver will still unlock the trigger for the entry that it has written.
abbrev pub owes : Pc → ℕ
owes closing = 2
owes notifying = 2
owes resetting = 1
owes _ = 0

-- How often the archiver will unlock the trigger before it waits again.
abbrev pub round : Pc → ℕ
round opening = 2
round saving = 2
round p = owes p

abbrev pub is_archiver : Pc → Bool
is_archiver listening = true
is_archiver p = if round p == 0 then false else true

module _ (w : World) where
  wait_asem-Semaphores :
      (u : World) → wait_asem w ≡ ok u → (w.asem ≡ 0) × Semaphores w.bsem w.asem u × Untouched w u
  unfolding wait_asem
  wait_asem-Semaphores u e = ground arith

-- What a move does to the numbers that the invariant adds up.
abbrev Effect : Shared → Pc → Shared → Pc → Type 0
Effect m p m' p' =
    (m'.world.bsem + inside p' ≡ m.world.bsem + inside p)
    × (m'.world.asem + waits p' + 2 * m'.passed + owes p' + 2 * m.saves
        ≡ m.world.asem + waits p + 2 * m.passed + owes p + 2 * m'.saves)
    × (is_archiver p' ≡ is_archiver p)

abbrev AsemLocked : World → World → Type 0
AsemLocked w u = ((u.asem + 1 ≡ w.asem) × (u.bsem ≡ w.bsem)) × Untouched w u

abbrev BsemLocked : World → World → Type 0
BsemLocked w u = ((u.bsem + 1 ≡ w.bsem) × (u.asem ≡ w.asem)) × Untouched w u

-- How far a move may raise the trigger.
abbrev Bound : ℕ → Pc → ℕ → Pc → Type 0
Bound a p b p' = (b + round p' ≤ a + round p) ⊎ ((a ≡ 0) × (b ≡ 0) × (p' ≡ opening))

-- The semaphores before and after the call of a move.
abbrev pub Called : {m m' : Shared} {p p' : Pc} → Move m p m' p' → Type 0
Called {m} (trigger {u} e) = AsemLocked m.world u
Called {m} (pass {u} e) = AsemLocked m.world u
Called {m} (lock {u} e) = BsemLocked m.world u
Called {m} (copy {u} e) = BsemLocked m.world u
Called {m} (read {u} e) = BsemLocked m.world u
Called {m} (notice {u} e) =
    (m.world.asem ≡ 0) × Semaphores m.world.bsem m.world.asem u × Untouched m.world u
Called {m} (open_board {u} e) = BsemLocked m.world u
Called {m} (save {u} e) = Semaphores m.world.bsem m.world.asem u
Called {m} (wake {u} e) = BsemLocked m.world u
Called {m} (sample {u} e) = Semaphores m.world.bsem m.world.asem u
Called {m} (receive {u} ne e) = Semaphores m.world.bsem m.world.asem u
Called {m} (lose {u} ne e) = Semaphores (m.world.bsem + 1) m.world.asem u
Called {m} (release {mtype}) =
    Semaphores (m.world.bsem + 1) m.world.asem (finish mtype m.world)
    × Untouched m.world (finish mtype m.world)
Called mv = Unit {0}

pub called : {m m' : Shared} {p p' : Pc} (mv : Move m p m' p') → Called mv
called {m} (trigger {u} e) = (lock_asem-Semaphores m.world u e, lock_asem-Untouched m.world u e)
called {m} (pass {u} e) = (lock_asem-Semaphores m.world u e, lock_asem-Untouched m.world u e)
called {m} (lock {u} e) = (lock_bsem-Semaphores m.world u e, lock_bsem-Untouched m.world u e)
called {m} (copy {u} e) = (lock_bsem-Semaphores m.world u e, lock_bsem-Untouched m.world u e)
called {m} (read {u} e) = (lock_bsem-Semaphores m.world u e, lock_bsem-Untouched m.world u e)
called {m} (notice {u} e) = wait_asem-Semaphores m.world u e
called {m} (open_board {u} e) = (lock_bsem-Semaphores m.world u e, lock_bsem-Untouched m.world u e)
called {m} (save {u} e) = archive-Semaphores m.world u e
called {m} (wake {u} e) = (lock_bsem-Semaphores m.world u e, lock_bsem-Untouched m.world u e)
called {m} (sample {u} e) = archive-Semaphores m.world u e
called {m} (receive {sfd} {length} {u} ne e) = receive_board-success m.world sfd length u e
called {m} (lose {sfd} {length} {u} ne e) = receive_board-failed m.world sfd length u e
called {m} (release {mtype}) = (finish-Semaphores m.world mtype, finish-Untouched m.world mtype)
called mv = tt

Move-Effect : {m m' : Shared} {p p' : Pc} → Move m p m' p' → Effect m p m' p'
unfolding wipe unlock_bsem unlock_asem
Move-Effect take_board = ground arith
Move-Effect mv = ground (arith, called mv)

Move-Bound : {m m' : Shared} {p p' : Pc} → Move m p m' p' → Bound m.world.asem p m'.world.asem p'
unfolding wipe unlock_bsem unlock_asem
Move-Bound take_board = ground arith
Move-Bound mv = ground (arith, called mv)

-- The blackboard's semaphore is free or one thread holds it; the trigger is worth what the
-- archiver's entries put in and the clears took out; the first thread alone is the archiver.
pub record Balanced (n : ℕ) (s : System) : Type 0 where
  pub holders : s.shared.world.bsem + total inside n s.pc ≡ 1
  pub balance :
      s.shared.world.asem + total waits n s.pc + 2 * s.shared.passed + total owes n s.pc
      ≡ 1 + 2 * s.shared.saves
  pub archiver : (i : ℕ) → is_archiver (s.pc i) ≡ (i == 0)
  pub bounded : s.shared.world.asem + round (s.pc 0) ≤ 2

start-outside : (i : ℕ) → (inside (start i) ≡ 0) × (waits (start i) ≡ 0) × (owes (start i) ≡ 0)
start-outside i = ground arith

initially-Balanced : (n : ℕ) (w : World) → w.bsem ≡ 1 → w.asem ≡ 1 → Balanced n (initially w)
initially-Balanced n w b a = record {
  holders = omega (arith, b, total_zero inside n start (λ i lt. (start-outside i).0));
  balance = omega (
    arith,
    a,
    total_zero waits n start (λ i lt. (start-outside i).1),
    total_zero owes n start (λ i lt. (start-outside i).2),
  );
  archiver = λ i. ground arith;
  bounded = omega (arith, a);
}

idle_round : (p : Pc) → is_archiver p ≡ false → round p ≡ 0
idle_round p h = ground arith

other_raise :
    (q r : Pc) (a b : ℕ) (p : Pc)
    → a + round q ≤ 2
    → is_archiver r ≡ false
    → Bound a r b p
    → b + round q ≤ 2
other_raise q r a b p h k (inl le) = omega (arith, h, le, idle_round r k)
other_raise q r a b p h k (inr (none_left, none, e)) = omega (arith, h, none)

-- The trigger stays at most 2, whichever thread moves.
raise :
    (pc : ℕ → Pc) (a b i : ℕ) (p : Pc)
    → a + round (pc 0) ≤ 2
    → is_archiver (pc i) ≡ (i == 0)
    → Bound a (pc i) b p
    → b + round (put pc i p 0) ≤ 2
raise pc a b zero p h k (inl le) = omega (arith, h, le)
raise pc a b zero p h k (inr (none_left, none, e)) = rw (none, e) (omega arith)
raise pc a b (suc i) p h k x =
    let other : (suc i == 0) ≡ false = ground arith in
    let same : put pc (suc i) p 0 ≡ pc 0 = ground arith in
    rw same (other_raise (pc 0) (pc (suc i)) a b p h (k ∙ other) x)

pub Step-Balanced : {n : ℕ} {s t : System} → Step n s t → Balanced n s → Balanced n t
Step-Balanced {n} {s} (pick i {m} {p} lt mv) v =
    let e = Move-Effect mv in
    let b = Move-Bound mv in
    record {
      holders = omega (arith, v.holders, e.0, total-put inside n s.pc i p lt);
      balance =
          omega
            (arith, v.balance, e.1, total-put waits n s.pc i p lt, total-put owes n s.pc i p lt);
      archiver = λ j. ground (arith, v.archiver j, v.archiver i, e.2);
      bounded = raise s.pc s.shared.world.asem m.world.asem i p v.bounded (v.archiver i) b;
    }

pub Reach-Balanced :
    {n : ℕ} {w : World} {s : System} → w.bsem ≡ 1 → w.asem ≡ 1 → Reach n w s → Balanced n s
Reach-Balanced {n} {w} b a here = initially-Balanced n w b a
Reach-Balanced b a (next r st) = Step-Balanced st (Reach-Balanced b a r)
