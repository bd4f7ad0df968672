-- ===== src/Server/Threads/Rounds.antt =====
-- The two semaphores in every state of the interleaved threads: the blackboard has one user at a
-- time, and every clear has a round of the archiver.
use virtual_blackboard.Prelude.{ℕ, ◌≤◌, ◌<◌, ◌≡◌, ◌≢◌, ◌==◌, Bool-cases, inl, inr, arith}
use virtual_blackboard.Prelude.Family.{total_zero, weight-le-total, weights-le-total}
use virtual_blackboard.Server.World.{World}
use virtual_blackboard.Server.Threads.{listening, System, Reach}
use virtual_blackboard.Server.Threads.Counts.{inside, waits, owes, Balanced, Reach-Balanced}

-- In every state that the threads can come to from free semaphores, no two threads are between
-- `lock_sem(bsem_id)` and `unlock_sem(bsem_id)`, and while one is, the semaphore is zero.
pub mutual_exclusion :
    {n : ℕ} {w : World} {s : System}
    → w.bsem ≡ 1
    → w.asem ≡ 1
    → Reach n w s
    → (i j : ℕ) → i < n
    → j < n
    → inside (s.pc i) ≡ 1
    → inside (s.pc j) ≡ 1
    → (i ≡ j) × (s.shared.world.bsem ≡ 0)
mutual_exclusion {n} {w} {s} b a r i j hi hj p q =
    let v = Reach-Balanced b a r in
    elim (Bool-cases (i == j)) [
      | inl e ↦ (ground arith, omega (arith, v.holders, p, weight-le-total inside n s.pc i hi))
      | inr e ↦
          let ne : i ≢ j = λ x. ground arith in
          absurd (omega (arith, v.holders, p, q, weights-le-total inside n s.pc i j hi hj ne))
    ]

-- Only the archiver owes rounds.
owes_zero : {n : ℕ} {s : System} → Balanced n s → s.pc 0 ≡ listening → (i : ℕ) → owes (s.pc i) ≡ 0
owes_zero v l i = ground (arith, v.archiver i)

-- In every state that the threads can come to from free semaphores the archiver has written at
-- least as many entries as it has let clears through, and its semaphore is at most 2.
pub Reach-rounds :
    {n : ℕ} {w : World} {s : System}
    → w.bsem ≡ 1
    → w.asem ≡ 1
    → Reach n w s
    → (s.shared.passed ≤ s.shared.saves) × (s.shared.world.asem ≤ 2)
Reach-rounds b a r =
    let v = Reach-Balanced b a r in (omega (arith, v.balance), omega (arith, v.bounded))

-- In every such state in which the archiver listens and no client waits for it, it has written
-- exactly one entry for each clear, and its semaphore is back at 1.
pub Reach-rounds_quiet :
    {n : ℕ} {w : World} {s : System}
    → w.bsem ≡ 1
    → w.asem ≡ 1
    → Reach n w s
    → s.pc 0 ≡ listening
    → ((i : ℕ) → i < n → waits (s.pc i) ≡ 0)
    → (s.shared.passed ≡ s.shared.saves) × (s.shared.world.asem ≡ 1)
Reach-rounds_quiet {n} {s} b a r l quiet =
    let v = Reach-Balanced b a r in
    let z = total_zero waits n s.pc quiet in
    let o = total_zero owes n s.pc (λ i lt. owes_zero v l i) in
    (omega (arith, v.balance, v.bounded, z, o), omega (arith, v.balance, v.bounded, z, o))
