-- ===== src/Server/Threads/Single.antt =====
-- One client thread beside the archiver, its debug thread and the agent: a clear wipes what the
-- archiver has written.
use virtual_blackboard.Prelude.{
  ℕ, zero, suc, ◌+◌, ◌*◌, ◌≤◌, ◌<◌, ◌≡◌, ◌≢◌, Bool-cases, refl, subst, true, false, ◌==◌, ◌⊎◌, inl,
  inr, arith,
}
use virtual_blackboard.Prelude.Family.{put, total_zero, total_single}
use virtual_blackboard.Net.{m_clear}
use virtual_blackboard.Server.World.{World, unlock_bsem}
use virtual_blackboard.Server.Threads.{
  Pc, wiping, Shared, Move, take_board, System, Step, pick, Reach, here, next,
}
use virtual_blackboard.Server.Threads.Counts.{
  owes, waits, round, is_archiver, called, Balanced, Reach-Balanced,
}
use virtual_blackboard.Server.Threads.Clear.{
  IsArchived, IsArchived-Grown, is_client, is_covered, changes, Move-is_client, Move-Grown, Calm,
  client-is_covered, other-is_covered,
}

record Covered (s : System) : Type 0 where
  others : (i : ℕ) → i < 3 → is_client (s.pc i) ≡ false
  client : is_client (s.pc 3) ≡ true
  archived : is_covered s.shared.world.asem (s.pc 0) (s.pc 3) ≡ true → IsArchived s.shared.world

others_wait : (p : Pc) → is_client p ≡ false → (waits p ≡ 0) × (changes p ≡ false)
others_wait p h = ground arith

others_owe : (p : Pc) → is_archiver p ≡ false → owes p ≡ 0
others_owe p h = ground arith

owes-le : (p : Pc) → owes p ≤ round p
owes-le p = ground arith

-- An odd sum of at most 2.
odd_split : (a o p s : ℕ) → a + 2 * p + o ≡ 1 + 2 * s → a + o ≤ 2 → (a ≤ 1) × ((a ≡ 0) ⊎ (o ≡ 0))
odd_split zero o p s e le = (omega arith, inl refl)
odd_split (suc a) o p s e le = (omega arith, inr (omega (arith, e, le)))

-- The debug thread and the agent leave the trigger alone.
bystander_asem :
    {m m' : Shared} {p p' : Pc}
    → Move m p m' p'
    → is_client p ≡ false
    → is_archiver p ≡ false
    → m'.world.asem ≡ m.world.asem
unfolding unlock_bsem
bystander_asem take_board h k = refl
bystander_asem mv h k = ground (arith, called mv)

module _ {s : System} (v : Balanced 4 s) (c : Covered s) where
  not_first : (i : ℕ) → i ≢ 0 → is_archiver (s.pc i) ≡ false
  not_first i ne = ground (arith, v.archiver i)

  calm : Calm s.shared.world.asem (s.pc 0) (s.pc 3)
  calm none =
      let a = s.shared.world.asem in
      let w = total_zero waits 4 s.pc quiet in
      let o =
        total_single owes 4 0 s.pc (omega arith)
          (λ i lt ne. others_owe (s.pc i) (not_first i ne)) in
      let sum : a + 2 * s.shared.passed + owes (s.pc 0) ≡ 1 + 2 * s.shared.saves =
        omega (arith, v.balance, w, o) in
      odd_split a (owes (s.pc 0)) s.shared.passed s.shared.saves sum
        (omega (arith, v.bounded, owes-le (s.pc 0)))
    where
      quiet : (i : ℕ) → i < 4 → waits (s.pc i) ≡ 0
      quiet i lt = elim (Bool-cases (i == 3)) [
        | inl e ↦ (let same : i ≡ 3 = ground arith in rw same none)
        | inr e ↦ (others_wait (s.pc i) (c.others i (ground arith))).0
      ]

  grown :
      {m : Shared} {p p' : Pc}
      → Move s.shared p m p'
      → changes p ≡ false
      → IsArchived s.shared.world
      → IsArchived m.world
  grown {m} mv h k = IsArchived-Grown s.shared.world m.world (Move-Grown mv h) k

  -- What holds after a move of thread `i`.
  abbrev After : (m : Shared) (pc : ℕ → Pc) → Type 0
  After m pc = is_covered m.world.asem (pc 0) (pc 3) ≡ true → IsArchived m.world

  first_moves : {m : Shared} {p : Pc} → Move s.shared (s.pc 0) m p → After m (put s.pc 0 p)
  first_moves {m} {p} mv k =
      let h = c.others 0 (omega arith) in
      elim (other-is_covered (s.pc 3) mv h k) [
        | inl before ↦ grown mv (others_wait (s.pc 0) h).1 (c.archived before)
        | inr now ↦ now
      ]

  client_moves : {m : Shared} {p : Pc} → Move s.shared (s.pc 3) m p → After m (put s.pc 3 p)
  client_moves {m} {p} mv k =
      let (before, h) = client-is_covered (s.pc 0) mv c.client calm k in
      grown mv h (c.archived before)

  bystander_moves :
      {m : Shared} {p : Pc} (i : ℕ)
      → i < 3
      → i ≢ 0
      → Move s.shared (s.pc i) m p
      → is_covered m.world.asem (s.pc 0) (s.pc 3) ≡ true
      → IsArchived m.world
  bystander_moves {m} i lt ne mv k =
      let h = c.others i lt in
      let same = bystander_asem mv h (not_first i ne) in
      grown mv (others_wait (s.pc i) h).1
        (c.archived (subst (λ a. is_covered a (s.pc 0) (s.pc 3) ≡ true) same k))

  step_archived :
      {m : Shared} {p : Pc} (i : ℕ) → i < 4 → Move s.shared (s.pc i) m p → After m (put s.pc i p)
  step_archived zero lt mv = first_moves mv
  step_archived (suc zero) lt mv = bystander_moves 1 (omega arith) (λ e. absurd (omega arith)) mv
  step_archived (suc (suc zero)) lt mv =
      bystander_moves 2 (omega arith) (λ e. absurd (omega arith)) mv
  step_archived (suc (suc (suc zero))) lt mv = client_moves mv
  step_archived (suc (suc (suc (suc i)))) lt mv = absurd (omega arith)

Step-Covered : {s t : System} → Step 4 s t → Balanced 4 s → Covered s → Covered t
Step-Covered {s} (pick i {m} {p} lt mv) v c =
    let same = Move-is_client mv in
    record {
      others = λ j few. ground (arith, c.others j few, same);
      client = ground (arith, c.client, same);
      archived = step_archived v c i lt mv;
    }

Reach-Covered : {w : World} {s : System} → w.bsem ≡ 1 → w.asem ≡ 1 → Reach 4 w s → Covered s
Reach-Covered b a here = record {
  others = λ i lt. ground arith;
  client = refl;
  archived = λ k. absurd (ground arith);
}
Reach-Covered b a (next r st) = Step-Covered st (Reach-Balanced b a r) (Reach-Covered b a r)

-- With one client thread, from free semaphores, whatever the other threads do in between: when the
-- client's clear message is about to wipe the blackboard, the archive holds an entry with the
-- blackboard's text.
pub clear-IsArchived :
    {w : World} {s : System} {sfd length : ℕ}
    → w.bsem ≡ 1
    → w.asem ≡ 1
    → Reach 4 w s
    → s.pc 3 ≡ wiping sfd length m_clear
    → IsArchived s.shared.world
clear-IsArchived {s} b a r e = let c = Reach-Covered b a r in c.archived (rw e refl)
