-- ===== src/Tests/Threads.antt =====
-- The theorems about interleaved threads at runs of the small class.
use virtual_blackboard.Prelude.{ℕ, ◌≡◌, refl, ◌++◌, [], ◌∷◌, arith}
use virtual_blackboard.Net.{m_clear}
use virtual_blackboard.Net.Strings.{text_of}
use virtual_blackboard.Server.World.{
  World, recv, fill, lock_bsem, unlock_bsem, lock_asem, unlock_asem, write_board, zeros,
}
use virtual_blackboard.Server.BoardHandler.{receive_board}
use virtual_blackboard.Server.BoardHandler.Content.{painted}
use virtual_blackboard.Server.BoardHandler.Access.{archive_entry, archive_blackboard-ok}
use virtual_blackboard.Server.Threads.{
  wait_asem, wiping, System, Reach, here, go, take_clear, trigger, pass, lock, read, notice,
  open_board, save, close_board, notify, reset,
}
use virtual_blackboard.Server.Threads.Rounds.{mutual_exclusion, Reach-rounds_quiet}
use virtual_blackboard.Server.Threads.Clear.{IsArchived}
use virtual_blackboard.Server.Threads.Single.{clear-IsArchived}
use virtual_blackboard.Server.Threads.Lost.{free, late, clear-overtaken}
use virtual_blackboard.Tests.{world}

-- A run of four threads, with the state that it ends in.
record Run : Type 0 where
  last : System
  reach : Reach 4 (world []) last

-- The agent copies the blackboard.
abbrev broadcasting : Run
unfolding lock_bsem
broadcasting = record { last = _; reach = go 2 (omega arith) (read refl) here }

-- A clear has been let through by the archiver, which listens again.
abbrev cleared : Run
unfolding lock_bsem unlock_bsem lock_asem unlock_asem wait_asem painted zeros
cleared = record {
  last = _;
  reach = go 3 (omega arith) (pass refl) (
      go 0 (omega arith) reset (
        go 0 (omega arith) notify (
          go 0 (omega arith) close_board (
            go 0 (omega arith) (save (archive_blackboard-ok _ refl)) (
              go 0 (omega arith) (open_board refl) (
                go 0 (omega arith) (notice refl) (
                  go 3 (omega arith) (trigger refl)
                    (go 3 (omega arith) (take_clear {sfd = 4} {length = 0}) here))))))));
}

mutual_exclusion_example : (◌≡◌ {A = ℕ} 2 2) × (broadcasting.last.shared.world.bsem ≡ 0)
unfolding lock_bsem
mutual_exclusion_example =
    mutual_exclusion refl refl broadcasting.reach 2 2 (omega arith) (omega arith) refl refl

Reach-rounds_quiet_example :
    (cleared.last.shared.passed ≡ cleared.last.shared.saves) × (cleared.last.shared.world.asem ≡ 1)
unfolding lock_bsem unlock_bsem lock_asem unlock_asem wait_asem painted zeros
Reach-rounds_quiet_example = Reach-rounds_quiet refl refl cleared.reach refl (λ i lt. ground arith)

abbrev at_wipe : Run
unfolding lock_bsem unlock_bsem lock_asem unlock_asem wait_asem painted zeros
at_wipe = record { last = _; reach = go 3 (omega arith) (lock refl) cleared.reach }

clear-IsArchived_example : IsArchived at_wipe.last.shared.world
unfolding lock_bsem unlock_bsem lock_asem unlock_asem wait_asem painted zeros
clear-IsArchived_example = clear-IsArchived {sfd = 4} {length = 0} refl refl at_wipe.reach refl

-- What the late message leaves: its content is the byte "Y".
abbrev painted_late : World
painted_late = (receive_board 5 1 (late (world (89 ∷ [])))).0

clear-overtaken_example :
    (s : System) × Reach 5 (free (world (89 ∷ []))) s
    × (s.pc 3 ≡ wiping 4 0 m_clear)
    × (s.shared.world.board ≡ painted_late.board)
    × (s.shared.world.archive ≡ [] ++ archive_entry [] (text_of (world (89 ∷ [])).board))
unfolding receive_board recv write_board fill painted zeros
clear-overtaken_example =
    clear-overtaken (world (89 ∷ [])) painted_late 5 1 refl (λ e. absurd (omega arith)) refl
