-- ===== src/Server/Threads/Clear.antt =====
-- With one client thread, a clear wipes what the archiver has written.
use virtual_blackboard.Prelude.{
  ℕ, ◌≤◌, ◌≡◌, refl, Bool, true, false, ◌==◌, List, [], ◌++◌, append-nil, append_assoc, ◌⊎◌, inl,
  inr, arith, if◌then◌else◌,
}
use virtual_blackboard.Net.{m_clear}
use virtual_blackboard.Net.Strings.{text_of}
use virtual_blackboard.Server.World.{World, unlock_bsem, unlock_asem}
use virtual_blackboard.Server.BoardHandler.Semaphores.{Untouched}
use virtual_blackboard.Server.BoardHandler.Access.{archive_entry, archive_blackboard-entry}
use virtual_blackboard.Server.Threads.{
  Pc, idle, triggering, waiting, updating, wiping, receiving, releasing, copying, Shared, Move,
  take_board, trigger, save, sample,
}
use virtual_blackboard.Server.Threads.Counts.{owes, waits, called}

-- The archive holds an entry with the text that is on the blackboard.
abbrev pub IsArchived : World → Type 0
IsArchived w =
    (before : List ℕ) × (after : List ℕ) × (w.archive
      ≡ before ++ (archive_entry w.clock (text_of w.board) ++ after))

-- The archive has only grown, and the blackboard is the same.
abbrev pub Grown : World → World → Type 0
Grown w u =
    (u.board ≡ w.board) × (u.clock ≡ w.clock) × (more : List ℕ) × (u.archive ≡ w.archive ++ more)

Untouched-Grown : (w u : World) → Untouched w u → Grown w u
Untouched-Grown w u h = (h.0, h.2, [], ground (arith, h.1, append-nil w.archive))

pub IsArchived-Grown : (w u : World) → Grown w u → IsArchived w → IsArchived u
IsArchived-Grown w u (b, c, more, a) (before, after, e) =
    (before, after ++ more, rw (b, c, a, e) (simp append_assoc))

-- The threads that change the blackboard.
abbrev pub is_client : Pc → Bool
is_client idle = true
is_client (triggering _ _) = true
is_client (waiting _ _) = true
is_client (updating _ _ _) = true
is_client (wiping _ _ _) = true
is_client (receiving _ _ _) = true
is_client (releasing _) = true
is_client copying = true
is_client _ = false

-- Behind these points the blackboard's text has been archived, `a` being the archiver's place.
abbrev pub is_covered : (asem : ℕ) (a : Pc) → Pc → Bool
is_covered asem a (waiting _ _) = if asem == 0 then (if owes a == 0 then false else true) else true
is_covered asem a (updating _ _ mtype) = mtype == m_clear
is_covered asem a (wiping _ _ mtype) = mtype == m_clear
is_covered asem a p = false

pub Move-is_client : {m m' : Shared} {p p' : Pc} → Move m p m' p' → is_client p' ≡ is_client p
Move-is_client take_board = refl
Move-is_client mv = ground arith

-- The places from which a thread changes the blackboard.
abbrev pub changes : Pc → Bool
changes (wiping _ _ _) = true
changes (receiving _ _ _) = true
changes _ = false

entry-Grown :
    (w u : World)
    → u ≡ record w { archive = w.archive ++ archive_entry w.clock (text_of w.board) }
    → Grown w u × IsArchived u
entry-Grown w u e =
    rw e
      ((refl, refl, archive_entry w.clock (text_of w.board), refl), (w.archive, [], rw append-nil))

-- Every other move leaves the blackboard and adds to the archive.
pub Move-Grown :
    {m m' : Shared} {p p' : Pc} → Move m p m' p' → changes p ≡ false → Grown m.world m'.world
unfolding unlock_bsem unlock_asem
Move-Grown {m} (save {u} e) h = (entry-Grown m.world u (archive_blackboard-entry m.world u e)).0
Move-Grown {m} (sample {u} e) h = (entry-Grown m.world u (archive_blackboard-entry m.world u e)).0
Move-Grown {m} {m'} mv h = Untouched-Grown m.world m'.world (ground (arith, called mv))

-- What the client's next moves rest on: while it has not triggered the archiver, the trigger is
-- worth at most 1, and nothing if the archiver still owes a round.
abbrev pub Calm : (asem : ℕ) (a p : Pc) → Type 0
Calm asem a p = waits p ≡ 0 → (asem ≤ 1) × ((asem ≡ 0) ⊎ (owes a ≡ 0))

-- A client's move covers no more than what was covered before.
pub client-is_covered :
    {m m' : Shared} {p p' : Pc} (a : Pc)
    → Move m p m' p'
    → is_client p ≡ true
    → Calm m.world.asem a p
    → is_covered m'.world.asem a p' ≡ true
    → (is_covered m.world.asem a p ≡ true) × (changes p ≡ false)
client-is_covered {m} a (trigger {u} e) h calm c =
    ground (arith, calm refl, called {m = m} (trigger {u = u} e))
client-is_covered a mv h calm c = ground (arith, called mv)

-- A move of another thread covers more only by writing the entry.
pub other-is_covered :
    {m m' : Shared} {p p' : Pc} (c : Pc)
    → Move m p m' p'
    → is_client p ≡ false
    → is_covered m'.world.asem p' c ≡ true
    → (is_covered m.world.asem p c ≡ true) ⊎ IsArchived m'.world
unfolding unlock_bsem unlock_asem
other-is_covered {m} c (save {u} e) h k =
    inr (entry-Grown m.world u (archive_blackboard-entry m.world u e)).1
other-is_covered c take_board h k = absurd (ground arith)
other-is_covered c mv h k = inl (ground (arith, called mv))
