-- ===== src/ClientList/Represents.antt =====
-- When a state of the client list stands for a roster, and the consistency of its two pointers.
use virtual_blackboard.Prelude.{
  ◌%◌, ◌^◌, ◌≡◌, ◌≢◌, ◌⊎◌, Bool, true, false, ok, length, [], refl, inl, arith,
}
use virtual_blackboard.ClientList.{ClientList, empty, lock_clientlist}
use virtual_blackboard.ClientList.Seg.{Ptr, null, Roster, has, head_or, last_or, Seg, Distinct}

-- A pointer is NULL or points at an entry of the list.
abbrev pub Held : Ptr → Roster → Type 0
Held p xs = (p ≡ null) ⊎ (has p xs ≡ true)

-- The heap holds the clients of `xs`, in order and linked both ways, the counter counts them
-- (modulo the word size) and no pointer dangles.
pub record Represents (s : ClientList) (xs : Roster) : Type 0 where
  pub linked : Seg s.cell null xs null
  pub distinct : Distinct xs
  pub first : s.cl_first ≡ head_or null xs
  pub last : s.cl_last ≡ last_or null xs
  pub counted : s.client_counter ≡ length xs % 2 ^ 32
  pub docent_held : Held s.user_docent xs
  pub write_held : Held s.user_write xs

-- While there is a docent, somebody has write access.
abbrev pub IsGranted : ClientList → Type 0
IsGranted s = s.user_docent ≢ null → s.user_write ≢ null

pub empty-Represents : Represents empty []
empty-Represents = record {
  linked = tt;
  distinct = tt;
  first = refl;
  last = refl;
  counted = refl;
  docent_held = inl refl;
  write_held = inl refl;
}

-- The mutex and the iterator are no part of what the list stands for.
pub Represents-locked :
    (s : ClientList) (xs : Roster) (b : Bool)
    → Represents s xs
    → Represents (record s { locked = b }) xs
Represents-locked s xs b r = record {
  linked = r.linked;
  distinct = r.distinct;
  first = r.first;
  last = r.last;
  counted = r.counted;
  docent_held = r.docent_held;
  write_held = r.write_held;
}

pub Represents-write :
    (s : ClientList) (xs : Roster) (p : Ptr)
    → Held p xs
    → Represents s xs
    → Represents (record s { user_write = p }) xs
Represents-write s xs p h r = record {
  linked = r.linked;
  distinct = r.distinct;
  first = r.first;
  last = r.last;
  counted = r.counted;
  docent_held = r.docent_held;
  write_held = h;
}

-- A free mutex is taken at once.
pub lock_lem :
    (s : ClientList) → s.locked ≡ false → lock_clientlist s ≡ ok (record s { locked = true })
unfolding lock_clientlist
lock_lem s free = ground arith
