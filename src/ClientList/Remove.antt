-- ===== src/ClientList/Remove.antt =====
-- `remove_client` against the roster: the search, and the roster without the client.
use virtual_blackboard.Prelude.{
  ℕ, zero, suc, ◌<◌, ◌≡◌, refl, sym, ap, subst, Bool, true, false, inl, inr, [], ◌∷◌, ◌++◌, length,
  ◌==◌, if◌then◌else◌, Bool-cases, ok, fault, arith,
}
use virtual_blackboard.ClientList.{
  ClientList, load, lock_clientlist, max_entries, stopped_at, scan_sfd, unlink, remove_client,
}
use virtual_blackboard.ClientList.Seg.{Ptr, null, ClientData, Cells, Node, Roster, head_or, Seg}
use virtual_blackboard.ClientList.Represents.{Represents, Represents-locked}
use virtual_blackboard.ClientList.Lookup.{load_lem, find_addr}
use virtual_blackboard.ClientList.Unlink.{Removed, unlink-Removed}

abbrev pub has_sfd : (sfd : ℕ) → ClientData → Bool
has_sfd sfd c = c.sfd == sfd

-- The roster less the first client with the socket.
unfoldable pub without : (sfd : ℕ) → Roster → Roster
without sfd [] = []
without sfd (n ∷ xs) = if n.cdata.sfd == sfd then xs else n ∷ without sfd xs

-- The loop stops at the first client with the socket, or at NULL; the early return is never taken.
scan_sfd-find_addr :
    (fuel : ℕ) (h : Cells) (p : Ptr) (sfd : ℕ) (xs : Roster)
    → Seg h p xs null
    → length xs < fuel
    → scan_sfd fuel h (head_or null xs) sfd ≡ ok (stopped_at (find_addr (has_sfd sfd) xs))
unfolding scan_sfd find_addr
scan_sfd-find_addr zero h p sfd xs s f = absurd (omega arith)
scan_sfd-find_addr (suc fuel) h p sfd [] s f = refl
scan_sfd-find_addr (suc fuel) h p sfd (n ∷ xs) s f =
    let at : (n.addr == null) ≡ false = ground (arith, s.0) in
    rw (at, load_lem h n.addr _ s.0 s.1, scan_sfd-find_addr fuel h n.addr sfd xs s.2 (omega arith))
      (elim (Bool-cases (n.cdata.sfd == sfd)) [ inl hit ↦ rw hit | inr miss ↦ rw miss ])

-- The roster around the first client with the socket.
pub record Split (sfd : ℕ) (xs : Roster) : Type 0 where
  pub before : Roster
  pub at : Node
  pub behind : Roster
  pub whole : xs ≡ before ++ at ∷ behind
  pub found : find_addr (has_sfd sfd) xs ≡ at.addr
  pub left : without sfd xs ≡ before ++ behind

-- Whether a client has the socket.
unfoldable pub connected : (sfd : ℕ) → Roster → Bool
connected sfd [] = false
connected sfd (n ∷ xs) = if n.cdata.sfd == sfd then true else connected sfd xs

split : (sfd : ℕ) (xs : Roster) → connected sfd xs ≡ true → Split sfd xs
unfolding connected find_addr without
split sfd [] c = absurd (ground arith)
split sfd (n ∷ xs) c = elim (Bool-cases (n.cdata.sfd == sfd)) [
  | inl hit ↦ record {
    before = [];
    at = n;
    behind = xs;
    whole = refl;
    found = rw hit;
    left = rw hit;
  }
  | inr miss ↦
      let rest = split sfd xs (rw miss at c) in
      record {
        before = n ∷ rest.before;
        at = rest.at;
        behind = rest.behind;
        whole = ap (◌∷◌ n) rest.whole;
        found = rw miss rest.found;
        left = rw miss (ap (◌∷◌ n) rest.left);
      }
]

not_connected :
    (sfd : ℕ) (xs : Roster) → connected sfd xs ≡ false → find_addr (has_sfd sfd) xs ≡ null
unfolding connected find_addr
not_connected sfd [] c = refl
not_connected sfd (n ∷ xs) c = elim (Bool-cases (n.cdata.sfd == sfd)) [
  | inl hit ↦ absurd (ground arith)
  | inr miss ↦ rw miss (not_connected sfd xs (rw miss at c))
]

-- The search of `remove_client`, with the mutex taken.
scan_lem :
    (s : ClientList) (sfd : ℕ) (xs : Roster)
    → Represents s xs
    → length xs < max_entries
    → scan_sfd max_entries s.cell s.cl_first sfd ≡ ok (stopped_at (find_addr (has_sfd sfd) xs))
scan_lem s sfd xs r f =
    subst (λ p. scan_sfd max_entries s.cell p sfd ≡ ok (stopped_at (find_addr (has_sfd sfd) xs)))
      (sym r.first) (scan_sfd-find_addr max_entries s.cell null sfd xs r.linked f)

-- Removing a connected client returns 0, and the list stands for the roster less that client.
-- Its entry is freed. The write access falls back to the docent if the client had it and was not
-- the docent itself, the docent's own removal clears the docent and its write access.
pub remove_client-Removed :
    (s : ClientList) (sfd : ℕ) (xs : Roster)
    → Represents s xs
    → s.locked ≡ false
    → length xs < max_entries
    → connected sfd xs ≡ true
    → (t : ClientList) × (remove_client sfd s ≡ ok (t, 0))
      × Removed (find_addr (has_sfd sfd) xs) s t (without sfd xs)
unfolding remove_client lock_clientlist
remove_client-Removed s sfd xs r free f c =
    let held = record s { locked = true } in
    let r' = Represents-locked s xs true r in
    let scan = scan_lem held sfd xs r' f in
    let p = split sfd xs c in
    let whole = subst (λ l. Represents held l) p.whole r' in
    let (t, run, m) = unlink-Removed held p.before p.behind p.at whole in
    (
      t,
      rw (free, scan, p.found) run,
      record {
        represents = rw p.left m.represents;
        docent_is = rw p.found m.docent_is;
        write_is = rw p.found m.write_is;
        unlocked = m.unlocked;
        freed = rw p.found m.freed;
      },
    )

-- For a socket that no client has, `remove_client` does not return 1 as its comment says: the
-- search ends at NULL, and the first field that is read through it is undefined behaviour.
pub remove_client-missing :
    (s : ClientList) (sfd : ℕ) (xs : Roster)
    → Represents s xs
    → s.locked ≡ false
    → length xs < max_entries
    → connected sfd xs ≡ false
    → remove_client sfd s ≡ fault
unfolding remove_client lock_clientlist unlink load
remove_client-missing s sfd xs r free f c =
    let scan = scan_lem (record s { locked = true }) sfd xs (Represents-locked s xs true r) f in
    rw (free, scan, not_connected sfd xs c)
