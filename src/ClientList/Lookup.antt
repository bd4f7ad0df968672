-- ===== src/ClientList/Lookup.antt =====
-- The read-only functions of client_list.c against the roster that the list stands for.
use virtual_blackboard.Prelude.{
  ℕ, zero, suc, ◌<◌, ◌≡◌, ◌≢◌, ◌∙◌, refl, sym, ap, subst, Bool, true, false, inl, inr, Option, none,
  some, [], ◌∷◌, length, ◌==◌, if◌then◌else◌, Bool-cases, ok, arith,
}
use virtual_blackboard.ClientList.{
  ClientList, load, max_entries, find_user, get_user_sfd, get_user_cid, is_user, has_write_access,
  is_docent,
}
use virtual_blackboard.ClientList.Seg.{
  Ptr, null, Entry, entry, ClientData, Cells, Node, Roster, has, head_or, Seg, Distinct, ne_of_has,
}
use virtual_blackboard.ClientList.Represents.{Held, Represents}

-- The address of the first client that passes the test, or NULL.
unfoldable pub find_addr : (ClientData → Bool) → Roster → Ptr
find_addr test [] = null
find_addr test (n ∷ xs) = if test n.cdata then n.addr else find_addr test xs

-- The client at an address.
unfoldable pub client_at : Ptr → Roster → Option ClientData
client_at p [] = none
client_at p (n ∷ xs) = if p == n.addr then some n.cdata else client_at p xs

-- 1 if the address is that of a client with this socket, else 0.
unfoldable pub is_at : (sfd : ℕ) → Option ClientData → ℕ
is_at sfd none = 0
is_at sfd (some c) = if c.sfd == sfd then 1 else 0

pub load_lem : (h : Cells) (p : Ptr) (e : Entry) → p ≢ null → h p ≡ some e → load h p ≡ ok e
unfolding load
load_lem h p e ne at = ground arith

find_user-find_addr :
    (test : ClientData → Bool) (fuel : ℕ) (h : Cells) (p : Ptr) (xs : Roster)
    → Seg h p xs null
    → length xs < fuel
    → find_user test fuel h (head_or null xs) ≡ ok (find_addr test xs)
unfolding find_user find_addr
find_user-find_addr test zero h p xs s f = absurd (omega arith)
find_user-find_addr test (suc fuel) h p [] s f = refl
find_user-find_addr test (suc fuel) h p (n ∷ xs) s f = ground (
  arith,
  load_lem h n.addr _ s.0 s.1,
  find_user-find_addr test fuel h n.addr xs s.2 (omega arith),
)

pub client_at-null : (h : Cells) (p e : Ptr) (xs : Roster) → Seg h p xs e → client_at null xs ≡ none
unfolding client_at
client_at-null h p e [] s = refl
client_at-null h p e (n ∷ xs) s = ground (arith, client_at-null h n.addr e xs s.2)

-- Every entry of the list can be read, and holds its client's data.
pub load-client_at :
    (h : Cells) (p e q : Ptr) (xs : Roster)
    → Seg h p xs e
    → has q xs ≡ true
    → (x : Entry) × (load h q ≡ ok x) × (client_at q xs ≡ some x.cdata) × (q ≢ null)
unfolding client_at
load-client_at h p e q [] s i = absurd (ground arith)
load-client_at h p e q (n ∷ xs) s i = elim (Bool-cases (q == n.addr)) [
  | inl hit ↦
      let eq : q ≡ n.addr = ground arith in
      (
        entry n.cdata (head_or e xs) p,
        rw eq (load_lem h n.addr _ s.0 s.1),
        ground arith,
        ground (arith, s.0),
      )
  | inr miss ↦
      let (x, got, at, ne) = load-client_at h n.addr e q xs s.2 (ground arith) in
      (x, got, ground arith, ne)
]

is_user-is_at :
    (h : Cells) (p e q : Ptr) (sfd : ℕ) (xs : Roster)
    → Seg h p xs e
    → Held q xs
    → is_user h q sfd ≡ ok (is_at sfd (client_at q xs))
unfolding is_user is_at
is_user-is_at h p e q sfd xs s (inl nil) = ground (arith, client_at-null h p e xs s, nil)
is_user-is_at h p e q sfd xs s (inr i) =
    let (x, got, at, ne) = load-client_at h p e q xs s i in ground arith

-- On a list that stands for a roster the five queries are total: they read no bad pointer, the
-- walks end within their bound, and the answers are those of the roster.
module _ (s : ClientList) (xs : Roster) (r : Represents s xs) where
  pub get_user_sfd_lem :
      (sfd : ℕ)
      → length xs < max_entries
      → get_user_sfd sfd s ≡ ok (find_addr (λ c. c.sfd == sfd) xs)
  unfolding get_user_sfd
  get_user_sfd_lem sfd f = rw r.first (find_user-find_addr _ max_entries s.cell null xs r.linked f)

  pub get_user_cid_lem :
      (cid : ℕ)
      → length xs < max_entries
      → get_user_cid cid s ≡ ok (find_addr (λ c. c.cid == cid) xs)
  unfolding get_user_cid
  get_user_cid_lem cid f = rw r.first (find_user-find_addr _ max_entries s.cell null xs r.linked f)

  pub has_write_access_lem :
      (sfd : ℕ) → has_write_access sfd s ≡ ok (is_at sfd (client_at s.user_write xs))
  unfolding has_write_access
  has_write_access_lem sfd =
      is_user-is_at s.cell null null s.user_write sfd xs r.linked r.write_held

  pub is_docent_lem : (sfd : ℕ) → is_docent sfd s ≡ ok (is_at sfd (client_at s.user_docent xs))
  unfolding is_docent
  is_docent_lem sfd = is_user-is_at s.cell null null s.user_docent sfd xs r.linked r.docent_held

find_addr_hit :
    (test : ClientData → Bool) (n : Node) (xs : Roster)
    → test n.cdata ≡ true
    → find_addr test (n ∷ xs) ≡ n.addr
unfolding find_addr
find_addr_hit test n xs hit = rw hit

find_addr_miss :
    (test : ClientData → Bool) (n : Node) (xs : Roster)
    → test n.cdata ≡ false
    → find_addr test (n ∷ xs) ≡ find_addr test xs
unfolding find_addr
find_addr_miss test n xs miss = rw miss

-- A held address of a list is that of a client behind the first one or of the first one.
Held-cons : (p : Ptr) (n : Node) (xs : Roster) → Held p xs → Held p (n ∷ xs)
Held-cons p n xs (inl nil) = inl nil
Held-cons p n xs (inr i) = inr (ground arith)

-- An address that the search finds is NULL or that of a client.
pub find_addr-Held : (test : ClientData → Bool) (xs : Roster) → Held (find_addr test xs) xs
find_addr-Held test [] = inl (unfold find_addr in refl)
find_addr-Held test (n ∷ xs) = elim (Bool-cases (test n.cdata)) [
  | inl hit ↦ rw (find_addr_hit test n xs hit) (inr (ground arith))
  | inr miss ↦
      subst (λ p. Held p (n ∷ xs)) (sym (find_addr_miss test n xs miss))
        (Held-cons _ n xs (find_addr-Held test xs))
]

client_at_self : (n : Node) (xs : Roster) → client_at n.addr (n ∷ xs) ≡ some n.cdata
unfolding client_at
client_at_self n xs = ground arith

client_at-tail :
    (p : Ptr) (n : Node) (xs : Roster)
    → p ≢ null
    → Held p xs
    → has n.addr xs ≡ false
    → client_at p (n ∷ xs) ≡ client_at p xs
unfolding client_at
client_at-tail p n xs ne (inl nil) out = absurd (ne nil)
client_at-tail p n xs ne (inr i) out = let apart : n.addr ≢ p = ne_of_has xs i out in ground arith

-- The client that the search finds passes the test.
pub find_addr-client_at :
    (test : ClientData → Bool) (xs : Roster)
    → Distinct xs
    → find_addr test xs ≢ null
    → (c : ClientData) × (client_at (find_addr test xs) xs ≡ some c) × (test c ≡ true)
find_addr-client_at test [] d ne = absurd (ne (unfold find_addr in refl))
find_addr-client_at test (n ∷ xs) d ne = elim (Bool-cases (test n.cdata)) [
  | inl hit ↦ (n.cdata, rw (find_addr_hit test n xs hit) (client_at_self n xs), hit)
  | inr miss ↦
      let same = find_addr_miss test n xs miss in
      let ne' : find_addr test xs ≢ null = λ z. ne (same ∙ z) in
      let (c, at, good) = find_addr-client_at test xs d.1 ne' in
      (
        c,
        ap (λ p. client_at p (n ∷ xs)) same
            ∙ client_at-tail _ n xs ne' (find_addr-Held test xs) d.0
            ∙ at,
        good,
      )
]
