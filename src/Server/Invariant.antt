-- ===== src/Server/Invariant.antt =====
-- The invariant of the server's shared state between two handler calls.
use virtual_blackboard.Prelude.{
  ℕ, suc, ◌≤◌, ◌<◌, ◌≡◌, ◌≢◌, refl, Bool, true, false, ◌||◌, some, List, [], ◌∷◌, ◌++◌, length,
  ◌==◌, Bool-cases, Outcome, ok, Returns, inl, inr, arith,
}
use virtual_blackboard.ClientList.{ClientList, max_entries}
use virtual_blackboard.ClientList.Seg.{Ptr, null, ClientData, Roster, has}
use virtual_blackboard.ClientList.Represents.{
  Held, Represents, IsGranted, Represents-locked, Represents-write,
}
use virtual_blackboard.ClientList.Lookup.{client_at}
use virtual_blackboard.Net.Strings.{strlen}
use virtual_blackboard.Server.World.{World, Code}

-- Some byte of the memory is NUL.
abbrev pub has_nul : List ℕ → Bool
has_nul [] = false
has_nul (c ∷ cs) = (c == 0) || has_nul cs

pub has_nul-append : (xs ys : List ℕ) → has_nul ys ≡ true → has_nul (xs ++ ys) ≡ true
has_nul-append [] ys h = h
has_nul-append (x ∷ xs) ys h = ground (arith, has_nul-append xs ys h)

-- `strlen` stays inside memory that holds a NUL.
pub strlen-has_nul :
    (cs : List ℕ) → has_nul cs ≡ true → (n : ℕ) × (strlen cs ≡ ok n) × (n < length cs)
unfolding strlen
strlen-has_nul [] h = absurd (ground arith)
strlen-has_nul (c ∷ cs) h = elim (Bool-cases (c == 0)) [
  | inl hit ↦ (0, ground arith, omega arith)
  | inr miss ↦
      let (n, run, short) = strlen-has_nul cs (ground arith) in (suc n, ground arith, omega arith)
]

-- The segment has its size and holds a string.
pub record IsBoard (b : List ℕ) : Type 0 where
  pub size : length b ≡ 1200
  pub terminated : has_nul b ≡ true

-- Every client's name is a string.
abbrev pub Named : Roster → Type 0
Named [] = Unit {0}
Named (n ∷ xs) = (has_nul n.cdata.name ≡ true) × Named xs

-- The invariant, over the parts of the state that it speaks of.
pub record Shape (s : ClientList) (cid_counter : ℕ) (board : List ℕ) (bsem asem : ℕ) (xs : Roster)
    : Type 0 where
  pub represents : Represents s xs
  pub unlocked : s.locked ≡ false
  pub granted : IsGranted s
  pub few : length xs ≤ cid_counter
  pub counter : cid_counter < 65536
  pub is_board : IsBoard board
  pub bsem_free : bsem ≡ 1
  pub asem_free : asem ≡ 1
  pub named : Named xs

-- The client list stands for `xs` with its mutex free, an id was handed out for every client, the
-- blackboard holds a string and both semaphores are free.
abbrev pub Inv : World → Roster → Type 0
Inv w xs = Shape w.clients w.cid_counter w.board w.bsem w.asem xs

-- The list stands for some clients, and the invariant holds.
abbrev pub Sound : World → Type 0
Sound w = (xs : Roster) × Inv w xs

-- The write access goes to a client of the list, or to nobody if there is no docent.
pub Shape-write :
    (s : ClientList) (k : ℕ) (b : List ℕ) (i j : ℕ) (xs : Roster) (p : Ptr)
    → Held p xs
    → (s.user_docent ≢ null → p ≢ null)
    → Shape s k b i j xs
    → Shape (record s { user_write = p; locked = false }) k b i j xs
Shape-write s k b i j xs p h g v = record {
  represents = Represents-locked _ xs false (Represents-write s xs p h v.represents);
  unlocked = refl;
  granted = g;
  few = v.few;
  counter = v.counter;
  is_board = v.is_board;
  bsem_free = v.bsem_free;
  asem_free = v.asem_free;
  named = v.named;
}

-- The fuel of the walks is enough for every list that satisfies the invariant.
pub Shape-few :
    (s : ClientList) (k : ℕ) (b : List ℕ) (i j : ℕ) (xs : Roster)
    → Shape s k b i j xs
    → length xs < max_entries
unfolding max_entries
Shape-few s k b i j xs v = omega (arith, v.few, v.counter)

pub client_at-Named :
    (p : Ptr) (c : ClientData) (xs : Roster)
    → Named xs
    → client_at p xs ≡ some c
    → has_nul c.name ≡ true
unfolding client_at
client_at-Named p c [] v e = absurd (ground arith)
client_at-Named p c (n ∷ xs) v e = elim (Bool-cases (p == n.addr)) [
  | inl hit ↦ ground (arith, v.0)
  | inr miss ↦ client_at-Named p c xs v.1 (ground arith)
]

-- The handler returns, the invariant holds after it, `p` has the write access and the docent is
-- the same.
abbrev pub Gives : Ptr → World → Roster → Outcome (World × Code) → Type 0
Gives p w xs = Returns λ r.
    Inv r.0 xs × (r.0.clients.user_write ≡ p) × (r.0.clients.user_docent ≡ w.clients.user_docent)

pub member : (p : Ptr) (xs : Roster) → p ≢ null → Held p xs → has p xs ≡ true
member p xs ne (inl nil) = absurd (ne nil)
member p xs ne (inr i) = i
