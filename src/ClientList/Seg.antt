-- ===== src/ClientList/Seg.antt =====
-- The heap of list entries, and the doubly linked segments in it.
use virtual_blackboard.Prelude.{
  ℕ, ◌≡◌, ◌≢◌, refl, sym, Bool, true, false, ◌||◌, Option, some, List, [], ◌∷◌, ◌++◌, ◌==◌,
  if◌then◌else◌, arith,
}

abbrev pub Ptr : Type 0
Ptr = ℕ

abbrev pub null : Ptr
null = 0

-- `struct client_data`. `name` is the memory from the field `name` to the end of the allocation.
pub record ClientData : Type 0 where
  pub cid : ℕ
  pub sfd : ℕ
  pub role : ℕ
  pub name : List ℕ

-- `struct cl_entry`.
pub record Entry : Type 0 where
  pub cdata : ClientData
  pub next : Ptr
  pub previous : Ptr

abbrev pub entry : ClientData → Ptr → Ptr → Entry
entry c n p = record { cdata = c; next = n; previous = p }

-- The allocated entries.
abbrev pub Cells : Type 0
Cells = Ptr → Option Entry

abbrev pub update : Cells → Ptr → Option Entry → Cells
update h a v = λ p. if p == a then v else h p

-- What the list stands for: the clients in order, each with the address of its entry.
pub record Node : Type 0 where
  pub addr : Ptr
  pub cdata : ClientData

abbrev pub Roster : Type 0
Roster = List Node

abbrev pub has : Ptr → Roster → Bool
has a [] = false
has a (n ∷ xs) = (a == n.addr) || has a xs

abbrev pub head_or : Ptr → Roster → Ptr
head_or d [] = d
head_or d (n ∷ xs) = n.addr

abbrev pub last_or : Ptr → Roster → Ptr
last_or d [] = d
last_or d (n ∷ xs) = last_or n.addr xs

-- The clients `xs` are linked in order: the first one's `previous` is `p`, the last one's `next`
-- is `e`.
abbrev pub Seg : Cells → Ptr → Roster → Ptr → Type 0
Seg h p [] e = Unit {0}
Seg h p (n ∷ xs) e =
    (n.addr ≢ null) × (h n.addr ≡ some (entry n.cdata (head_or e xs) p)) × Seg h n.addr xs e

abbrev pub Distinct : Roster → Type 0
Distinct [] = Unit {0}
Distinct (n ∷ xs) = (has n.addr xs ≡ false) × Distinct xs

-- `g` agrees with `h` at the addresses of `xs`.
abbrev pub Same : Roster → Cells → Cells → Type 0
Same xs h g = (a : Ptr) → has a xs ≡ true → g a ≡ h a

pub frame : (xs : Roster) {h g : Cells} (p e : Ptr) → Same xs h g → Seg h p xs e → Seg g p xs e
frame [] p e same s = tt
frame (n ∷ xs) p e same s =
    (s.0, ground (arith, same n.addr), frame xs n.addr e (λ a i. same a (ground arith)) s.2)

pub head_or-append : (ys zs : Roster) (e : Ptr) → head_or e (ys ++ zs) ≡ head_or (head_or e zs) ys
head_or-append [] zs e = refl
head_or-append (n ∷ ys) zs e = refl

pub last_or-append : (ys zs : Roster) (d : Ptr) → last_or d (ys ++ zs) ≡ last_or (last_or d ys) zs
last_or-append [] zs d = refl
last_or-append (n ∷ ys) zs d = last_or-append ys zs n.addr

pub Seg-split :
    (ys zs : Roster) (h : Cells) (p e : Ptr)
    → Seg h p (ys ++ zs) e
    → Seg h p ys (head_or e zs) × Seg h (last_or p ys) zs e
Seg-split [] zs h p e s = (tt, s)
Seg-split (n ∷ ys) zs h p e s =
    let (front, back) = Seg-split ys zs h n.addr e s.2 in
    ((s.0, ground (arith, head_or-append ys zs e, s.1), front), back)

pub Seg-join :
    (ys zs : Roster) (h : Cells) (p e : Ptr)
    → Seg h p ys (head_or e zs)
    → Seg h (last_or p ys) zs e
    → Seg h p (ys ++ zs) e
Seg-join [] zs h p e s t = t
Seg-join (n ∷ ys) zs h p e s t =
    (s.0, ground (arith, head_or-append ys zs e, s.1), Seg-join ys zs h n.addr e s.2 t)

pub has-append : (a : Ptr) (ys zs : Roster) → has a (ys ++ zs) ≡ (has a ys || has a zs)
has-append a [] zs = refl
has-append a (n ∷ ys) zs = ground (arith, has-append a ys zs)

pub has-last_or : (n : Node) (xs : Roster) → has (last_or n.addr xs) (n ∷ xs) ≡ true
has-last_or n [] = ground arith
has-last_or n (m ∷ xs) = ground (arith, has-last_or m xs)

-- No address lies in both parts of a list without repetitions.
pub Distinct-split :
    (ys zs : Roster)
    → Distinct (ys ++ zs)
    → Distinct ys × Distinct zs × ((a : Ptr) → has a ys ≡ true → has a zs ≡ false)
Distinct-split [] zs d = (tt, d, λ a i. absurd (ground arith))
Distinct-split (n ∷ ys) zs d =
    let (front, back, apart) = Distinct-split ys zs d.1 in
    (
      (ground (arith, has-append n.addr ys zs, d.0), front),
      back,
      λ a i. ground (arith, has-append n.addr ys zs, d.0, apart a),
    )

pub Distinct-join :
    (ys zs : Roster)
    → Distinct ys
    → Distinct zs
    → ((a : Ptr) → has a ys ≡ true → has a zs ≡ false)
    → Distinct (ys ++ zs)
Distinct-join [] zs d d' apart = d'
Distinct-join (n ∷ ys) zs d d' apart = (
  ground (arith, has-append n.addr ys zs, d.0, apart n.addr),
  Distinct-join ys zs d.1 d' (λ a i. apart a (ground arith)),
)

pub ne_of_has : {a b : Ptr} (xs : Roster) → has a xs ≡ true → has b xs ≡ false → b ≢ a
ne_of_has xs h k e = cc

pub update_ne : (h : Cells) (a b : Ptr) (v : Option Entry) → b ≢ a → update h a v b ≡ h b
update_ne h a b v ne = ground arith

pub update_self : (h : Cells) (a : Ptr) (v : Option Entry) → update h a v a ≡ v
update_self h a v = ground arith

-- A write to an entry outside the segment leaves it linked.
pub frame_write :
    (xs : Roster) (h : Cells) (a p e : Ptr) (v : Option Entry)
    → has a xs ≡ false
    → Seg h p xs e
    → Seg (update h a v) p xs e
frame_write xs h a p e v out =
    frame xs p e (λ b i. update_ne h a b v (λ eq. ne_of_has xs i out (sym eq)))
