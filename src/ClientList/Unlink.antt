-- ===== src/ClientList/Unlink.antt =====
-- The statements of `remove_client` behind its search.
use virtual_blackboard.Prelude.{
  ◌+◌, ◌-◌, ◌%◌, ◌^◌, ◌≡◌, ◌≢◌, ◌∙◌, refl, sym, subst, true, false, inl, inr, none, some, [], ◌∷◌,
  ◌++◌, length-append, ◌==◌, if◌then◌else◌, Bool-cases, ok, arith,
}
use virtual_blackboard.ClientList.{
  ClientList, load, set_previous, unlock_clientlist, unlink_next, unlink_previous, drop_write,
  drop_docent, unlink,
}
use virtual_blackboard.ClientList.Seg.{
  Ptr, null, Entry, entry, Cells, update, Node, Roster, has, head_or, last_or, Seg, Distinct,
  Seg-split, Seg-join, Distinct-split, Distinct-join, frame, frame_write, has-append,
  head_or-append, last_or-append, ne_of_has, update_ne, has-last_or,
}
use virtual_blackboard.ClientList.Relink.{retarget_next, retarget_previous}
use virtual_blackboard.ClientList.Represents.{Held, Represents}
use virtual_blackboard.ClientList.Lookup.{load_lem}
use virtual_blackboard.ClientList.Add.{set_next_lem}

-- After the first relinking statement, for the clients `ys` before the removed one.
record Left (old : Entry) (s t : ClientList) (ys : Roster) : Type 0 where
  chain : Seg t.cell null ys old.next
  outside : (a : Ptr) → has a ys ≡ false → t.cell a ≡ s.cell a
  first : t.cl_first ≡ head_or old.next ys
  last : t.cl_last ≡ s.cl_last
  docent_is : t.user_docent ≡ s.user_docent
  write_is : t.user_write ≡ s.user_write
  counter : t.client_counter ≡ s.client_counter

update-outside :
    (h : Cells) (l : Ptr) (v : Entry) (xs : Roster)
    → has l xs ≡ true
    → (a : Ptr) → has a xs ≡ false
    → update h l (some v) a ≡ h a
update-outside h l v xs i a out = update_ne h l a (some v) (ne_of_has xs i out)

unlink_next-Left :
    (old : Entry) (e : Ptr) (s : ClientList) (ys : Roster)
    → old.previous ≡ last_or null ys
    → s.cl_first ≡ head_or e ys
    → Distinct ys
    → Seg s.cell null ys e
    → (t : ClientList) × (unlink_next old s ≡ ok t) × Left old s t ys
unfolding unlink_next
unlink_next-Left old e s [] prev first d c = (
  record s { cl_first = old.next },
  ground arith,
  record {
    chain = tt;
    outside = λ a i. refl;
    first = refl;
    last = refl;
    docent_is = refl;
    write_is = refl;
    counter = refl;
  },
)
unlink_next-Left old e s (y ∷ ys) prev first d c =
    let new = retarget_next s.cell null e old.next old.previous y ys prev d c in
    let full : (old.previous == null) ≡ false = ground (arith, new.not_null) in
    let i : has old.previous (y ∷ ys) ≡ true =
      subst (λ a. has a (y ∷ ys) ≡ true) (sym prev) (has-last_or y ys) in
    (
      record s { cell = update s.cell old.previous (some (record (new.last) { next = old.next })) },
      rw full (set_next_lem s old.previous old.next new.last new.not_null new.there),
      record {
        chain = new.linked;
        outside = update-outside s.cell old.previous _ (y ∷ ys) i;
        first = first;
        last = refl;
        docent_is = refl;
        write_is = refl;
        counter = refl;
      },
    )

-- After the second one, for the clients `zs` behind the removed one.
record Right (old : Entry) (s t : ClientList) (zs : Roster) : Type 0 where
  chain : Seg t.cell old.previous zs null
  outside : (a : Ptr) → has a zs ≡ false → t.cell a ≡ s.cell a
  last : t.cl_last ≡ last_or old.previous zs
  first : t.cl_first ≡ s.cl_first
  docent_is : t.user_docent ≡ s.user_docent
  write_is : t.user_write ≡ s.user_write
  counter : t.client_counter ≡ s.client_counter

set_previous_lem :
    (s : ClientList) (p q : Ptr) (e : Entry)
    → p ≢ null
    → s.cell p ≡ some e
    → set_previous p q s
      ≡ ok (record s { cell = update s.cell p (some (record e { previous = q })) })
unfolding set_previous
set_previous_lem s p q e ne at = rw (load_lem s.cell p e ne at)

unlink_previous-Right :
    (old : Entry) (p : Ptr) (s : ClientList) (zs : Roster)
    → old.next ≡ head_or null zs
    → s.cl_last ≡ last_or p zs
    → Distinct zs
    → Seg s.cell p zs null
    → (t : ClientList) × (unlink_previous old s ≡ ok t) × Right old s t zs
unfolding unlink_previous
unlink_previous-Right old p s [] next last d c = (
  record s { cl_last = old.previous },
  ground arith,
  record {
    chain = tt;
    outside = λ a i. refl;
    last = refl;
    first = refl;
    docent_is = refl;
    write_is = refl;
    counter = refl;
  },
)
unlink_previous-Right old p s (z ∷ zs) next last d c =
    let full : (old.next == null) ≡ false = ground (arith, c.0) in
    let new = entry z.cdata (head_or null zs) old.previous in
    (
      record s { cell = update s.cell z.addr (some new) },
      rw (full, next) (set_previous_lem s z.addr old.previous _ c.0 c.1),
      record {
        chain = retarget_previous s.cell p null old.previous z zs d c;
        outside = update-outside s.cell z.addr new (z ∷ zs) (ground arith);
        last = last;
        first = refl;
        docent_is = refl;
        write_is = refl;
        counter = refl;
      },
    )

-- A pointer that is not on the removed entry keeps its client.
Held-left :
    (p : Ptr) (ys zs : Roster) (n : Node) → p ≢ n.addr → Held p (ys ++ n ∷ zs) → Held p (ys ++ zs)
Held-left p ys zs n ne (inl nil) = inl nil
Held-left p ys zs n ne (inr i) = inr (ground (arith, has-append p ys (n ∷ zs), has-append p ys zs))

-- What a removal leaves behind.
pub record Removed (p : Ptr) (s t : ClientList) (xs : Roster) : Type 0 where
  pub represents : Represents t xs
  pub docent_is : t.user_docent ≡ (if p == s.user_docent then null else s.user_docent)
  pub write_is : t.user_write ≡ (
      if p == s.user_write
      then if p == s.user_docent then null else s.user_docent
      else s.user_write)
  pub unlocked : t.locked ≡ false
  pub freed : t.cell p ≡ none

drop_lem :
    (p : Ptr) (s : ClientList)
    → drop_docent p (drop_write p s) ≡ record s {
      user_docent = if p == s.user_docent then null else s.user_docent;
      user_write =
          if p == s.user_write
          then if p == s.user_docent then null else s.user_docent
          else s.user_write;
    }
unfolding drop_docent drop_write
drop_lem p s = ground arith

-- The final state of `unlink`, behind the two relinking statements.
release : Ptr → ClientList → ClientList
release p s = record s {
  cell = update s.cell p none;
  user_docent = if p == s.user_docent then null else s.user_docent;
  user_write =
      if p == s.user_write
      then if p == s.user_docent then null else s.user_docent
      else s.user_write;
  client_counter = (s.client_counter + 2 ^ 32 - 1) % 2 ^ 32;
  locked = false;
}

unlink_run :
    (s t u : ClientList) (p : Ptr) (old : Entry)
    → load s.cell p ≡ ok old
    → unlink_next old s ≡ ok t
    → unlink_previous old t ≡ ok u
    → unlink p s ≡ ok (release p u, 0)
unfolding unlink release unlock_clientlist
unlink_run s t u p old e f g = rw (e, f, g, drop_lem p u)

-- The neighbours of the removed client are linked to each other.
record Bridged (n : Node) (old : Entry) (s u : ClientList) (ys zs : Roster) : Type 0 where
  front : Seg u.cell null ys (head_or null zs)
  back : Seg u.cell (last_or null ys) zs null
  first : u.cl_first ≡ head_or null (ys ++ zs)
  last : u.cl_last ≡ last_or null (ys ++ zs)
  docent_is : u.user_docent ≡ s.user_docent
  write_is : u.user_write ≡ s.user_write
  counter : u.client_counter ≡ s.client_counter

outside_front :
    (a : Ptr) (ys zs : Roster) (n : Node)
    → (has a ys ≡ true → has a (n ∷ zs) ≡ false)
    → has a zs ≡ true
    → has a ys ≡ false
outside_front a ys zs n apart i = elim (Bool-cases (has a ys)) [
  | inl front ↦ let out = apart front in absurd (ground arith)
  | inr out ↦ out
]

bridge :
    (s : ClientList) (ys zs : Roster) (n : Node)
    → Represents s (ys ++ n ∷ zs)
    → let old = entry n.cdata (head_or null zs) (last_or null ys) in
      (u : ClientList) × (unlink n.addr s ≡ ok (release n.addr u, 0)) × Bridged n old s u ys zs
bridge s ys zs n r =
    let old = entry n.cdata (head_or null zs) (last_or null ys) in
    let (dy, dn, apart) = Distinct-split ys (n ∷ zs) r.distinct in
    let (cy, cn) = Seg-split ys (n ∷ zs) s.cell null null r.linked in
    let (t, run, l) =
      unlink_next-Left old n.addr s ys refl (r.first ∙ head_or-append ys (n ∷ zs) null) dy cy in
    let cz = frame zs n.addr null (λ a i. l.outside a (outside_front a ys zs n (apart a) i)) cn.2 in
    let (u, run', q) =
      unlink_previous-Right old n.addr t zs refl (l.last ∙ r.last ∙ last_or-append ys (n ∷ zs) null)
        dn.1 cz in
    (
      u,
      unlink_run s t u n.addr old (load_lem s.cell n.addr old cn.0 cn.1) run run',
      record {
        front =
            frame ys null (head_or null zs) (λ a i. q.outside a (ground (arith, apart a))) l.chain;
        back = q.chain;
        first = q.first ∙ l.first ∙ sym (head_or-append ys zs null);
        last = q.last ∙ sym (last_or-append ys zs null);
        docent_is = q.docent_is ∙ l.docent_is;
        write_is = q.write_is ∙ l.write_is;
        counter = q.counter ∙ l.counter;
      },
    )

Held-docent :
    (p d : Ptr) (ys zs : Roster) (n : Node)
    → p ≡ n.addr
    → Held d (ys ++ n ∷ zs)
    → Held (if p == d then null else d) (ys ++ zs)
Held-docent p d ys zs n eq h = elim (Bool-cases (p == d)) [
  | inl hit ↦ rw hit (inl refl)
  | inr miss ↦ rw miss (Held-left d ys zs n (ground arith) h)
]

Held-write :
    (p d w : Ptr) (ys zs : Roster) (n : Node)
    → p ≡ n.addr
    → Held d (ys ++ n ∷ zs)
    → Held w (ys ++ n ∷ zs)
    → Held (if p == w then if p == d then null else d else w) (ys ++ zs)
Held-write p d w ys zs n eq h k = elim (Bool-cases (p == w)) [
  | inl hit ↦ rw hit (Held-docent p d ys zs n eq h)
  | inr miss ↦ rw miss (Held-left w ys zs n (ground arith) k)
]

-- Unlinking a client of the list returns 0 and leaves a list of the others.
pub unlink-Removed :
    (s : ClientList) (ys zs : Roster) (n : Node)
    → Represents s (ys ++ n ∷ zs)
    → (t : ClientList) × (unlink n.addr s ≡ ok (t, 0)) × Removed n.addr s t (ys ++ zs)
unfolding release
unlink-Removed s ys zs n r =
    let (u, run, b) = bridge s ys zs n r in
    let (dy, dn, apart) = Distinct-split ys (n ∷ zs) r.distinct in
    let out : has n.addr ys ≡ false = elim (Bool-cases (has n.addr ys)) [
      | inl i ↦ absurd (ground (arith, apart n.addr))
      | inr o ↦ o
    ] in
    (
      release n.addr u,
      run,
      record {
        represents = record {
          linked =
              Seg-join ys zs _ null null
                (frame_write ys u.cell n.addr null (head_or null zs) none out b.front)
                (frame_write zs u.cell n.addr (last_or null ys) null none dn.0 b.back);
          distinct = Distinct-join ys zs dy dn.1 (λ a i. ground (arith, apart a));
          first = b.first;
          last = b.last;
          counted =
              omega (arith, b.counter, r.counted, length-append ys (n ∷ zs), length-append ys zs);
          docent_held =
              rw b.docent_is (Held-docent n.addr s.user_docent ys zs n refl r.docent_held);
          write_held =
              rw (b.docent_is, b.write_is)
                (Held-write n.addr s.user_docent s.user_write ys zs n refl r.docent_held
                  r.write_held);
        };
        docent_is = rw b.docent_is;
        write_is = rw (b.docent_is, b.write_is);
        unlocked = refl;
        freed = ground arith;
      },
    )
