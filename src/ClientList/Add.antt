-- ===== src/ClientList/Add.antt =====
-- `add_client` against the roster.
use virtual_blackboard.Prelude.{
  ℕ, ◌≡◌, ◌≢◌, ◌∙◌, refl, sym, Bool, true, false, inl, inr, some, [], ◌∷◌, ◌++◌, length-append,
  ◌==◌, if◌then◌else◌, ok, arith,
}
use virtual_blackboard.ClientList.{
  ClientList, docent, set_next, lock_clientlist, unlock_clientlist, settle, link_last, give_role,
  add_client,
}
use virtual_blackboard.ClientList.Seg.{
  Ptr, null, Entry, ClientData, update, Node, Roster, has, head_or, Seg, Distinct, Seg-join,
  Distinct-join, frame_write, has-append, head_or-append, last_or-append, ne_of_has,
}
use virtual_blackboard.ClientList.Relink.{retarget_next}
use virtual_blackboard.ClientList.Represents.{Held, Represents, Represents-locked}
use virtual_blackboard.ClientList.Lookup.{load_lem}

abbrev pub node : Ptr → ClientData → Node
node p c = record { addr = p; cdata = c }

pub set_next_lem :
    (s : ClientList) (p q : Ptr) (e : Entry)
    → p ≢ null
    → s.cell p ≡ some e
    → set_next p q s ≡ ok (record s { cell = update s.cell p (some (record e { next = q })) })
unfolding set_next
set_next_lem s p q e ne at = rw (load_lem s.cell p e ne at)

-- The state after the first write: the old entries lead to the new one.
record Linked (fresh : Ptr) (s t : ClientList) (xs : Roster) : Type 0 where
  chain : Seg t.cell null xs fresh
  first : t.cl_first ≡ head_or fresh xs
  last : t.cl_last ≡ s.cl_last
  docent_is : t.user_docent ≡ s.user_docent
  write_is : t.user_write ≡ s.user_write
  counter : t.client_counter ≡ s.client_counter

link_last-Linked :
    (fresh : Ptr) (s : ClientList) (xs : Roster)
    → Represents s xs
    → (t : ClientList) × (link_last fresh s ≡ ok t) × Linked fresh s t xs
unfolding link_last
link_last-Linked fresh s [] r = (
  record s { cl_first = fresh },
  ground (arith, r.first),
  record {
    chain = tt;
    first = refl;
    last = refl;
    docent_is = refl;
    write_is = refl;
    counter = refl;
  },
)
link_last-Linked fresh s (n ∷ xs) r =
    let new = retarget_next s.cell null null fresh s.cl_last n xs r.last r.distinct r.linked in
    let full : (s.cl_first == null) ≡ false = ground (arith, r.first, r.linked.0) in
    (
      record s { cell = update s.cell s.cl_last (some (record (new.last) { next = fresh })) },
      rw full (set_next_lem s s.cl_last fresh new.last new.not_null new.there),
      record {
        chain = new.linked;
        first = r.first;
        last = refl;
        docent_is = refl;
        write_is = refl;
        counter = refl;
      },
    )

-- What an insertion leaves behind.
pub record Added (fresh : Ptr) (c : ClientData) (s t : ClientList) (xs : Roster) : Type 0 where
  pub represents : Represents t (xs ++ node fresh c ∷ [])
  pub docent_is : t.user_docent ≡ (if c.role == docent then fresh else s.user_docent)
  pub write_is : t.user_write ≡ (if c.role == docent then fresh else s.user_write)
  pub unlocked : t.locked ≡ false

Held-append : (p : Ptr) (xs ys : Roster) → Held p xs → Held p (xs ++ ys)
Held-append p xs ys (inl nil) = inl nil
Held-append p xs ys (inr i) = inr (ground (arith, has-append p xs ys))

Held-new : (p : Ptr) (c : ClientData) (xs : Roster) → Held p (xs ++ node p c ∷ [])
Held-new p c xs = inr (ground (arith, has-append p xs (node p c ∷ [])))

Distinct-add :
    (fresh : Ptr) (c : ClientData) (xs : Roster)
    → Distinct xs
    → has fresh xs ≡ false
    → Distinct (xs ++ node fresh c ∷ [])
Distinct-add fresh c xs d out =
    Distinct-join xs (node fresh c ∷ []) d (refl, tt)
      λ a i. let ne = ne_of_has xs i out in ground arith

give_role_lem :
    (fresh role : ℕ) (s : ClientList)
    → give_role fresh role s ≡ record s {
      user_docent = if role == docent then fresh else s.user_docent;
      user_write = if role == docent then fresh else s.user_write;
    }
unfolding give_role
give_role_lem fresh role s = ground arith

Held-given :
    (fresh p : Ptr) (c : ClientData) (b : Bool) (xs : Roster)
    → Held p xs
    → Held (if b then fresh else p) (xs ++ node fresh c ∷ [])
Held-given fresh p c true xs h = Held-new fresh c xs
Held-given fresh p c false xs h = Held-append p xs (node fresh c ∷ []) h

settle-Added :
    (fresh : Ptr) (c : ClientData) (s t : ClientList) (xs : Roster)
    → fresh ≢ null
    → has fresh xs ≡ false
    → Represents s xs
    → Linked fresh s t xs
    → Added fresh c s (settle fresh c t) xs
unfolding settle unlock_clientlist
settle-Added fresh c s t xs ne out r l = rw (give_role_lem fresh c.role) (record {
  represents = record {
    linked =
        Seg-join xs (node fresh c ∷ []) _ null null
          (frame_write xs t.cell fresh null fresh _ out l.chain)
          (ne, ground (arith, l.last, r.last), tt);
    distinct = Distinct-add fresh c xs r.distinct out;
    first = l.first ∙ sym (head_or-append xs (node fresh c ∷ []) null);
    last = sym (last_or-append xs (node fresh c ∷ []) null);
    counted = omega (arith, l.counter, r.counted, length-append xs (node fresh c ∷ []));
    docent_held =
        rw l.docent_is (Held-given fresh s.user_docent c (c.role == docent) xs r.docent_held);
    write_held = rw l.write_is (Held-given fresh s.user_write c (c.role == docent) xs r.write_held);
  };
  docent_is = rw l.docent_is;
  write_is = rw l.write_is;
  unlocked = refl;
})

-- `add_client` returns for every address that `malloc` may give. The list then stands for the
-- old clients and the new one behind them; a docent gets both pointers, any other role none.
pub add_client-Added :
    (fresh : Ptr) (c : ClientData) (s : ClientList) (xs : Roster)
    → fresh ≢ null
    → has fresh xs ≡ false
    → Represents s xs
    → s.locked ≡ false
    → (t : ClientList) × (add_client fresh c s ≡ ok t) × Added fresh c s t xs
unfolding add_client lock_clientlist
add_client-Added fresh c s xs ne out r free =
    let held = record s { locked = true } in
    let r' = Represents-locked s xs true r in
    let (t, run, l) = link_last-Linked fresh held xs r' in
    let at : (fresh == null) ≡ false = ground arith in
    let a = settle-Added fresh c held t xs ne out r' l in
    (
      settle fresh c t,
      rw (at, free, run),
      record {
        represents = a.represents;
        docent_is = a.docent_is;
        write_is = a.write_is;
        unlocked = a.unlocked;
      },
    )
