-- ===== src/ClientList/Relink.antt =====
-- What the two pointer writes of an insertion or a removal do to the segments.
use virtual_blackboard.Prelude.{◌≡◌, ◌≢◌, ◌∙◌, sym, subst, some, [], ◌∷◌, arith}
use virtual_blackboard.ClientList.Seg.{
  Ptr, null, Entry, entry, Cells, update, Node, Roster, head_or, last_or, Seg, Distinct,
  frame_write, has-last_or, ne_of_has, update_ne,
}

-- The last entry of a segment, at `l`, and the segment after its `next` is set to `q`.
pub record Retargeted (h : Cells) (p q l : Ptr) (xs : Roster) : Type 0 where
  pub last : Entry
  pub there : h l ≡ some last
  pub not_null : l ≢ null
  pub linked : Seg (update h l (some (record last { next = q }))) p xs q

retarget_last :
    (h : Cells) (p e q : Ptr) (n : Node) (xs : Roster)
    → Distinct (n ∷ xs)
    → Seg h p (n ∷ xs) e
    → Retargeted h p q (last_or n.addr xs) (n ∷ xs)
retarget_last h p e q n [] d s = record {
  last = entry n.cdata e p;
  there = s.1;
  not_null = s.0;
  linked = (s.0, ground arith, tt);
}
retarget_last h p e q n (m ∷ xs) d s =
    let rest = retarget_last h n.addr e q m xs d.1 s.2 in
    record {
      last = rest.last;
      there = rest.there;
      not_null = rest.not_null;
      linked = (
        s.0,
        update_ne h (last_or m.addr xs) n.addr _ (ne_of_has (m ∷ xs) (has-last_or m xs) d.0) ∙ s.1,
        rest.linked,
      );
    }

pub retarget_next :
    (h : Cells) (p e q l : Ptr) (n : Node) (xs : Roster)
    → l ≡ last_or n.addr xs
    → Distinct (n ∷ xs)
    → Seg h p (n ∷ xs) e
    → Retargeted h p q l (n ∷ xs)
retarget_next h p e q l n xs eq d s =
    subst (λ a. Retargeted h p q a (n ∷ xs)) (sym eq) (retarget_last h p e q n xs d s)

pub retarget_previous :
    (h : Cells) (p e q : Ptr) (n : Node) (xs : Roster)
    → Distinct (n ∷ xs)
    → Seg h p (n ∷ xs) e
    → Seg (update h n.addr (some (entry n.cdata (head_or e xs) q))) q (n ∷ xs) e
retarget_previous h p e q n xs d s = (s.0, ground arith, frame_write xs h n.addr n.addr e _ d.0 s.2)
