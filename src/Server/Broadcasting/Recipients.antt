-- ===== src/Server/Broadcasting/Recipients.antt =====
-- Who gets a broadcast.
use mathlib.Core.Path.{fun_ext}
use virtual_blackboard.Prelude.{
  ℕ, zero, suc, ◌+◌, ◌<◌, ◌≡◌, ◌≢◌, ◌∙◌, refl, sym, subst, ap, Bool, true, false, not, some, List,
  [], ◌∷◌, ◌&&◌, ◌||◌, take, length, ◌==◌, if◌then◌else◌, Bool-cases, inl, inr, ok, Returns,
  returns, Returns-mono, arith,
}
use virtual_blackboard.ClientList.{
  ClientList, load, max_entries, start_iteration, iteration_next, end_iteration, unlock_clientlist,
  docent_exists, tutor_exists,
}
use virtual_blackboard.ClientList.Seg.{Ptr, null, Entry, entry, ClientData, Roster, head_or, Seg}
use virtual_blackboard.ClientList.Represents.{lock_lem}
use virtual_blackboard.ClientList.Lookup.{load_lem}
use virtual_blackboard.Net.Strings.{strlen}
use virtual_blackboard.Net.Build.{build_board}
use virtual_blackboard.Server.World.{World, send, log_message, lock_bsem, unlock_bsem, with_clients}
use virtual_blackboard.Server.Invariant.{Shape, Inv, Shape-few, strlen-has_nul}
use virtual_blackboard.Server.Broadcasting.{
  deliver, broadcast_step, broadcast_loop, user_counts, status_message, broadcast_status,
  broadcast_blackboard,
}
use virtual_blackboard.Server.Broadcasting.Numbers.{status_bytes, status_message-bytes}

-- What a broadcast adds to the sent messages: one for each client of the roster, in order, except
-- for those that are skipped or whose socket takes no data.
unfoldable pub delivered :
    (message : Ptr → ClientData → List ℕ × ℕ)
    → (skip : Ptr → Bool) → (sends : ℕ → Bool) → Roster
    → List (ℕ × List ℕ)
    → List (ℕ × List ℕ)
delivered message skip sends [] sent = sent
delivered message skip sends (n ∷ xs) sent = delivered message skip sends xs (
    if skip n.addr || not (sends n.cdata.sfd)
    then sent
    else (n.cdata.sfd, take (message n.addr n.cdata).1 (message n.addr n.cdata).0) ∷ sent)

iteration_next_lem :
    (s : ClientList) (p : Ptr) (e : Entry)
    → s.iterator ≡ p
    → p ≢ null
    → s.cell p ≡ some e
    → iteration_next s ≡ ok (record s { iterator = e.next }, e.next)
unfolding iteration_next
iteration_next_lem s p e it ne at =
    let got : load s.cell s.iterator ≡ ok e = ap (load s.cell) it ∙ load_lem s.cell p e ne at in
    rw got

module _ (message : Ptr → ClientData → List ℕ × ℕ) (skip : Ptr → Bool) where
  abbrev one : (sends : ℕ → Bool) → Ptr → ClientData → List (ℕ × List ℕ) → List (ℕ × List ℕ)
  one sends p c sent =
      if skip p || not (sends c.sfd)
      then sent
      else (c.sfd, take (message p c).1 (message p c).0) ∷ sent

  broadcast_step_lem :
      (w : World) (p q : Ptr) (c : ClientData) (prev : Ptr)
      → p ≢ null
      → w.clients.cell p ≡ some (entry c q prev)
      → w.clients.iterator ≡ p
      → broadcast_step message skip p w
        ≡ ok (
          record w { clients = record w.clients { iterator = q }; sent = one w.sends p c w.sent },
          q,
        )
  unfolding broadcast_step deliver with_clients send
  broadcast_step_lem w p q c prev ne at it =
      let next = iteration_next_lem w.clients p (entry c q prev) it ne at in
      let got = load_lem w.clients.cell p (entry c q prev) ne at in
      elim (Bool-cases (skip p)) [
        | inl skipped ↦ rw (skipped, next)
        | inr wanted ↦
            rw (wanted, got)
              (elim (Bool-cases (w.sends c.sfd)) [
                | inl sent ↦ rw (sent, next)
                | inr lost ↦ rw (lost, next)
              ])
      ]

  -- The loop visits every client once.
  broadcast_loop-delivered :
      (fuel : ℕ) (w : World) (p : Ptr) (xs : Roster)
      → Seg w.clients.cell p xs null
      → w.clients.iterator ≡ head_or null xs
      → length xs < fuel
      → broadcast_loop fuel message skip (head_or null xs) w
        ≡ ok (record w {
          clients = record w.clients { iterator = null };
          sent = delivered message skip w.sends xs w.sent;
        })
  unfolding broadcast_loop delivered
  broadcast_loop-delivered zero w p xs s it f = absurd (omega arith)
  broadcast_loop-delivered (suc fuel) w p [] s it f =
      ap (λ i. ok (record w { clients = record w.clients { iterator = i } })) it
  broadcast_loop-delivered (suc fuel) w p (n ∷ xs) s it f =
      let at : (n.addr == null) ≡ false = ground (arith, s.0) in
      let step = broadcast_step_lem w n.addr _ n.cdata p s.0 s.1 it in
      rw (at, broadcast_loop, step)
        (broadcast_loop-delivered fuel _ n.addr xs s.2 refl (omega arith))

-- The list behind an iteration: the iterator is reset and the mutex released.
idle-Shape :
    (w : World) (xs : Roster)
    → Inv w xs
    → Shape
        (record w.clients { iterator = null; locked = false })
        w.cid_counter
        w.board
        w.bsem
        w.asem
        xs
idle-Shape w xs v = record {
  represents = record {
    linked = v.represents.linked;
    distinct = v.represents.distinct;
    first = v.represents.first;
    last = v.represents.last;
    counted = v.represents.counted;
    docent_held = v.represents.docent_held;
    write_held = v.represents.write_held;
  };
  unlocked = refl;
  granted = v.granted;
  few = v.few;
  counter = v.counter;
  is_board = v.is_board;
  bsem_free = v.bsem_free;
  asem_free = v.asem_free;
  named = v.named;
}

-- The walk of a broadcast from the start of the iteration.
walk :
    (message : Ptr → ClientData → List ℕ × ℕ) (skip : Ptr → Bool) (w : World) (xs : Roster)
    → Inv w xs
    → broadcast_loop max_entries message skip w.clients.cl_first
        (record w { clients = record w.clients { locked = true; iterator = w.clients.cl_first } })
      ≡ ok (record w {
        clients = record w.clients { locked = true; iterator = null };
        sent = delivered message skip w.sends xs w.sent;
      })
walk message skip w xs v =
    let start = record w {
      clients = record w.clients { locked = true; iterator = head_or null xs };
    } in
    subst
      (λ p.
        broadcast_loop max_entries message skip p
          (record w { clients = record w.clients { locked = true; iterator = p } })
        ≡ ok (record w {
          clients = record w.clients { locked = true; iterator = null };
          sent = delivered message skip w.sends xs w.sent;
        }))
      (sym v.represents.first)
      (broadcast_loop-delivered message skip max_entries start null xs v.represents.linked refl
        (Shape-few _ _ _ _ _ xs v))

start_iteration_lem :
    (s : ClientList)
    → s.locked ≡ false
    → start_iteration s ≡ ok (record s { locked = true; iterator = s.cl_first }, s.cl_first)
unfolding start_iteration
start_iteration_lem s free = rw (lock_lem s free)

-- A status broadcast makes its messages from the list of before.
broadcast_status-sent :
    (w : World) (xs : Roster)
    → Inv w xs
    → Returns
        (λ u.
          Inv u xs
          × (u.sent ≡ delivered (status_message w.clients) (λ _. false) w.sends xs w.sent)
          × (u.signalled ≡ w.signalled))
        (broadcast_status w)
unfolding broadcast_status status_message user_counts docent_exists tutor_exists with_clients
    log_message end_iteration unlock_clientlist
broadcast_status-sent w xs v =
    rw
      (
        start_iteration_lem w.clients v.unlocked,
        walk (status_message w.clients) (λ _. false) w xs v,
      )
      (returns (idle-Shape w xs v, refl, refl))

-- A status broadcast returns, keeps the invariant and sends every client of the list, in order, one
-- message: its own role, its own id, whether it has the write access, and the numbers of docents, of
-- tutors and of the other clients. A client whose socket does not take data is passed over. A trigger
-- that is pending stays so.
pub broadcast_status-delivered :
    (w : World) (xs : Roster)
    → Inv w xs
    → Returns
        (λ u.
          Inv u xs
          × (u.sent
              ≡ delivered
                  (λ p c. (status_bytes w.clients xs p c, 11))
                  (λ _. false)
                  w.sends
                  xs
                  w.sent)
          × (u.signalled ≡ w.signalled))
        (broadcast_status w)
broadcast_status-delivered w xs v =
    let few : length xs < 65536 = omega (arith, v.few, v.counter) in
    let made = fun_ext (λ p. fun_ext (status_message-bytes w.clients xs v.represents few p)) in
    Returns-mono (broadcast_status-sent w xs v) (λ u (inv, sent, pending).
      (inv, sent ∙ ap (λ m. delivered m (λ _. false) w.sends xs w.sent) made, pending))

-- A broadcast of the blackboard returns, keeps the invariant and sends the text of the board to
-- every client of the list, in order. With `excl_w` the client with write access is left out.
pub broadcast_blackboard-delivered :
    (w : World) (xs : Roster)
    → Inv w xs
    → (excl_w : Bool)
    → (n : ℕ) × (strlen w.board ≡ ok n)
      × Returns
          (λ u.
            Inv u xs
            × (u.sent
                ≡ delivered
                    (λ p c. (build_board w.board n, 3 + n))
                    (λ p. (p == w.clients.user_write) && excl_w)
                    w.sends
                    xs
                    w.sent))
          (broadcast_blackboard excl_w w)
unfolding broadcast_blackboard with_clients log_message end_iteration unlock_clientlist lock_bsem
    unlock_bsem
broadcast_blackboard-delivered w xs v excl_w =
    let (n, len, short) = strlen-has_nul w.board v.is_board.terminated in
    let free = subst (λ b. Shape w.clients w.cid_counter w.board b w.asem xs) v.bsem_free v in
    let message : Ptr → ClientData → List ℕ × ℕ = λ p c. (build_board w.board n, 3 + n) in
    let skip : Ptr → Bool = λ p. (p == w.clients.user_write) && excl_w in
    let walked = walk message skip (record w { bsem = 1 }) xs free in
    (
      n,
      len,
      rw (v.bsem_free, len, start_iteration_lem w.clients v.unlocked, walked)
          (returns (idle-Shape (record w { bsem = 1 }) xs free, refl)),
    )
