-- ===== src/Server/BoardHandler/Content.antt =====
-- What `board_handler` does to the blackboard and to the archive.
use virtual_blackboard.Prelude.{
  ℕ, zero, suc, ◌+◌, ◌-◌, ◌≤◌, ◌<◌, ◌≡◌, ◌≢◌, ◌∙◌, refl, sym, ap, subst, Bool, true, false, not,
  ◌⊎◌, inl, inr, List, [], ◌∷◌, ◌++◌, length, length-append, length-take, take, drop, ltb, ◌==◌,
  ◌||◌, if◌then◌else◌, Bool-cases, ok, Returns, returns, arith,
}
use virtual_blackboard.ClientList.Seg.{Roster}
use virtual_blackboard.Net.{m_board, m_clear}
use virtual_blackboard.Server.World.{
  World, Stream, Code, success, failed, positive, zero_bytes, negative, recv, fill, zeros, wipe,
  write_board, lock_bsem, unlock_bsem, log_message, trigger_broadcast, Broadcast,
}
use virtual_blackboard.Server.Invariant.{Shape, Inv, IsBoard, has_nul, has_nul-append}
use virtual_blackboard.Server.BoardHandler.{receive_board, finish, conclude, update_board}

-- At most 1199 bytes of a message are kept.
abbrev pub capped : ℕ → ℕ
capped length = if ltb 1199 length then 1199 else length

-- The memory of the blackboard after a message with `length` bytes of `content`.
unfoldable pub painted : (length : ℕ) → (content : List ℕ) → List ℕ
painted length content = take (capped length) content ++ zeros (1200 - capped length)

length-zeros : (n : ℕ) → length (zeros n) ≡ n
unfolding zeros
length-zeros zero = refl
length-zeros (suc n) = ap suc (length-zeros n)

drop-zeros : (n m : ℕ) → drop n (zeros m) ≡ zeros (m - n)
unfolding zeros
drop-zeros zero m = let e : m ≡ m - 0 = omega arith in ap zeros e
drop-zeros (suc n) zero = let e : 0 ≡ 0 - suc n = omega arith in ap zeros e
drop-zeros (suc n) (suc m) =
    let e : m - n ≡ suc m - suc n = omega arith in drop-zeros n m ∙ ap zeros e

has_nul-zeros : (n : ℕ) → has_nul (zeros (suc n)) ≡ true
unfolding zeros
has_nul-zeros n = refl

length-fill : (n : ℕ) (stale : ℕ → ℕ) (bs : List ℕ) → length (fill n stale bs) ≡ n
unfolding fill
length-fill zero stale bs = refl
length-fill (suc n) stale [] = ap suc (length-fill n stale [])
length-fill (suc n) stale (b ∷ bs) = ap suc (length-fill n stale bs)

-- The new memory has the segment's size, and its last byte is NUL.
pub painted-IsBoard : (n : ℕ) (content : List ℕ) → length content ≡ n → IsBoard (painted n content)
unfolding painted
painted-IsBoard n content size =
    let k = capped n in
    let cut : k ≤ n = ground arith in
    let small : k < 1200 = ground arith in
    record {
      size = omega (
        arith,
        length-append (take k content) (zeros (1200 - k)),
        length-take k content,
        length-zeros (1200 - k),
      );
      terminated =
          has_nul-append (take k content) (zeros (1200 - k))
            (let e : 1200 - k ≡ suc (1199 - k) = omega arith in rw e (has_nul-zeros (1199 - k)));
    }

write_board_lem :
    (content : List ℕ) (k : ℕ) (w : World)
    → write_board content k (wipe w) ≡ record w { board = take k content ++ zeros (1200 - k) }
unfolding write_board wipe
write_board_lem content k w = rw (drop-zeros k 1200)

-- What the operations on the board leave alone.
board_shape :
    (w : World) (xs : Roster) (b : List ℕ) → IsBoard b → Inv w xs → Inv (record w { board = b }) xs
board_shape w xs b is v = record {
  represents = v.represents;
  unlocked = v.unlocked;
  granted = v.granted;
  few = v.few;
  counter = v.counter;
  is_board = is;
  bsem_free = v.bsem_free;
  asem_free = v.asem_free;
  named = v.named;
}

-- The part of the message that the handler reads.
abbrev pub payload : (sfd length : ℕ) → World → List ℕ
payload sfd length w = fill length w.stale (w.streams sfd).bytes

-- The outcome of the update: the sign of `recv` decides, an empty message reads nothing.
unfoldable pub arrives : (length : ℕ) → Stream → Bool
arrives length s = (length == 0) || elim s.bytes [ b ∷ bs ↦ true | [] ↦ not s.broken ]

-- The state after the update, if the content has arrived or not.
abbrev pub UpdatedBy : Bool → (sfd n : ℕ) → World → Roster → World × Code → Type 0
UpdatedBy arrived sfd n w xs r =
    Inv r.0 xs
    × (r.0.clients ≡ w.clients)
    × (r.0.archive ≡ w.archive)
    × (r.0.board ≡ (if arrived then painted n (payload sfd n w) else zeros 1200))
    × (r.1 ≡ (if arrived then success else failed))

abbrev pub Updated : (sfd n : ℕ) → World → Roster → World × Code → Type 0
Updated sfd n w = UpdatedBy (arrives n (w.streams sfd)) sfd n w

painted_zero : (content : List ℕ) → painted 0 content ≡ zeros 1200
unfolding painted
painted_zero content = refl

finish_lem :
    (mtype : ℕ) (w : World)
    → finish mtype w ≡ record w {
      bsem = w.bsem + 1;
      broadcast_type =
          if mtype == m_board
          then Broadcast.blackboard
          else if mtype == m_clear
          then Broadcast.clear
          else w.broadcast_type;
      signalled = (mtype == m_board) || ((mtype == m_clear) || w.signalled);
    }
unfolding finish unlock_bsem trigger_broadcast
finish_lem mtype w = ground arith

-- The board with the semaphore held: what `finish` and the failure both make of it.
released :
    (w : World) (xs : Roster) (b : List ℕ) (n : ℕ)
    → IsBoard b
    → Inv w xs
    → n ≡ w.bsem
    → Shape w.clients w.cid_counter b n w.asem xs
released w xs b n is v e = record {
  represents = v.represents;
  unlocked = v.unlocked;
  granted = v.granted;
  few = v.few;
  counter = v.counter;
  is_board = is;
  bsem_free = e ∙ v.bsem_free;
  asem_free = v.asem_free;
  named = v.named;
}

zeros-IsBoard : IsBoard (zeros 1200)
zeros-IsBoard = subst IsBoard (painted_zero []) (painted-IsBoard 0 [] refl)

lock_bsem_lem : (w : World) → w.bsem ≡ 1 → lock_bsem w ≡ ok (record w { bsem = 0 })
unfolding lock_bsem
lock_bsem_lem w e = rw e

wipe_lem : (w : World) → wipe w ≡ record w { board = zeros 1200 }
unfolding wipe
wipe_lem w = refl

-- The state between `memset` and `memcpy`.
abbrev wiped : World → World
wiped w = record w { board = zeros 1200; bsem = 0 }

read_streams : (sfd length : ℕ) → World → ℕ → Stream
read_streams sfd length w = (recv sfd length w).0.streams

receive_good :
    (w : World) (sfd n : ℕ)
    → ((recv sfd n (wiped w)).1 ≡ positive) ⊎ ((recv sfd n (wiped w)).1 ≡ zero_bytes)
    → receive_board sfd n (wiped w) ≡ (
      record w {
        streams = read_streams sfd n w;
        board = painted n (payload sfd n w);
        bsem = 0;
        log = if ltb 1199 n then (1, "board handler: board too long") ∷ w.log else w.log;
      },
      success,
    )
unfolding receive_board recv write_board painted log_message read_streams
receive_good w sfd n h = elim (Bool-cases (ltb 1199 n)) [
  | inl long ↦ elim h [
    | inl e ↦ rw (e, receive_board, long, drop-zeros 1199 1200)
    | inr e ↦ rw (e, receive_board, long, drop-zeros 1199 1200)
  ]
  | inr short ↦ elim h [
    | inl e ↦ rw (e, receive_board, short, drop-zeros n 1200)
    | inr e ↦ rw (e, receive_board, short, drop-zeros n 1200)
  ]
]

receive_bad :
    (w : World) (sfd n : ℕ)
    → (recv sfd n (wiped w)).1 ≡ negative
    → receive_board sfd n (wiped w) ≡ (
      record w {
        streams = read_streams sfd n w;
        board = zeros 1200;
        bsem = 1;
        log = (2, "board handler: connection error or closed by client") ∷ w.log;
      },
      failed,
    )
unfolding receive_board recv log_message read_streams unlock_bsem
receive_bad w sfd n e = rw (e, receive_board)

-- The sign of `recv` for a message that is not empty.
recv_sign :
    (w : World) (sfd n : ℕ)
    → n ≢ 0
    → ((arrives n (w.streams sfd) ≡ true)
        × (((recv sfd n (wiped w)).1 ≡ positive) ⊎ ((recv sfd n (wiped w)).1 ≡ zero_bytes)))
      ⊎ ((arrives n (w.streams sfd) ≡ false) × ((recv sfd n (wiped w)).1 ≡ negative))
unfolding recv arrives
recv_sign w sfd n h = ground arith

-- `finish` releases the semaphore.
finished :
    (w u : World) (xs : Roster) (mtype : ℕ)
    → IsBoard u.board
    → u.bsem ≡ 0
    → Inv w xs
    → u.clients ≡ w.clients
    → u.cid_counter ≡ w.cid_counter
    → u.asem ≡ w.asem
    → Inv (finish mtype u) xs
finished w u xs mtype is zero_sem v clients counter asem =
    rw (finish_lem mtype u, clients, counter, asem)
      (released w xs u.board (u.bsem + 1) is v (omega (arith, v.bsem_free)))

arrives_empty : (n : ℕ) (s : Stream) → (n == 0) ≡ true → arrives n s ≡ true
unfolding arrives
arrives_empty n s e = rw e

painted_empty : (n : ℕ) (content : List ℕ) → (n == 0) ≡ true → zeros 1200 ≡ painted n content
painted_empty n content e =
    let z : n ≡ 0 = ground arith in subst (λ k. zeros 1200 ≡ painted k content) (sym z) refl'
  where
    refl' : zeros 1200 ≡ painted 0 content
    refl' = sym (painted_zero content)

-- The update behind the check of the write access, on every path: the segment stays a string of
-- 1200 bytes and the semaphore is released.
pub update_board-Updated :
    (w : World) (xs : Roster)
    → Inv w xs
    → (sfd n mtype : ℕ) → Returns (Updated sfd n w xs) (update_board sfd n mtype w)
unfolding update_board conclude
update_board-Updated w xs v sfd n mtype =
    let Goal : Bool → Type 0 = λ b. Returns (UpdatedBy b sfd n w xs) (update_board sfd n mtype w) in
    elim (Bool-cases (n == 0)) [
      | inl empty ↦ subst Goal (sym (arrives_empty n (w.streams sfd) empty)) (
          rw (lock_bsem_lem w v.bsem_free, wipe_lem, empty)
            (returns (
              finished w (wiped w) xs mtype zeros-IsBoard refl v refl refl refl,
              rw finish_lem,
              rw finish_lem,
              rw finish_lem (painted_empty n _ empty),
              refl,
            )))
      | inr content ↦ elim (recv_sign w sfd n (ground arith)) [
        | inl (arrived, sign) ↦ subst Goal (sym arrived) (
            rw (lock_bsem_lem w v.bsem_free, wipe_lem, content, receive_good w sfd n sign)
              (returns (
                finished w _ xs mtype (painted-IsBoard n _ (length-fill n w.stale _)) refl v refl
                    refl refl,
                rw finish_lem,
                rw finish_lem,
                rw finish_lem,
                refl,
              )))
        | inr (lost, sign) ↦ subst Goal (sym lost) (
            rw (lock_bsem_lem w v.bsem_free, wipe_lem, content, receive_bad w sfd n sign)
              (returns (
                released w xs (zeros 1200) 1 zeros-IsBoard v (sym v.bsem_free),
                refl,
                refl,
                refl,
                refl,
              )))
      ]
    ]
