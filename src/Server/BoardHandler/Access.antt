-- ===== src/Server/BoardHandler/Access.antt =====
-- `board_handler` as a whole: the write access, the archiver and the update.
use virtual_blackboard.Prelude.{
  ℕ, suc, ◌≡◌, ◌∙◌, refl, sym, ap, subst, Bool, true, List, [], ◌∷◌, ◌++◌, take, ◌==◌, inl, inr,
  if◌then◌else◌, Bool-cases, Outcome, ◌>>=◌, ok, zero, Returns, returns, Returns-bind, Returns-mono,
  arith,
}
use virtual_blackboard.ClientList.Seg.{Roster}
use virtual_blackboard.ClientList.Lookup.{client_at, is_at, has_write_access_lem}
use virtual_blackboard.Net.{m_clear}
use virtual_blackboard.Net.Strings.{codes, strlen, text_of}
use virtual_blackboard.Server.World.{
  World, Stream, Code, fill, success, failed, zeros, lock_bsem, unlock_bsem, lock_asem, unlock_asem,
  log_message,
}
use virtual_blackboard.Server.Invariant.{Inv, has_nul}
use virtual_blackboard.Server.BoardHandler.{
  archive_blackboard, archiver_round, await_archiver, board_handler,
}
use virtual_blackboard.Server.BoardHandler.Content.{painted, arrives, Updated, update_board-Updated}

-- `strlen` measures that string.
pub strlen-text_of :
    (cs : List ℕ) → has_nul cs ≡ true → (n : ℕ) × (strlen cs ≡ ok n) × (take n cs ≡ text_of cs)
unfolding strlen text_of
strlen-text_of [] h = absurd (ground arith)
strlen-text_of (c ∷ cs) h = elim (Bool-cases (c == 0)) [
  | inl hit ↦ (0, ground arith, rw hit)
  | inr miss ↦
      let (n, run, text) = strlen-text_of cs (ground arith) in
      (suc n, ground arith, rw (miss, text))
]

-- An entry of the archive.
unfoldable pub archive_entry : (clock text : List ℕ) → List ℕ
archive_entry clock text =
    codes "### " ++ (clock ++ (codes ">>> START\n" ++ (text ++ codes "\n<<< END\n")))

-- The archiver and its debug thread write the entry of the string on the blackboard.
strlen-take : (cs : List ℕ) (n : ℕ) → strlen cs ≡ ok n → take n cs ≡ text_of cs
unfolding strlen text_of
strlen-take [] n h = absurd (ground arith)
strlen-take (c ∷ cs) zero h = ground arith
strlen-take (c ∷ cs) (suc n) h = ground (arith, strlen-take cs n)

entry_of :
    (w u : World) (r : Outcome ℕ)
    → (r >>= λ n. ok (record w {
      archive =
          w.archive
          ++ (codes "### "
              ++ (w.clock ++ (codes ">>> START\n" ++ (take n w.board ++ codes "\n<<< END\n"))));
    }))
      ≡ ok u
    → ((n : ℕ) → r ≡ ok n → take n w.board ≡ text_of w.board)
    → u ≡ record w { archive = w.archive ++ archive_entry w.clock (text_of w.board) }
unfolding archive_entry
entry_of w u (ok n) e text = ground (arith, text n refl)
entry_of w u other e text = absurd (ground arith)

pub archive_blackboard-entry :
    (w u : World)
    → archive_blackboard w ≡ ok u
    → u ≡ record w { archive = w.archive ++ archive_entry w.clock (text_of w.board) }
unfolding archive_blackboard
archive_blackboard-entry w u e = entry_of w u (strlen w.board) e (strlen-take w.board)

-- The archiver's entry, where the blackboard holds a string.
pub archive_blackboard-ok :
    (w : World)
    → has_nul w.board ≡ true
    → archive_blackboard w
      ≡ ok (record w { archive = w.archive ++ archive_entry w.clock (text_of w.board) })
unfolding archive_blackboard archive_entry
archive_blackboard-ok w h = let (n, len, text) = strlen-text_of w.board h in rw (len, text) refl

abbrev pub Archived : World → Roster → World → Type 0
Archived w xs w' =
    Inv w' xs
    × (w'.clients ≡ w.clients)
    × (w'.archive ≡ w.archive ++ archive_entry w.clock (text_of w.board))
    × (w'.streams ≡ w.streams)
    × (w'.stale ≡ w.stale)

await_archiver-Archived :
    (w : World) (xs : Roster) → Inv w xs → Returns (Archived w xs) (await_archiver w)
unfolding await_archiver archiver_round archive_blackboard lock_bsem unlock_bsem lock_asem
    unlock_asem archive_entry
await_archiver-Archived w xs v =
    let (n, len, text) = strlen-text_of w.board v.is_board.terminated in
    rw (v.asem_free, v.bsem_free, len, text)
      (returns (
        record {
          represents = v.represents;
          unlocked = v.unlocked;
          granted = v.granted;
          few = v.few;
          counter = v.counter;
          is_board = v.is_board;
          bsem_free = refl;
          asem_free = refl;
          named = v.named;
        },
        refl,
        refl,
        refl,
        refl,
      ))

-- The board after a message, and the handler's code, from what the connections deliver.
abbrev pub written : (sfd n : ℕ) → (ℕ → Stream) → (stale : ℕ → ℕ) → List ℕ
written sfd n streams stale =
    if arrives n (streams sfd) then painted n (fill n stale (streams sfd).bytes) else zeros 1200

abbrev pub answered : (sfd n : ℕ) → (ℕ → Stream) → Code
answered sfd n streams = if arrives n (streams sfd) then success else failed

-- What the handler leaves for a client with write access, `archive` being the archive's content.
abbrev pub Handled : (archive : List ℕ) → (sfd n : ℕ) → World → Roster → World × Code → Type 0
Handled archive sfd n w xs r =
    Inv r.0 xs
    × (r.0.clients ≡ w.clients)
    × (r.0.archive ≡ archive)
    × (r.0.board ≡ written sfd n w.streams w.stale)
    × (r.1 ≡ answered sfd n w.streams)

abbrev pub archive_after : (mtype : ℕ) → World → List ℕ
archive_after mtype w =
    if mtype == m_clear then w.archive ++ archive_entry w.clock (text_of w.board) else w.archive

carry :
    (w u : World) (xs : Roster) (sfd n : ℕ) (r : World × Code)
    → Archived w xs u
    → Updated sfd n u xs r
    → Handled (w.archive ++ archive_entry w.clock (text_of w.board)) sfd n w xs r
carry w u xs sfd n r (inv, clients, archive, streams, stale)
      (inv', clients', archive', board, code) =
    (
      inv',
      clients' ∙ clients,
      archive' ∙ archive,
      board ∙ ap (λ s. written sfd n s u.stale) streams ∙ ap (λ k. written sfd n w.streams k) stale,
      code ∙ ap (answered sfd n) streams,
    )

-- For the client with write access the handler returns on every path, and keeps the invariant and
-- the client list. A clear appends the old text to the archive before the board is wiped. The board
-- then holds at most 1199 bytes of the content and zeros behind it; if the connection fails it is
-- left blank and the handler says so.
pub board_handler-Handled :
    (w : World) (xs : Roster)
    → Inv w xs
    → (sfd n mtype : ℕ) → is_at sfd (client_at w.clients.user_write xs) ≡ 1
    → Returns (Handled (archive_after mtype w) sfd n w xs) (board_handler sfd n mtype w)
unfolding board_handler
board_handler-Handled w xs v sfd n mtype writer =
    let Goal : Bool → Type 0 = λ b.
      Returns
        (Handled (if b then w.archive ++ archive_entry w.clock (text_of w.board) else w.archive) sfd
          n w xs)
        (board_handler sfd n mtype w) in
    elim (Bool-cases (mtype == m_clear)) [
      | inl clears ↦ subst Goal (sym clears) (
          rw (has_write_access_lem w.clients xs v.represents sfd, writer, clears)
            (Returns-bind (await_archiver-Archived w xs v) λ u a.
              Returns-mono (update_board-Updated u xs a.0 sfd n mtype)
                λ r d. carry w u xs sfd n r a d))
      | inr keeps ↦ subst Goal (sym keeps) (
          rw (has_write_access_lem w.clients xs v.represents sfd, writer, keeps)
            (update_board-Updated w xs v sfd n mtype))
    ]

-- A board message of a client without write access changes nothing but the log. Its content is not
-- taken from the connection.
pub board_handler-refused :
    (w : World) (xs : Roster)
    → Inv w xs
    → (sfd n mtype : ℕ) → is_at sfd (client_at w.clients.user_write xs) ≡ 0
    → board_handler sfd n mtype w
      ≡ ok (log_message 1 "board handler: user without write access" w, success)
unfolding board_handler
board_handler-refused w xs v sfd n mtype other =
    rw (has_write_access_lem w.clients xs v.represents sfd, other)
