-- ===== src/Server/ReplyHandler/Answer.antt =====
-- What `reply_handler` does to the write access.
use virtual_blackboard.Prelude.{
  ℕ, ◌≡◌, ◌≢◌, ◌⊎◌, refl, true, false, inl, inr, List, ◌∷◌, ◌==◌, ◌||◌, if◌then◌else◌, Bool-cases,
  ok, fault, returns, arith,
}
use virtual_blackboard.ClientList.{ClientList, load, unlock_clientlist, get_user_cid}
use virtual_blackboard.ClientList.Seg.{Ptr, null, Roster, has}
use virtual_blackboard.ClientList.Represents.{Represents, Represents-locked, lock_lem}
use virtual_blackboard.ClientList.Lookup.{
  client_at, is_at, find_addr, load-client_at, find_addr-Held, get_user_cid_lem, is_docent_lem,
}
use virtual_blackboard.Net.{ntohs}
use virtual_blackboard.Server.World.{
  failed, World, recv, fill, recv_positive, recv_buffer, send, log_message, trigger_broadcast,
  with_clients,
}
use virtual_blackboard.Server.Invariant.{Shape, Inv, Shape-write, Shape-few, Gives, member}
use virtual_blackboard.Server.ReplyHandler.{leave, deny, grant, answer, reply, reply_handler}

-- The client that a reply is about, or NULL.
abbrev pub target : (cid : ℕ) → Roster → Ptr
target cid = find_addr λ c. c.cid == cid

-- Who has the write access after a reply: only the docent's grant to a client that is still there
-- changes it.
unfoldable pub granted_writer : (sfd write cid : ℕ) → ClientList → Roster → Ptr
granted_writer sfd write cid s xs =
    if (is_at sfd (client_at s.user_docent xs) == 0) || ((write == 0) || (target cid xs == null))
    then s.user_write
    else target cid xs

module _ (w : World) (xs : Roster) (v : Inv w xs) where
  abbrev held : ClientList
  held = record w.clients { locked = true }

  held-Represents : Represents held xs
  held-Represents = Represents-locked w.clients xs true v.represents

  unchanged-Shape :
      Shape (record w.clients { locked = false }) w.cid_counter w.board w.bsem w.asem xs
  unchanged-Shape =
      Shape-write w.clients _ _ _ _ xs w.clients.user_write v.represents.write_held v.granted v

  deny-Gives :
      (user : Ptr) → has user xs ≡ true → Gives w.clients.user_write w xs (deny user w held)
  unfolding deny send log_message with_clients unlock_clientlist
  deny-Gives user i =
      let (e, got, at, ne) =
        load-client_at w.clients.cell null null user xs v.represents.linked i in
      rw got (returns (unchanged-Shape, refl, refl))

  grant-Gives :
      (cid : ℕ)
      → Gives
          (if target cid xs == null then w.clients.user_write else target cid xs)
          w
          xs
          (grant (target cid xs) w held)
  unfolding grant log_message trigger_broadcast with_clients unlock_clientlist
  grant-Gives cid = elim (Bool-cases (target cid xs == null)) [
    | inl gone ↦ rw gone (returns (unchanged-Shape, refl, refl))
    | inr there ↦ rw there (
        returns (
          Shape-write w.clients _ _ _ _ xs _ (find_addr-Held _ xs) (λ d. ground arith) v,
          refl,
          refl,
        ))
  ]

  user_lem : (cid : ℕ) → get_user_cid cid held ≡ ok (target cid xs)
  user_lem cid = get_user_cid_lem held xs held-Represents cid (Shape-few _ _ _ _ _ xs v)

  answer-Gives :
      (write cid : ℕ)
      → (target cid xs ≢ null) ⊎ (write ≢ 0)
      → Gives
          (if (write == 0) || (target cid xs == null) then w.clients.user_write else target cid xs)
          w
          xs
          (answer write cid w held)
  unfolding answer
  answer-Gives write cid h = rw (user_lem cid) (elim (Bool-cases (write == 0)) [
    | inl no_access ↦ rw no_access (
        deny-Gives _ (elim h [
          | inl there ↦ member _ xs there (find_addr-Held _ xs)
          | inr w ↦ absurd (ground arith)
        ]))
    | inr access ↦ rw access (grant-Gives cid)
  ])

  -- The handler behind `recv`.
  pub reply-Gives :
      (sfd write cid : ℕ)
      → (target cid xs ≢ null) ⊎ (write ≢ 0)
      → Gives (granted_writer sfd write cid w.clients xs) w xs (reply sfd write cid w)
  unfolding reply granted_writer log_message with_clients unlock_clientlist
  reply-Gives sfd write cid h =
      let docent = is_at sfd (client_at w.clients.user_docent xs) in
      rw (lock_lem w.clients v.unlocked, is_docent_lem held xs held-Represents sfd)
        (elim (Bool-cases (docent == 0)) [
          | inl other ↦ rw other (returns (unchanged-Shape, refl, refl))
          | inr same ↦ rw same (answer-Gives write cid h)
        ])

  -- Nobody but the docent may answer.
  pub reply-other :
      (sfd write cid : ℕ)
      → is_at sfd (client_at w.clients.user_docent xs) ≡ 0
      → reply sfd write cid w
        ≡ leave (log_message 1 "reply handler: non-RFC compliant client kicked" w) held failed
  unfolding reply
  reply-other sfd write cid other =
      rw (lock_lem w.clients v.unlocked, is_docent_lem held xs held-Represents sfd, other)

  -- A denial for a client that has left: the handler reads through NULL.
  pub reply-fault :
      (sfd cid : ℕ)
      → is_at sfd (client_at w.clients.user_docent xs) ≡ 1
      → target cid xs ≡ null
      → reply sfd 0 cid w ≡ fault
  unfolding reply answer deny load
  reply-fault sfd cid docent gone = rw (
    lock_lem w.clients v.unlocked,
    is_docent_lem held xs held-Represents sfd,
    docent,
    user_lem cid,
    gone,
  )

reply_handler_run :
    (w : World) (sfd write high low : ℕ) (rest : List ℕ)
    → (w.streams sfd).bytes ≡ write ∷ high ∷ low ∷ rest
    → reply_handler sfd w
      ≡ reply sfd write
          (ntohs high low)
          (log_message 3 "reply handler: got reply from docent" (recv sfd 3 w).0)
unfolding reply_handler fill recv reply
reply_handler_run w sfd write high low rest arrived =
    rw (recv_positive sfd 3 write _ w arrived, recv_buffer sfd 3 _ w arrived)

-- Once the three bytes of a reply have arrived, the handler returns with the mutex released and the
-- invariant kept, unless the reply is a denial and its client has left. Only the docent's grant to
-- a client that is still there changes the write access.
pub reply_handler-Gives :
    (w : World) (xs : Roster)
    → Inv w xs
    → (sfd write high low : ℕ) (rest : List ℕ) → (w.streams sfd).bytes ≡ write ∷ high ∷ low ∷ rest
    → (target (ntohs high low) xs ≢ null) ⊎ (write ≢ 0)
    → Gives (granted_writer sfd write (ntohs high low) w.clients xs) w xs (reply_handler sfd w)
unfolding recv log_message
reply_handler-Gives w xs v sfd write high low rest arrived h =
    rw (reply_handler_run w sfd write high low rest arrived) (
      reply-Gives (log_message 3 "reply handler: got reply from docent" (recv sfd 3 w).0) xs v sfd
        write (ntohs high low) h)

-- If the docent denies the request of a client that has left in the meantime, the handler reads
-- through NULL: its test `user == NULL` stands behind the denial.
pub reply_handler-fault :
    (w : World) (xs : Roster)
    → Inv w xs
    → (sfd high low : ℕ) (rest : List ℕ) → (w.streams sfd).bytes ≡ 0 ∷ high ∷ low ∷ rest
    → is_at sfd (client_at w.clients.user_docent xs) ≡ 1
    → target (ntohs high low) xs ≡ null
    → reply_handler sfd w ≡ fault
unfolding recv log_message
reply_handler-fault w xs v sfd high low rest arrived docent gone =
    rw (reply_handler_run w sfd 0 high low rest arrived) (
      reply-fault (log_message 3 "reply handler: got reply from docent" (recv sfd 3 w).0) xs v sfd
        (ntohs high low) docent gone)
