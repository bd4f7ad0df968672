-- ===== src/Server/RequestHandler/Policy.antt =====
-- What `request_handler` does to the write access.
use virtual_blackboard.Prelude.{
  ℕ, ◌≡◌, ◌≢◌, refl, ap, true, false, not, inl, inr, List, ◌∷◌, ◌==◌, ◌||◌, ◌&&◌, returns,
  if◌then◌else◌, Bool-cases, arith,
}
use virtual_blackboard.ClientList.{ClientList, unlock_clientlist, docent_exists, tutor_exists}
use virtual_blackboard.ClientList.Seg.{Ptr, null, Roster, has}
use virtual_blackboard.ClientList.Represents.{Represents, Represents-locked, lock_lem}
use virtual_blackboard.ClientList.Lookup.{
  client_at, is_at, client_at-null, find_addr, load-client_at, find_addr-Held, get_user_sfd_lem,
  has_write_access_lem, is_docent_lem,
}
use virtual_blackboard.Server.World.{
  World, Code, success, failed, recv, fill, recv_positive, recv_buffer, send, log_message,
  trigger_broadcast, with_clients,
}
use virtual_blackboard.Server.Invariant.{
  Shape, Inv, Shape-write, Shape-few, strlen-has_nul, client_at-Named, Gives, member,
}
use virtual_blackboard.Server.RequestHandler.{
  leave, docent_request, give_back, self_service, query_docent, ask_docent, change_access, request,
  request_handler,
}

-- Who has the write access after a request for `write` by the client with the socket: nothing
-- changes if the client already has what it asks for; the docent takes the access, a tutor hands
-- it to the docent, and without a docent a client gets it only if nobody has it.
unfoldable pub new_writer : (sfd write : ℕ) → ClientList → Roster → Ptr
new_writer sfd write s xs =
    if write == is_at sfd (client_at s.user_write xs)
    then s.user_write
    else if not (is_at sfd (client_at s.user_docent xs) == 0) || (write == 0)
    then s.user_docent
    else if (s.user_docent == null) && (s.user_write == null)
    then find_addr (λ c. c.sfd == sfd) xs
    else s.user_write

module _ (w : World) (xs : Roster) (v : Inv w xs) where
  abbrev held : ClientList
  held = record w.clients { locked = true }

  held-Represents : Represents held xs
  held-Represents = Represents-locked w.clients xs true v.represents

  docent_request-Gives :
      w.clients.user_docent ≢ null → Gives w.clients.user_docent w xs (docent_request w held)
  unfolding docent_request send log_message trigger_broadcast with_clients unlock_clientlist
  docent_request-Gives d =
      let s = w.clients in
      let i = member s.user_write xs (v.granted d) v.represents.write_held in
      let (e, got, at, ne) =
        load-client_at s.cell null null s.user_write xs v.represents.linked i in
      rw got (
        returns
          (Shape-write s _ _ _ _ xs s.user_docent v.represents.docent_held (λ d. d) v, refl, refl))

  give_back-Gives : Gives w.clients.user_docent w xs (give_back w held)
  unfolding give_back trigger_broadcast with_clients unlock_clientlist
  give_back-Gives = returns (
    Shape-write w.clients _ _ _ _ xs w.clients.user_docent v.represents.docent_held (λ d. d) v,
    refl,
    refl,
  )

  unchanged-Shape :
      Shape (record w.clients { locked = false }) w.cid_counter w.board w.bsem w.asem xs
  unchanged-Shape =
      Shape-write w.clients _ _ _ _ xs w.clients.user_write v.represents.write_held v.granted v

  unchanged-Gives : (code : Code) → Gives w.clients.user_write w xs (leave w held code)
  unfolding with_clients unlock_clientlist
  unchanged-Gives code = returns (unchanged-Shape, refl, refl)

  self_service-Gives :
      (sfd : ℕ)
      → w.clients.user_docent ≡ null
      → Gives
          (if w.clients.user_write == null
            then find_addr (λ c. c.sfd == sfd) xs
            else w.clients.user_write)
          w
          xs
          (self_service sfd w held)
  unfolding self_service tutor_exists trigger_broadcast with_clients unlock_clientlist
  self_service-Gives sfd nil =
      let user = get_user_sfd_lem held xs held-Represents sfd (Shape-few _ _ _ _ _ xs v) in
      elim (Bool-cases (w.clients.user_write == null)) [
        | inl none_has ↦
            rw (none_has, user)
              (returns (
                Shape-write w.clients _ _ _ _ xs _ (find_addr-Held _ xs) (λ d. absurd (d nil)) v,
                refl,
                refl,
              ))
        | inr tutor ↦
            let differ : (w.clients.user_docent == w.clients.user_write) ≡ false = ground arith in
            rw (tutor, differ) (returns (unchanged-Shape, refl, refl))
      ]

  query_docent-Gives :
      (user : Ptr)
      → has user xs ≡ true
      → w.clients.user_docent ≢ null
      → Gives w.clients.user_write w xs (query_docent user w.clients.user_docent w held)
  unfolding query_docent send log_message with_clients unlock_clientlist
  query_docent-Gives user i d =
      let s = w.clients in
      let (e, got, at, ne) = load-client_at s.cell null null user xs v.represents.linked i in
      let (n, len, short) =
        strlen-has_nul e.cdata.name (client_at-Named user e.cdata xs v.named at) in
      let j = member s.user_docent xs d v.represents.docent_held in
      let (f, got', at', ne') =
        load-client_at s.cell null null s.user_docent xs v.represents.linked j in
      rw (got, len, got')
        (elim (Bool-cases (w.sends f.cdata.sfd)) [
          | inl sent ↦ rw sent (returns (unchanged-Shape, refl, refl))
          | inr lost ↦ rw lost (returns (unchanged-Shape, refl, refl))
        ])

  ask_docent-Gives :
      (sfd : ℕ)
      → w.clients.user_docent ≢ null
      → Gives w.clients.user_write w xs (ask_docent sfd w.clients.user_docent w held)
  unfolding ask_docent
  ask_docent-Gives sfd d =
      let user = get_user_sfd_lem held xs held-Represents sfd (Shape-few _ _ _ _ _ xs v) in
      let p = find_addr (λ c. c.sfd == sfd) xs in
      rw user (elim (Bool-cases (p == null)) [
        | inl nobody ↦ rw nobody (unchanged-Gives failed)
        | inr somebody ↦
            rw somebody (query_docent-Gives p (member p xs (ground arith) (find_addr-Held _ xs)) d)
      ])

  -- The docent's pointer is not NULL where it belongs to a client.
  docent_pointer :
      (sfd : ℕ)
      → (is_at sfd (client_at w.clients.user_docent xs) == 0) ≡ false
      → w.clients.user_docent ≢ null
  unfolding is_at
  docent_pointer sfd is nil =
      let none_at = client_at-null w.clients.cell null null xs v.represents.linked in
      ground (arith, ap (λ p. is_at sfd (client_at p xs)) nil, none_at)

  change_access-Gives :
      (sfd write : ℕ)
      → (write == is_at sfd (client_at w.clients.user_write xs)) ≡ false
      → Gives (new_writer sfd write w.clients xs) w xs (change_access sfd write w held)
  unfolding change_access new_writer docent_exists
  change_access-Gives sfd write new =
      let d = w.clients.user_docent in
      rw (is_docent_lem held xs held-Represents sfd, new)
        (elim (Bool-cases (is_at sfd (client_at d xs) == 0)) [
          | inr docent ↦ rw docent (docent_request-Gives (docent_pointer sfd docent))
          | inl other ↦ rw other (elim (Bool-cases (write == 0)) [
            | inl back ↦ rw back give_back-Gives
            | inr ask ↦ rw ask (elim (Bool-cases (d == null)) [
              | inl nobody ↦ rw nobody (self_service-Gives sfd (ground arith))
              | inr somebody ↦ rw somebody (ask_docent-Gives sfd (ground arith))
            ])
          ])
        ])

  pub request-Gives :
      (sfd write : ℕ) → Gives (new_writer sfd write w.clients xs) w xs (request sfd write w)
  unfolding request
  request-Gives sfd write =
      let access = is_at sfd (client_at w.clients.user_write xs) in
      rw (lock_lem w.clients v.unlocked, has_write_access_lem held xs held-Represents sfd)
        (elim (Bool-cases (write == access)) [
          | inl same ↦ rw same (unfold new_writer in rw same (unchanged-Gives success))
          | inr new ↦ rw new (change_access-Gives sfd write new)
        ])

request_handler_run :
    (w : World) (sfd write : ℕ) (rest : List ℕ)
    → (w.streams sfd).bytes ≡ write ∷ rest
    → request_handler sfd w ≡ request sfd write (recv sfd 1 w).0
unfolding request_handler fill recv request
request_handler_run w sfd write rest arrived =
    rw (recv_positive sfd 1 write rest w arrived, recv_buffer sfd 1 _ w arrived)

-- Once the byte of the field `write` has arrived, the handler returns with the mutex released and
-- the invariant kept, whatever the byte and whoever the sender: no pointer is dangling and no name
-- unterminated. The write access goes where `new_writer` says and the docent stays the same.
pub request_handler-Gives :
    (w : World) (xs : Roster)
    → Inv w xs
    → (sfd write : ℕ) (rest : List ℕ) → (w.streams sfd).bytes ≡ write ∷ rest
    → Gives (new_writer sfd write w.clients xs) w xs (request_handler sfd w)
unfolding recv
request_handler-Gives w xs v sfd write rest arrived =
    rw (request_handler_run w sfd write rest arrived)
      (request-Gives (recv sfd 1 w).0 xs v sfd write)
