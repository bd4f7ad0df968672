-- ===== src/Server/LoginHandler/Admitted.antt =====
-- A login that `login_handler` of src/server/message_handler.c admits.
use virtual_blackboard.Prelude.{
  ℕ, suc, ◌+◌, ◌<◌, ◌≡◌, ◌≢◌, refl, ap, sym, ◌∙◌, drop, ltb, true, false, ◌&&◌, ◌||◌, inl, inr,
  List, [], ◌∷◌, ◌++◌, length, length-append, ◌==◌, if◌then◌else◌, Bool-cases, ok, Returns, returns,
  arith,
}
use virtual_blackboard.ClientList.{
  ClientList, indifferent, student, docent, unlock_clientlist, docent_exists, get_next_cid,
}
use virtual_blackboard.ClientList.Seg.{Ptr, null, ClientData, Roster, has}
use virtual_blackboard.ClientList.Represents.{lock_lem}
use virtual_blackboard.ClientList.Add.{node, Added, add_client-Added}
use virtual_blackboard.ClientList.Granted.{Added-IsGranted}
use virtual_blackboard.ClientList.Ids.{get_next_cid_step}
use virtual_blackboard.Net.{m_login, ntohs, ntoh_header}
use virtual_blackboard.Net.Strings.{strlen}
use virtual_blackboard.Net.Build.{build_board}
use virtual_blackboard.Server.World.{
  World, Code, success, Broadcast, recv, recv_positive, recv_buffer, recv_rest, fill, send,
  log_message, lock_bsem, unlock_bsem, trigger_broadcast, with_clients,
}
use virtual_blackboard.Server.Invariant.{
  Shape, Shape-write, Inv, Named, has_nul, has_nul-append, strlen-has_nul,
}
use virtual_blackboard.Server.LoginHandler.{
  header_of, client_data, assign_role, send_initial_board, seat, enter, admit, receive_login,
  login_handler,
}

-- The role that a client gets: there is one docent, and everyone else is a student.
unfoldable pub assigned : (requested : ℕ) → ClientList → ℕ
assigned requested s =
    if ((requested == indifferent) || (requested == docent)) && (s.user_docent == null)
    then docent
    else student

-- The client is the last one of the list, a docent has both pointers, the board was sent to it and
-- a status broadcast is due.
abbrev pub Admitted : (fresh : Ptr) → ClientData → World → Roster → World × Code → Type 0
Admitted fresh c w xs r =
    Inv r.0 (xs ++ node fresh c ∷ [])
    × (r.0.clients.user_docent ≡ (if c.role == docent then fresh else w.clients.user_docent))
    × (r.0.clients.user_write ≡ (if c.role == docent then fresh else w.clients.user_write))
    × ((n : ℕ) × (strlen w.board ≡ ok n)
        × (r.0.sent ≡ (send c.sfd (build_board w.board n) (3 + n) w).0.sent))
    × (r.0.signalled ≡ true)
    × (r.0.broadcast_type ≡ Broadcast.status)
    × (r.1 ≡ success)

Named-append :
    (fresh : Ptr) (c : ClientData) (xs : Roster)
    → Named xs
    → has_nul c.name ≡ true
    → Named (xs ++ node fresh c ∷ [])
Named-append fresh c [] v h = (h, tt)
Named-append fresh c (n ∷ xs) v h = (v.0, Named-append fresh c xs v.1 h)

module _ (fresh : Ptr) (c : ClientData) (w : World) (xs : Roster) (ne : fresh ≢ null)
    (out : has fresh xs ≡ false) (v : Inv w xs) (few : length xs < w.cid_counter)
    (named : has_nul c.name ≡ true) where
  Added-Inv :
      (t : ClientList)
      → Added fresh c w.clients t xs
      → Shape t w.cid_counter w.board 1 w.asem (xs ++ node fresh c ∷ [])
  Added-Inv t a = record {
    represents = a.represents;
    unlocked = a.unlocked;
    granted = Added-IsGranted fresh c w.clients t xs ne a v.granted;
    few = omega (arith, length-append xs (node fresh c ∷ []));
    counter = v.counter;
    is_board = v.is_board;
    bsem_free = refl;
    asem_free = v.asem_free;
    named = Named-append fresh c xs v.named named;
  }

  pub seat-Admitted : Returns (Admitted fresh c w xs) (seat fresh c w)
  unfolding seat send_initial_board lock_bsem unlock_bsem with_clients log_message trigger_broadcast
      send
  seat-Admitted =
      let (t, run, a) = add_client-Added fresh c w.clients xs ne out v.represents v.unlocked in
      let (n, len, short) = strlen-has_nul w.board v.is_board.terminated in
      rw (run, v.bsem_free, len)
        (returns (Added-Inv t a, a.docent_is, a.write_is, (n, len, refl), refl, refl, refl))

-- The free list after the mutex was taken and released.
relocked : (s : ClientList) → s.locked ≡ false → record s { locked = false } ≡ s
relocked s free = ap (λ b. record s { locked = b }) (sym free)

Inv-unlocked :
    (w : World) (xs : Roster)
    → Inv w xs
    → Shape (record w.clients { locked = false }) w.cid_counter w.board w.bsem w.asem xs
Inv-unlocked w xs v =
    Shape-write w.clients _ _ _ _ xs w.clients.user_write v.represents.write_held v.granted v

module _ (fresh : Ptr) (c : ClientData) (w : World) (xs : Roster) (ne : fresh ≢ null)
    (out : has fresh xs ≡ false) (v : Inv w xs) (few : length xs < w.cid_counter)
    (named : has_nul c.name ≡ true) where
  -- Whatever role was asked for, the client is entered with the one that `assigned` names.
  pub enter-Admitted :
      Returns
        (Admitted fresh (record c { role = assigned c.role w.clients }) w xs)
        (enter fresh c w)
  unfolding enter assign_role assigned docent_exists unlock_clientlist with_clients log_message send
  enter-Admitted =
      let seated : (r : ℕ)
          → Returns (Admitted fresh (record c { role = r }) w xs)
              (seat fresh (record c { role = r }) w) =
        λ r. seat-Admitted fresh (record c { role = r }) w xs ne out v few named in
      let noted : (r : ℕ)
          → Returns (Admitted fresh (record c { role = r }) w xs) (
              seat fresh (record c { role = r })
                (record w { log = (1, "login handler: invalid role.") ∷ w.log })) =
        λ r.
          seat-Admitted fresh (record c { role = r })
            (record w { log = (1, "login handler: invalid role.") ∷ w.log }) xs ne out v few
            named in
      let w' = record w { clients = record w.clients { locked = false } } in
      let free : (r : ℕ)
          → Returns (Admitted fresh (record c { role = r }) w xs)
              (seat fresh (record c { role = r }) w') =
        λ r.
          seat-Admitted fresh (record c { role = r }) w' xs ne out (Inv-unlocked w xs v) few
            named in
      let run = lock_lem w.clients v.unlocked in
      elim (Bool-cases (w.clients.user_docent == null)) [
        | inl vacant ↦ elim (Bool-cases (c.role == indifferent)) [
          | inl any ↦ rw (any, run, vacant) (free docent)
          | inr asks ↦ elim (Bool-cases (c.role == student)) [
            | inl modest ↦
                let no : (c.role == docent) ≡ false = ground arith in
                rw (asks, modest, no) (seated student)
            | inr high ↦ elim (Bool-cases (c.role == docent)) [
              | inl lead ↦ rw (asks, high, lead, vacant) (seated docent)
              | inr odd ↦ rw (asks, high, odd) (noted student)
            ]
          ]
        ]
        | inr taken ↦ elim (Bool-cases (c.role == indifferent)) [
          | inl any ↦ rw (any, run, taken) (free student)
          | inr asks ↦ elim (Bool-cases (c.role == student)) [
            | inl modest ↦
                let no : (c.role == docent) ≡ false = ground arith in
                rw (asks, modest, no) (seated student)
            | inr high ↦ elim (Bool-cases (c.role == docent)) [
              | inl lead ↦ rw (asks, high, lead, taken) (seated student)
              | inr odd ↦ rw (asks, high, odd) (noted student)
            ]
          ]
        ]
      ]

-- The client of an admitted login.
abbrev pub newcomer : (cid sfd role : ℕ) → (name : List ℕ) → ClientList → ClientData
newcomer cid sfd role name s = record {
  cid = cid;
  sfd = sfd;
  role = assigned role s;
  name = name ++ 0 ∷ [];
}

pub Inv-counted :
    (w : World) (xs : Roster)
    → Inv w xs
    → w.cid_counter < 65535
    → Inv (record w { cid_counter = w.cid_counter + 1 }) xs
Inv-counted w xs v room = record {
  represents = v.represents;
  unlocked = v.unlocked;
  granted = v.granted;
  few = omega (arith, v.few);
  counter = omega arith;
  is_board = v.is_board;
  bsem_free = v.bsem_free;
  asem_free = v.asem_free;
  named = v.named;
}

admit-Admitted :
    (fresh : Ptr) (sfd role : ℕ) (name : List ℕ) (w : World) (xs : Roster)
    → fresh ≢ null
    → has fresh xs ≡ false
    → Inv w xs
    → w.cid_counter < 65535
    → Returns
        (Admitted fresh (newcomer (w.cid_counter + 1) sfd role name w.clients) w xs)
        (admit fresh sfd (role ∷ name) w)
unfolding admit client_data send
admit-Admitted fresh sfd role name w xs ne out v room =
    let step = get_next_cid_step w.cid_counter (omega arith) in
    let counted : (get_next_cid w.cid_counter).0 ≡ w.cid_counter + 1 = ground (arith, step) in
    let given : (get_next_cid w.cid_counter).1 ≡ w.cid_counter + 1 = ground (arith, step) in
    let some_id : (w.cid_counter + 1 == 0) ≡ false = ground arith in
    rw (counted, given, some_id)
      (enter-Admitted fresh (client_data (w.cid_counter + 1) sfd (role ∷ name))
        (record w { cid_counter = w.cid_counter + 1 }) xs ne out (Inv-counted w xs v room)
        (omega (arith, v.few)) (has_nul-append name (0 ∷ []) refl))

receive_login_run :
    (fresh : Ptr) (sfd k role : ℕ) (rest : List ℕ) (w : World)
    → (w.streams sfd).bytes ≡ role ∷ rest
    → receive_login fresh sfd (suc (suc k)) w
      ≡ admit fresh sfd (role ∷ fill (suc k) w.stale rest) (recv sfd (suc (suc k)) w).0
unfolding receive_login recv fill admit
receive_login_run fresh sfd k role rest w arrived =
    rw (
      recv_positive sfd (suc (suc k)) role rest w arrived,
      recv_buffer sfd (suc (suc k)) _ w arrived,
    )

pub login_handler_run :
    (fresh : Ptr) (w : World) (sfd high low k role : ℕ) (rest : List ℕ)
    → (w.streams sfd).bytes ≡ m_login ∷ high ∷ low ∷ role ∷ rest
    → ntohs high low ≡ suc (suc k)
    → login_handler fresh sfd w
      ≡ admit fresh sfd
          (role ∷ fill (suc k) w.stale rest)
          (recv sfd (suc (suc k)) (recv sfd 3 w).0).0
unfolding login_handler header_of ntoh_header recv fill
login_handler_run fresh w sfd high low k role rest arrived size =
    let w' = (recv sfd 3 w).0 in
    let arrived' : (w'.streams sfd).bytes ≡ role ∷ rest = recv_rest sfd 3 w ∙ ap (drop 3) arrived in
    let long : ltb (suc (suc k)) 2 ≡ false = ground arith in
    rw (
      recv_positive sfd 3 m_login _ w arrived,
      recv_buffer sfd 3 _ w arrived,
      size,
      long,
      receive_login_run fresh sfd k role rest w' arrived',
    )

-- A login message of at least two bytes, while ids are left, is answered with success: the client
-- stands behind the others with the next id and the role that `assigned` names, a docent gets the
-- write access, the invariant holds, the board is sent to the client, and a status broadcast is
-- due. `fresh` is an address that no client has; what is missing of the name is stale memory.
pub login_handler-Admitted :
    (fresh : Ptr) (w : World) (xs : Roster)
    → Inv w xs
    → fresh ≢ null
    → has fresh xs ≡ false
    → w.cid_counter < 65535
    → (sfd high low k role : ℕ) (rest : List ℕ)
    → (w.streams sfd).bytes ≡ m_login ∷ high ∷ low ∷ role ∷ rest
    → ntohs high low ≡ suc (suc k)
    → Returns
        (Admitted fresh
          (newcomer (w.cid_counter + 1) sfd role (fill (suc k) w.stale rest) w.clients)
          w
          xs)
        (login_handler fresh sfd w)
unfolding recv send
login_handler-Admitted fresh w xs v ne out room sfd high low k role rest arrived size =
    rw (login_handler_run fresh w sfd high low k role rest arrived size) (
      admit-Admitted fresh sfd role (fill (suc k) w.stale rest)
        (recv sfd (suc (suc k)) (recv sfd 3 w).0).0 xs ne out v room)
