-- ===== src/ClientList.antt =====
-- The client list of src/server/client_list.c: a doubly linked list on an explicit heap, the
-- pointers to the docent and to the user with write access, and the list's mutex.
-- A pointer is a number and NULL is 0. The client data that an entry points to is kept in the
-- entry: the list is its only owner, and `remove_client` frees both together.
pub mod Seg
pub mod Relink
pub mod Represents
pub mod Lookup
pub mod Add
pub mod Unlink
pub mod Remove
pub mod Rosters
pub mod Granted
pub mod Ids
use virtual_blackboard.Prelude.{
  ℕ, zero, suc, ◌+◌, ◌-◌, ◌%◌, ◌^◌, Bool, true, false, ◌||◌, not, Option, none, some, List, ◌==◌,
  if◌then◌else◌, Outcome, ok, fault, blocked, exited, out_of_fuel, ◌>>=◌,
}
use Seg.{Ptr, null, Entry, entry, ClientData, Cells, update}

-- The roles of commons.h.
abbrev pub indifferent : ℕ
indifferent = 0

abbrev pub student : ℕ
student = 1

abbrev pub docent : ℕ
docent = 2

-- The file's static variables. `client_counter` is a 32-bit word, by its bit pattern.
pub record ClientList : Type 0 where
  pub cell : Cells
  pub cl_first : Ptr
  pub cl_last : Ptr
  pub user_docent : Ptr
  pub user_write : Ptr
  pub iterator : Ptr
  pub client_counter : ℕ
  pub locked : Bool

abbrev pub empty : ClientList
empty = record {
  cell = λ _. none;
  cl_first = null;
  cl_last = null;
  user_docent = null;
  user_write = null;
  iterator = null;
  client_counter = 0;
  locked = false;
}

-- `pthread_mutex_lock` waits while another thread holds the mutex.
unfoldable pub lock_clientlist : ClientList → Outcome ClientList
lock_clientlist s = if s.locked then blocked else ok (record s { locked = true })

unfoldable pub unlock_clientlist : ClientList → ClientList
unlock_clientlist s = record s { locked = false }

-- `*p`: NULL and freed memory must not be read.
unfoldable pub load : Cells → Ptr → Outcome Entry
load h p = if p == null then fault else elim (h p) [ none ↦ fault | some e ↦ ok e ]

pub set_next : Ptr → Ptr → ClientList → Outcome ClientList
set_next p q s = do
  e ← load s.cell p
  ok (record s { cell = update s.cell p (some (record e { next = q })) })

pub set_previous : Ptr → Ptr → ClientList → Outcome ClientList
set_previous p q s = do
  e ← load s.cell p
  ok (record s { cell = update s.cell p (some (record e { previous = q })) })

-- The first or the last entry gets the new one as its successor.
pub link_last : (fresh : Ptr) → ClientList → Outcome ClientList
link_last fresh s =
    if s.cl_first == null then ok (record s { cl_first = fresh }) else set_next s.cl_last fresh s

-- A docent takes the write access with the role.
pub give_role : (fresh : Ptr) → (role : ℕ) → ClientList → ClientList
give_role fresh role s =
    if role == docent then record s { user_docent = fresh; user_write = fresh } else s

-- The entry is filled in behind the old last one, the pointers and the counter follow, and the
-- mutex is released.
pub settle : (fresh : Ptr) → ClientData → ClientList → ClientList
settle fresh cdata s =
    let new = entry cdata null s.cl_last in
    let s = record s { cell = update s.cell fresh (some new); cl_last = fresh } in
    let s = give_role fresh cdata.role s in
    unlock_clientlist (record s { client_counter = (s.client_counter + 1) % 2 ^ 32 })

-- `fresh` is what `malloc` returns.
unfoldable pub add_client : (fresh : Ptr) → ClientData → ClientList → Outcome ClientList
add_client fresh cdata s =
    if fresh == null
    then exited
    else do s ← lock_clientlist s; s ← link_last fresh s; ok (settle fresh cdata s)

-- An upper bound on the entries of a list, and so on the rounds of a walk along it.
unfoldable pub max_entries : ℕ
max_entries = 65536

-- The `for` loop of `remove_client`. Its body is the statement `if (old_entry == NULL) return 1;`,
-- which runs before each advance: `early` is that return, `stopped_at` the end of the loop.
pub data Scan : Type 0 where
  stopped_at : Ptr → Scan
  early : ℕ → Scan

pub scan_sfd : (fuel : ℕ) → Cells → Ptr → (sfd : ℕ) → Outcome Scan
scan_sfd zero h p sfd = out_of_fuel
scan_sfd (suc fuel) h p sfd = if p == null then ok (stopped_at p) else do
  e ← load h p
  let rest = scan_sfd fuel h e.next sfd
  if e.cdata.sfd == sfd then ok (stopped_at p) else if p == null then ok (early 1) else rest

-- The two relinking statements of `remove_client`.
pub unlink_next : Entry → ClientList → Outcome ClientList
unlink_next old s =
    if old.previous == null
    then ok (record s { cl_first = old.next })
    else set_next old.previous old.next s

pub unlink_previous : Entry → ClientList → Outcome ClientList
unlink_previous old s =
    if old.next == null
    then ok (record s { cl_last = old.previous })
    else set_previous old.next old.previous s

-- The user with write access is never left pointing at the removed entry.
pub drop_write : Ptr → ClientList → ClientList
drop_write p s =
    if p == s.user_write
    then record s { user_write = if p == s.user_docent then null else s.user_docent }
    else s

pub drop_docent : Ptr → ClientList → ClientList
drop_docent p s = if p == s.user_docent then record s { user_docent = null } else s

pub unlink : Ptr → ClientList → Outcome (ClientList × ℕ)
unlink p s = do
  old ← load s.cell p
  s ← unlink_next old s
  s ← unlink_previous old s
  let s = drop_docent p (drop_write p s)
  let s = record s { client_counter = (s.client_counter + 2 ^ 32 - 1) % 2 ^ 32 }
  let s = unlock_clientlist s
  ok (record s { cell = update s.cell p none }, 0)

-- The early return leaves the mutex locked.
unfoldable pub remove_client : (sfd : ℕ) → ClientList → Outcome (ClientList × ℕ)
remove_client sfd s = do
  s ← lock_clientlist s
  found ← scan_sfd max_entries s.cell s.cl_first sfd
  elim found [ early code ↦ ok (s, code) | stopped_at p ↦ unlink p s ]

unfoldable pub docent_exists : ClientList → ℕ
docent_exists s = if not (s.user_docent == null) then 1 else 0

unfoldable pub tutor_exists : ClientList → ℕ
tutor_exists s = if (s.user_write == null) || (s.user_docent == s.user_write) then 0 else 1

abbrev pub get_write_user : ClientList → Ptr
get_write_user s = s.user_write

abbrev pub set_write_user : Ptr → ClientList → ClientList
set_write_user p s = record s { user_write = p }

abbrev pub get_docent : ClientList → Ptr
get_docent s = s.user_docent

-- The loop of `get_user_sfd` and `get_user_cid`: the first entry that passes the test, or NULL.
find_user : (ClientData → Bool) → (fuel : ℕ) → Cells → Ptr → Outcome Ptr
unfolding load
find_user test zero h p = out_of_fuel
find_user test (suc fuel) h p = if p == null then ok p else do
  e ← load h p
  let rest = find_user test fuel h e.next
  if test e.cdata then ok p else rest

unfoldable pub get_user_sfd : (sfd : ℕ) → ClientList → Outcome Ptr
unfolding find_user
get_user_sfd sfd s = find_user (λ c. c.sfd == sfd) max_entries s.cell s.cl_first

unfoldable pub get_user_cid : (cid : ℕ) → ClientList → Outcome Ptr
unfolding find_user
get_user_cid cid s = find_user (λ c. c.cid == cid) max_entries s.cell s.cl_first

-- `p != NULL && p->cdata->sfd == sfd`, as 0 or 1.
is_user : Cells → Ptr → (sfd : ℕ) → Outcome ℕ
unfolding load
is_user h p sfd =
    if p == null then ok 0 else do e ← load h p; ok (if e.cdata.sfd == sfd then 1 else 0)

unfoldable pub has_write_access : (sfd : ℕ) → ClientList → Outcome ℕ
unfolding is_user
has_write_access sfd s = is_user s.cell s.user_write sfd

unfoldable pub is_docent : (sfd : ℕ) → ClientList → Outcome ℕ
unfolding is_user
is_docent sfd s = is_user s.cell s.user_docent sfd

-- The new value of `cid_counter`, and the client id.
unfoldable pub get_next_cid : (cid_counter : ℕ) → ℕ × ℕ
get_next_cid cid_counter =
    let next : ℕ = (cid_counter + 1) % 2 ^ 16 in
    (if next == 0 then (next + 2 ^ 16 - 1) % 2 ^ 16 else next, next)

abbrev pub get_client_count : ClientList → ℕ
get_client_count s = s.client_counter

unfoldable pub start_iteration : ClientList → Outcome (ClientList × Ptr)
unfolding lock_clientlist
start_iteration s = do s ← lock_clientlist s; ok (record s { iterator = s.cl_first }, s.cl_first)

unfoldable pub iteration_next : ClientList → Outcome (ClientList × Ptr)
unfolding load
iteration_next s = do e ← load s.cell s.iterator; ok (record s { iterator = e.next }, e.next)

unfoldable pub end_iteration : ClientList → ClientList
unfolding unlock_clientlist
end_iteration s = unlock_clientlist (record s { iterator = null })
