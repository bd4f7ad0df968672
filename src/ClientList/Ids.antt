-- ===== src/ClientList/Ids.antt =====
-- `get_next_cid`: the sequence of the client ids.
use virtual_blackboard.Prelude.{ℕ, zero, suc, ◌+◌, ◌<◌, ◌≡◌, ◌≢◌, refl, ltb, if◌then◌else◌, arith}
use virtual_blackboard.ClientList.{get_next_cid}

-- The counter after a number of logins, from the start of the server.
unfoldable pub counter_after : (logins : ℕ) → ℕ
counter_after zero = 0
counter_after (suc n) = (get_next_cid (counter_after n)).0

-- One call: the counter goes up by one and stays at its maximum, the id is the new value or 0.
pub get_next_cid_step :
    (c : ℕ)
    → c < 65536
    → ((get_next_cid c).0 ≡ (if ltb c 65535 then c + 1 else c))
      × ((get_next_cid c).1 ≡ (if ltb c 65535 then c + 1 else 0))
unfolding get_next_cid
get_next_cid_step c h = ground arith

pub get_next_cid_bound : (c : ℕ) → c < 65536 → (get_next_cid c).0 < 65536
get_next_cid_bound c h = ground (arith, get_next_cid_step c h)

counter_after_lem :
    (n : ℕ) → (counter_after n ≡ (if ltb n 65535 then n else 65535)) × (counter_after n < 65536)
unfolding counter_after
counter_after_lem zero = (refl, omega arith)
counter_after_lem (suc n) =
    let (value, bound) = counter_after_lem n in
    let step = get_next_cid_step (counter_after n) bound in (ground arith, ground arith)

-- The id of the login behind `n` others is n + 1 for the first 65535 logins, and every later login
-- gets 0, the mark of an exhausted counter.
pub get_next_cid-counter_after :
    (n : ℕ) → (get_next_cid (counter_after n)).1 ≡ (if ltb n 65535 then n + 1 else 0)
get_next_cid-counter_after n =
    let (value, bound) = counter_after_lem n in
    let step = get_next_cid_step (counter_after n) bound in ground arith

-- A successful call returns the new value of the counter, above the old one.
pub get_next_cid_fresh :
    (c : ℕ)
    → c < 65536
    → (get_next_cid c).1 ≢ 0
    → ((get_next_cid c).1 ≡ (get_next_cid c).0) × ((get_next_cid c).0 ≡ c + 1)
get_next_cid_fresh c h ne = ground (arith, get_next_cid_step c h)
