-- ===== src/Client/Window/Refresh.antt =====
-- What `update_gui_state` makes of the user's data.
use virtual_blackboard.Prelude.{
  ℕ, ◌≤◌, ◌<◌, ◌≡◌, refl, false, not, inl, inr, Bool-cases, List, [], ◌∷◌, length, length-append,
  ◌==◌, Returns, returns, arith,
}
use virtual_blackboard.Client.State.{Window, Client, cdata_lock, cdata_unlock}
use virtual_blackboard.Client.Print.{decimal, length-decimal, sprintf_fits}
use virtual_blackboard.Client.Window.{
  version_text, write_text, role_name, role_text, users_text, request_text, update_gui_state,
}

-- The texts fit into the buffer of 256 bytes, the user's name if it has at most 180 bytes.
write_text_fits : (write : ℕ) → length (write_text write) < 256
unfolding write_text
write_text_fits write = elim (Bool-cases (write == 0)) [
  | inl none ↦ rw none (omega arith)
  | inr some ↦ rw some (omega arith)
]

request_text_fits : (write : ℕ) → length (request_text write) < 256
unfolding request_text
request_text_fits write = elim (Bool-cases (write == 0)) [
  | inl none ↦ rw none (omega arith)
  | inr some ↦ rw some (omega arith)
]

pub version_text_fits : (now : ℕ) → length (version_text now) < 256
unfolding version_text
version_text_fits now = omega (arith, length-append (decimal now) (93 ∷ []), length-decimal now)

users_text_fits : (d t s : ℕ) → length (users_text d t s) < 256
unfolding users_text
users_text_fits d t s =
    omega (arith, length-append {0}, length-decimal d, length-decimal t, length-decimal s)

role_name_fits : (role write : ℕ) → length (role_name role write) ≤ 7
unfolding role_name
role_name_fits role write = elim (Bool-cases (role == 2)) [
  | inl lead ↦ rw lead (omega arith)
  | inr other ↦ elim (Bool-cases (write == 0)) [
    | inl none ↦ rw (other, none) (omega arith)
    | inr some ↦ rw (other, some) (omega arith)
  ]
]

role_text_fits :
    (name : List ℕ) (role write cid : ℕ)
    → length name ≤ 180
    → length (role_text name role write cid) < 256
unfolding role_text
role_text_fits name role write cid h =
    omega (arith, length-append {0}, length-decimal cid, role_name_fits role write)

-- What the window lets the user do: a docent may take the write access back and stop the system,
-- the others may ask for the access or give it back, and only its owner may write.
abbrev pub Allows : (role write : ℕ) → Window → Type 0
Allows role write v =
    (v.request_write ≡ not (role == 2))
    × (v.remove_permissions ≡ (role == 2))
    × (v.quit_all ≡ (role == 2))
    × (v.log_blackboard ≡ not (write == 0))
    × (v.editable ≡ not (write == 0))

-- The user's data are as before, and the connection too.
abbrev pub SameData : Client → Client → Type 0
SameData c u =
    (u.cid ≡ c.cid)
    × (u.role ≡ c.role)
    × (u.write ≡ c.write)
    × (u.dozenten ≡ c.dozenten)
    × (u.tutoren ≡ c.tutoren)
    × (u.studenten ≡ c.studenten)
    × (u.name ≡ c.name)
    × (u.stream ≡ c.stream)
    × (u.sent ≡ c.sent)
    × (u.cdata_mutex ≡ false)

pub update_gui_state-Allows :
    (c : Client)
    → c.cdata_mutex ≡ false
    → length c.name ≤ 180
    → Returns (λ u. SameData c u × Allows c.role c.write u.window) (update_gui_state c)
unfolding update_gui_state cdata_lock cdata_unlock
update_gui_state-Allows c free short =
    rw
      (
        free,
        sprintf_fits 256 _ (write_text_fits c.write),
        sprintf_fits 256 _ (role_text_fits c.name c.role c.write c.cid short),
        sprintf_fits 256 _ (version_text_fits c.now),
        sprintf_fits 256 _ (users_text_fits c.dozenten c.tutoren c.studenten),
        sprintf_fits 256 _ (request_text_fits c.write),
      )
      (returns (
        (refl, refl, refl, refl, refl, refl, refl, refl, refl, refl),
        (refl, refl, refl, refl, refl),
      ))
