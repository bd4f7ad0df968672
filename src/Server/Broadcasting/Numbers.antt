-- ===== src/Server/Broadcasting/Numbers.antt =====
-- The status message that src/server/broadcasting.c makes for one client, byte by byte.
use virtual_blackboard.Prelude.{
  ℕ, ◌+◌, ◌-◌, ◌/◌, ◌%◌, ◌^◌, ◌≤◌, ◌<◌, ◌≡◌, refl, true, false, List, [], ◌∷◌, length, ◌==◌,
  if◌then◌else◌, inl, inr, arith,
}
use virtual_blackboard.ClientList.{ClientList, docent_exists, tutor_exists}
use virtual_blackboard.ClientList.Seg.{Ptr, null, ClientData, Roster, has}
use virtual_blackboard.ClientList.Represents.{Held, Represents}
use virtual_blackboard.Net.{htons}
use virtual_blackboard.Net.Build.{build_status}
use virtual_blackboard.Server.Broadcasting.{user_counts, status_message}

-- The docents, who are one at most, the tutors, who are the users with write access that are no
-- docent, and the students.
abbrev pub docents : ClientList → ℕ
docents s = if s.user_docent == null then 0 else 1

abbrev pub tutors : ClientList → ℕ
tutors s = if s.user_write == null then 0 else if s.user_write == s.user_docent then 0 else 1

abbrev pub students : ClientList → Roster → ℕ
students s xs = length xs - docents s - tutors s

-- The type 1, a length of 8, the role, the id, the permission and the three numbers, with the id and
-- the number of students in network order.
abbrev pub status_bytes : ClientList → Roster → Ptr → ClientData → List ℕ
status_bytes s xs p c =
    1
    ∷ 0
    ∷ 8
    ∷ c.role
    ∷ c.cid / 256 % 256
    ∷ c.cid % 256
    ∷ (if p == s.user_write then 1 else 0)
    ∷ docents s
    ∷ tutors s
    ∷ students s xs / 256 % 256
    ∷ students s xs % 256
    ∷ []

one_member : (p : Ptr) (xs : Roster) → has p xs ≡ true → 1 ≤ length xs
one_member p [] h = absurd (ground arith)
one_member p (n ∷ xs) h = omega arith

two_members :
    (p q : Ptr) (xs : Roster) → has p xs ≡ true → has q xs ≡ true → (p == q) ≡ false → 2 ≤ length xs
two_members p q [] h k ne = absurd (ground arith)
two_members p q (n ∷ xs) h k ne = ground (arith, one_member p xs, one_member q xs)

-- There are as many clients as docents and tutors at least.
staff-le :
    (s : ClientList) (xs : Roster)
    → Held s.user_docent xs
    → Held s.user_write xs
    → docents s + tutors s ≤ length xs
staff-le s xs (inl a) (inl b) = ground arith
staff-le s xs (inl a) (inr b) = ground (arith, one_member s.user_write xs)
staff-le s xs (inr a) (inl b) = ground (arith, one_member s.user_docent xs)
staff-le s xs (inr a) (inr b) =
    ground (arith, one_member s.user_docent xs, two_members s.user_write s.user_docent xs)

docents_lem : (s : ClientList) → docent_exists s ≡ docents s
unfolding docent_exists
docents_lem s = ground arith

tutors_lem : (s : ClientList) → tutor_exists s ≡ tutors s
unfolding tutor_exists
tutors_lem s = ground arith

students_lem :
    (s : ClientList) (xs : Roster)
    → Represents s xs
    → length xs < 65536
    → (s.client_counter + 2 ^ 32 - docents s - tutors s) % 2 ^ 16 ≡ students s xs
students_lem s xs r few = omega (arith, r.counted, staff-le s xs r.docent_held r.write_held)

pub status_message-bytes :
    (s : ClientList) (xs : Roster)
    → Represents s xs
    → length xs < 65536
    → (p : Ptr) (c : ClientData) → status_message s p c ≡ (status_bytes s xs p c, 11)
unfolding status_message user_counts build_status htons
status_message-bytes s xs r few p c = rw (docents_lem s, tutors_lem s, students_lem s xs r few) refl
