-- ===== src/Client/Print.antt =====
-- `sprintf` into a buffer, for the formats that the client uses.
use virtual_blackboard.Prelude.{
  ℕ, zero, suc, ◌+◌, ◌/◌, ◌%◌, ◌≤◌, ◌<◌, ◌≡◌, List, [], ◌∷◌, length, ltb, if◌then◌else◌, Outcome,
  ok, fault, arith,
}

-- The decimal digits of a number in front of `acc`, at most `n` of them.
digits : (n : ℕ) → (value : ℕ) → List ℕ → List ℕ
digits zero value acc = acc
digits (suc n) value acc =
    let rest = digits n (value / 10) ((48 + value % 10) ∷ acc) in
    if ltb value 10 then (48 + value) ∷ acc else rest

-- `%i` and `%li`: a `long int` has at most 19 digits.
unfoldable pub decimal : ℕ → List ℕ
unfolding digits
decimal value = digits 19 value []

length-digits : (n value : ℕ) (acc : List ℕ) → length (digits n value acc) ≤ n + length acc
unfolding digits
length-digits zero value acc = omega arith
length-digits (suc n) value acc =
    ground (arith, length-digits n (value / 10) ((48 + value % 10) ∷ acc))

pub length-decimal : (value : ℕ) → length (decimal value) ≤ 19
unfolding decimal
length-decimal value = omega (arith, length-digits 19 value [])

-- The text and its NUL must fit into the buffer: a longer text is written past its end.
unfoldable pub sprintf : (capacity : ℕ) → List ℕ → Outcome (List ℕ)
sprintf capacity text = if ltb (length text) capacity then ok text else fault

pub sprintf_fits :
    (capacity : ℕ) (text : List ℕ) → length text < capacity → sprintf capacity text ≡ ok text
unfolding sprintf
sprintf_fits capacity text h = ground arith

pub sprintf_overflow :
    (capacity : ℕ) (text : List ℕ) → capacity ≤ length text → sprintf capacity text ≡ fault
unfolding sprintf
sprintf_overflow capacity text h = ground arith
