-- ===== src/Net/Strings.antt =====
-- C strings in byte memory.
use Prim.Native.Char.{code}
use Prim.Native.String.{String}
use virtual_blackboard.Prelude.{
  ℕ, suc, ◌≡◌, ◌≢◌, refl, false, List, [], ◌∷◌, ◌++◌, length, ◌==◌, if◌then◌else◌, Outcome, ok,
  fault, ◌>>=◌, arith,
}

-- The bytes of an ASCII literal.
abbrev pub codes : String → List ℕ
codes String.[] = []
codes (String.◌∷◌ c s) = code c ∷ codes s

-- `strlen` of a string at the start of a block of memory. Reading past the block is a fault.
unfoldable pub strlen : List ℕ → Outcome ℕ
strlen [] = fault
strlen (c ∷ cs) = let rest = strlen cs in if c == 0 then ok 0 else rest >>= λ n. ok (suc n)

-- The string at the start of a block of memory.
unfoldable pub text_of : List ℕ → List ℕ
text_of [] = []
text_of (c ∷ cs) = if c == 0 then [] else c ∷ text_of cs

-- No byte of the list is NUL.
abbrev pub NoNul : List ℕ → Type 0
NoNul [] = Unit {0}
NoNul (c ∷ cs) = (c ≢ 0) × NoNul cs

-- A block of text and a NUL holds the text.
pub strlen-append : (cs rest : List ℕ) → NoNul cs → strlen (cs ++ 0 ∷ rest) ≡ ok (length cs)
unfolding strlen
strlen-append [] rest h = refl
strlen-append (c ∷ cs) rest h =
    let z : (c == 0) ≡ false = ground (arith, h.0) in rw (strlen-append cs rest h.1, z)

pub text_of-append : (cs rest : List ℕ) → NoNul cs → text_of (cs ++ 0 ∷ rest) ≡ cs
unfolding text_of
text_of-append [] rest h = refl
text_of-append (c ∷ cs) rest h =
    let z : (c == 0) ≡ false = ground (arith, h.0) in rw (z, text_of-append cs rest h.1)
