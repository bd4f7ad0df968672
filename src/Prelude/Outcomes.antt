-- ===== src/Prelude/Outcomes.antt =====
-- What a call of C code comes to, and the state monad over it.
use mathlib.Core.Path.{◌≡◌, refl, subst}
use mathlib.Core.Bool.{Bool, true, false}
use virtual_blackboard.Prelude.Tests.{if◌then◌else◌}

-- `fault` is undefined behaviour (a read or write through a null or dangling pointer), `blocked` a
-- wait that nobody ends, `exited` a call of `exit(EXIT_FAILURE)`, and `out_of_fuel` says that the
-- bound on a loop's rounds was too small.
pub data Outcome (A : Type 0) : Type 0 where
  ok : A → Outcome A
  fault : Outcome A
  blocked : Outcome A
  exited : Outcome A
  out_of_fuel : Outcome A

infixl 5 ◌>>=◌ ◌>>◌
abbrev pub ◌>>=◌ : {A B : Type 0} → Outcome A → (A → Outcome B) → Outcome B
ok a >>= f = f a
fault >>= f = fault
blocked >>= f = blocked
exited >>= f = exited
out_of_fuel >>= f = out_of_fuel

abbrev pub ◌>>◌ : {A B : Type 0} → Outcome A → Outcome B → Outcome B
m >> k = m >>= λ _. k

-- The outcome is a value, and the value has the property.
pub data Returns {A : Type 0} (P : A → Type 0) : Outcome A → Type 0 where
  returns : {a : A} → P a → Returns P (ok a)

pub Returns-bind :
    {A B : Type 0} {P : A → Type 0} {Q : B → Type 0} {m : Outcome A} {k : A → Outcome B}
    → Returns P m
    → ((a : A) → P a → Returns Q (k a))
    → Returns Q (m >>= k)
Returns-bind (returns p) next = next _ p

pub Returns-mono :
    {A : Type 0} {P Q : A → Type 0} {m : Outcome A}
    → Returns P m
    → ((a : A) → P a → Q a)
    → Returns Q m
Returns-mono (returns p) weaken = returns (weaken _ p)

-- A value that is returned, with its property.
pub Returns-value :
    {A : Type 0} {P : A → Type 0} {m : Outcome A} → Returns P m → (a : A) × (m ≡ ok a) × P a
Returns-value (returns {a} p) = (a, refl, p)

-- What a returned value has, and what every value has.
pub Returns-and :
    {A : Type 0} {P Q : A → Type 0} {m : Outcome A}
    → Returns P m
    → ((a : A) → m ≡ ok a → Q a)
    → Returns (λ a. P a × Q a) m
Returns-and (returns {a} p) q = returns (p, q a refl)

pub Returns-if :
    {A : Type 0} {P : A → Type 0} {m n : Outcome A} (b : Bool)
    → Returns P m
    → Returns P n
    → Returns P (if b then m else n)
Returns-if true p q = p
Returns-if false p q = q

-- The value, if the outcome is one, has the property.
abbrev pub Keeps : {A : Type 0} → (A → Type 0) → Outcome A → Type 0
Keeps {A} P m = (a : A) → m ≡ ok a → P a

ok_injective : {A : Type 0} {a b : A} → ok a ≡ ok b → a ≡ b
ok_injective e = cc

pub Returns-Keeps : {A : Type 0} {P : A → Type 0} {m : Outcome A} → Returns P m → Keeps P m
Returns-Keeps {A} {P} (returns p) b e = subst P (ok_injective e) p

pub Keeps-fault : {A : Type 0} (P : A → Type 0) {m : Outcome A} → m ≡ fault → Keeps P m
Keeps-fault P e a got = absurd cc

pub Keeps-if :
    {A : Type 0} {P : A → Type 0} {m n : Outcome A} (b : Bool)
    → Keeps P m
    → Keeps P n
    → Keeps P (if b then m else n)
Keeps-if true p q = p
Keeps-if false p q = q
