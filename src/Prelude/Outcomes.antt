-- ===== src/Prelude/Outcomes.antt =====
-- What a call comes to: a value, or the end of the process (`LOG(FATAL)`, `UNREACHABLE()`, or the
-- exception of `at` on a missing key).
use mathlib.Core.Path.{◌≡◌, refl}
use mathlib.Core.Logic.{◌⊎◌, inl, inr}
use mathlib.Core.Option.{Option, none, some}
use mathlib.Core.Bool.{Bool, true, false}

pub data Outcome {ℓ} (A : Type ℓ) : Type ℓ where
  ok : A → Outcome A
  fatal : Outcome A

infixl 5 ◌>>=◌
abbrev pub ◌>>=◌ {κ ℓ} : {B : Type κ} {A : Type ℓ} → Outcome A → (A → Outcome B) → Outcome B
fatal >>= next = fatal
ok x >>= next = next x

-- `CHECK`, and every `if (...) LOG(FATAL)`.
abbrev pub require : Bool → Outcome (Unit {0})
require true = ok tt
require false = fatal

-- `at` of a map or a vector.
abbrev pub at_or_fatal {ℓ} : {A : Type ℓ} → Option A → Outcome A
at_or_fatal none = fatal
at_or_fatal (some a) = ok a

infixl 5 ◌>>◌
abbrev pub ◌>>◌ {κ} : {B : Type κ} → Outcome (Unit {0}) → Outcome B → Outcome B
check >> after = check >>= λ unit. after

-- A chain that came to a value went through one.
pub >>=-eq-ok {κ ℓ} :
    {B : Type κ} {A : Type ℓ} {end : B} (first : Outcome A) (next : A → Outcome B)
    → (first >>= next) ≡ ok end
    → (x : A) × (first ≡ ok x) × (next x ≡ ok end)
>>=-eq-ok fatal next e = cc
>>=-eq-ok (ok x) next e = (x, refl, e)

pub ok-injective {ℓ} : {A : Type ℓ} (a b : A) → ok a ≡ ok b → a ≡ b
ok-injective a b h = cc

pub Outcome-cases {ℓ} : {A : Type ℓ} (o : Outcome A) → (o ≡ fatal) ⊎ ((a : A) × (o ≡ ok a))
Outcome-cases fatal = inl refl
Outcome-cases (ok a) = inr (a, refl)
