-- ===== src/Prelude/Faults.antt =====
-- The result of C++ code that may leave the defined behaviour of the language.
use mathlib.Core.Path.{◌≡◌, refl, sym}
use mathlib.Core.Logic.{◌⊎◌, inl, inr}
use mathlib.Core.Bool.{Bool, true, false}

-- Why a run has no defined result: an access outside the object, a signed overflow, an exception
-- that no handler of the code catches, a call on a null pointer, or an unlock of a
-- mutex that is not held.
pub data Fault : Type 0 where
  out_of_bounds signed_overflow length_error null_pointer not_locked invalid_argument : Fault

pub data Outcome {ℓ} (A : Type ℓ) : Type ℓ where
  ok : A → Outcome A
  fault : Fault → Outcome A

-- A run that goes on with what the first part gives, unless that part has a fault.
infixl 5 ◌>>=◌ ◌>>◌
abbrev pub ◌>>=◌ {ℓ κ} : {S : Type ℓ} {T : Type κ} → Outcome S → (S → Outcome T) → Outcome T
fault why >>= next = fault why
ok s >>= next = next s

abbrev pub ◌>>◌ {κ} : {T : Type κ} → Outcome (Unit {0}) → Outcome T → Outcome T
fault why >> rest = fault why
ok done >> rest = rest

-- The code relies on `b`; where it fails the behaviour is the fault.
abbrev pub require : Bool → Fault → Outcome (Unit {0})
require false why = fault why
require true why = ok tt

pub ok-ne-fault {ℓ} : {A : Type ℓ} {a : A} {e : Fault} → ok a ≡ fault e → ⊥
ok-ne-fault h = cc

-- The first part of a run without a fault has none.
pub >>=-eq-ok {ℓ κ} :
    {S : Type ℓ} {T : Type κ} (run : Outcome S) (next : S → Outcome T) {t : T}
    → (run >>= next) ≡ ok t
    → (s : S) × (run ≡ ok s) × (next s ≡ ok t)
>>=-eq-ok (fault why) next e = absurd (ok-ne-fault (sym e))
>>=-eq-ok (ok s) next e = (s, refl, e)

pub ok-injective {ℓ} : {A : Type ℓ} {a b : A} → ok a ≡ ok b → a ≡ b
ok-injective h = cc

pub Outcome-cases {ℓ} :
    {A : Type ℓ} (r : Outcome A) → ((a : A) × (r ≡ ok a)) ⊎ ((e : Fault) × (r ≡ fault e))
Outcome-cases (ok a) = inl (a, refl)
Outcome-cases (fault e) = inr (e, refl)
