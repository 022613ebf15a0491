-- ===== src/Prelude/Starts.antt =====
-- Code that may end the process with std::exit before it gives a result.
use rpc4grad.Prelude.{ℕ, ◌≡◌, refl, ap, Outcome, ok, fault, Fault}

-- `exited` has the status that std::exit is given.
pub data Start {ℓ} (A : Type ℓ) : Type ℓ where
  started : A → Start A
  exited : ℕ → Start A
  broken : Fault → Start A

infixl 5 ◌then◌
abbrev pub ◌then◌ {ℓ κ} : {A : Type ℓ} {B : Type κ} → Start A → (A → Start B) → Start B
started a then next = next a
exited status then next = exited status
broken why then next = broken why

-- A part of the work that cannot end the process.
abbrev pub run_part {ℓ} : {A : Type ℓ} → Outcome A → Start A
run_part (ok a) = started a
run_part (fault why) = broken why

-- What both parts of a run that has started have given.
pub then-started {ℓ κ} :
    {A : Type ℓ} {B : Type κ} (first : Start A) (next : A → Start B) {b : B}
    → (first then next) ≡ started b
    → (a : A) × (first ≡ started a) × (next a ≡ started b)
then-started (started a) next e = (a, refl, e)
then-started (exited status) next e = absurd cc
then-started (broken why) next e = absurd cc

pub exited-ne-started {ℓ} : {A : Type ℓ} {status : ℕ} {a : A} → exited status ≡ started a → ⊥
exited-ne-started h = cc

pub started-injective {ℓ} : {A : Type ℓ} {a b : A} → started a ≡ started b → a ≡ b
started-injective h = cc

pub run_part-started {ℓ} : {A : Type ℓ} (r : Outcome A) {a : A} → run_part r ≡ started a → r ≡ ok a
run_part-started (ok b) h = ap ok (started-injective h)
run_part-started (fault why) h = absurd cc
