-- ===== src/NetAddr/Decimal.antt =====
-- The decimal digits of a number, and what strtol reads from them.
use rpc4grad.Prelude.{
  ℕ, zero, suc, ◌+◌, ◌-◌, ◌*◌, ◌/◌, ◌%◌, ◌<◌, ◌≡◌, refl, sym, ◌∙◌, ap, subst, ◌&&◌, ◌||◌, arith,
  Bool, true, false, Bool-cases, inl, inr, List, [], ◌∷◌, ◌++◌, Option, none, some, ltb, ltb→lt,
  leb, ◌==◌, if◌then◌else◌,
}
use rpc4grad.Prelude.Int.{pos}
use rpc4grad.MsgId.Digits.{value_from, AllDigits}
use rpc4grad.NetAddr.{is_digit, digits_value, unsigned, skip_space, signed, decimal, is_nil}

-- 10 ^ fuel.
abbrev pub power : ℕ → ℕ
power zero = 1
power (suc f) = 10 * power f

AllDigits-snoc : (ds : List ℕ) (d : ℕ) → d < 10 → AllDigits ds → AllDigits (ds ++ ((d + b'0') ∷ []))
AllDigits-snoc [] d h a = (omega arith, omega arith, tt)
AllDigits-snoc (c ∷ cs) d h a = (a.0, a.1, AllDigits-snoc cs d h a.2)

value_from-snoc :
    (acc : ℕ) (ds : List ℕ) (d : ℕ)
    → value_from acc (ds ++ ((d + b'0') ∷ [])) ≡ value_from acc ds * 10 + d
unfolding value_from
value_from-snoc acc [] d = omega arith
value_from-snoc acc (c ∷ cs) d = value_from-snoc (acc * 10 + (c - b'0')) cs d

decimal-AllDigits : (fuel n : ℕ) → AllDigits (decimal fuel n)
unfolding decimal
decimal-AllDigits zero n = tt
decimal-AllDigits (suc fuel) n = elim (Bool-cases (ltb n 10)) [
  | inl e ↦ let h : n < 10 = ltb→lt n 10 e in rw e (omega arith, omega arith, tt)
  | inr e ↦ rw e (
      AllDigits-snoc (decimal fuel (n / 10)) (n % 10) (omega arith)
        (decimal-AllDigits fuel (n / 10)))
]

decimal-value : (fuel n : ℕ) → n < power fuel → value_from 0 (decimal fuel n) ≡ n
unfolding decimal value_from
decimal-value zero n h = omega arith
decimal-value (suc fuel) n h = elim (Bool-cases (ltb n 10)) [
  | inl e ↦ rw e (omega arith)
  | inr e ↦
      let k = decimal-value fuel (n / 10) (omega arith) in
      rw e (value_from-snoc 0 (decimal fuel (n / 10)) (n % 10) ∙ omega (arith, k))
]

digits_value-AllDigits :
    (acc : ℕ) (ds : List ℕ) → AllDigits ds → digits_value acc ds ≡ value_from acc ds
unfolding digits_value value_from
digits_value-AllDigits acc [] a = refl
digits_value-AllDigits acc (c ∷ cs) a =
    let d : is_digit c ≡ true = ground (arith, a.0, a.1) in
    rw d (digits_value-AllDigits (acc * 10 + (c - b'0')) cs a.2)

unsigned-AllDigits :
    (c : ℕ) (cs : List ℕ) → AllDigits (c ∷ cs) → unsigned (c ∷ cs) ≡ some (value_from 0 (c ∷ cs))
unfolding unsigned
unsigned-AllDigits c cs a =
    let d : is_digit c ≡ true = ground (arith, a.0, a.1) in
    if_true (is_digit c) (some (digits_value 0 (c ∷ cs))) none d
    ∙ ap some (digits_value-AllDigits 0 (c ∷ cs) a)
  where
    if_true : (t : Bool) (x y : Option ℕ) → t ≡ true → (if t then x else y) ≡ x
    if_true true x y e = refl
    if_true false x y e = cc

-- Digits are read as the number that they make.
signed-AllDigits :
    (c : ℕ) (cs : List ℕ)
    → AllDigits (c ∷ cs)
    → signed (skip_space (c ∷ cs)) ≡ some (pos (value_from 0 (c ∷ cs)))
unfolding signed skip_space
signed-AllDigits c cs a =
    let no_space : ((c == b' ') || (leb 9 c && leb c 13)) ≡ false = ground (arith, a.0, a.1) in
    let no_minus : (c == b'-') ≡ false = ground (arith, a.0) in
    let no_plus : (c == b'+') ≡ false = ground (arith, a.0) in
    rw (no_space, skip_space, signed, no_minus, no_plus, unsigned-AllDigits c cs a)

decimal-cons : (fuel n : ℕ) → (c : ℕ) × (cs : List ℕ) × (decimal (suc fuel) n ≡ c ∷ cs)
unfolding decimal
decimal-cons fuel n = elim (Bool-cases (ltb n 10)) [
  | inl e ↦ (n + b'0', [], rw e)
  | inr e ↦ let (c, cs, k) = append-cons (decimal fuel (n / 10)) (n % 10 + b'0') in (c, cs, rw e k)
]
  where
    append-cons : (xs : List ℕ) (y : ℕ) → (c : ℕ) × (cs : List ℕ) × (xs ++ (y ∷ []) ≡ c ∷ cs)
    append-cons [] y = (y, [], refl)
    append-cons (x ∷ xs) y = (x, xs ++ (y ∷ []), refl)

-- The digits of a number are not empty, and are read back as the number.
pub signed-decimal : (n : ℕ) → n < 100000 → signed (skip_space (decimal 5 n)) ≡ some (pos n)
signed-decimal n h =
    let (c, cs, e) = decimal-cons 4 n in
    let a = subst AllDigits e (decimal-AllDigits 5 n) in
    ap (λ t. signed (skip_space t)) e
    ∙ signed-AllDigits c cs a
    ∙ ap (λ t. some (pos (value_from 0 t))) (sym e)
    ∙ ap (λ t. some (pos t)) (decimal-value 5 n h)

pub decimal-nonempty : (n : ℕ) → is_nil (decimal 5 n) ≡ false
decimal-nonempty n = let (c, cs, e) = decimal-cons 4 n in ap is_nil e
