-- ===== src/MsgId/Digits.antt =====
-- Message ids as numbers: adding one to the digits adds one to the value.
use rpc4grad.Prelude.{
  ℕ, zero, suc, ◌+◌, ◌-◌, ◌*◌, ◌^◌, ◌≤◌, ◌<◌, ◌≡◌, ◌≢◌, refl, sym, ◌∙◌, ap, Bool-cases, inl, inr,
  Option, none, some, List, [], ◌∷◌, ◌++◌, length, take, replicate, get_or, take-suc, replicate-suc,
  append_assoc, ◌==◌, arith,
}
use native.Mathlib.Nat.{pow-suc}
use rpc4grad.MsgId.{last_non_nine, msg_id_length}

-- The number that the digits stand for, behind the digits that make up `acc`.
unfoldable pub value_from : ℕ → List ℕ → ℕ
value_from acc [] = acc
value_from acc (c ∷ cs) = value_from (acc * 10 + (c - b'0')) cs

abbrev pub value : List ℕ → ℕ
value s = value_from 0 s

abbrev pub AllDigits : List ℕ → Type 0
AllDigits [] = Unit {0}
AllDigits (c ∷ cs) = (b'0' ≤ c) × (c ≤ b'9') × AllDigits cs

-- A message id: twenty decimal digits.
pub record IsId (s : List ℕ) : Type 0 where
  pub long : length s ≡ msg_id_length
  pub digits : AllDigits s

value_from-append :
    (acc : ℕ) (xs ys : List ℕ) → value_from acc (xs ++ ys) ≡ value_from (value_from acc xs) ys
unfolding value_from
value_from-append acc [] ys = refl
value_from-append acc (x ∷ xs) ys = value_from-append (acc * 10 + (x - b'0')) xs ys

pub value_from-nines : (n acc : ℕ) → value_from acc (replicate n b'9') + 1 ≡ (acc + 1) * 10 ^ n
unfolding value_from
value_from-nines zero acc = omega arith
value_from-nines (suc n) acc =
    omega (arith, value_from-nines n (acc * 10 + 9), ap (λ (t : ℕ). (acc + 1) * t) (pow-suc 10 n))

pub value_from-zeros : (n acc : ℕ) → value_from acc (replicate n b'0') ≡ acc * 10 ^ n
unfolding value_from
value_from-zeros zero acc = omega arith
value_from-zeros (suc n) acc =
    omega (arith, value_from-zeros n (acc * 10 + 0), ap (λ (t : ℕ). acc * t) (pow-suc 10 n))

-- What the loop over the nines has found in the first `k` digits.
abbrev pub Split : ℕ → List ℕ → Option ℕ → Type 0
Split k s none = take k s ≡ replicate k b'9'
Split k s (some i) =
    (i < k)
    × (get_or s i 0 ≢ b'9')
    × (take k s ≡ take i s ++ (get_or s i 0 ∷ replicate (k - i - 1) b'9'))

pub last_non_nine-Split : (k : ℕ) (s : List ℕ) → k ≤ length s → Split k s (last_non_nine k s)
unfolding last_non_nine
last_non_nine-Split zero s h = refl
last_non_nine-Split (suc k) s h = elim (Bool-cases (get_or s k 0 == b'9')) [
  | inl nine ↦
      rw (nine, last_non_nine)
        (extend (last_non_nine k s) (last_non_nine-Split k s (omega arith)) (ground arith))
  | inr other ↦ rw (other, last_non_nine) (found (ground arith))
]
  where
    extend : (r : Option ℕ) → Split k s r → get_or s k 0 ≡ b'9' → Split (suc k) s r
    extend none p e = take-suc k s 0 h ∙ rw (p, e) (replicate-suc k b'9')
    extend (some i) (lt, ne, p) e =
        let n : suc (k - i - 1) ≡ suc k - i - 1 = omega arith in
        (
          omega arith,
          ne,
          take-suc k s 0 h
              ∙ rw (p, e)
                  (append_assoc (take i s) (get_or s i 0 ∷ replicate (k - i - 1) b'9') (b'9' ∷ []))
              ∙ ap (λ t. take i s ++ (get_or s i 0 ∷ t))
                  (replicate-suc (k - i - 1) b'9' ∙ ap (λ j. replicate j b'9') n),
        )

    found : get_or s k 0 ≢ b'9' → Split (suc k) s (some k)
    found ne =
        let n : 0 ≡ suc k - k - 1 = omega arith in
        (
          omega arith,
          ne,
          take-suc k s 0 h ∙ ap (λ j. take k s ++ (get_or s k 0 ∷ replicate j b'9')) n,
        )

AllDigits-append : (xs ys : List ℕ) → AllDigits xs → AllDigits ys → AllDigits (xs ++ ys)
AllDigits-append [] ys d e = e
AllDigits-append (x ∷ xs) ys d e = (d.0, d.1, AllDigits-append xs ys d.2 e)

AllDigits-left : (xs ys : List ℕ) → AllDigits (xs ++ ys) → AllDigits xs
AllDigits-left [] ys d = tt
AllDigits-left (x ∷ xs) ys d = (d.0, d.1, AllDigits-left xs ys d.2)

AllDigits-right : (xs ys : List ℕ) → AllDigits (xs ++ ys) → AllDigits ys
AllDigits-right [] ys d = d
AllDigits-right (x ∷ xs) ys d = AllDigits-right xs ys d.2

pub AllDigits-zeros : (n : ℕ) → AllDigits (replicate n b'0')
AllDigits-zeros zero = tt
AllDigits-zeros (suc n) = (omega arith, omega arith, AllDigits-zeros n)

-- The step of a digit that is not a nine, with nines behind it.
pub carry :
    (pre : List ℕ) (c m : ℕ)
    → AllDigits (pre ++ (c ∷ replicate m b'9'))
    → c ≢ b'9'
    → (value (pre ++ ((c + 1) ∷ replicate m b'0')) ≡ value (pre ++ (c ∷ replicate m b'9')) + 1)
      × AllDigits (pre ++ ((c + 1) ∷ replicate m b'0'))
unfolding value_from
carry pre c m d ne =
    let digit = AllDigits-right pre (c ∷ replicate m b'9') d in
    let a = value_from 0 pre in
    let low : b'0' ≤ c = digit.0 in
    let same : a * 10 + (c - b'0') + 1 ≡ a * 10 + (c + 1 - b'0') = omega arith in
    (
      value_from-append 0 pre ((c + 1) ∷ replicate m b'0')
          ∙ value_from-zeros m (a * 10 + (c + 1 - b'0'))
          ∙ ap (λ t. t * 10 ^ m) (sym same)
          ∙ sym (value_from-nines m (a * 10 + (c - b'0')))
          ∙ ap (λ t. t + 1) (sym (value_from-append 0 pre (c ∷ replicate m b'9'))),
      AllDigits-append pre ((c + 1) ∷ replicate m b'0')
          (AllDigits-left pre (c ∷ replicate m b'9') d)
          (omega arith, omega arith, AllDigits-zeros m),
    )

mul-le_left : (h : ℕ) {w m : ℕ} → w ≤ m → w * h ≤ m * h
mul-le_left h p = grind arith

pub value_from-lt :
    (acc : ℕ) (s : List ℕ) → AllDigits s → value_from acc s < (acc + 1) * 10 ^ length s
unfolding value_from
value_from-lt acc [] d = omega arith
value_from-lt acc (c ∷ cs) d =
    let digit : acc * 10 + (c - b'0') + 1 ≤ (acc + 1) * 10 = omega arith in
    omega (
      arith,
      value_from-lt (acc * 10 + (c - b'0')) cs d.2,
      mul-le_left (10 ^ length cs) digit,
      ap (λ (t : ℕ). (acc + 1) * t) (pow-suc 10 (length cs)),
    )
