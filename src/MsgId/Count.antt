-- ===== src/MsgId/Count.antt =====
-- generateMsgId: the ids that it hands out, one after the other.
use rpc4grad.Prelude.{
  ◌⊎◌, ◌++◌, ap₂, ==_iff, Outcome, ok, fault, out_of_bounds, ◌>>=◌, ℕ, zero, suc, ◌+◌, ◌-◌, ◌*◌,
  ◌^◌, ◌<◌, ◌≡◌, ◌≢◌, refl, sym, ◌∙◌, ap, subst, true, false, Bool-cases, inl, inr, Option, none,
  some, List, [], ◌∷◌, length, take, replicate, get_or, take_all, length-append, length-replicate,
  length-take, ◌==◌, arith,
}
use rpc4grad.MsgId.{
  MsgIds, empty_ids, last_non_nine, next_id, random_id, generate_msg_id, msg_id_length, str_eq,
  is_empty,
}
use rpc4grad.MsgId.Digits.{
  IsId, AllDigits, value, value_from, value_from-nines, value_from-lt, last_non_nine-Split, Split,
  carry,
}

next_id-some :
    {s : List ℕ} (i : ℕ)
    → IsId s
    → last_non_nine (length s) s ≡ some i
    → Split (length s) s (some i)
    → (t : List ℕ) × (next_id s ≡ ok t) × IsId t × (value t ≡ value s + 1)
unfolding next_id
next_id-some {s} i v e (lt, ne, p) =
    let whole = sym (take_all (length s) s (omega arith)) ∙ p in
    let (up, ds) =
      carry (take i s) (get_or s i 0) (length s - i - 1) (subst AllDigits whole v.digits) ne in
    (
      take i s ++ ((get_or s i 0 + 1) ∷ replicate (length s - i - 1) b'0'),
      rw (next_id, e),
      record {
        long = omega (
          arith,
          v.long,
          length-append (take i s) ((get_or s i 0 + 1) ∷ replicate (length s - i - 1) b'0'),
          length-take i s,
          length-replicate {A = ℕ} (length s - i - 1) b'0',
        );
        digits = ds;
      },
      up ∙ ap (λ t. value t + 1) (sym whole),
    )

-- Where the loop passes the first digit the id is the largest.
nines-largest : {s : List ℕ} → IsId s → Split (length s) s none → value s + 1 ≡ 10 ^ 20
nines-largest {s} v p =
    let whole = sym (take_all (length s) s (omega arith)) ∙ p in
    ap (λ t. value t + 1) whole
    ∙ ap (λ n. value (replicate n b'9') + 1) v.long
    ∙ value_from-nines 20 0

value-lt_id : {s : List ℕ} → IsId s → value s < 10 ^ 20
value-lt_id {s} v =
    subst (λ n. value_from 0 s < (0 + 1) * 10 ^ n) v.long (value_from-lt 0 s v.digits)

-- The next id is again twenty digits and the last one plus one, but for the largest, where the loop
-- reads in front of the string.
next_id-counts :
    {s : List ℕ}
    → IsId s
    → ((t : List ℕ) × (next_id s ≡ ok t) × IsId t × (value t ≡ value s + 1))
      ⊎ ((next_id s ≡ fault out_of_bounds) × (value s + 1 ≡ 10 ^ 20))
unfolding next_id
next_id-counts {s} v =
    go (last_non_nine (length s) s) refl (last_non_nine-Split (length s) s (omega arith))
  where
    go :
        (r : Option ℕ)
        → last_non_nine (length s) s ≡ r
        → Split (length s) s r
        → ((t : List ℕ) × (next_id s ≡ ok t) × IsId t × (value t ≡ value s + 1))
          ⊎ ((next_id s ≡ fault out_of_bounds) × (value s + 1 ≡ 10 ^ 20))
    go none e p = inr (rw (next_id, e), nines-largest v p)
    go (some i) e p = inl (next_id-some i v e p)

random_id-digits : (xs : List ℕ) → AllDigits (random_id xs) × (length (random_id xs) ≡ length xs)
unfolding random_id
random_id-digits [] = (tt, refl)
random_id-digits (x ∷ xs) =
    let (d, l) = random_id-digits xs in ((omega arith, omega arith, d), omega arith)

-- What generateMsgId leaves: an id of twenty digits, and nines only in the maximum.
pub record IsStarted (s : MsgIds) : Type 0 where
  pub id : IsId s.msg_id_no
  pub nines : (k : ℕ) × (s.max_msg_id_no ≡ replicate k b'9')

-- A first id is made of the bytes that were read, and is twenty digits.
pub generate_msg_id-first :
    (bytes : List ℕ)
    → length bytes ≡ 20
    → (s : MsgIds) × (generate_msg_id bytes empty_ids ≡ ok (s.msg_id_no, s)) × IsStarted s
unfolding generate_msg_id is_empty
generate_msg_id-first bytes h =
    let e : (length bytes == msg_id_length) ≡ true = ground arith in
    let (d, l) = random_id-digits bytes in
    let s : MsgIds = record { msg_id_no = random_id bytes; max_msg_id_no = replicate 20 b'9' } in
    (
      s,
      rw (generate_msg_id, e),
      record { id = record { long = l ∙ h; digits = d }; nines = (20, refl) },
    )

str_eq-length : (xs ys : List ℕ) → str_eq xs ys ≡ true → length xs ≡ length ys
unfolding str_eq
str_eq-length [] [] e = refl
str_eq-length [] (y ∷ ys) e = cc
str_eq-length (x ∷ xs) [] e = cc
str_eq-length (x ∷ xs) (y ∷ ys) e = ground (arith, str_eq-length xs ys)

str_eq-ne_length : (xs ys : List ℕ) → length xs ≢ length ys → str_eq xs ys ≡ false
str_eq-ne_length xs ys ne = elim (Bool-cases (str_eq xs ys)) [
  | inl same ↦ absurd (ne (str_eq-length xs ys same))
  | inr other ↦ other
]

str_eq-same : (xs ys : List ℕ) → str_eq xs ys ≡ true → xs ≡ ys
unfolding str_eq
str_eq-same [] [] e = refl
str_eq-same [] (y ∷ ys) e = cc
str_eq-same (x ∷ xs) [] e = cc
str_eq-same (x ∷ xs) (y ∷ ys) e = elim (Bool-cases (x == y)) [
  | inl q ↦ ap₂ (λ c cs. c ∷ cs) ((==_iff x y).0 q) (str_eq-same xs ys (rw (q) at e))
  | inr q ↦ absurd (false_ne_true (rw (q) at e))
]
  where
    false_ne_true : false ≢ true
    false_ne_true h = cc

full-is_empty : (t : List ℕ) → length t ≡ 20 → is_empty t ≡ false
unfolding is_empty
full-is_empty [] e = absurd (omega (arith, e))
full-is_empty (x ∷ xs) e = refl

-- An id below the largest is not the maximum.
below-not_last :
    {s : MsgIds}
    → IsStarted s
    → value s.msg_id_no + 1 < 10 ^ 20
    → str_eq s.msg_id_no s.max_msg_id_no ≡ false
below-not_last {s} v lt = elim (Bool-cases (str_eq s.msg_id_no s.max_msg_id_no)) [
  | inr other ↦ other
  | inl same ↦
      let (k, q) = v.nines in
      let whole = str_eq-same s.msg_id_no s.max_msg_id_no same ∙ q in
      let n : k ≡ 20 =
        sym (length-replicate {A = ℕ} k b'9') ∙ ap (λ t. length t) (sym whole) ∙ v.id.long in
      let largest : value s.msg_id_no + 1 ≡ 10 ^ 20 =
        ap (λ t. value t + 1) whole
        ∙ ap (λ j. value (replicate j b'9') + 1) n
        ∙ value_from-nines 20 0 in
      absurd (omega (arith, lt, largest))
]

generate_msg_id-next :
    (bytes : List ℕ) {s : MsgIds}
    → IsStarted s
    → value s.msg_id_no + 1 < 10 ^ 20
    → (t : MsgIds) × (generate_msg_id bytes s ≡ ok (t.msg_id_no, t))
      × IsStarted t
      × (value t.msg_id_no ≡ value s.msg_id_no + 1)
unfolding generate_msg_id
generate_msg_id-next bytes {s} v lt = elim (next_id-counts v.id) [
  | inr (e, top) ↦ absurd (omega (arith, lt, top))
  | inl (t, e, w, up) ↦ (
    record s { msg_id_no = t },
    rw (generate_msg_id, below-not_last v lt, full-is_empty s.msg_id_no v.id.long, e),
    record { id = w; nines = v.nines },
    up,
  )
]

-- The state after `n` more calls, what is read from the random source in each call left open.
unfoldable pub nth_id : (ℕ → List ℕ) → ℕ → MsgIds → Outcome MsgIds
unfolding generate_msg_id
nth_id bytes zero s = ok s
nth_id bytes (suc n) s = nth_id bytes n s >>= λ t. generate_msg_id (bytes n) t >>= λ r. ok r.1

nth_id-counts :
    (bytes : ℕ → List ℕ) (n : ℕ) (s : MsgIds)
    → IsStarted s
    → value s.msg_id_no + n < 10 ^ 20
    → (t : MsgIds) × (nth_id bytes n s ≡ ok t)
      × IsStarted t
      × (value t.msg_id_no ≡ value s.msg_id_no + n)
unfolding nth_id
nth_id-counts bytes zero s v lt = (s, refl, v, omega arith)
nth_id-counts bytes (suc n) s v lt =
    let (t, e, w, p) = nth_id-counts bytes n s v (omega (arith, lt)) in
    let (u, f, x, up) = generate_msg_id-next (bytes n) w (omega (arith, lt, p)) in
    (u, rw (nth_id, e, f), x, omega (arith, p, up))

-- Ids count up from what the random source has given: read as a number of twenty digits the id of
-- a thread grows by one with each call that keeps it below 10 ^ 20, without a fault, whatever the
-- source gives in those calls, so that two ids of such a run are different; this holds from the
-- state after any read of the source, also the first.
pub nth_id-distinct :
    (bytes : ℕ → List ℕ) (m n : ℕ) (s : MsgIds)
    → IsStarted s
    → m < n
    → value s.msg_id_no + n < 10 ^ 20
    → (t : MsgIds) × (u : MsgIds) × (nth_id bytes m s ≡ ok t)
      × (nth_id bytes n s ≡ ok u)
      × (value t.msg_id_no ≡ value s.msg_id_no + m)
      × (value u.msg_id_no ≡ value s.msg_id_no + n)
      × (t.msg_id_no ≢ u.msg_id_no)
nth_id-distinct bytes m n s v lt below =
    let (t, e, _, p) = nth_id-counts bytes m s v (omega (arith, lt, below)) in
    let (u, f, _, q) = nth_id-counts bytes n s v below in
    (t, u, e, f, p, q, λ same. omega (arith, lt, p, q, ap value same))

-- Behind the largest id: once the source has been read twice the maximum is longer than an id, so
-- that the largest is not taken for the last, and the loop over the nines reads in front of the
-- string.
pub generate_msg_id-overruns :
    (bytes : List ℕ) (s : MsgIds)
    → IsId s.msg_id_no
    → length s.max_msg_id_no ≢ 20
    → value s.msg_id_no + 1 ≡ 10 ^ 20
    → generate_msg_id bytes s ≡ fault out_of_bounds
unfolding generate_msg_id
generate_msg_id-overruns bytes s v long top = elim (next_id-counts v) [
  | inl (t, e, w, up) ↦ absurd (omega (arith, value-lt_id w, up, top))
  | inr (e, q) ↦ rw (
    generate_msg_id,
    str_eq-ne_length s.msg_id_no s.max_msg_id_no (λ h. long (sym h ∙ v.long)),
    full-is_empty s.msg_id_no v.long,
    e,
  )
]
