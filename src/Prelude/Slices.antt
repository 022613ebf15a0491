-- ===== src/Prelude/Slices.antt =====
-- Reads and writes of a run of bytes inside a vector.
use rpc4grad.Prelude.{
  ℕ, zero, suc, ◌+◌, ◌-◌, ◌≤◌, ◌≡◌, ap, sym, ◌∙◌, List, [], ◌∷◌, ◌++◌, arith, length, take, drop,
  length-append, length-take, length-drop, take_all, take-append, drop-drop, take-take, drop-take,
  take-append_left, drop-append_left, drop-append_right,
}

module _ {ℓ} {A : Type ℓ} where
  -- The `n` elements from index `i` on.
  unfoldable pub slice : ℕ → ℕ → List A → List A
  slice i n xs = take n (drop i xs)

  -- `memcpy(&xs[i], ds, n)` for a source of `n` elements that fits.
  unfoldable pub blit : ℕ → List A → List A → List A
  blit i ds xs = take i xs ++ (ds ++ drop (i + length ds) xs)

  pub length-slice : (i n : ℕ) (xs : List A) → i + n ≤ length xs → length (slice i n xs) ≡ n
  unfolding slice
  length-slice i n xs h = omega (arith, length-take n (drop i xs), length-drop i xs)

  pub length-blit :
      (i : ℕ) (ds xs : List A) → i + length ds ≤ length xs → length (blit i ds xs) ≡ length xs
  unfolding blit
  length-blit i ds xs h = omega (
    arith,
    length-append (take i xs) (ds ++ drop (i + length ds) xs),
    length-append ds (drop (i + length ds) xs),
    length-take i xs,
    length-drop (i + length ds) xs,
  )

  -- Two neighbouring slices make up one.
  slice-append_slice :
      (i m n : ℕ) (xs : List A) → slice i m xs ++ slice (i + m) n xs ≡ slice i (m + n) xs
  unfolding slice
  slice-append_slice i m n xs = rw (← drop-drop m i xs) (join m n (drop i xs))
    where
      join : (m n : ℕ) (ys : List A) → take m ys ++ take n (drop m ys) ≡ take (m + n) ys
      join zero n ys = ap (λ k. take k ys) (omega arith)
      join (suc m) n [] =
          take_all {A = A} n [] (omega arith) ∙ sym (take_all {A = A} (suc m + n) [] (omega arith))
      join (suc m) n (y ∷ ys) =
          rw (join m n ys) (ap (λ k. take k (y ∷ ys)) {x = suc (m + n)} (omega arith))

  -- What a write leaves before it, and what it puts down.
  pub slice-blit_before :
      (r n i : ℕ) (ds xs : List A)
      → r + n ≤ i
      → i ≤ length xs
      → slice r n (blit i ds xs) ≡ slice r n xs
  unfolding slice blit
  slice-blit_before r n i ds xs h k =
      let e : length (take i xs) ≡ i = omega (arith, length-take i xs) in
      rw
        (
          drop-append_left r (take i xs) (ds ++ drop (i + length ds) xs) (omega arith),
          drop-take r i xs,
          take-append_left n (take (i - r) (drop r xs)) (ds ++ drop (i + length ds) xs)
              (omega (arith, length-take (i - r) (drop r xs), length-drop r xs)),
        )
        (take-take n (i - r) (drop r xs) (omega arith))

  pub slice-blit_self :
      (i : ℕ) (ds xs : List A) → i ≤ length xs → slice i (length ds) (blit i ds xs) ≡ ds
  unfolding slice blit
  slice-blit_self i ds xs h =
      let e : length (take i xs) ≡ i = omega (arith, length-take i xs) in
      rw (drop-append_right (take i xs) (ds ++ drop (i + length ds) xs) i (omega arith)) (
        let z : i - length (take i xs) ≡ 0 = omega arith in
        rw z (take-append ds (drop (i + length ds) xs)))

  -- A write at the end of a window extends it.
  pub slice-blit_end :
      (r i : ℕ) (ds xs : List A)
      → r ≤ i
      → i ≤ length xs
      → slice r (i + length ds - r) (blit i ds xs) ≡ slice r (i - r) xs ++ ds
  slice-blit_end r i ds xs h k =
      let e : i + length ds - r ≡ (i - r) + length ds = omega arith in
      let f : r + (i - r) ≡ i = omega arith in
      rw (
        e,
        ← slice-append_slice r (i - r) (length ds) (blit i ds xs),
        slice-blit_before r (i - r) i ds xs (omega arith) k,
        f,
        slice-blit_self i ds xs k,
      )

  slice-slice :
      (i n r k : ℕ) (xs : List A) → i + n ≤ k → slice i n (slice r k xs) ≡ slice (r + i) n xs
  unfolding slice
  slice-slice i n r k xs h =
      rw (drop-take i k (drop r xs), drop-drop i r xs)
        (take-take n (k - i) (drop (r + i) xs) (omega arith))

  -- A prefix and a suffix of a window.
  pub take-slice : (m r k : ℕ) (xs : List A) → m ≤ k → take m (slice r k xs) ≡ slice r m xs
  unfolding slice
  take-slice m r k xs h = take-take m k (drop r xs) h

  pub drop-slice : (m r k : ℕ) (xs : List A) → drop m (slice r k xs) ≡ slice (r + m) (k - m) xs
  unfolding slice
  drop-slice m r k xs = rw (drop-take m k (drop r xs), drop-drop m r xs)
