-- ===== src/Coder/Ends.antt =====
-- When the decoder's loop ends.
use rpc4grad.Prelude.{
  ℕ, zero, suc, ◌+◌, ◌-◌, ◌≤◌, ◌<◌, ◌≡◌, refl, sym, ◌∙◌, ap, subst, arith, Bool, true, false,
  Bool-cases, Option, none, some, none-ne-some, some-injective, ◌⊎◌, inl, inr, List, length,
  length-drop, leb, ltb, ltb→lt, le→leb, ◌==◌, ◌&&◌, if◌then◌else◌, Outcome, ok, fault, ◌>>=◌,
  >>=-eq-ok, ok-injective, ok-ne-fault,
}
use mathlib.Core.Option
use rpc4grad.Prelude.Int.{ℤ, pos, negsuc}
use rpc4grad.Buffer.{TcpBuffer, read_able, contents, move_read_index}
use rpc4grad.Buffer.Contents.{length-contents}
use rpc4grad.Buffer.Move.{move_read_index-drops, move_read_index-stays_open}
use rpc4grad.Coder.Protocol.{TinyPb, pb_start, pb_end}
use rpc4grad.Coder.Decode.{
  byte_at, int32_at, last_index, ends_at, probe_frame, probe, scan, span, parse_message,
  push_message, decode_round, decode,
}
use rpc4grad.Coder.Round.{IsOpen}

taken_if : (b : Bool) (j e : ℕ) → (if b then some j else none) ≡ some e → j ≡ e
taken_if true j e h = some-injective h
taken_if false j e h = absurd (none-ne-some h)

-- The end of a frame that is found lies before the write index.
ends_at-before : (tmp : List ℕ) (w : ℕ) (j : ℤ) (e : ℕ) → ends_at tmp w j ≡ ok (some e) → e < w
unfolding ends_at
ends_at-before tmp w (negsuc j) e h = absurd (ok-ne-fault (sym h))
ends_at-before tmp w (pos j) e h = elim (Bool-cases (leb w j)) [
  | inl past ↦ absurd (none-ne-some (ok-injective (rw (past) at h)))
  | inr before ↦
      let (c, q, last) = >>=-eq-ok (byte_at tmp j) _ (rw (before) at h) in
      let same : j ≡ e = taken_if (c == pb_end) j e (ok-injective last) in
      ground (arith, before, same)
]

map-first :
    (o : Option ℕ) (n e k : ℕ)
    → Option.map {B = ℕ × ℕ} (λ (j : ℕ). (j, n)) o ≡ some (e, k)
    → o ≡ some e
map-first none n e k h = absurd (none-ne-some h)
map-first (some j) n e k h = ap (λ (p : ℕ × ℕ). some p.0) (some-injective h)

probe_frame-before : (tmp : List ℕ) (w i e n : ℕ) → probe_frame tmp w i ≡ ok (some (e, n)) → e < w
unfolding probe_frame
probe_frame-before tmp w i e n h =
    let (k, q, h1) = >>=-eq-ok (int32_at tmp (i + 1)) _ h in
    let (j, r, h2) = >>=-eq-ok (last_index i k) _ h1 in
    let (o, t, h3) = >>=-eq-ok (ends_at tmp w j) _ h2 in
    ends_at-before tmp w j e (t ∙ ap ok (map-first o k e n (ok-injective h3)))

probe-before : (tmp : List ℕ) (w i e n : ℕ) → probe tmp w i ≡ ok (some (e, n)) → e < w
unfolding probe
probe-before tmp w i e n h =
    let (c, q, h1) = >>=-eq-ok (byte_at tmp i) _ h in
    elim (Bool-cases (c == pb_start && ltb (i + 1) w)) [
      | inl a ↦ probe_frame-before tmp w i e n (rw (a) at h1)
      | inr b ↦ absurd (none-ne-some (ok-injective (rw (b) at h1)))
    ]

-- A frame that the search finds begins where the search does or behind it.
scan-within :
    (tmp : List ℕ) (w n i s e k : ℕ) → scan tmp w n i ≡ ok (some (s, e, k)) → (i ≤ s) × (e < w)
unfolding scan
scan-within tmp w zero i s e k h = absurd (none-ne-some (ok-injective h))
scan-within tmp w (suc n) i s e k h =
    let (r, q, h1) = >>=-eq-ok (probe tmp w i) _ h in
    by_probe r (λ g. scan-within tmp w n (i + 1) s e k g) q h1
  where
    by_probe :
        (r : Option (ℕ × ℕ))
        → (scan tmp w n (i + 1) ≡ ok (some (s, e, k)) → (i + 1 ≤ s) × (e < w))
        → probe tmp w i ≡ ok r
        → elim r [ some (j, pk_len) ↦ ok (some (i, j, pk_len)) | none ↦ scan tmp w n (i + 1) ]
          ≡ ok (some (s, e, k))
        → (i ≤ s) × (e < w)
    by_probe none f q g = let (a, b) = f g in (omega (arith, a), b)
    by_probe (some (j, m)) f q g =
        let start : i ≡ s = ap (λ (p : ℕ × ℕ × ℕ). p.0) (some-injective (ok-injective g)) in
        let end : j ≡ e = ap (λ (p : ℕ × ℕ × ℕ). p.1) (some-injective (ok-injective g)) in
        (omega (arith, start), subst (λ x. x < w) end (probe-before tmp w i j m q))

-- The loop on `b` comes to a round that finds a frame with a length of 0 or less: what it hands to
-- moveReadIndex takes no byte off.
pub data MeetsEmpty : TcpBuffer → Type 0 where
  here :
      {b : TcpBuffer} (s e k : ℕ)
      → scan b.buffer b.write_index (read_able b) b.read_index ≡ ok (some (s, e, k))
      → e < s
      → MeetsEmpty b
  behind :
      {b b' : TcpBuffer} {m : Option TinyPb}
      → decode_round b ≡ ok (some (m, b'))
      → MeetsEmpty b'
      → MeetsEmpty b

-- A round that takes bytes off leaves fewer, and an open buffer.
moved :
    (s e : ℕ) {b : TcpBuffer}
    → IsOpen b
    → b.read_index ≤ s
    → s ≤ e
    → e < b.write_index
    → IsOpen (move_read_index (span s e) b)
      × (read_able (move_read_index (span s e) b) < read_able b)
moved s e {b} o from up to =
    let n = e + 1 - s in
    let long : span s e ≡ pos n = rw (le→leb s (e + 1) (omega (arith, up))) in
    let few : n ≤ read_able b = omega (arith, from, up, to) in
    let (held, valid) =
      move_read_index-drops n o.valid few (omega (arith, from, up, to, o.open_end)) in
    let (below, same) = move_read_index-stays_open n o.valid few in
    rw (long) (
      record {
        valid = valid;
        open_end = omega (arith, below, same, o.open_end);
        small = omega (arith, same, o.small);
      },
      omega (
        arith,
        length-contents valid,
        length-contents o.valid,
        ap (λ t. length t) held,
        length-drop n (contents b),
        from,
        up,
        to,
      ),
    )

round-moves :
    {b b' : TcpBuffer} {m : Option TinyPb}
    → IsOpen b
    → decode_round b ≡ ok (some (m, b'))
    → MeetsEmpty b ⊎ (IsOpen b' × (read_able b' < read_able b))
unfolding decode_round
round-moves {b} {b'} {m} o h =
    let (r, q, h1) = >>=-eq-ok (scan b.buffer b.write_index (read_able b) b.read_index) _ h in
    by_scan r q h1
  where
    by_scan :
        (r : Option (ℕ × ℕ × ℕ))
        → scan b.buffer b.write_index (read_able b) b.read_index ≡ ok r
        → elim r as (λ t. Outcome (Option (Option TinyPb × TcpBuffer))) [
          | none ↦ ok none
          | some (s, e, pk_len) ↦
              parse_message b.buffer s e pk_len >>= λ m. ok (some (m, move_read_index (span s e) b))
        ]
          ≡ ok (some (m, b'))
        → MeetsEmpty b ⊎ (IsOpen b' × (read_able b' < read_able b))
    by_scan none q g = absurd (none-ne-some (ok-injective g))
    by_scan (some (s, e, k)) q g =
        let (from, to) = scan-within b.buffer b.write_index (read_able b) b.read_index s e k q in
        let (m', p, last) = >>=-eq-ok (parse_message b.buffer s e k) _ g in
        let after : move_read_index (span s e) b ≡ b' =
          ap (λ (t : Option TinyPb × TcpBuffer). t.1) (some-injective (ok-injective last)) in
        elim (Bool-cases (ltb e s)) [
          | inl short ↦ inl (here s e k q (ltb→lt e s short))
          | inr long ↦
              let order : s ≤ e = ground (arith, long) in
              inr (
                subst (λ (c : TcpBuffer). IsOpen c × (read_able c < read_able b)) after
                  (moved s e o from order to))
        ]

enough :
    (n : ℕ) (out : List TinyPb) (b : TcpBuffer)
    → IsOpen b
    → read_able b < n
    → ((r : Outcome (List TinyPb × TcpBuffer)) × (decode n out b ≡ some r)) ⊎ MeetsEmpty b
unfolding decode
enough zero out b o h = absurd (omega (arith, h))
enough (suc n) out b o h =
    by_round (decode_round b) refl
      (λ m b' o' less. enough n (push_message out m) b' o' (omega (arith, less, h)))
  where
    by_round :
        (r : Outcome (Option (Option TinyPb × TcpBuffer)))
        → decode_round b ≡ r
        → ((m : Option TinyPb) (b' : TcpBuffer)
            → IsOpen b'
            → read_able b' < read_able b
            → ((t : Outcome (List TinyPb × TcpBuffer)) × (decode n (push_message out m) b'
                  ≡ some t))
              ⊎ MeetsEmpty b')
        → ((t : Outcome (List TinyPb × TcpBuffer)) × (decode (suc n) out b ≡ some t)) ⊎ MeetsEmpty b
    by_round (fault why) q f = inl (fault why, rw (decode, q))
    by_round (ok none) q f = inl (ok (out, b), rw (decode, q))
    by_round (ok (some (m, b'))) q f = elim (round-moves o q) [
      | inl e ↦ inr e
      | inr (o', less) ↦ elim (f m b' o' less) [
        | inl (t, u) ↦ inl (t, rw (decode, q) u)
        | inr e ↦ inr (behind q e)
      ]
    ]

-- decode is total but for empty frames: on an open buffer it returns, a result or a fault, within one
-- round more than there are bytes to read, or it comes to a frame with a length of 0 or less, which
-- takes no byte off.
pub decode-ends :
    (out : List TinyPb) {b : TcpBuffer}
    → IsOpen b
    → ((r : Outcome (List TinyPb × TcpBuffer)) × (decode (suc (read_able b)) out b ≡ some r))
      ⊎ MeetsEmpty b
decode-ends out {b} o = enough (suc (read_able b)) out b o (omega arith)
