-- ===== src/Coder/Pieces.antt =====
-- The decoder's loop on a frame of which only the front has come.
use rpc4grad.Prelude.{
  ℕ, suc, ◌+◌, ◌-◌, ◌^◌, ◌≤◌, ◌<◌, ◌≡◌, ◌≢◌, refl, sym, subst, ◌∙◌, ap, ap₂, arith, none, some,
  List, [], ◌∷◌, ◌++◌, append_assoc, append-nil, length, drop, length-append, le→leb, lt→ltb, ok,
}
use rpc4grad.Prelude.Int.{pos}
use rpc4grad.Prelude.Bytes.{net_bytes, length-net_bytes}
use rpc4grad.Buffer.{TcpBuffer, read_able, contents}
use rpc4grad.Buffer.Contents.{length-contents}
use rpc4grad.Coder.Protocol.{TinyPb, pb_start}
use rpc4grad.Coder.Encode.{frame_length, frame}
use rpc4grad.Coder.Decode.{ends_at, probe, probe_frame, scan, decode_round, decode}
use rpc4grad.Coder.Reads.{At, At-skip, byte_at-At, int32_at-net}
use rpc4grad.Coder.Frames.{length-frame, last_index-pos, after_length, frame-length_first}
use rpc4grad.Coder.Round.{IsOpen, stale, drop-read_index}
use rpc4grad.Coder.Garbage.{NoStart, scan-NoStart, scan-step}

-- A front that is longer than the head of the whole begins with that head.
prefix_split :
    (p q head rest : List ℕ)
    → p ++ q ≡ head ++ rest
    → length head ≤ length p
    → (p' : List ℕ) × (p ≡ head ++ p')
prefix_split p q [] rest e h = (p, refl)
prefix_split [] q (x ∷ head) rest e h = absurd (omega (arith, h))
prefix_split (y ∷ p) q (x ∷ head) rest e h =
    let same : y ≡ x = cc in
    let tails : p ++ q ≡ head ++ rest = cc in
    let (p', k) = prefix_split p q head rest tails (omega (arith, h)) in
    (p', ap₂ (λ c cs. c ∷ cs) same k)

ends_at-beyond : (tmp : List ℕ) (w j : ℕ) → w ≤ j → ends_at tmp w (pos j) ≡ ok none
unfolding ends_at
ends_at-beyond tmp w j h = rw (le→leb w j h)

-- At the first byte of a frame that ends behind the write index the search goes on.
probe-beyond :
    (m : TinyPb) (rest tmp : List ℕ) (w i : ℕ)
    → At tmp i (pb_start ∷ (net_bytes (frame_length m) ++ rest))
    → i + 1 < w
    → w < i + frame_length m
    → i + frame_length m < 2 ^ 31
    → probe tmp w i ≡ ok none
unfolding probe probe_frame
probe-beyond m rest tmp w i at h k small =
    let n = frame_length m in
    let at_len = At-skip (pb_start ∷ []) (net_bytes n ++ rest) tmp i at in
    rw (
      byte_at-At tmp i pb_start _ at,
      lt→ltb (i + 1) w h,
      int32_at-net n rest tmp (i + 1) (omega arith) at_len,
      last_index-pos i n small (omega arith),
      ends_at-beyond tmp w (i + n - 1) (omega arith),
    )

-- The front of a frame, from the length on, with what misses.
record IsPiece (m : TinyPb) (p : List ℕ) : Type 0 where
  tail : List ℕ
  split : p ≡ pb_start ∷ (net_bytes (frame_length m) ++ tail)
  shorter : length p < frame_length m

piece : (m : TinyPb) (p q : List ℕ) → p ++ q ≡ frame m → q ≢ [] → 5 ≤ length p → IsPiece m p
unfolding net_bytes
piece m p q e n h =
    let whole = e ∙ sym (append-nil (frame m)) ∙ frame-length_first m [] in
    let (p', k) =
      prefix_split p q (pb_start ∷ net_bytes (frame_length m)) (after_length m []) whole
        (omega (arith, h)) in
    record {
      tail = p';
      split = k;
      shorter =
          omega (arith, ap (λ t. length t) e, length-append p q, length-frame m, positive q n);
    }
  where
    positive : (xs : List ℕ) → xs ≢ [] → 0 < length xs
    positive [] k = absurd (k refl)
    positive (x ∷ xs) k = omega arith

scan-end : (tmp : List ℕ) (w i : ℕ) → scan tmp w 0 i ≡ ok none
unfolding scan
scan-end tmp w i = refl

decode_round-waits :
    (m : TinyPb) (p : List ℕ) {b : TcpBuffer}
    → IsOpen b
    → contents b ≡ p
    → IsPiece m p
    → NoStart (drop 1 p)
    → b.read_index + frame_length m < 2 ^ 31
    → decode_round b ≡ ok none
unfolding decode_round
decode_round-waits m p {b} o held k j small =
    let rest = net_bytes (frame_length m) ++ k.tail in
    let whole = drop-read_index o.valid ∙ ap (λ t. t ++ stale b) (held ∙ k.split) in
    let n : read_able b ≡ suc (length rest) =
      omega (arith, length-contents o.valid, ap (λ t. length t) held, ap (λ t. length t) k.split) in
    let first =
      probe-beyond m (k.tail ++ stale b) b.buffer b.write_index b.read_index
        (whole
          ∙ ap (λ t. pb_start ∷ t) (append_assoc (net_bytes (frame_length m)) k.tail (stale b)))
        (omega (
          arith,
          n,
          length-append (net_bytes (frame_length m)) k.tail,
          length-net_bytes (frame_length m),
        ))
        (omega (arith, n, k.shorter, ap (λ t. length t) k.split)) small in
    let count : read_able b ≡ suc (length rest + 0) = omega (arith, n) in
    let missing : scan b.buffer b.write_index (read_able b) b.read_index ≡ ok none =
      ap (λ c. scan b.buffer b.write_index c b.read_index) count
      ∙ scan-step b.buffer b.write_index (length rest + 0) b.read_index first
      ∙ scan-NoStart rest (stale b) b.buffer b.write_index 0 (b.read_index + 1)
          (subst (λ t. NoStart (drop 1 t)) k.split j)
          (At-skip (pb_start ∷ []) (rest ++ stale b) b.buffer b.read_index whole)
      ∙ scan-end b.buffer b.write_index (b.read_index + 1 + length rest) in
    rw (decode_round, missing)

-- A frame that has come only in part, but with its length, is waited for: while the bytes behind its
-- first one hold no start byte, decode gives no message and leaves the buffer as it is.
pub decode-waits :
    (m : TinyPb) (p q : List ℕ) (fuel : ℕ) (out : List TinyPb) {b : TcpBuffer}
    → IsOpen b
    → contents b ≡ p
    → p ++ q ≡ frame m
    → q ≢ []
    → 5 ≤ length p
    → NoStart (drop 1 p)
    → b.read_index + frame_length m < 2 ^ 31
    → decode (suc fuel) out b ≡ some (ok (out, b))
unfolding decode
decode-waits m p q fuel out o held e n h j small =
    rw (decode, decode_round-waits m p o held (piece m p q e n h) j small)
