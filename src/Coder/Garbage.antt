-- ===== src/Coder/Garbage.antt =====
-- The decoder's loop on bytes that do not begin a frame.
use rpc4grad.Prelude.{
  ℕ, suc, ◌+◌, ◌-◌, ◌≡◌, ◌≢◌, sym, ◌∙◌, ap, ap₂, arith, false, none, some, List, [], ◌∷◌, ◌++◌,
  append_assoc, length, drop, length-append, drop-append, ◌==◌, ok,
}
use rpc4grad.Prelude.Int.{pos}
use rpc4grad.Buffer.{TcpBuffer, read_able, contents, move_read_index}
use rpc4grad.Buffer.Contents.{length-contents}
use rpc4grad.Buffer.Move.{move_read_index-drops, move_read_index-stays_open}
use rpc4grad.Coder.Protocol.{TinyPb, pb_start}
use rpc4grad.Coder.Encode.{frame_length, frame}
use rpc4grad.Coder.Decode.{probe, scan, span, decode_round, decode}
use rpc4grad.Coder.Reads.{At, At-skip, byte_at-At}
use rpc4grad.Coder.Frames.{probe-frame, scan-hit, length-frame}
use rpc4grad.Coder.Parse.{IsSendable, received, parse_message-frame}
use rpc4grad.Coder.Round.{IsOpen, stale, drop-read_index, taken-plain, decode_round-frame}
use rpc4grad.Coder.Stream.{arrived, decode_round-empty}

-- Bytes none of which is a start byte.
abbrev pub NoStart : List ℕ → Type 0
NoStart [] = Unit {0}
NoStart (c ∷ cs) = (c ≢ pb_start) × NoStart cs

probe-miss :
    (tmp rest : List ℕ) (w i c : ℕ) → At tmp i (c ∷ rest) → c ≢ pb_start → probe tmp w i ≡ ok none
unfolding probe
probe-miss tmp rest w i c at n =
    let other : (c == pb_start) ≡ false = ground (arith, n) in
    rw (byte_at-At tmp i c rest at, other)

pub scan-step :
    (tmp : List ℕ) (w n i : ℕ)
    → probe tmp w i ≡ ok none
    → scan tmp w (suc n) i ≡ scan tmp w n (i + 1)
unfolding scan
scan-step tmp w n i h = rw (scan, h)

-- The search passes over them.
pub scan-NoStart :
    (junk rest tmp : List ℕ) (w n i : ℕ)
    → NoStart junk
    → At tmp i (junk ++ rest)
    → scan tmp w (length junk + n) i ≡ scan tmp w n (i + length junk)
unfolding scan
scan-NoStart [] rest tmp w n i j at =
    let count : length {A = ℕ} [] + n ≡ n = omega arith in
    let same : i ≡ i + length {A = ℕ} [] = omega arith in ap₂ (scan tmp w) count same
scan-NoStart (c ∷ junk) rest tmp w n i (d, j) at =
    let at' = At-skip (c ∷ []) (junk ++ rest) tmp i at in
    let count : length (c ∷ junk) + n ≡ suc (length junk + n) = omega arith in
    let same : i + 1 + length junk ≡ i + length (c ∷ junk) = omega arith in
    ap (λ k. scan tmp w k i) count
    ∙ scan-step tmp w (length junk + n) i (probe-miss tmp (junk ++ rest) w i c at d)
    ∙ scan-NoStart junk rest tmp w n (i + 1) j at'
    ∙ ap (scan tmp w n) same

module _ (junk : List ℕ) (m : TinyPb) (rest : List ℕ) {b : TcpBuffer} (o : IsOpen b)
    (j : NoStart junk) (held : contents b ≡ junk ++ (frame m ++ rest)) where
  -- The index of the frame's first byte.
  abbrev first : ℕ
  first = b.read_index + length junk

  size : length junk + frame_length m + length rest ≡ read_able b
  size = omega (
    arith,
    length-contents o.valid,
    ap (λ t. length t) held,
    length-append junk (frame m ++ rest),
    length-append (frame m) rest,
    length-frame m,
  )

  At-junk : At b.buffer b.read_index (junk ++ (frame m ++ (rest ++ stale b)))
  At-junk =
      drop-read_index o.valid
      ∙ ap (λ t. t ++ stale b) held
      ∙ append_assoc junk (frame m ++ rest) (stale b)
      ∙ ap (λ t. junk ++ t) (append_assoc (frame m) rest (stale b))

  At-first : At b.buffer first (frame m ++ (rest ++ stale b))
  At-first = At-skip junk (frame m ++ (rest ++ stale b)) b.buffer b.read_index At-junk

  scan-first :
      scan b.buffer b.write_index (read_able b) b.read_index
      ≡ ok (some (first, first + frame_length m - 1, frame_length m))
  scan-first =
      let whole : read_able b ≡ length junk + (frame_length m + length rest) =
        omega (arith, size) in
      ap (λ k. scan b.buffer b.write_index k b.read_index) whole
      ∙ scan-NoStart junk (frame m ++ (rest ++ stale b)) b.buffer b.write_index
          (frame_length m + length rest) b.read_index j At-junk
      ∙ scan-hit b.buffer b.write_index (frame_length m + length rest) first
          (first + frame_length m - 1) (frame_length m) (omega arith)
          (probe-frame m (rest ++ stale b) b.buffer b.write_index first (first + frame_length m - 1)
            At-first (omega arith) (omega (arith, size)) (omega arith))

  span-first : span first (first + frame_length m - 1) ≡ pos (frame_length m)
  span-first = ground arith

  -- The round yields the message, and moves on by the frame's length from where the bytes before
  -- it begin.
  decode_round-first :
      IsSendable m
      → m.err_info ≡ []
      → decode_round b ≡ ok (some (some (arrived m), move_read_index (pos (frame_length m)) b))
  unfolding decode_round
  decode_round-first v plain =
      let no_text : length m.err_info ≡ 0 = ap (λ t. length t) plain in
      let last : first + frame_length m - 1 + 1 ≡ first + frame_length m = omega arith in
      rw
        (
          scan-first,
          parse_message-frame m (rest ++ stale b) b.buffer first (first + frame_length m - 1) v
              At-first last (omega (arith, no_text)),
          span-first,
        )
        (ap (λ t. ok (some (some (received m t), move_read_index (pos (frame_length m)) b)))
          (taken-plain m (rest ++ stale b) plain))

  left_over :
      (contents (move_read_index (pos (frame_length m)) b)
        ≡ drop (frame_length m) (junk ++ (frame m ++ rest)))
      × IsOpen (move_read_index (pos (frame_length m)) b)
  left_over =
      let (c, v) =
        move_read_index-drops (frame_length m) o.valid (omega (arith, size))
          (omega (arith, size)) in
      let (w, l) = move_read_index-stays_open (frame_length m) o.valid (omega (arith, size)) in
      (
        c ∙ ap (drop (frame_length m)) held,
        record { valid = v; open_end = omega arith; small = omega arith },
      )

-- Bytes without a start byte in front of a frame, of a message that can be sent and has no error
-- text, do not keep the message from being read; but the round takes as many bytes as the frame has
-- from the front of them all, so that as many bytes of the frame's end as stood before it stay, or
-- the whole frame where there were more.
pub decode_round-garbage :
    (junk : List ℕ) (m : TinyPb) (rest : List ℕ) {b : TcpBuffer}
    → IsOpen b
    → NoStart junk
    → contents b ≡ junk ++ (frame m ++ rest)
    → IsSendable m
    → m.err_info ≡ []
    → (b' : TcpBuffer) × (decode_round b ≡ ok (some (some (arrived m), b')))
      × (contents b' ≡ drop (frame_length m) (junk ++ (frame m ++ rest)))
      × IsOpen b'
decode_round-garbage junk m rest {b} o j held v plain =
    let (c, o') = left_over junk m rest o j held in
    (
      move_read_index (pos (frame_length m)) b,
      decode_round-first junk m rest o j held v plain,
      c,
      o',
    )

-- A message whose frame comes behind as many other bytes as the frame has, none of them a start
-- byte, is decoded twice: a server runs the call twice.
pub decode-twice :
    (junk : List ℕ) (m : TinyPb) (out : List TinyPb) {b : TcpBuffer}
    → IsOpen b
    → NoStart junk
    → length junk ≡ frame_length m
    → contents b ≡ junk ++ (frame m ++ [])
    → IsSendable m
    → m.err_info ≡ []
    → (b' : TcpBuffer) × (decode 3 out b ≡ some (ok (out ++ (arrived m ∷ arrived m ∷ []), b')))
      × (contents b' ≡ [])
unfolding decode
decode-twice junk m out {b} o j size held v plain =
    let (b1, e1, c1, o1) = decode_round-garbage junk m [] o j held v plain in
    let whole =
      c1
      ∙ ap (λ n. drop n (junk ++ (frame m ++ []))) (sym size)
      ∙ drop-append junk (frame m ++ []) in
    let (b2, e2, c2, o2) = decode_round-frame m [] o1 whole v plain in
    let nothing =
      decode_round-empty b2 (omega (arith, length-contents o2.valid, ap (λ t. length t) c2)) in
    (
      b2,
      rw (decode, e1, e2, nothing)
          (ap (λ t. some (ok (t, b2))) (append_assoc out (arrived m ∷ []) (arrived m ∷ []))),
      c2,
    )
