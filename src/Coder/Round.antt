-- ===== src/Coder/Round.antt =====
-- One round of the decoder's loop at a buffer whose next bytes are a frame.
use rpc4grad.Prelude.{
  ℕ, ◌+◌, ◌-◌, ◌*◌, ◌^◌, ◌≤◌, ◌<◌, ◌≡◌, refl, sym, subst, ◌∙◌, ap, List, [], ◌∷◌, ◌++◌,
  append_assoc, some, length, drop, take, length-append, length-take, take-append-drop, take-append,
  drop-append, drop-drop, ok, arith,
}
use rpc4grad.Prelude.Int.{pos}
use rpc4grad.Prelude.Slices.{slice}
use rpc4grad.Buffer.{TcpBuffer, IsValid, read_able, contents, move_read_index}
use rpc4grad.Buffer.Contents.{length-contents}
use rpc4grad.Buffer.Move.{move_read_index-drops, move_read_index-stays_open}
use rpc4grad.Prelude.Bytes.{net_bytes}
use rpc4grad.Coder.Protocol.{TinyPb, pb_end}
use rpc4grad.Coder.Encode.{frame_length, frame}
use rpc4grad.Coder.Decode.{span, scan, decode_round}
use rpc4grad.Coder.Reads.{At}
use rpc4grad.Coder.Parse.{IsSendable, received, from_body, taken, taken-le, parse_message-frame}
use rpc4grad.Coder.Frames.{probe-frame, scan-hit, length-frame}

-- A buffer that moveWriteIndex has filled: the write index never reaches the end of the vector.
pub record IsOpen (b : TcpBuffer) : Type 0 where
  pub valid : IsValid b
  pub open_end : b.write_index < length b.buffer
  pub small : length b.buffer < 2 ^ 31

-- What the vector holds behind the write index, left there by earlier bytes.
abbrev pub stale : TcpBuffer → List ℕ
stale b = drop b.write_index b.buffer

pub drop-read_index : {b : TcpBuffer} → IsValid b → At b.buffer b.read_index (contents b ++ stale b)
unfolding contents slice
drop-read_index {b} v =
    let e : b.read_index + read_able b ≡ b.write_index = omega arith in
    sym (take-append-drop (read_able b) (drop b.read_index b.buffer))
    ∙ ap (λ t. contents b ++ t)
        (drop-drop (read_able b) b.read_index b.buffer ∙ ap (λ k. drop k b.buffer) e)

module _ (m : TinyPb) (rest : List ℕ) {b : TcpBuffer} (o : IsOpen b)
    (held : contents b ≡ frame m ++ rest) where
  frame-le-read_able : frame_length m + length rest ≡ read_able b
  frame-le-read_able = omega (
    arith,
    length-contents o.valid,
    ap (λ t. length t) held,
    length-append (frame m) rest,
    length-frame m,
  )

  -- The index of the frame's last byte.
  last : ℕ
  last = b.read_index + frame_length m - 1

  last_next : last + 1 ≡ b.read_index + frame_length m
  unfolding last
  last_next = omega arith

  At-frame : At b.buffer b.read_index (frame m ++ (rest ++ stale b))
  At-frame =
      drop-read_index o.valid ∙ ap (λ t. t ++ stale b) held ∙ append_assoc (frame m) rest (stale b)

  scan-frame :
      scan b.buffer b.write_index (read_able b) b.read_index
      ≡ ok (some (b.read_index, last, frame_length m))
  unfolding last
  scan-frame =
      let e = frame-le-read_able in
      scan-hit b.buffer b.write_index (read_able b) b.read_index last (frame_length m) (omega arith)
        (probe-frame m (rest ++ stale b) b.buffer b.write_index b.read_index last At-frame
          (omega arith) (omega arith) (omega arith))

  span-frame : span b.read_index last ≡ pos (frame_length m)
  unfolding last
  span-frame = ground arith

  -- The round takes the frame out of the buffer, and what stood behind it is next.
  contents-after_frame :
      (contents (move_read_index (pos (frame_length m)) b) ≡ rest)
      × IsOpen (move_read_index (pos (frame_length m)) b)
  contents-after_frame =
      let e = frame-le-read_able in
      let (c, v) = move_read_index-drops (frame_length m) o.valid (omega arith) (omega arith) in
      let (w, l) = move_read_index-stays_open (frame_length m) o.valid (omega arith) in
      (
        c ∙ ap (drop (frame_length m)) held ∙ dropped,
        record { valid = v; open_end = omega arith; small = omega arith },
      )
    where
      dropped : drop (frame_length m) (frame m ++ rest) ≡ rest
      dropped =
          subst (λ n. drop n (frame m ++ rest) ≡ rest) (length-frame m) (drop-append (frame m) rest)

  -- The round yields the message with the body that the code cuts out.
  decode_round-taken :
      IsSendable m
      → 2 * length m.err_info ≤ length (rest ++ stale b) + 5
      → decode_round b
        ≡ ok (
            some (
              some (received m (take (taken m) (from_body m (rest ++ stale b)))),
              move_read_index (pos (frame_length m)) b,
            ))
  unfolding decode_round
  decode_round-taken v room = rw (
    scan-frame,
    parse_message-frame m (rest ++ stale b) b.buffer b.read_index last v At-frame last_next room,
    span-frame,
  )

-- Without an error text the body that the code cuts out is the one sent.
pub taken-plain :
    (m : TinyPb) (rest : List ℕ) → m.err_info ≡ [] → take (taken m) (from_body m rest) ≡ m.pb_body
taken-plain m rest plain =
    let no_text : length m.err_info ≡ 0 = ap (λ t. length t) plain in
    subst (λ n. take n (from_body m rest) ≡ m.pb_body)
      (let e : length m.pb_body ≡ taken m = omega (arith, no_text) in e) (take-append m.pb_body _)

-- At the front of an open buffer the frame of a message that can be sent and has no error text is
-- read back whole, every field as it was sent, and the bytes behind it stay for the next round.
pub decode_round-frame :
    (m : TinyPb) (rest : List ℕ) {b : TcpBuffer}
    → IsOpen b
    → contents b ≡ frame m ++ rest
    → IsSendable m
    → m.err_info ≡ []
    → (b' : TcpBuffer) × (decode_round b ≡ ok (some (some (received m m.pb_body), b')))
      × (contents b' ≡ rest)
      × IsOpen b'
decode_round-frame m rest {b} o held v none_text =
    let no_text : length m.err_info ≡ 0 = ap (λ t. length t) none_text in
    let (c, o') = contents-after_frame m rest o held in
    (
      move_read_index (pos (frame_length m)) b,
      decode_round-taken m rest o held v (omega arith)
          ∙ ap (λ t. ok (some (some (received m t), move_read_index (pos (frame_length m)) b)))
              (taken-plain m (rest ++ stale b) none_text),
      c,
      o',
    )

-- At the front of an open buffer, with enough bytes in the vector behind it, the frame of a
-- message with an error text gives a body that is longer than the one sent by twice that text: it
-- is the body sent, and behind it as many bytes of the checksum, the end byte and what stands behind
-- them in the vector.
pub decode_round-error_text :
    (m : TinyPb) (rest : List ℕ) {b : TcpBuffer}
    → IsOpen b
    → contents b ≡ frame m ++ rest
    → IsSendable m
    → 2 * length m.err_info ≤ length (rest ++ stale b) + 5
    → (m' : TinyPb) × (b' : TcpBuffer) × (decode_round b ≡ ok (some (some m', b')))
      × (m'.err_info ≡ m.err_info)
      × (m'.pb_body
          ≡ take
              (length m.pb_body + 2 * length m.err_info)
              (m.pb_body ++ (net_bytes 1 ++ (pb_end ∷ (rest ++ stale b)))))
      × (length m'.pb_body ≡ length m.pb_body + 2 * length m.err_info)
unfolding received
decode_round-error_text m rest {b} o held v room = (
  received m (take (taken m) (from_body m (rest ++ stale b))),
  move_read_index (pos (frame_length m)) b,
  decode_round-taken m rest o held v room,
  refl,
  refl,
  omega (
    arith,
    length-take (taken m) (from_body m (rest ++ stale b)),
    taken-le m (rest ++ stale b) room,
  ),
)
