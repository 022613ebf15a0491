-- ===== src/Coder/Stream.antt =====
-- Whole conversations: what encode writes for a list of messages, and what decode makes of it.
use rpc4grad.Prelude.{
  ℕ, suc, ◌≡◌, refl, sym, subst, ◌∙◌, ap, List, [], ◌∷◌, ◌++◌, map, append_assoc, append-nil, none,
  some, length, ok, >>=-eq-ok, arith,
}
use rpc4grad.Buffer.{TcpBuffer, IsValid, read_able, contents, write_to_buffer}
use rpc4grad.Buffer.Contents.{length-contents}
use rpc4grad.Buffer.Write.{write_to_buffer-ok}
use rpc4grad.Coder.Protocol.{TinyPb}
use rpc4grad.Coder.Encode.{frame, with_msg_id, stamped, encode_tiny_pb, encode}
use rpc4grad.Coder.Decode.{scan, decode_round, decode}
use rpc4grad.Coder.Parse.{IsSendable, received}
use rpc4grad.Coder.Round.{IsOpen, decode_round-frame}

-- The frames of the messages, one after the other.
abbrev pub frames : List TinyPb → List ℕ
frames [] = []
frames (m ∷ ms) = frame m ++ frames ms

-- Every message can be sent, and none carries an error text.
abbrev pub AllPlain : List TinyPb → Type 0
AllPlain [] = Unit {0}
AllPlain (m ∷ ms) = IsSendable m × (m.err_info ≡ []) × AllPlain ms

-- A message as it arrives.
abbrev pub arrived : TinyPb → TinyPb
arrived m = received m m.pb_body

frame-stamped : (m : TinyPb) → frame (stamped m) ≡ frame m
unfolding frame stamped
frame-stamped m = refl

encode_tiny_pb-ok :
    (m m' : TinyPb) (bytes : List ℕ)
    → encode_tiny_pb m ≡ ok (m', bytes)
    → (m' ≡ stamped (with_msg_id m)) × (bytes ≡ frame (with_msg_id m))
unfolding encode_tiny_pb
encode_tiny_pb-ok m m' bytes h = ground arith

-- Where encode into a valid buffer has no fault, it appends the frames of the messages, each
-- under its id or the default one, and no other byte, and the buffer is valid again.
pub encode-appends :
    (ms : List TinyPb) {b b' : TcpBuffer} {ms' : List TinyPb}
    → IsValid b
    → encode ms b ≡ ok (ms', b')
    → (contents b' ≡ contents b ++ frames (map with_msg_id ms)) × IsValid b'
unfolding encode
encode-appends [] {b} {b'} v h =
    let e : b ≡ b' = ground arith in
    (
      subst (λ t. contents t ≡ contents b ++ []) e (sym (append-nil (contents b))),
      subst IsValid e v,
    )
encode-appends (m ∷ ms) {b} {b'} v h =
    let ((m', bytes), e1, h1) = >>=-eq-ok (encode_tiny_pb m) _ h in
    let (b1, e2, h2) = >>=-eq-ok (write_to_buffer bytes b) _ h1 in
    let ((ms1, b2), e3, h3) = >>=-eq-ok (encode ms b1) _ h2 in
    let w = write_to_buffer-ok bytes v e2 in
    let (c, v') = encode-appends ms w.valid e3 in
    let last : b2 ≡ b' = ground arith in
    let (_, sent) = encode_tiny_pb-ok m m' bytes e1 in
    let joined =
      c
      ∙ ap (λ t. t ++ frames (map with_msg_id ms)) (w.appended ∙ ap (λ t. contents b ++ t) sent)
      ∙ append_assoc (contents b) (frame (with_msg_id m)) (frames (map with_msg_id ms)) in
    subst (λ t. (contents t ≡ contents b ++ frames (map with_msg_id (m ∷ ms))) × IsValid t) last
      (joined, v')

-- The loop ends when nothing is left to read.
pub decode_round-empty : (b : TcpBuffer) → read_able b ≡ 0 → decode_round b ≡ ok none
unfolding decode_round scan
decode_round-empty b e = rw (e, decode_round, scan)

-- An open buffer that holds whole frames and nothing else, of messages that can be sent and have
-- no error text, is decoded into their messages, in order, and is empty afterwards. One round for
-- each message and one to see the end are enough.
pub decode-frames :
    (ms out : List TinyPb) {b : TcpBuffer}
    → IsOpen b
    → AllPlain ms
    → contents b ≡ frames ms
    → (b' : TcpBuffer) × (decode (suc (length ms)) out b ≡ some (ok (out ++ map arrived ms, b')))
      × (contents b' ≡ [])
      × IsOpen b'
unfolding decode
decode-frames [] out {b} o p held = (
  b,
  rw (
    decode_round-empty b (omega (arith, length-contents o.valid, ap (λ t. length t) held)),
    decode,
    append-nil,
  ),
  held,
  o,
)
decode-frames (m ∷ ms) out {b} o (v, plain, p) held =
    let (b1, e, c, o1) = decode_round-frame m (frames ms) o held v plain in
    let (b2, e2, c2, o2) = decode-frames ms (out ++ arrived m ∷ []) o1 p c in
    (
      b2,
      rw (e, decode)
          (e2 ∙ ap (λ t. some (ok (t, b2))) (append_assoc out (arrived m ∷ []) (map arrived ms))),
      c2,
      o2,
    )
