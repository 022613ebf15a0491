-- ===== src/Coder/Hang.antt =====
-- The decoder's loop on bytes that keep it from ever returning.
use rpc4grad.Prelude.{
  ℕ, zero, suc, ◌+◌, ◌^◌, ◌≤◌, ◌<◌, ◌≡◌, refl, ◌∙◌, ap, List, [], ◌∷◌, ◌++◌, none, some, length, ok,
  arith, lt→ltb, le→leb,
}
use rpc4grad.Prelude.Int.{pos}
use rpc4grad.Prelude.Bytes.{net_bytes}
use rpc4grad.Buffer.{TcpBuffer, read_able, contents, move_read_index}
use rpc4grad.Buffer.Contents.{length-contents}
use rpc4grad.Buffer.Move.{move_read_index-drops, move_read_index-stays_open}
use rpc4grad.Coder.Frames.{ends_at-end}
use rpc4grad.Coder.Protocol.{TinyPb, pb_start, pb_end}
use rpc4grad.Coder.Decode.{
  int32_at, last_index, probe_frame, probe, scan, span, parse_message, decode_round, decode,
}
use rpc4grad.Coder.Reads.{At, At-skip, byte_at-At, int32_at-net}
use rpc4grad.Coder.Round.{IsOpen, stale, drop-read_index}

-- An end byte, and behind it a start byte with the length 0.
abbrev pub trap : List ℕ
trap = pb_end ∷ pb_start ∷ 0 ∷ 0 ∷ 0 ∷ 0 ∷ []

trap-miss : (tmp rest : List ℕ) (w i : ℕ) → At tmp i (trap ++ rest) → probe tmp w i ≡ ok none
unfolding probe
trap-miss tmp rest w i at = rw (byte_at-At tmp i pb_end _ at)

trap-int32 : (tmp rest : List ℕ) (i : ℕ) → At tmp i (trap ++ rest) → int32_at tmp (i + 2) ≡ ok 0
unfolding net_bytes
trap-int32 tmp rest i at =
    int32_at-net 0 rest tmp (i + 2) (omega arith) (At-skip (pb_end ∷ pb_start ∷ []) _ tmp i at)

last_index-zero : (i : ℕ) → i + 1 < 2 ^ 31 → last_index (i + 1) 0 ≡ ok (pos i)
unfolding last_index
last_index-zero i h = ground arith

trap-hit :
    (tmp rest : List ℕ) (w i : ℕ)
    → At tmp i (trap ++ rest)
    → i + 2 < w
    → w < 2 ^ 31
    → probe tmp w (i + 1) ≡ ok (some (i, 0))
unfolding probe probe_frame
trap-hit tmp rest w i at h k =
    let e : i + 1 + 1 ≡ i + 2 = omega arith in
    rw (
      byte_at-At tmp (i + 1) pb_start _ (At-skip (pb_end ∷ []) _ tmp i at),
      e,
      lt→ltb (i + 2) w h,
      trap-int32 tmp rest i at,
      last_index-zero i (omega arith),
      ends_at-end tmp _ w i (omega arith) at,
    )

trap-scan :
    (tmp rest : List ℕ) (w n i : ℕ)
    → At tmp i (trap ++ rest)
    → i + 2 < w
    → w < 2 ^ 31
    → 1 < n
    → scan tmp w n i ≡ ok (some (i + 1, i, 0))
unfolding scan
trap-scan tmp rest w zero i at h k m = absurd (omega arith)
trap-scan tmp rest w (suc zero) i at h k m = absurd (omega arith)
trap-scan tmp rest w (suc (suc n)) i at h k m =
    rw (trap-miss tmp rest w i at, trap-hit tmp rest w i at h k)

-- The round finds a frame of length 0 that ends before it starts, rejects it, and moves the read
-- index by 0 bytes.
trap-round :
    {b : TcpBuffer} (rest : List ℕ)
    → IsOpen b
    → contents b ≡ trap ++ rest
    → decode_round b ≡ ok (some (none, move_read_index (pos 0) b))
unfolding decode_round parse_message
trap-round {b} rest o held =
    let n : 6 ≤ read_able b = omega (arith, length-contents o.valid, ap (λ t. length t) held) in
    let z : span (b.read_index + 1) b.read_index ≡ pos 0 = ground arith in
    rw (
      trap-scan b.buffer (rest ++ stale b) b.write_index (read_able b) b.read_index
          (drop-read_index o.valid ∙ ap (λ t. t ++ stale b) held) (omega arith) (omega arith)
          (omega arith),
      le→leb b.read_index (b.read_index + 1 + 1 + 4) (omega arith),
      z,
    )

trap-kept :
    {b : TcpBuffer} (rest : List ℕ)
    → IsOpen b
    → contents b ≡ trap ++ rest
    → (contents (move_read_index (pos 0) b) ≡ trap ++ rest) × IsOpen (move_read_index (pos 0) b)
trap-kept {b} rest o held =
    let (c, v) = move_read_index-drops 0 o.valid (omega arith) (omega arith) in
    let (w, l) = move_read_index-stays_open 0 o.valid (omega arith) in
    (c ∙ held, record { valid = v; open_end = omega arith; small = omega arith })

-- On an open buffer whose bytes begin with an end byte, a start byte and the length 0 the decoder
-- never returns: after any number of rounds it is still running. Nothing but the bytes received
-- brings this about.
pub decode-hangs :
    (fuel : ℕ) (out : List TinyPb) {b : TcpBuffer} (rest : List ℕ)
    → IsOpen b
    → contents b ≡ trap ++ rest
    → decode fuel out b ≡ none
unfolding decode
decode-hangs zero out rest o held = refl
decode-hangs (suc fuel) out {b} rest o held =
    let (c, o') = trap-kept rest o held in
    rw (trap-round rest o held, decode) (decode-hangs fuel out rest o' c)
