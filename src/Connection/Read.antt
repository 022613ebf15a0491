-- ===== src/Connection/Read.antt =====
-- TcpConnection::onRead: what the in buffer holds after the reads.
use rpc4grad.Prelude.{
  ℕ, ◌+◌, ◌≤◌, ◌<◌, ◌≡◌, refl, sym, ◌∙◌, ap, subst, false, Bool-cases, inl, inr, some, List, [],
  ◌∷◌, ◌++◌, length, ltb, leb, ltb→lt, leb→le, ◌==◌, leb-false, le→leb, arith, ok,
}
use rpc4grad.Prelude.Slices.{blit, length-blit, slice-blit_before, slice-blit_end}
use rpc4grad.Buffer.{
  TcpBuffer, IsValid, read_able, write_able, contents, adjust_buffer, move_write_index,
  set_write_index, offset,
}
use rpc4grad.Buffer.Contents.{
  adjust_buffer-IsValid, contents-adjust_buffer, length-adjust_buffer, adjust_buffer-write_index,
}
use rpc4grad.Coder.Round.{IsOpen}
use rpc4grad.Connection.{
  ReadResult, received, end_of_file, read_again, read_error, ReadEnd, ensure_room, receive,
  read_loop,
}

-- The buffer with the bytes that read(2) has put behind the write index.
abbrev filled : List ℕ → TcpBuffer → TcpBuffer
filled ds b = record b { buffer = blit b.write_index ds b.buffer }

abbrev advanced : List ℕ → TcpBuffer → TcpBuffer
advanced ds b = record b {
  buffer = blit b.write_index ds b.buffer;
  write_index = b.write_index + length ds;
}

advanced-IsValid :
    (ds : List ℕ) {b : TcpBuffer} → IsValid b → length ds ≤ write_able b → IsValid (advanced ds b)
advanced-IsValid ds {b} v h = record {
  ordered = omega arith;
  within = omega arith;
  sized = omega (arith, length-blit b.write_index ds b.buffer);
}

receive-advanced :
    (ds : List ℕ) {b : TcpBuffer}
    → IsValid b
    → length ds < write_able b
    → receive ds b ≡ adjust_buffer (advanced ds b)
unfolding receive move_write_index offset set_write_index
receive-advanced ds {b} v h = rw (
    leb-false (length (blit b.write_index ds b.buffer)) (b.write_index + length ds)
      (omega (arith, length-blit b.write_index ds b.buffer)))

-- The write index does not move further than the bytes.
pub receive-below :
    (ds : List ℕ) {b : TcpBuffer}
    → IsOpen b
    → length ds < write_able b
    → (receive ds b).write_index ≤ b.write_index + length ds
receive-below ds {b} o h =
    rw (receive-advanced ds o.valid h) (adjust_buffer-write_index (advanced ds b))

-- Fewer bytes than there is room for are appended.
pub receive-appends :
    (ds : List ℕ) {b : TcpBuffer}
    → IsOpen b
    → length ds < write_able b
    → (contents (receive ds b) ≡ contents b ++ ds)
      × IsOpen (receive ds b)
      × (length (receive ds b).buffer ≡ length b.buffer)
unfolding contents
receive-appends ds {b} o h =
    let v = advanced-IsValid ds o.valid (omega arith) in
    let n : length (advanced ds b).buffer ≡ length b.buffer =
      omega (arith, length-blit b.write_index ds b.buffer) in
    let m = length-adjust_buffer v in
    rw (receive-advanced ds o.valid h) (
      contents-adjust_buffer v
          ∙ slice-blit_end b.read_index b.write_index ds b.buffer (omega arith) (omega arith),
      record {
        valid = adjust_buffer-IsValid v;
        open_end = omega (arith, adjust_buffer-write_index (advanced ds b));
        small = omega arith;
      },
      omega arith,
    )

-- Exactly as many bytes as an open buffer has room for are lost: moveWriteIndex refuses the index
-- at the end of the vector, so what can be read afterwards is what could be read before.
pub receive-full_lost :
    (ds : List ℕ) {b : TcpBuffer}
    → IsOpen b
    → length ds ≡ write_able b
    → (contents (receive ds b) ≡ contents b)
      × IsOpen (receive ds b)
      × (length (receive ds b).buffer ≡ length b.buffer)
unfolding receive move_write_index offset set_write_index contents
receive-full_lost ds {b} o h =
    let n = length-blit b.write_index ds b.buffer (omega arith) in
    rw (le→leb (length (blit b.write_index ds b.buffer)) (b.write_index + length ds) (omega arith))
      (
        slice-blit_before b.read_index (read_able b) b.write_index ds b.buffer (omega arith)
            (omega arith),
        record {
          valid = record { ordered = omega arith; within = omega arith; sized = omega arith };
          open_end = omega arith;
          small = omega arith;
        },
        n,
      )

pub ensure_room-kept : {b : TcpBuffer} → IsOpen b → ensure_room b ≡ b
unfolding ensure_room
ensure_room-kept {b} o = let z : (write_able b == 0) ≡ false = ground arith in rw z

-- What the reads leave of a buffer.
pub record Reads (b b' : TcpBuffer) : Type 0 where
  pub is_open : IsOpen b'
  pub same_size : length b'.buffer ≡ length b.buffer

Reads-trans : {b c d : TcpBuffer} → Reads b c → Reads c d → Reads b d
Reads-trans r q = record { is_open = q.is_open; same_size = q.same_size ∙ r.same_size }

receive-Reads :
    (ds : List ℕ) {b : TcpBuffer} → IsOpen b → length ds ≤ write_able b → Reads b (receive ds b)
receive-Reads ds {b} o h = elim (Bool-cases (ltb (length ds) (write_able b))) [
  | inl short ↦
      let (c, p, n) = receive-appends ds o (ltb→lt _ _ short) in
      record { is_open = p; same_size = n }
  | inr full ↦
      let (c, p, n) = receive-full_lost ds o (ground arith) in record { is_open = p; same_size = n }
]

-- Whatever the peer sends, and however often, an open in buffer stays open and its vector keeps
-- its size: the branch that would double it is never reached.
pub read_loop-Reads :
    (rs : List ReadResult) (b : TcpBuffer) {e : ReadEnd} {b' : TcpBuffer}
    → IsOpen b
    → read_loop rs b ≡ some (ok (e, b'))
    → Reads b b'
unfolding read_loop
read_loop-Reads [] b o h = cc
read_loop-Reads (received ds ∷ rs) b {e} {b'} o h =
    let k = ensure_room-kept o in
    elim (Bool-cases (leb (length ds) (write_able b))) [
      | inr over ↦ let z = rw (k, over, read_loop) at h in cc
      | inl fits ↦
          let w = receive-Reads ds o (leb→le _ _ fits) in
          let h0 = rw (k, fits, read_loop) at h in
          elim (Bool-cases (length ds == write_able b)) [
            | inl full ↦
                let z = rw (k, full, k) at h0 in
                Reads-trans w (read_loop-Reads rs (receive ds b) w.is_open z)
            | inr short ↦
                let z = rw (k, short, k) at h0 in
                let y : receive ds b ≡ b' = ground arith in subst (Reads b) y w
          ]
    ]
read_loop-Reads (end_of_file ∷ rs) b {e} {b'} o h =
    let z : ensure_room b ≡ b' = ground arith in
    subst (Reads b) (sym (ensure_room-kept o) ∙ z) (record { is_open = o; same_size = refl })
read_loop-Reads (read_again ∷ rs) b {e} {b'} o h =
    let z : ensure_room b ≡ b' = ground arith in
    subst (Reads b) (sym (ensure_room-kept o) ∙ z) (record { is_open = o; same_size = refl })
read_loop-Reads (read_error ∷ rs) b o h =
    read_loop-Reads rs b o (ap (read_loop rs) (sym (ensure_room-kept o)) ∙ h)
