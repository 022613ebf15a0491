-- ===== src/Buffer/Move.antt =====
-- TcpBuffer: taking bytes out, and moving the indices over bytes that the caller handles itself.
use rpc4grad.Prelude.{
  ℕ, ◌+◌, ◌-◌, ◌≤◌, ◌<◌, min, ◌≡◌, sym, ◌∙◌, List, ◌++◌, arith, length, drop, ltb, ◌==◌, leb-false,
  le→leb, false, take-append-drop, if◌then◌else◌,
}
use rpc4grad.Prelude.Slices.{slice, length-slice, length-blit, drop-slice, take-slice}
use rpc4grad.Prelude.Int.{pos}
use rpc4grad.Buffer.{
  TcpBuffer, IsValid, read_able, contents, adjust_buffer, read_from_buffer, move_read_index, offset,
  set_read_index,
}
use rpc4grad.Buffer.Contents.{adjust_buffer-IsValid, contents-adjust_buffer}

-- The index `n` bytes further on, before adjustBuffer.
abbrev skip : ℕ → TcpBuffer → TcpBuffer
skip n b = record b { read_index = b.read_index + n }

skip-IsValid : {b : TcpBuffer} (n : ℕ) → IsValid b → n ≤ read_able b → IsValid (skip n b)
skip-IsValid n v h = record { ordered = omega arith; within = v.within; sized = v.sized }

contents-skip : (n : ℕ) (b : TcpBuffer) → contents (skip n b) ≡ drop n (contents b)
unfolding contents
contents-skip n b =
    let e : b.write_index - (b.read_index + n) ≡ read_able b - n = omega arith in
    rw e (sym (drop-slice n b.read_index (read_able b) b.buffer))

contents-take_skip :
    (m : ℕ) {b : TcpBuffer}
    → IsValid b
    → m ≤ read_able b
    → slice b.read_index m b.buffer ++ contents (adjust_buffer (skip m b)) ≡ contents b
unfolding contents
contents-take_skip m {b} v h =
    rw
      (
        contents-adjust_buffer (skip-IsValid m v h),
        contents-skip m b,
        ← take-slice m b.read_index (read_able b) b.buffer h,
      )
      (take-append-drop m (contents b))

-- readFromBuffer of a valid buffer with something to read hands out the oldest bytes, as many as
-- asked for or as there are, and the rest stays, in order.
pub read_from_buffer-splits :
    (read_buf : List ℕ) (n : ℕ) {b : TcpBuffer}
    → IsValid b
    → 0 < read_able b
    → let (out, b') = read_from_buffer read_buf n b in
      (length out ≡ min n (read_able b)) × (out ++ contents b' ≡ contents b) × IsValid b'
unfolding read_from_buffer
read_from_buffer-splits read_buf n {b} v h =
    let count : (if ltb n (read_able b) then n else read_able b) ≡ min n (read_able b) =
      ground arith in
    let some_bytes : (read_able b == 0) ≡ false = ground arith in
    rw (some_bytes, count)
      (
        length-slice b.read_index (min n (read_able b)) b.buffer (omega arith),
        contents-take_skip (min n (read_able b)) v (omega arith),
        adjust_buffer-IsValid (skip-IsValid (min n (read_able b)) v (omega arith)),
      )

-- moveReadIndex drops the oldest `n` bytes, if the index stays inside the vector.
pub move_read_index-drops :
    (n : ℕ) {b : TcpBuffer}
    → IsValid b
    → n ≤ read_able b
    → b.read_index + n < length b.buffer
    → (contents (move_read_index (pos n) b) ≡ drop n (contents b))
      × IsValid (move_read_index (pos n) b)
unfolding move_read_index offset set_read_index
move_read_index-drops n {b} v h k = rw (leb-false (length b.buffer) (b.read_index + n) k) (
  contents-adjust_buffer (skip-IsValid n v h) ∙ contents-skip n b,
  adjust_buffer-IsValid (skip-IsValid n v h),
)

-- An index at the end of the vector is refused, also where it is the write index.
move_read_index-refused :
    (n : ℕ) (b : TcpBuffer) → length b.buffer ≤ b.read_index + n → move_read_index (pos n) b ≡ b
unfolding move_read_index offset set_read_index
move_read_index-refused n b h = rw (le→leb (length b.buffer) (b.read_index + n) h)

-- Moving the read index never moves the write index up, and keeps the vector's size.
pub move_read_index-stays_open :
    (n : ℕ) {b : TcpBuffer}
    → IsValid b
    → n ≤ read_able b
    → ((move_read_index (pos n) b).write_index ≤ b.write_index)
      × (length (move_read_index (pos n) b).buffer ≡ length b.buffer)
unfolding move_read_index offset set_read_index adjust_buffer
move_read_index-stays_open n {b} v h = ground (
  arith,
  length-slice (b.read_index + n) (b.write_index - (b.read_index + n)) b.buffer,
  length-blit 0 (slice (b.read_index + n) (b.write_index - (b.read_index + n)) b.buffer) b.buffer,
)
