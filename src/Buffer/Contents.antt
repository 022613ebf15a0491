-- ===== src/Buffer/Contents.antt =====
-- TcpBuffer: moving the bytes to the front, or to a new vector, keeps what waits to be read.
use rpc4grad.Prelude.{
  ℕ, ◌-◌, ◌/◌, ◌≤◌, min, ◌≡◌, inl, inr, List, arith, length, replicate, take, ltb, length-replicate,
  Bool-cases,
}
use rpc4grad.Prelude.Slices.{slice, blit, length-slice, length-blit, slice-blit_self, take-slice}
use rpc4grad.Buffer.{
  TcpBuffer, IsValid, read_able, contents, resize_buffer, adjust_buffer, new_buffer,
}

pub new_buffer-IsValid : (n : ℕ) → IsValid (new_buffer n)
unfolding new_buffer
new_buffer-IsValid n = record {
  ordered = omega arith;
  within = omega arith;
  sized = length-replicate n 0;
}

pub length-contents : {b : TcpBuffer} → IsValid b → length (contents b) ≡ read_able b
unfolding contents
length-contents {b} v = length-slice b.read_index (read_able b) b.buffer (omega arith)

-- Copying a window to the front of a vector that holds it.
slice-front : (ds xs : List ℕ) (n : ℕ) → length ds ≡ n → slice 0 (n - 0) (blit 0 ds xs) ≡ ds
slice-front ds xs n e =
    let k : n - 0 ≡ length ds = omega arith in rw k (slice-blit_self 0 ds xs (omega arith))

pub resize_buffer-IsValid : {b : TcpBuffer} (n : ℕ) → IsValid b → IsValid (resize_buffer n b)
unfolding resize_buffer
resize_buffer-IsValid {b} n v = record {
  ordered = omega arith;
  within = omega arith;
  sized = omega (
    arith,
    length-replicate {A = ℕ} n 0,
    length-slice b.read_index (min n (read_able b)) b.buffer (omega arith),
    length-blit 0 (slice b.read_index (min n (read_able b)) b.buffer) (replicate n 0),
  );
}

-- A resize keeps the bytes that fit the new size, from the oldest on.
pub contents-resize_buffer :
    {b : TcpBuffer} (n : ℕ)
    → IsValid b
    → contents (resize_buffer n b) ≡ take (min n (read_able b)) (contents b)
unfolding resize_buffer contents
contents-resize_buffer {b} n v =
    rw (take-slice (min n (read_able b)) b.read_index (read_able b) b.buffer (omega arith)) (
      slice-front (slice b.read_index (min n (read_able b)) b.buffer) (replicate n 0)
        (min n (read_able b))
        (length-slice b.read_index (min n (read_able b)) b.buffer (omega arith)))

pub adjust_buffer-IsValid : {b : TcpBuffer} → IsValid b → IsValid (adjust_buffer b)
unfolding adjust_buffer
adjust_buffer-IsValid {b} v = ground (
  arith,
  length-slice b.read_index (read_able b) b.buffer,
  length-blit 0 (slice b.read_index (read_able b) b.buffer) b.buffer,
)

-- Moving the bytes to the front loses none and changes none.
pub contents-adjust_buffer : {b : TcpBuffer} → IsValid b → contents (adjust_buffer b) ≡ contents b
unfolding adjust_buffer contents slice
contents-adjust_buffer {b} v = elim (Bool-cases (ltb b.read_index (length b.buffer / 3))) [
  | inl stay ↦ rw stay
  | inr move ↦ elim (Bool-cases (ltb 0 (read_able b))) [
    | inl some_bytes ↦
        rw (move, some_bytes)
          (slice-front (slice b.read_index (read_able b) b.buffer) b.buffer (read_able b)
            (length-slice b.read_index (read_able b) b.buffer (omega arith)))
    | inr no_bytes ↦ let e : read_able b ≡ 0 = ground arith in rw (move, no_bytes, e)
  ]
]

pub length-adjust_buffer :
    {b : TcpBuffer} → IsValid b → length (adjust_buffer b).buffer ≡ length b.buffer
unfolding adjust_buffer
length-adjust_buffer {b} v = ground (
  arith,
  length-slice b.read_index (read_able b) b.buffer,
  length-blit 0 (slice b.read_index (read_able b) b.buffer) b.buffer,
)

pub adjust_buffer-write_index : (b : TcpBuffer) → (adjust_buffer b).write_index ≤ b.write_index
unfolding adjust_buffer
adjust_buffer-write_index b = ground arith
