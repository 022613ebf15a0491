-- ===== src/Buffer.antt =====
-- rocket/rocket/net/TCP/tcp_buffer.h and tcp_buffer.cpp: the byte buffer of a connection.
pub mod Contents
pub mod Write
pub mod Move
use rpc4grad.Prelude.{
  ℕ, ◌+◌, ◌-◌, ◌*◌, ◌/◌, ◌^◌, ◌≤◌, min, ◌≡◌, Bool, List, [], ◌∷◌, arith, length, replicate, ltb,
  leb, ◌==◌, if◌then◌else◌, Outcome, ok, fault, require, ◌>>=◌, ◌>>◌, Fault, out_of_bounds,
  signed_overflow,
}
use rpc4grad.Prelude.Slices.{slice, blit}
use rpc4grad.Prelude.Int.{ℤ, pos, negsuc, sub_ℕ}

-- `size` is m_size, which the code keeps beside the vector's own size.
pub record TcpBuffer : Type 0 where
  pub read_index : ℕ
  pub write_index : ℕ
  pub size : ℕ
  pub buffer : List ℕ

-- TcpBuffer(int size)
unfoldable pub new_buffer : ℕ → TcpBuffer
new_buffer n = record { read_index = 0; write_index = 0; size = n; buffer = replicate n 0 }

-- `int` differences: the invariant keeps both from going below zero.
abbrev pub read_able : TcpBuffer → ℕ
read_able b = b.write_index - b.read_index

abbrev pub write_able : TcpBuffer → ℕ
write_able b = b.size - b.write_index

-- The bytes that wait to be read.
unfoldable pub contents : TcpBuffer → List ℕ
contents b = slice b.read_index (read_able b) b.buffer

unfoldable pub resize_buffer : ℕ → TcpBuffer → TcpBuffer
resize_buffer new_size b =
    let count = min new_size (read_able b) in
    record {
      read_index = 0;
      write_index = count;
      size = new_size;
      buffer = blit 0 (slice b.read_index count b.buffer) (replicate new_size 0);
    }

unfoldable pub adjust_buffer : TcpBuffer → TcpBuffer
adjust_buffer b =
    let count = read_able b in
    if ltb b.read_index (length b.buffer / 3) then b else record b {
      read_index = 0;
      write_index = count;
      buffer =
          if ltb 0 count then blit 0 (slice b.read_index count b.buffer) b.buffer else b.buffer;
    }

-- (int)(1.5 * (m_size + m_write_index))
abbrev pub grown_size : TcpBuffer → ℕ
grown_size b = 3 * (b.size + b.write_index) / 2

-- The branch of writeToBuffer that makes room. A product beyond int has no defined conversion.
unfoldable pub make_room : ℕ → TcpBuffer → Outcome TcpBuffer
make_room n b =
    if ltb (write_able b) n
    then (require (ltb (grown_size b) (2 ^ 31)) signed_overflow
        >> ok (resize_buffer (grown_size b) b))
    else ok b

-- The memcpy of writeToBuffer, which the code does not check, and the move of the index.
unfoldable pub put_bytes : List ℕ → TcpBuffer → Outcome TcpBuffer
put_bytes ds b = do
  require (leb (b.write_index + length ds) (length b.buffer)) out_of_bounds
  ok (record b { buffer = blit b.write_index ds b.buffer; write_index = b.write_index + length ds })

unfoldable pub write_to_buffer : List ℕ → TcpBuffer → Outcome TcpBuffer
write_to_buffer ds b = do b' ← make_room (length ds) b; put_bytes ds b'

-- `read_buf` is the caller's vector, which stays as it is if nothing is readable.
unfoldable pub read_from_buffer : List ℕ → ℕ → TcpBuffer → List ℕ × TcpBuffer
read_from_buffer read_buf n b =
    let read_size = if ltb n (read_able b) then n else read_able b in
    if read_able b == 0 then (read_buf, b) else (
      slice b.read_index read_size b.buffer,
      adjust_buffer (record b { read_index = b.read_index + read_size }),
    )

-- index + size, on int.
unfoldable pub offset : ℕ → ℤ → ℤ
offset i (pos n) = pos (i + n)
offset i (negsuc n) = sub_ℕ i (n + 1)

-- A negative sum becomes a huge size_t, which the test refuses.
unfoldable pub set_read_index : ℤ → TcpBuffer → TcpBuffer
set_read_index (pos n) b =
    if leb (length b.buffer) n then b else adjust_buffer (record b { read_index = n })
set_read_index (negsuc n) b = b

unfoldable pub move_read_index : ℤ → TcpBuffer → TcpBuffer
move_read_index n b = set_read_index (offset b.read_index n) b

unfoldable pub set_write_index : ℤ → TcpBuffer → TcpBuffer
set_write_index (pos n) b =
    if leb (length b.buffer) n then b else adjust_buffer (record b { write_index = n })
set_write_index (negsuc n) b = b

unfoldable pub move_write_index : ℤ → TcpBuffer → TcpBuffer
move_write_index n b = set_write_index (offset b.write_index n) b

-- What the class keeps: both indices in order and in the vector, whose size is m_size.
pub record IsValid (b : TcpBuffer) : Type 0 where
  pub ordered : b.read_index ≤ b.write_index
  pub within : b.write_index ≤ b.size
  pub sized : length b.buffer ≡ b.size
