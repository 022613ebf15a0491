-- ===== src/Tests/Buffers.antt =====
-- tcp_buffer.cpp at concrete buffers.
use rpc4grad.Prelude.{ℕ, ◌<◌, ◌≡◌, ◌↔◌, refl, arith, List, [], ◌∷◌, fault, out_of_bounds}
use rpc4grad.Prelude.Slices.{slice}
use rpc4grad.Buffer.{TcpBuffer, IsValid, contents, write_to_buffer, read_from_buffer}
use rpc4grad.Buffer.Write.{write_to_buffer-overruns}
use rpc4grad.Tests.Samples.{small_buffer}

contents_test : contents small_buffer ≡ 7 ∷ 8 ∷ 9 ∷ []
unfolding contents slice
contents_test = refl

read_test : (read_from_buffer [] 2 small_buffer).0 ≡ 7 ∷ 8 ∷ []
unfolding read_from_buffer slice
read_test = refl

abbrev six_bytes : List ℕ
six_bytes = 1 ∷ 2 ∷ 3 ∷ 4 ∷ 5 ∷ 6 ∷ []

-- A small vector does not grow enough for a long text.
abbrev tiny_buffer : TcpBuffer
tiny_buffer = record { read_index = 0; write_index = 0; size = 2; buffer = 0 ∷ 0 ∷ [] }

tiny_buffer-IsValid : IsValid tiny_buffer
tiny_buffer-IsValid = record { ordered = omega arith; within = omega arith; sized = refl }

write_to_buffer-overruns_example :
    (write_to_buffer six_bytes tiny_buffer ≡ fault out_of_bounds) ↔ ((2 < 6) × (3 < 6))
write_to_buffer-overruns_example =
    write_to_buffer-overruns six_bytes tiny_buffer-IsValid (omega arith)
