-- ===== src/Tests/Samples.antt =====
-- Data that the tests share.
use rpc4grad.Prelude.{ℕ, ◌+◌, refl, arith, List, [], ◌∷◌, ◌++◌, replicate, length}
use rpc4grad.Buffer.{TcpBuffer, IsValid}
use rpc4grad.Coder.Protocol.{TinyPb, new_message}
use rpc4grad.Coder.Decode.{c_string}
use rpc4grad.Coder.Parse.{IsSendable}
use rpc4grad.Coder.Round.{IsOpen}

-- Three bytes wait in a vector of ten, two from its start.
abbrev pub small_buffer : TcpBuffer
small_buffer = record {
  read_index = 2;
  write_index = 5;
  size = 10;
  buffer = 0 ∷ 0 ∷ 7 ∷ 8 ∷ 9 ∷ 0 ∷ 0 ∷ 0 ∷ 0 ∷ 0 ∷ [];
}

pub small_buffer-IsValid : IsValid small_buffer
small_buffer-IsValid = record { ordered = omega arith; within = omega arith; sized = refl }

pub small_buffer-IsOpen : IsOpen small_buffer
small_buffer-IsOpen = record {
  valid = small_buffer-IsValid;
  open_end = omega arith;
  small = omega arith;
}

-- A request and an answer that reports an error.
abbrev pub request : TinyPb
request = record new_message {
  msg_id = b'1' ∷ b'2' ∷ [];
  method_name = b'S' ∷ b'.' ∷ b'm' ∷ [];
  pb_body = 5 ∷ 6 ∷ [];
}

abbrev pub failure : TinyPb
failure = record new_message {
  msg_id = b'1' ∷ [];
  method_name = b'm' ∷ [];
  err_code = 3;
  err_info = b'e' ∷ [];
}

pub request-IsSendable : IsSendable request
unfolding c_string
request-IsSendable = record {
  short_id = omega arith;
  short_name = omega arith;
  short_err = omega arith;
  no_nul = refl;
  code_word = omega arith;
  fits = omega arith;
}

pub failure-IsSendable : IsSendable failure
unfolding c_string
failure-IsSendable = record {
  short_id = omega arith;
  short_name = omega arith;
  short_err = omega arith;
  no_nul = refl;
  code_word = omega arith;
  fits = omega arith;
}

-- A buffer that holds the bytes and has room behind them.
abbrev pub holding : List ℕ → TcpBuffer
holding ds = record {
  read_index = 0;
  write_index = length ds;
  size = length ds + 16;
  buffer = ds ++ replicate 16 0;
}
