-- ===== src/Coder/Encode.antt =====
-- rocket/rocket/net/coder/tinyPB_coder.cpp: encode and encodeTinyPB.
use rpc4grad.Prelude.{
  ℕ, ◌+◌, ◌^◌, List, [], ◌∷◌, ◌++◌, true, length, ltb, Outcome, ok, out_of_bounds, require, ◌>>=◌,
  ◌>>◌,
}
use rpc4grad.Prelude.Bytes.{net_bytes}
use rpc4grad.Buffer.{TcpBuffer, write_to_buffer}
use rpc4grad.Coder.Protocol.{TinyPb, pb_start, pb_end}

-- "114514", the id of a message that has none.
abbrev pub default_msg_id : List ℕ
default_msg_id = b'1' ∷ b'1' ∷ b'4' ∷ b'5' ∷ b'1' ∷ b'4' ∷ []

abbrev pub or_default : List ℕ → List ℕ
or_default [] = default_msg_id
or_default (c ∷ cs) = c ∷ cs

unfoldable pub with_msg_id : TinyPb → TinyPb
with_msg_id m = record m { msg_id = or_default m.msg_id }

-- pk_len
abbrev pub frame_length : TinyPb → ℕ
frame_length m =
    2 + 24 + length m.msg_id + length m.method_name + length m.err_info + length m.pb_body

-- The bytes that encodeTinyPB writes one after the other, from the length of the error text on.
abbrev frame_tail : TinyPb → List ℕ
frame_tail m =
    net_bytes (length m.err_info) ++ (m.err_info ++ (m.pb_body ++ (net_bytes 1 ++ (pb_end ∷ []))))

unfoldable pub frame : TinyPb → List ℕ
frame m =
    pb_start
    ∷ (net_bytes (frame_length m)
        ++ (net_bytes (length m.msg_id)
            ++ (m.msg_id
                ++ (net_bytes (length m.method_name)
                    ++ (m.method_name ++ (net_bytes m.err_code ++ frame_tail m))))))

-- The fields that encodeTinyPB sets in the message.
unfoldable pub stamped : TinyPb → TinyPb
stamped m = record m {
  pk_length = frame_length m;
  msg_id_len = length m.msg_id;
  method_name_len = length m.method_name;
  err_info_len = length m.err_info;
  parase_success = true;
}

-- Where the sum does not fit an int, malloc gets too few bytes or none at all.
unfoldable pub encode_tiny_pb : TinyPb → Outcome (TinyPb × List ℕ)
unfolding with_msg_id frame stamped
encode_tiny_pb message = do
  let m = with_msg_id message
  require (ltb (frame_length m) (2 ^ 31)) out_of_bounds
  ok (stamped m, frame m)

-- The messages come back as encodeTinyPB leaves them. The length is never 0.
unfoldable pub encode : List TinyPb → TcpBuffer → Outcome (List TinyPb × TcpBuffer)
encode [] out_buffer = ok ([], out_buffer)
encode (message ∷ rest) out_buffer = do
  (m, bytes) ← encode_tiny_pb message
  b ← write_to_buffer bytes out_buffer
  (ms, b') ← encode rest b
  ok (m ∷ ms, b')
