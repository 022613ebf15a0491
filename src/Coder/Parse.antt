-- ===== src/Coder/Parse.antt =====
-- The decoder's parse of one frame that encodeTinyPB wrote, stage by stage.
use rpc4grad.Prelude.{
  ℕ, ◌+◌, ◌*◌, ◌^◌, ◌≤◌, ◌<◌, ◌≡◌, ◌∙◌, List, [], ◌∷◌, ◌++◌, append_assoc, some, true, length, take,
  length-append, le→leb, lt→ltb, leb-false, ok, arith,
}
use rpc4grad.Prelude.Int.{pos}
use rpc4grad.Prelude.Bytes.{net_bytes, length-net_bytes}
use rpc4grad.Prelude.Slices.{slice}
use rpc4grad.Coder.Protocol.{TinyPb, new_message, pb_start, pb_end, set_err_info, set_method_name}
use rpc4grad.Coder.Encode.{frame_length, frame}
use rpc4grad.Coder.Decode.{
  c_string, read_err_info, read_body, body_length, parse_err_info, parse_err_code,
  parse_method_name, parse_message,
}
use rpc4grad.Coder.Reads.{At, At-length, At-skip, int32_at-net, copy_field-At}

-- What the arrays of the decoder, and the lengths of the format, ask of a message.
pub record IsSendable (m : TinyPb) : Type 0 where
  pub short_id : length m.msg_id ≤ 100
  pub short_name : length m.method_name ≤ 512
  pub short_err : length m.err_info < 512
  pub no_nul : c_string m.err_info ≡ m.err_info
  pub code_word : m.err_code < 2 ^ 32
  pub fits : frame_length m < 2 ^ 31

-- The rest of the vector behind a frame, from the message's body on.
abbrev pub from_body : TinyPb → List ℕ → List ℕ
from_body m rest = m.pb_body ++ (net_bytes 1 ++ (pb_end ∷ rest))

-- The message as the decoder makes it up, with the body that it takes.
unfoldable pub received : TinyPb → List ℕ → TinyPb
received m body = record {
  pk_length = frame_length m;
  msg_id_len = length m.msg_id;
  msg_id = m.msg_id;
  method_name_len = length m.method_name;
  method_name = m.method_name;
  err_code = m.err_code;
  err_info_len = length m.err_info;
  err_info = m.err_info;
  pb_body = body;
  check_sum = 0;
  parase_success = true;
}

At-net :
    (w : ℕ) (rest tmp : List ℕ) (i : ℕ)
    → At tmp i (net_bytes w ++ rest)
    → At tmp (i + 4) rest × (i + 4 ≤ length tmp)
unfolding net_bytes
At-net w rest tmp i at =
    (At-skip (net_bytes w) rest tmp i at, omega (arith, At-length tmp i (net_bytes w ++ rest) at))

read_err_info-At :
    (s rest tmp : List ℕ) (i : ℕ)
    → length s < 512
    → c_string s ≡ s
    → At tmp i (s ++ rest)
    → i ≤ length tmp
    → read_err_info tmp i (length s) ≡ ok s
unfolding read_err_info
read_err_info-At s rest tmp i h nul at b =
    rw (copy_field-At 512 s rest tmp i (omega arith) at b, nul, lt→ltb (length s) 512 h)

read_body-At :
    (n : ℕ) (rest tmp : List ℕ) (i : ℕ)
    → n ≤ length rest
    → At tmp i rest
    → i ≤ length tmp
    → read_body tmp i (pos n) ≡ ok (take n rest)
unfolding read_body slice
read_body-At n rest tmp i h at b =
    rw (le→leb (i + n) (length tmp) (omega (arith, At-length tmp i rest at)), at)

err_info_stage :
    (s rest tmp : List ℕ) (e i n : ℕ) (m : TinyPb)
    → length s < 512
    → c_string s ≡ s
    → At tmp i (net_bytes (length s) ++ (s ++ rest))
    → i < e
    → body_length (set_err_info s m) ≡ pos n
    → n ≤ length rest
    → parse_err_info tmp e i m
      ≡ ok (
          some (record m {
            err_info = s;
            err_info_len = length s;
            pb_body = take n rest;
            parase_success = true;
          }))
unfolding parse_err_info set_err_info
err_info_stage s rest tmp e i n m h nul at ie body nr =
    let (at4, b4) = At-net (length s) (s ++ rest) tmp i at in
    rw (
      leb-false e i ie,
      int32_at-net (length s) (s ++ rest) tmp i (omega arith) at,
      read_err_info-At s rest tmp (i + 4) h nul at4 b4,
      body,
      read_body-At n rest tmp (i + 4 + length s) nr (At-skip s rest tmp (i + 4) at4)
          (omega (arith, At-length tmp (i + 4) (s ++ rest) at4, length-append s rest)),
    )

err_code_stage :
    (s rest tmp : List ℕ) (e i n code : ℕ) (m : TinyPb)
    → length s < 512
    → c_string s ≡ s
    → code < 2 ^ 32
    → At tmp i (net_bytes code ++ (net_bytes (length s) ++ (s ++ rest)))
    → i + 4 < e
    → body_length (set_err_info s m) ≡ pos n
    → n ≤ length rest
    → parse_err_code tmp e i m
      ≡ ok (
          some (record m {
            err_code = code;
            err_info = s;
            err_info_len = length s;
            pb_body = take n rest;
            parase_success = true;
          }))
unfolding parse_err_code set_err_info
err_code_stage s rest tmp e i n code m h nul word at ie body nr =
    rw
      (
        leb-false e i (omega arith),
        int32_at-net code (net_bytes (length s) ++ (s ++ rest)) tmp i word at,
      )
      (err_info_stage s rest tmp e (i + 4) n (record m { err_code = code }) h nul
        (At-net code (net_bytes (length s) ++ (s ++ rest)) tmp i at).0 ie body nr)

-- What stands behind the method's name, in a frame and after it.
abbrev from_code : TinyPb → List ℕ → List ℕ
from_code m rest =
    net_bytes m.err_code ++ (net_bytes (length m.err_info) ++ (m.err_info ++ from_body m rest))

abbrev from_name : TinyPb → List ℕ → List ℕ
from_name m rest = net_bytes (length m.method_name) ++ (m.method_name ++ from_code m rest)

abbrev from_id : TinyPb → List ℕ → List ℕ
from_id m rest = net_bytes (length m.msg_id) ++ (m.msg_id ++ from_name m rest)

frame-append :
    (m : TinyPb) (rest : List ℕ)
    → frame m ++ rest ≡ pb_start ∷ (net_bytes (frame_length m) ++ from_id m rest)
unfolding frame
frame-append m rest = simp append_assoc

-- The number of bytes that the code takes for the body.
abbrev pub taken : TinyPb → ℕ
taken m = length m.pb_body + 2 * length m.err_info

pub taken-le :
    (m : TinyPb) (rest : List ℕ)
    → 2 * length m.err_info ≤ length rest + 5
    → taken m ≤ length (from_body m rest)
taken-le m rest h = omega (
  arith,
  length-append m.pb_body (net_bytes 1 ++ (pb_end ∷ rest)),
  length-append (net_bytes 1) (pb_end ∷ rest),
  length-net_bytes 1,
)

-- The message before its error fields are read.
abbrev headed : TinyPb → TinyPb
headed m = record new_message {
  pk_length = frame_length m;
  msg_id_len = length m.msg_id;
  msg_id = m.msg_id;
  method_name_len = length m.method_name;
  method_name = m.method_name;
}

body_length-taken : (m : TinyPb) → body_length (set_err_info m.err_info (headed m)) ≡ pos (taken m)
unfolding set_err_info
body_length-taken m = ground arith

method_name_stage :
    (m : TinyPb) (rest tmp : List ℕ) (e i : ℕ)
    → IsSendable m
    → At tmp i (from_name m rest)
    → i + length m.method_name + 8 < e
    → 2 * length m.err_info ≤ length rest + 5
    → parse_method_name tmp e i (record new_message {
      pk_length = frame_length m;
      msg_id_len = length m.msg_id;
      msg_id = m.msg_id;
    })
      ≡ ok (some (received m (take (taken m) (from_body m rest))))
unfolding parse_method_name set_method_name received
method_name_stage m rest tmp e i v at ie room =
    let name = m.method_name in
    let (at4, b4) = At-net (length name) (name ++ from_code m rest) tmp i at in
    rw
      (
        leb-false e i (omega arith),
        int32_at-net (length name) (name ++ from_code m rest) tmp i (omega arith) at,
        copy_field-At 512 name (from_code m rest) tmp (i + 4) v.short_name at4 b4,
      )
      (err_code_stage m.err_info (from_body m rest) tmp e (i + 4 + length name) (taken m) m.err_code
        (headed m) v.short_err v.no_nul v.code_word
        (At-skip name (from_code m rest) tmp (i + 4) at4) (omega arith) (body_length-taken m)
        (taken-le m rest room))

-- The parse of a frame gives back every field. The body is as long as the subtractions of the
-- code make it: the length of the error text is added where it should be taken off.
pub parse_message-frame :
    (m : TinyPb) (rest tmp : List ℕ) (s e : ℕ)
    → IsSendable m
    → At tmp s (frame m ++ rest)
    → e + 1 ≡ s + frame_length m
    → 2 * length m.err_info ≤ length rest + 5
    → parse_message tmp s e (frame_length m)
      ≡ ok (some (received m (take (length m.pb_body + 2 * length m.err_info) (from_body m rest))))
unfolding parse_message
parse_message-frame m rest tmp s e v at end room =
    let start = frame-append m rest in
    let at1 =
      At-skip (pb_start ∷ []) (net_bytes (frame_length m) ++ from_id m rest) tmp s (at ∙ start) in
    let (at5, b5) = At-net (frame_length m) (from_id m rest) tmp (s + 1) at1 in
    let (at9, b9) = At-net (length m.msg_id) (m.msg_id ++ from_name m rest) tmp (s + 1 + 4) at5 in
    rw
      (
        leb-false e (s + 1 + 4) (omega arith),
        int32_at-net (length m.msg_id) (m.msg_id ++ from_name m rest) tmp (s + 1 + 4) (omega arith)
            at5,
        copy_field-At 100 m.msg_id (from_name m rest) tmp (s + 1 + 4 + 4) v.short_id at9 b9,
      )
      (method_name_stage m rest tmp e (s + 1 + 4 + 4 + length m.msg_id) v
        (At-skip m.msg_id (from_name m rest) tmp (s + 1 + 4 + 4) at9) (omega arith) room)
