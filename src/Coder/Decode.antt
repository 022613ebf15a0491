-- ===== src/Coder/Decode.antt =====
-- rocket/rocket/net/coder/tinyPB_coder.cpp: decode. `tmp` is the copy of the buffer's vector that
-- each round makes; an access outside it, or outside one of the local arrays, is a fault.
use rpc4grad.Prelude.{
  ℕ, zero, suc, ◌+◌, ◌^◌, List, [], ◌∷◌, ◌++◌, Option, none, some, true, length, ltb, leb, ◌==◌,
  ◌&&◌, get_elem?, if◌then◌else◌, Outcome, ok, fault, out_of_bounds, signed_overflow, length_error,
  require, ◌>>=◌, ◌>>◌,
}
use mathlib.Core.Option
use rpc4grad.Prelude.Int.{ℤ, pos, negsuc, sub_ℕ, signed32}
use rpc4grad.Prelude.Bytes.{host_word}
use rpc4grad.Prelude.Slices.{slice}
use rpc4grad.Buffer.{TcpBuffer, read_able, move_read_index}
use rpc4grad.Coder.Protocol.{TinyPb, new_message, pb_start, pb_end, set_method_name, set_err_info}

unfoldable pub byte_at : List ℕ → ℕ → Outcome ℕ
byte_at tmp i = elim (get_elem? tmp i) [ none ↦ fault out_of_bounds | some c ↦ ok c ]

-- getInt32FromNetByte(&tmp[i])
unfoldable pub int32_at : List ℕ → ℕ → Outcome ℕ
int32_at tmp i = do
  a ← byte_at tmp i
  b ← byte_at tmp (i + 1)
  c ← byte_at tmp (i + 2)
  d ← byte_at tmp (i + 3)
  ok (host_word a b c d)

-- int j = i + pk_len - 1
unfoldable pub last_index : ℕ → ℕ → Outcome ℤ
last_index i pk_len = elim (signed32 pk_len) [
  | pos n ↦ if ltb (i + n) (2 ^ 31) then ok (sub_ℕ (i + n) 1) else fault signed_overflow
  | negsuc n ↦ ok (sub_ℕ i (n + 2))
]

-- tmp[j] == PB_END, behind the test that j lies before the write index.
unfoldable pub ends_at : List ℕ → ℕ → ℤ → Outcome (Option ℕ)
ends_at tmp w (pos j) =
    if leb w j then ok none else byte_at tmp j >>= λ c. ok (if c == pb_end then some j else none)
ends_at tmp w (negsuc j) = fault out_of_bounds

-- The branch of the `for` loop at a start byte with a byte after it: nothing, or the frame's last
-- index and length.
unfoldable pub probe_frame : List ℕ → ℕ → ℕ → Outcome (Option (ℕ × ℕ))
unfolding int32_at last_index ends_at
probe_frame tmp w i = do
  pk_len ← int32_at tmp (i + 1)
  j ← last_index i pk_len
  e ← ends_at tmp w j
  ok (Option.map (λ j. (j, pk_len)) e)

-- One round of the `for` loop.
unfoldable pub probe : List ℕ → ℕ → ℕ → Outcome (Option (ℕ × ℕ))
unfolding byte_at probe_frame
probe tmp w i = do
  c ← byte_at tmp i
  if c == pb_start && ltb (i + 1) w then probe_frame tmp w i else ok none

-- The `for` loop, with `n` indices left: start_index, end_index and pk_len, if it breaks.
unfoldable pub scan : List ℕ → ℕ → ℕ → ℕ → Outcome (Option (ℕ × ℕ × ℕ))
unfolding probe
scan tmp w zero i = ok none
scan tmp w (suc n) i = probe tmp w i >>= λ r. elim r [
  | some (j, pk_len) ↦ ok (some (i, j, pk_len))
  | none ↦ scan tmp w n (i + 1)
]

-- memcpy into a local array of `room` bytes. A negative length is a huge size_t.
unfoldable pub copy_field : ℕ → List ℕ → ℕ → ℕ → Outcome (List ℕ)
copy_field room tmp i n =
    require (leb n room && leb (i + n) (length tmp)) out_of_bounds >> ok (slice i n tmp)

-- The bytes before the first NUL.
unfoldable pub c_string : List ℕ → List ℕ
c_string [] = []
c_string (c ∷ cs) = let rest = c_string cs in if c == 0 then [] else c ∷ rest

-- std::string(error_info), where the array is zeroed before the copy.
unfoldable pub read_err_info : List ℕ → ℕ → ℕ → Outcome (List ℕ)
unfolding copy_field c_string
read_err_info tmp i n = do
  s ← copy_field 512 tmp i n
  require (ltb (length (c_string s)) 512) out_of_bounds
  ok (c_string s)

-- std::string(&tmp[i], n): the constructor throws on what a negative int becomes.
unfoldable pub read_body : List ℕ → ℕ → ℤ → Outcome (List ℕ)
read_body tmp i (pos n) = require (leb (i + n) (length tmp)) out_of_bounds >> ok (slice i n tmp)
read_body tmp i (negsuc n) = fault length_error

-- getPkLength() - getMsgIdLen() - getMethodNameLen() - - getErrInfoLen() - 2 - 24
abbrev pub body_length : TinyPb → ℤ
body_length m = sub_ℕ (m.pk_length + m.err_info_len) (m.msg_id_len + m.method_name_len + 2 + 24)

-- The stages of the parse, each up to the next test against `end_index`. `none` is a parse error.
unfoldable pub parse_err_info : List ℕ → ℕ → ℕ → TinyPb → Outcome (Option TinyPb)
unfolding int32_at read_err_info read_body set_err_info
parse_err_info tmp e i m = if leb e i then ok none else (do
  n ← int32_at tmp i
  s ← read_err_info tmp (i + 4) n
  let m' = set_err_info s m
  body ← read_body tmp (i + 4 + m'.err_info_len) (body_length m')
  ok (some (record m' { pb_body = body; parase_success = true })))

unfoldable pub parse_err_code : List ℕ → ℕ → ℕ → TinyPb → Outcome (Option TinyPb)
unfolding int32_at parse_err_info
parse_err_code tmp e i m =
    if leb e i
    then ok none
    else (do code ← int32_at tmp i; parse_err_info tmp e (i + 4) (record m { err_code = code }))

unfoldable pub parse_method_name : List ℕ → ℕ → ℕ → TinyPb → Outcome (Option TinyPb)
unfolding int32_at copy_field set_method_name parse_err_code
parse_method_name tmp e i m = if leb e i then ok none else (do
  n ← int32_at tmp i
  s ← copy_field 512 tmp (i + 4) n
  parse_err_code tmp e (i + 4 + n) (set_method_name s m))

unfoldable pub parse_message : List ℕ → ℕ → ℕ → ℕ → Outcome (Option TinyPb)
unfolding int32_at copy_field parse_method_name
parse_message tmp s e pk_len = if leb e (s + 1 + 4) then ok none else (do
  n ← int32_at tmp (s + 1 + 4)
  msg_id ← copy_field 100 tmp (s + 1 + 4 + 4) n
  parse_method_name tmp e (s + 1 + 4 + 4 + n)
      (record new_message { pk_length = pk_len; msg_id_len = n; msg_id = msg_id }))

-- end_index - start_index + 1
abbrev pub span : ℕ → ℕ → ℤ
span s e = sub_ℕ (e + 1) s

-- One round of the `while` loop: `none` is the return, else the message, if it parsed, and the
-- buffer.
unfoldable pub decode_round : TcpBuffer → Outcome (Option (Option TinyPb × TcpBuffer))
unfolding scan parse_message move_read_index
decode_round b = scan b.buffer b.write_index (read_able b) b.read_index >>= λ r. elim r [
  | none ↦ ok none
  | some (s, e, pk_len) ↦
      parse_message b.buffer s e pk_len >>= λ m. ok (some (m, move_read_index (span s e) b))
]

-- out_message.push_back, if there is a message.
abbrev pub push_message : List TinyPb → Option TinyPb → List TinyPb
push_message out none = out
push_message out (some m) = out ++ m ∷ []

-- `none` is a loop that is still running after so many rounds.
unfoldable pub decode : ℕ → List TinyPb → TcpBuffer → Option (Outcome (List TinyPb × TcpBuffer))
unfolding decode_round
decode zero out b = none
decode (suc fuel) out b = elim (decode_round b) [
  | fault e ↦ some (fault e)
  | ok none ↦ some (ok (out, b))
  | ok (some (m, b')) ↦ decode fuel (push_message out m) b'
]
