-- ===== src/Coder/Protocol.antt =====
-- rocket/rocket/net/coder/tinyPB_protocol.h: a message, with the lengths that it was read or
-- written with. A std::string is its list of bytes; an int32_t is its bit pattern.
use rpc4grad.Prelude.{ℕ, List, [], Bool, false, length}

pub record TinyPb : Type 0 where
  pub pk_length : ℕ
  pub msg_id_len : ℕ
  pub msg_id : List ℕ
  pub method_name_len : ℕ
  pub method_name : List ℕ
  pub err_code : ℕ
  pub err_info_len : ℕ
  pub err_info : List ℕ
  pub pb_body : List ℕ
  pub check_sum : ℕ
  pub parase_success : Bool

-- PB_START and PB_END
abbrev pub pb_start : ℕ
pb_start = 2

abbrev pub pb_end : ℕ
pb_end = 3

-- TinyPBProtocol() = default
abbrev pub new_message : TinyPb
new_message = record {
  pk_length = 0;
  msg_id_len = 0;
  msg_id = [];
  method_name_len = 0;
  method_name = [];
  err_code = 0;
  err_info_len = 0;
  err_info = [];
  pb_body = [];
  check_sum = 0;
  parase_success = false;
}

unfoldable pub set_method_name : List ℕ → TinyPb → TinyPb
set_method_name s m = record m { method_name = s; method_name_len = length s }

unfoldable pub set_err_info : List ℕ → TinyPb → TinyPb
set_err_info s m = record m { err_info = s; err_info_len = length s }
