-- ===== src/Rpc/ErrorCode.antt =====
-- rocket/rocket/common/error_code.h. The macros join digits: 1000, 2000 or 3000 and four more.
use rpc4grad.Prelude.{ℕ}

abbrev pub error_peer_closed : ℕ
error_peer_closed = 10000000

abbrev pub error_failed_connect : ℕ
error_failed_connect = 10000001

abbrev error_failed_reply : ℕ
error_failed_reply = 10000002

abbrev pub error_failed_deserialize : ℕ
error_failed_deserialize = 10000003

abbrev pub error_failed_serialize : ℕ
error_failed_serialize = 10000004

abbrev pub error_rpc_call_timeout : ℕ
error_rpc_call_timeout = 20000005

abbrev pub error_service_not_found : ℕ
error_service_not_found = 20000006

abbrev pub error_method_not_found : ℕ
error_method_not_found = 20000007

abbrev pub error_parse_service_name : ℕ
error_parse_service_name = 20000008

abbrev pub error_rpc_channel_not_init : ℕ
error_rpc_channel_not_init = 20000009

abbrev error_rpc_channel_already_init : ℕ
error_rpc_channel_already_init = 20000010

abbrev pub error_rpc_channel_init_failed : ℕ
error_rpc_channel_init_failed = 20000011
