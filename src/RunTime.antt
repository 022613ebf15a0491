-- ===== src/RunTime.antt =====
-- rocket/rocket/common/run_time.{h,cpp}: what is known of the request that is handled. The object is
-- one static for the whole process, although each thread handles requests of its own.
use rpc4grad.Prelude.{ℕ, Option, none, List, []}

-- `rpc_interface` names the RpcInterface pointed to.
pub record RunTime : Type 0 where
  pub msg_id : List ℕ
  pub method_name : List ℕ
  pub rpc_interface : Option ℕ

abbrev pub new_run_time : RunTime
new_run_time = record { msg_id = []; method_name = []; rpc_interface = none }

unfoldable pub set_msg_id : List ℕ → RunTime → RunTime
set_msg_id s rt = record rt { msg_id = s }

unfoldable pub set_run_method_name : List ℕ → RunTime → RunTime
set_run_method_name s rt = record rt { method_name = s }

unfoldable pub set_rpc_interface : Option ℕ → RunTime → RunTime
set_rpc_interface i rt = record rt { rpc_interface = i }

-- What dispatch writes before it calls the service.
unfoldable pub note_request : List ℕ → List ℕ → RunTime → RunTime
unfolding set_msg_id set_run_method_name
note_request id name rt = set_run_method_name name (set_msg_id id rt)
