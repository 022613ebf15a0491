-- ===== src/Tests/Calling.antt =====
-- The dispatcher and the channel at concrete services and calls.
use rpc4grad.Prelude.{
  ℕ, ◌+◌, ◌≤◌, ◌≡◌, ◌⊎◌, refl, true, false, Option, none, some, List, [], ◌∷◌, ◌++◌, if◌then◌else◌,
  ok, fault,
}
use rpc4grad.Prelude.Slices.{slice, blit}
use rpc4grad.Prelude.Bytes.{net_bytes}
use rpc4grad.Buffer.{contents, new_buffer, write_to_buffer, make_room, put_bytes}
use rpc4grad.Coder.Protocol.{TinyPb, new_message, set_method_name, set_err_info}
use rpc4grad.Coder.Encode.{encode, encode_tiny_pb, frame, with_msg_id, stamped}
use rpc4grad.MsgId.{empty_ids, str_eq, is_empty}
use rpc4grad.Connection.{TcpConnection, reply, listen_write}
use rpc4grad.Connection.Send.{IsServing}
use rpc4grad.RunTime.{RunTime, new_run_time, note_request}
use rpc4grad.Rpc.Dispatcher.{
  Service, ErrorTexts, find_last_dot, parse_service_full_name, find_service, filled_response,
  run_closure, dispatch_method, dispatch,
}
use rpc4grad.Rpc.Answers.{answer_of, addressed, dispatch-answered, dispatch-unanswered}
use rpc4grad.Rpc.Controller.{new_controller}
use rpc4grad.Rpc.Channel.{
  RpcChannel, ChannelTexts, CallArgs, responded, timed_out, init, call_back, set_error_of, give_up,
  choose_msg_id, send_request, call_method, happen, happen_all,
}
use rpc4grad.Rpc.Calls.{IsOver, happen-silent}
use rpc4grad.Rpc.Once.{happen_all-once, call_method-sends}
use rpc4grad.Tests.Samples.{request}
use rpc4grad.Tests.Connections.{server, server-IsServing}

abbrev pub texts : ErrorTexts
texts = record {
  parse_name = b'p' ∷ [];
  no_service = b's' ∷ [];
  no_method = b'm' ∷ [];
  bad_request = b'd' ∷ [];
  bad_response = b'r' ∷ [];
}

-- A service S with one method m, which answers with the request's bytes and one more, and does not
-- run the closure for a request without bytes.
abbrev find_m : List ℕ → Option ℕ
find_m n = if str_eq n (b'm' ∷ []) then some 0 else none

abbrev answers : ℕ → List ℕ → Option (List ℕ)
answers i [] = none
answers i (c ∷ cs) = some (1 ∷ c ∷ cs)

abbrev pub echo : Service (List ℕ) (List ℕ)
echo = record {
  full_name = b'S' ∷ [];
  find_method = find_m;
  parse_request = λ i s. some s;
  call_method = answers;
  serialize = λ s. some s;
}

abbrev pub services : List (List ℕ × Service (List ℕ) (List ℕ))
services = (b'S' ∷ [], echo) ∷ []

abbrev pub idle : RunTime
idle = new_run_time

-- The request of the samples is for S.m; this one is for a service T.
abbrev lost_request : TinyPb
lost_request = record request { method_name = b'T' ∷ b'.' ∷ b'm' ∷ [] }

pub found : answer_of services request ≡ some (echo, b'm' ∷ [], some (1 ∷ 5 ∷ 6 ∷ []))
unfolding parse_service_full_name find_last_dot find_service str_eq
found = refl

-- What dispatch gives for the request.
abbrev response : TinyPb
response = filled_response texts (some (1 ∷ 5 ∷ 6 ∷ [])) (addressed request new_message)

abbrev known : RunTime
known = note_request request.msg_id (b'm' ∷ []) idle

abbrev replied : TcpConnection ℕ
replied = elim (reply 1 (response ∷ []) server) [ ok c ↦ c | fault e ↦ server ]

dispatched :
    dispatch texts 1 services request new_message idle server ≡ ok (response, known, replied)
unfolding dispatch dispatch_method run_closure parse_service_full_name find_last_dot find_service
    str_eq set_method_name filled_response set_err_info reply encode encode_tiny_pb with_msg_id
    stamped frame net_bytes write_to_buffer make_room put_bytes new_buffer blit slice listen_write
dispatched = refl

dispatch-answered_example :
    (response ≡ filled_response texts (some (1 ∷ 5 ∷ 6 ∷ [])) (addressed request new_message))
    × (contents replied.out_buffer ≡ contents server.out_buffer ++ frame (with_msg_id response))
    × (known ≡ note_request request.msg_id (b'm' ∷ []) idle)
    × IsServing replied
dispatch-answered_example =
    dispatch-answered texts 1 services request new_message idle server echo (b'm' ∷ [])
      (1 ∷ 5 ∷ 6 ∷ []) response known replied server-IsServing found dispatched

-- A request without bytes, for which the method returns before it runs the closure.
abbrev bare_request : TinyPb
bare_request = record request { pb_body = [] }

bare_answer : answer_of services bare_request ≡ some (echo, b'm' ∷ [], none)
unfolding parse_service_full_name find_last_dot find_service str_eq
bare_answer = refl

dispatch-unanswered_test :
    dispatch texts 1 services bare_request new_message idle server
    ≡ ok (addressed bare_request new_message, note_request request.msg_id (b'm' ∷ []) idle, server)
dispatch-unanswered_test =
    dispatch-unanswered texts 1 services bare_request new_message idle server echo (b'm' ∷ [])
      bare_answer

parse_test : parse_service_full_name request.method_name ≡ some (b'S' ∷ [], b'm' ∷ [])
unfolding parse_service_full_name find_last_dot
parse_test = refl

abbrev pub channel_texts : ChannelTexts
channel_texts = record {
  null_argument = b'n' ∷ [];
  no_peer_addr = b'p' ∷ [];
  not_init = b'i' ∷ [];
  bad_request = b'q' ∷ [];
  bad_response = b'r' ∷ [];
  call_timeout = λ ms. b't' ∷ [];
}

-- A channel before and after Init.
abbrev fresh : RpcChannel (List ℕ)
fresh = record {
  remote_addr = some (b'h' ∷ []);
  controller = new_controller;
  response = none;
  closure = false;
  is_init = false;
  runs = 0;
}

abbrev pub open_channel : RpcChannel (List ℕ)
open_channel = record fresh { closure = true; is_init = true }

init_test : init new_controller true fresh ≡ open_channel
unfolding init
init_test = refl

abbrev args : CallArgs
args = record {
  has_arguments = true;
  full_name = b'S' ∷ b'.' ∷ b'm' ∷ [];
  request = some (5 ∷ 6 ∷ []);
  run_time_id = b'7' ∷ [];
  random_bytes = [];
}

-- A response's message reads any bytes.
abbrev pub read_bytes : List ℕ → Option (List ℕ)
read_bytes s = some s

happen-silent_example :
    (ch' : RpcChannel (List ℕ)) × (happen channel_texts read_bytes timed_out open_channel ≡ ok ch')
    × (ch'.runs ≡ 0)
    × (ch'.controller.is_failed ≡ true)
    × IsOver ch'
happen-silent_example = happen-silent channel_texts read_bytes timed_out open_channel refl refl tt

happen_all-once_example :
    (ch' : RpcChannel (List ℕ)) × (happen_all channel_texts read_bytes
        (responded request ∷ timed_out ∷ responded request ∷ [])
        open_channel
      ≡ ok ch')
    × (ch'.runs ≤ 0 + 1)
happen_all-once_example =
    happen_all-once channel_texts read_bytes
      (responded request ∷ timed_out ∷ responded request ∷ []) open_channel refl

chosen : choose_msg_id args open_channel.controller empty_ids ≡ ok (b'7' ∷ [], empty_ids)
unfolding choose_msg_id is_empty
chosen = refl

call_method-sends_example :
    (ch' : RpcChannel (List ℕ)) × (m : TinyPb) × (call_method channel_texts args empty_ids
        open_channel
      ≡ ok (ch', empty_ids, some m))
    × (m.msg_id ≡ b'7' ∷ [])
    × (m.msg_id ≡ ch'.controller.msg_id)
    × ((is_empty open_channel.controller.msg_id ≡ true)
        ⊎ (m.msg_id ≡ open_channel.controller.msg_id))
    × (m.method_name ≡ args.full_name)
    × (m.pb_body ≡ 5 ∷ 6 ∷ [])
    × (ch'.runs ≡ 0)
    × (ch'.controller.is_finished ≡ false)
call_method-sends_example =
    call_method-sends channel_texts args empty_ids empty_ids (b'h' ∷ []) (5 ∷ 6 ∷ []) (b'7' ∷ [])
      open_channel refl refl refl refl chosen

-- A request that cannot be serialized.
abbrev bad_args : CallArgs
bad_args = record args { request = none }

abbrev given_up : RpcChannel (List ℕ)
given_up = elim (call_method channel_texts bad_args empty_ids open_channel) [
  | ok (ch, ids, m) ↦ ch
  | fault e ↦ fresh
]

gave_up : call_method channel_texts bad_args empty_ids open_channel ≡ ok (given_up, empty_ids, none)
unfolding call_method send_request give_up call_back choose_msg_id is_empty set_error_of
gave_up = refl
