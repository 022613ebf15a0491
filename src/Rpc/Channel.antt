-- ===== src/Rpc/Channel.antt =====
-- rocket/rocket/net/rpc/rpc_channel.h and rpc_channel.cpp. The messages' own code is a parameter:
-- the bytes of a request and how a response reads bytes. The controller that CallMethod is given is
-- the one given to Init, as CALLRPC does; what the client, its timer and its connection do comes
-- back as the events of `Happening`.
use rpc4grad.Prelude.{
  ℕ, ◌+◌, Bool, true, false, ◌||◌, Option, none, some, List, [], ◌∷◌, ◌==◌, if◌then◌else◌, Outcome,
  ok, fault, null_pointer,
}
use rpc4grad.Coder.Protocol.{TinyPb, new_message, set_method_name}
use rpc4grad.MsgId.{MsgIds, is_empty, generate_msg_id}
use rpc4grad.Rpc.ErrorCode.{
  error_rpc_channel_init_failed, error_rpc_channel_not_init, error_failed_serialize,
  error_failed_deserialize, error_rpc_call_timeout,
}
use rpc4grad.Rpc.Controller.{RpcController, start_cancel, set_error, set_finished}

-- `runs` counts the runs of the closure. `controller` is the object of the call; m_controller
-- points to it once `is_init` holds, and is null before.
pub record RpcChannel (Rsp : Type 0) : Type 0 where
  pub remote_addr : Option (List ℕ)
  pub controller : RpcController
  pub response : Option Rsp
  pub closure : Bool
  pub is_init : Bool
  pub runs : ℕ

-- The texts of the errors, by name.
pub record ChannelTexts : Type 0 where
  pub null_argument : List ℕ
  pub no_peer_addr : List ℕ
  pub not_init : List ℕ
  pub bad_request : List ℕ
  pub bad_response : List ℕ
  pub call_timeout : ℕ → List ℕ

-- What CallMethod is given, with what it asks for: whether the request, the response and the
-- closure are there, the method's full name, the request's bytes if they can be made, the id in
-- the run time, and the random bytes.
pub record CallArgs : Type 0 where
  pub has_arguments : Bool
  pub full_name : List ℕ
  pub request : Option (List ℕ)
  pub run_time_id : List ℕ
  pub random_bytes : List ℕ

-- What happens to a call that has been started: connect has failed with a code and a text, the
-- response has come, or the timer has run out.
pub data Happening : Type 0 where
  connect_failed : ℕ → List ℕ → Happening
  responded : TinyPb → Happening
  timed_out : Happening

-- The message id of a call: the controller's, or the run time's, or a new one.
unfoldable pub choose_msg_id : CallArgs → RpcController → MsgIds → Outcome (List ℕ × MsgIds)
unfolding is_empty generate_msg_id
choose_msg_id args c ids =
    if is_empty c.msg_id
    then if is_empty args.run_time_id
      then generate_msg_id args.random_bytes ids
      else ok (args.run_time_id, ids)
    else ok (c.msg_id, ids)

module _ {Rsp : Type 0} where
  -- Init, with the closure given or null.
  unfoldable pub init : RpcController → Bool → RpcChannel Rsp → RpcChannel Rsp
  init controller closure ch =
      if ch.is_init
      then ch
      else record ch { controller = controller; response = none; closure = closure; is_init = true }

  unfoldable pub set_error_of : ℕ → List ℕ → RpcChannel Rsp → RpcChannel Rsp
  unfolding set_error
  set_error_of code info ch = record ch { controller = set_error code info ch.controller }

  unfoldable pub call_back : RpcChannel Rsp → Outcome (RpcChannel Rsp)
  unfolding set_finished
  call_back ch = elim ch.is_init [
    | false ↦ fault null_pointer
    | true ↦ elim (ch.controller.is_finished || is_null ch.closure) [
      | true ↦ ok ch
      | false ↦ ok (record ch { runs = ch.runs + 1; controller = set_finished true ch.controller })
    ]
  ]
    where
      is_null : Bool → Bool
      is_null true = false
      is_null false = true

  -- An error before the connection: no request goes out.
  unfoldable pub give_up :
      ℕ → List ℕ → MsgIds → RpcChannel Rsp → Outcome (RpcChannel Rsp × MsgIds × Option TinyPb)
  unfolding call_back set_error_of
  give_up code info ids ch = elim (call_back (set_error_of code info ch)) [
    | fault e ↦ fault e
    | ok ch' ↦ ok (ch', ids, none)
  ]

  -- CallMethod from the test of m_is_init on: the request that is sent once the client is
  -- connected, with its id `id`.
  unfoldable pub send_request :
      ChannelTexts
      → CallArgs
      → List ℕ
      → MsgIds
      → RpcChannel Rsp
      → Outcome (RpcChannel Rsp × MsgIds × Option TinyPb)
  unfolding give_up set_method_name
  send_request texts args id ids ch = elim ch.is_init [
    | false ↦ give_up error_rpc_channel_not_init texts.not_init ids ch
    | true ↦ elim args.request [
      | none ↦ give_up error_failed_serialize texts.bad_request ids ch
      | some body ↦ ok (
        ch,
        ids,
        some (record (set_method_name args.full_name (record new_message { msg_id = id })) {
          pb_body = body;
        }),
      )
    ]
  ]

  -- CallMethod. Its timer and its connection are in place when it gives a request.
  unfoldable pub call_method :
      ChannelTexts
      → CallArgs
      → MsgIds
      → RpcChannel Rsp
      → Outcome (RpcChannel Rsp × MsgIds × Option TinyPb)
  unfolding give_up choose_msg_id send_request
  call_method texts args ids ch = elim args.has_arguments [
    | false ↦ give_up error_rpc_channel_init_failed texts.null_argument ids ch
    | true ↦ elim ch.remote_addr [
      | none ↦ give_up error_rpc_channel_init_failed texts.no_peer_addr ids ch
      | some addr ↦ elim (choose_msg_id args ch.controller ids) [
        | fault e ↦ fault e
        | ok (id, ids') ↦
            send_request texts args id ids'
              (record ch { controller = record ch.controller { msg_id = id } })
      ]
    ]
  ]

  -- The callback of readMessage. A response that cannot be read leaves the message as it is.
  unfoldable pub on_response :
      ChannelTexts → (List ℕ → Option Rsp) → TinyPb → RpcChannel Rsp → Outcome (RpcChannel Rsp)
  unfolding call_back set_error_of
  on_response texts parse m ch = elim (parse m.pb_body) [
    | none ↦ call_back (set_error_of error_failed_deserialize texts.bad_response ch)
    | some rsp ↦ elim (m.err_code == 0) [
      | true ↦ call_back (record ch { response = some rsp })
      | false ↦ call_back (set_error_of m.err_code m.err_info (record ch { response = some rsp }))
    ]
  ]

  -- The task of the timer event.
  unfoldable pub on_timeout : ChannelTexts → RpcChannel Rsp → Outcome (RpcChannel Rsp)
  unfolding call_back set_error_of start_cancel
  on_timeout texts ch = elim ch.controller.is_finished [
    | true ↦ ok ch
    | false ↦ call_back (
        set_error_of error_rpc_call_timeout (texts.call_timeout ch.controller.timeout)
          (record ch { controller = start_cancel ch.controller }))
  ]

  unfoldable pub happen :
      ChannelTexts → (List ℕ → Option Rsp) → Happening → RpcChannel Rsp → Outcome (RpcChannel Rsp)
  unfolding on_response on_timeout call_back set_error_of
  happen texts parse (connect_failed code info) ch = call_back (set_error_of code info ch)
  happen texts parse (responded m) ch = on_response texts parse m ch
  happen texts parse timed_out ch = on_timeout texts ch

  -- A call's life, one event after the other.
  unfoldable pub happen_all :
      ChannelTexts
      → (List ℕ → Option Rsp)
      → List Happening
      → RpcChannel Rsp
      → Outcome (RpcChannel Rsp)
  unfolding happen
  happen_all texts parse [] ch = ok ch
  happen_all texts parse (h ∷ hs) ch = elim (happen texts parse h ch) [
    | fault e ↦ fault e
    | ok ch' ↦ happen_all texts parse hs ch'
  ]
