-- ===== src/Rpc/Dispatcher.antt =====
-- rocket/rocket/net/rpc/rpc_dispatcher.cpp. A protobuf service is a parameter: its name, its
-- methods, how they read a request, and what CallMethod does: it returns without running the
-- closure, or runs it once, with the response in the state given, before it returns. A closure that
-- is run later, or again, is a further call of run_closure.
use rpc4grad.Prelude.{
  ℕ, suc, ◌+◌, Option, none, some, List, [], ◌∷◌, length, take, drop, ◌==◌, if◌then◌else◌, Outcome,
  ok, fault,
}
use rpc4grad.Coder.Protocol.{TinyPb, set_method_name, set_err_info}
use rpc4grad.Connection.{TcpConnection, reply}
use rpc4grad.MsgId.{str_eq}
use rpc4grad.RunTime.{RunTime, note_request}
use rpc4grad.Rpc.ErrorCode.{
  error_parse_service_name, error_service_not_found, error_method_not_found,
  error_failed_deserialize, error_failed_serialize,
}

-- google::protobuf::Service with the messages of its methods.
pub record Service (Req Rsp : Type 0) : Type 0 where
  pub full_name : List ℕ
  pub find_method : List ℕ → Option ℕ
  pub parse_request : ℕ → List ℕ → Option Req
  pub call_method : ℕ → Req → Option Rsp
  pub serialize : Rsp → Option (List ℕ)

-- std::string::find_last_of('.')
unfoldable pub find_last_dot : List ℕ → Option ℕ
find_last_dot [] = none
find_last_dot (c ∷ cs) = elim (find_last_dot cs) [
  | some i ↦ some (suc i)
  | none ↦ if c == b'.' then some 0 else none
]

-- The service's and the method's name, if parseServiceFullName returns true.
unfoldable pub parse_service_full_name : List ℕ → Option (List ℕ × List ℕ)
unfolding find_last_dot
parse_service_full_name [] = none
parse_service_full_name (c ∷ cs) = elim (find_last_dot (c ∷ cs)) [
  | none ↦ none
  | some pos ↦ some (take pos (c ∷ cs), drop (pos + 1) (c ∷ cs))
]

-- setTinyPBErrorCode
unfoldable pub set_tiny_pb_error_code : ℕ → List ℕ → TinyPb → TinyPb
unfolding set_err_info
set_tiny_pb_error_code code info m =
    let m' = set_err_info info (record m { err_code = code }) in
    record m' { err_info_len = length info }

-- The texts of the errors, by name: they do not depend on the request.
pub record ErrorTexts : Type 0 where
  pub parse_name : List ℕ
  pub no_service : List ℕ
  pub no_method : List ℕ
  pub bad_request : List ℕ
  pub bad_response : List ℕ

module _ {Req Rsp : Type 0} where
  -- m_service_map[service_name] = service
  unfoldable pub register_service :
      Service Req Rsp → List (List ℕ × Service Req Rsp) → List (List ℕ × Service Req Rsp)
  register_service s [] = (s.full_name, s) ∷ []
  register_service s ((k, t) ∷ rest) =
      let later = register_service s rest in
      if str_eq k s.full_name then (k, s) ∷ rest else (k, t) ∷ later

  unfoldable pub find_service : List ℕ → List (List ℕ × Service Req Rsp) → Option (Service Req Rsp)
  find_service name [] = none
  find_service name ((k, t) ∷ rest) = if str_eq k name then some t else find_service name rest

-- The response after the closure has put the result into it.
unfoldable pub filled_response : ErrorTexts → Option (List ℕ) → TinyPb → TinyPb
unfolding set_tiny_pb_error_code set_err_info
filled_response texts none m = set_tiny_pb_error_code error_failed_serialize texts.bad_response m
filled_response texts (some body) m = set_err_info [] (record m { pb_body = body; err_code = 0 })

module _ {Req Rsp A : Type 0} (texts : ErrorTexts) where
  -- The closure that CallMethod is given, run on the service's response.
  unfoldable pub run_closure :
      ℕ → Service Req Rsp → Rsp → TinyPb → TcpConnection A → Outcome (TinyPb × TcpConnection A)
  unfolding filled_response reply
  run_closure tid s rsp response c =
      let r = filled_response texts (s.serialize rsp) response in
      elim (reply tid (r ∷ []) c) [ fault e ↦ fault e | ok c' ↦ ok (r, c') ]

  -- What dispatch does once it knows the service and the method's name.
  unfoldable pub dispatch_method :
      ℕ
      → Service Req Rsp
      → List ℕ
      → TinyPb
      → TinyPb
      → RunTime
      → TcpConnection A
      → Outcome (TinyPb × RunTime × TcpConnection A)
  unfolding set_tiny_pb_error_code run_closure
  dispatch_method tid s name request response rt c = elim (s.find_method name) [
    | none ↦ ok (set_tiny_pb_error_code error_method_not_found texts.no_method response, rt, c)
    | some method ↦ elim (s.parse_request method request.pb_body) [
      | none ↦
          ok (set_tiny_pb_error_code error_failed_deserialize texts.bad_request response, rt, c)
      | some req ↦ elim (s.call_method method req) [
        | none ↦ ok (response, note_request request.msg_id name rt, c)
        | some rsp ↦ elim (run_closure tid s rsp response c) [
          | fault e ↦ fault e
          | ok (r, c') ↦ ok (r, note_request request.msg_id name rt, c')
        ]
      ]
    ]
  ]

  -- dispatch, with the response and the connection as it leaves them.
  unfoldable pub dispatch :
      ℕ
      → List (List ℕ × Service Req Rsp)
      → TinyPb
      → TinyPb
      → RunTime
      → TcpConnection A
      → Outcome (TinyPb × RunTime × TcpConnection A)
  unfolding parse_service_full_name find_service set_tiny_pb_error_code dispatch_method
      set_method_name
  dispatch tid services request response rt c =
      let response' =
        set_method_name request.method_name (record response { msg_id = request.msg_id }) in
      elim (parse_service_full_name request.method_name) [
        | none ↦
            ok (set_tiny_pb_error_code error_parse_service_name texts.parse_name response', rt, c)
        | some (service_name, method_name) ↦ elim (find_service service_name services) [
          | none ↦
              ok (set_tiny_pb_error_code error_service_not_found texts.no_service response', rt, c)
          | some s ↦ dispatch_method tid s method_name request response' rt c
        ]
      ]
