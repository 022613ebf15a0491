-- ===== src/Rpc/Answers.antt =====
-- RpcDispatcher::dispatch: which requests are answered, and with what.
use rpc4grad.Prelude.{
  ℕ, ◌≡◌, ◌≢◌, sym, ◌∙◌, ap, subst, arith, Option, none, some, Option-cases, Outcome-cases, inl,
  inr, List, [], ◌∷◌, ◌++◌, length, Outcome, ok, fault,
}
use rpc4grad.Buffer.{contents}
use rpc4grad.Coder.Protocol.{TinyPb, set_method_name}
use rpc4grad.Coder.Encode.{frame, with_msg_id}
use rpc4grad.Connection.{TcpConnection, reply}
use rpc4grad.Connection.Send.{IsServing, reply-appends}
use rpc4grad.RunTime.{RunTime, note_request}
use rpc4grad.Rpc.Dispatcher.{
  Service, ErrorTexts, parse_service_full_name, find_service, filled_response,
  set_tiny_pb_error_code, run_closure, dispatch_method, dispatch,
}

module _ {Req Rsp : Type 0} where
  -- The service, the method's name and the response for a request, if there is a service of that
  -- name with a method of that name that can read the body. The response is `none` where the method
  -- returns without running the closure.
  abbrev with_method :
      Option ℕ → TinyPb → List ℕ → Service Req Rsp → Option (Service Req Rsp × List ℕ × Option Rsp)
  with_method none request name s = none
  with_method (some i) request name s = elim (s.parse_request i request.pb_body) [
    | none ↦ none
    | some req ↦ some (s, name, s.call_method i req)
  ]

  abbrev pub answer_of :
      List (List ℕ × Service Req Rsp) → TinyPb → Option (Service Req Rsp × List ℕ × Option Rsp)
  answer_of services request = elim (parse_service_full_name request.method_name) [
    | none ↦ none
    | some (service_name, name) ↦ elim (find_service service_name services) [
      | none ↦ none
      | some s ↦ with_method (s.find_method name) request name s
    ]
  ]

-- The response that dispatch starts with.
abbrev pub addressed : TinyPb → TinyPb → TinyPb
addressed request response =
    set_method_name request.method_name (record response { msg_id = request.msg_id })

-- A response that reports an error: it is for the request and has a code and a text.
pub record Reports (request r : TinyPb) : Type 0 where
  pub same_id : r.msg_id ≡ request.msg_id
  pub same_method : r.method_name ≡ request.method_name
  pub coded : r.err_code ≢ 0
  pub info_length : r.err_info_len ≡ length r.err_info

refusal : ℕ → List ℕ → TinyPb → TinyPb → TinyPb
unfolding set_tiny_pb_error_code
refusal code info request response = set_tiny_pb_error_code code info (addressed request response)

module _ {Req Rsp A : Type 0} (texts : ErrorTexts) where
  -- What is left of dispatch once the response is known.
  abbrev pub answered :
      ℕ
      → TinyPb
      → TinyPb
      → RunTime
      → TcpConnection A
      → Service Req Rsp × List ℕ × Option Rsp
      → Outcome (TinyPb × RunTime × TcpConnection A)
  answered tid request response rt c (s, name, none) =
      ok (response, note_request request.msg_id name rt, c)
  answered tid request response rt c (s, name, some rsp) =
      elim (run_closure texts tid s rsp response c) [
        | fault e ↦ fault e
        | ok (r, c') ↦ ok (r, note_request request.msg_id name rt, c')
      ]

  -- What dispatch does with a request that a method takes.
  pub dispatch-run_closure :
      (tid : ℕ) (services : List (List ℕ × Service Req Rsp)) (request response : TinyPb)
      (rt : RunTime) (c : TcpConnection A) (s : Service Req Rsp) (name : List ℕ) (rsp : Option Rsp)
      → answer_of services request ≡ some (s, name, rsp)
      → dispatch texts tid services request response rt c
        ≡ answered tid request (addressed request response) rt c (s, name, rsp)
  unfolding dispatch dispatch_method
  dispatch-run_closure tid services request response rt c s name rsp h =
      elim (Option-cases (parse_service_full_name request.method_name)) [
        | inl e ↦ let z = rw (e, answer_of) at h in cc
        | inr ((sn, name'), e) ↦ elim (Option-cases (find_service sn services)) [
          | inl q ↦ let z = rw (e, q, answer_of) at h in cc
          | inr (s', q) ↦ elim (Option-cases (s'.find_method name')) [
            | inl k ↦ let z = rw (e, q, answer_of, k, with_method) at h in cc
            | inr (i, k) ↦ elim (Option-cases (s'.parse_request i request.pb_body)) [
              | inl p ↦ let z = rw (e, q, answer_of, k, with_method, p) at h in cc
              | inr (req, p) ↦
                  let z = rw (e, q, answer_of, k, with_method, p) at h in
                  let same : (s', name', s'.call_method i req) ≡ (s, name, rsp) = ground arith in
                  subst
                    (λ t.
                      dispatch texts tid services request response rt c
                      ≡ answered tid request (addressed request response) rt c t)
                    same
                    (elim (Option-cases (s'.call_method i req)) [
                      | inl d ↦ rw (e, q, dispatch, dispatch_method, k, p, d, answered)
                      | inr (r', d) ↦ rw (e, q, dispatch, dispatch_method, k, p, d, answered)
                    ])
            ]
          ]
        ]
      ]

  -- A request that a method takes, and for which it runs the closure once before it returns, is
  -- answered: if the bytes fit, the frame of the filled response, which has the request's id and
  -- method name, is put behind what waits in the out buffer, and no other byte; the run time names
  -- the request.
  pub dispatch-answered :
      (tid : ℕ) (services : List (List ℕ × Service Req Rsp)) (request response : TinyPb)
      (rt : RunTime) (c : TcpConnection A) (s : Service Req Rsp) (name : List ℕ) (rsp : Rsp)
      (r : TinyPb) (rt' : RunTime) (c' : TcpConnection A)
      → IsServing c
      → answer_of services request ≡ some (s, name, some rsp)
      → dispatch texts tid services request response rt c ≡ ok (r, rt', c')
      → (r ≡ filled_response texts (s.serialize rsp) (addressed request response))
        × (contents c'.out_buffer ≡ contents c.out_buffer ++ frame (with_msg_id r))
        × (rt' ≡ note_request request.msg_id name rt)
        × IsServing c'
  unfolding run_closure
  dispatch-answered tid services request response rt c s name rsp r rt' c' v a h =
      let response' = filled_response texts (s.serialize rsp) (addressed request response) in
      let z =
        sym (dispatch-run_closure tid services request response rt c s name (some rsp) a) ∙ h in
      elim (Outcome-cases (reply tid (response' ∷ []) c)) [
        | inr (e, q) ↦ let y = rw (answered, run_closure, q) at z in cc
        | inl (c1, q) ↦
            let y = rw (answered, run_closure, q) at z in
            let same : response' ≡ r = ground arith in
            let last : c1 ≡ c' = ground arith in
            let run : note_request request.msg_id name rt ≡ rt' = ground arith in
            let (k, n, v') = reply-appends tid response' c c1 v q in
            (
              sym same,
              subst (λ t. contents t.out_buffer ≡ contents c.out_buffer ++ frame (with_msg_id r))
                  last (k ∙ ap (λ t. contents c.out_buffer ++ frame (with_msg_id t)) same),
              sym run,
              subst IsServing last v',
            )
      ]

  -- A request whose method returns without running the closure, as that of test_rpc_server.cpp does
  -- for a price below ten, gets no answer: the connection, its out buffer and what it waits for are
  -- as before, the response has the id and the method name and reports no error, and the run time
  -- names the request.
  pub dispatch-unanswered :
      (tid : ℕ) (services : List (List ℕ × Service Req Rsp)) (request response : TinyPb)
      (rt : RunTime) (c : TcpConnection A) (s : Service Req Rsp) (name : List ℕ)
      → answer_of services request ≡ some (s, name, none)
      → dispatch texts tid services request response rt c
        ≡ ok (addressed request response, note_request request.msg_id name rt, c)
  dispatch-unanswered tid services request response rt c s name a =
      dispatch-run_closure tid services request response rt c s name none a
