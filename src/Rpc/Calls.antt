-- ===== src/Rpc/Calls.antt =====
-- RpcChannel: how often the closure of a call runs, and with what the call ends.
use rpc4grad.Prelude.{
  ℕ, ◌+◌, ◌≡◌, ◌≢◌, refl, ◌∙◌, arith, true, false, Bool-cases, Option, none, some, Option-cases,
  ◌⊎◌, inl, inr, List, [], ◌∷◌, ◌==◌, ==_iff, ok,
}
use rpc4grad.Coder.Protocol.{TinyPb}
use rpc4grad.Rpc.ErrorCode.{error_failed_deserialize, error_rpc_call_timeout}
use rpc4grad.Rpc.Controller.{start_cancel, set_error, set_finished}
use rpc4grad.Rpc.Channel.{
  RpcChannel, ChannelTexts, Happening, connect_failed, responded, timed_out, set_error_of,
  call_back, on_response, on_timeout, happen, happen_all,
}

module _ {Rsp : Type 0} where
  -- A call that is over: callBack has nothing more to do.
  pub record IsOver (ch : RpcChannel Rsp) : Type 0 where
    pub inited : ch.is_init ≡ true
    pub finished : ch.controller.is_finished ≡ true

  call_back-over : (ch : RpcChannel Rsp) → IsOver ch → call_back ch ≡ ok ch
  unfolding call_back
  call_back-over ch o = rw (o.inited, o.finished)

  -- An error ends the call: callBack does not run the closure.
  pub set_error_of-over :
      (code : ℕ) (info : List ℕ) (ch : RpcChannel Rsp)
      → ch.is_init ≡ true
      → call_back (set_error_of code info ch) ≡ ok (set_error_of code info ch)
  unfolding set_error_of set_error
  set_error_of-over code info ch i =
      call_back-over (set_error_of code info ch) (record { inited = i; finished = refl })

  -- A response that can be read and has the error code 0, on a call that is still open and has a
  -- closure: the message is read, the closure runs once, and the call is over.
  pub on_response-succeeds :
      (texts : ChannelTexts) (parse : List ℕ → Option Rsp) (m : TinyPb) (rsp : Rsp)
      (ch : RpcChannel Rsp)
      → ch.is_init ≡ true
      → ch.closure ≡ true
      → ch.controller.is_finished ≡ false
      → parse m.pb_body ≡ some rsp
      → m.err_code ≡ 0
      → (ch' : RpcChannel Rsp) × (on_response texts parse m ch ≡ ok ch')
        × (ch'.runs ≡ ch.runs + 1)
        × (ch'.response ≡ some rsp)
        × (ch'.controller.is_failed ≡ ch.controller.is_failed)
        × IsOver ch'
  unfolding on_response call_back set_finished
  on_response-succeeds texts parse m rsp ch i c f p e = (
    record ch {
      response = some rsp;
      runs = ch.runs + 1;
      controller = set_finished true ch.controller;
    },
    simp (on_response, p, (==_iff m.err_code 0).1 e, call_back, i, c, f),
    refl,
    refl,
    refl,
    record { inited = i; finished = refl },
  )

  -- A happening that reports an error: the connection has failed, the response cannot be read or
  -- has an error code, or the time is up.
  abbrev IsFailure : (List ℕ → Option Rsp) → Happening → Type 0
  IsFailure parse (connect_failed code info) = Unit {0}
  IsFailure parse (responded m) = (parse m.pb_body ≡ none) ⊎ (m.err_code ≢ 0)
  IsFailure parse timed_out = Unit {0}

  on_response-fails :
      (texts : ChannelTexts) (parse : List ℕ → Option Rsp) (m : TinyPb) (ch : RpcChannel Rsp)
      → ch.is_init ≡ true
      → (parse m.pb_body ≡ none) ⊎ (m.err_code ≢ 0)
      → (ch' : RpcChannel Rsp) × (on_response texts parse m ch ≡ ok ch')
        × (ch'.runs ≡ ch.runs)
        × (ch'.controller.is_failed ≡ true)
        × IsOver ch'
  unfolding on_response set_error_of set_error
  on_response-fails texts parse m ch i p = elim (Option-cases (parse m.pb_body)) [
    | inl q ↦ (
      set_error_of error_failed_deserialize texts.bad_response ch,
      rw (on_response, q) (set_error_of-over error_failed_deserialize texts.bad_response ch i),
      refl,
      refl,
      record { inited = i; finished = refl },
    )
    | inr (rsp, q) ↦ elim p [
      | inl r ↦ cc
      | inr n ↦
          let read : RpcChannel Rsp = record ch { response = some rsp } in
          let some_code : (m.err_code == 0) ≡ false = ground arith in
          (
            set_error_of m.err_code m.err_info read,
            rw (on_response, q, some_code) (set_error_of-over m.err_code m.err_info read i),
            refl,
            refl,
            record { inited = i; finished = refl },
          )
    ]
  ]

  -- Whatever the failure is, on a call that is initialised and open the closure is not run: the
  -- error that is set first makes callBack return at once. The call is over and failed
  -- afterwards.
  pub happen-silent :
      (texts : ChannelTexts) (parse : List ℕ → Option Rsp) (h : Happening) (ch : RpcChannel Rsp)
      → ch.is_init ≡ true
      → ch.controller.is_finished ≡ false
      → IsFailure parse h
      → (ch' : RpcChannel Rsp) × (happen texts parse h ch ≡ ok ch')
        × (ch'.runs ≡ ch.runs)
        × (ch'.controller.is_failed ≡ true)
        × IsOver ch'
  unfolding happen on_timeout set_error_of set_error
  happen-silent texts parse (connect_failed code info) ch i f p =
      (_, set_error_of-over code info ch i, refl, refl, record { inited = i; finished = refl })
  happen-silent texts parse (responded m) ch i f p = on_response-fails texts parse m ch i p
  happen-silent texts parse timed_out ch i f p =
      let stopped : RpcChannel Rsp = record ch { controller = start_cancel ch.controller } in
      (
        set_error_of error_rpc_call_timeout (texts.call_timeout ch.controller.timeout) stopped,
        rw (on_timeout, f)
            (set_error_of-over error_rpc_call_timeout (texts.call_timeout ch.controller.timeout)
              stopped i),
        refl,
        refl,
        record { inited = i; finished = refl },
      )

  happen-IsOver :
      (texts : ChannelTexts) (parse : List ℕ → Option Rsp) (h : Happening) (ch : RpcChannel Rsp)
      → IsOver ch
      → (ch' : RpcChannel Rsp) × (happen texts parse h ch ≡ ok ch')
        × (ch'.runs ≡ ch.runs)
        × IsOver ch'
  unfolding happen on_timeout set_error_of set_error on_response
  happen-IsOver texts parse (connect_failed code info) ch o = (
    _,
    set_error_of-over code info ch o.inited,
    refl,
    record { inited = o.inited; finished = refl },
  )
  happen-IsOver texts parse timed_out ch o = (ch, simp (on_timeout, o.finished), refl, o)
  happen-IsOver texts parse (responded m) ch o = elim (Option-cases (parse m.pb_body)) [
    | inl p ↦
        let (c, e, n, _, o') = on_response-fails texts parse m ch o.inited (inl p) in (c, e, n, o')
    | inr (rsp, p) ↦ elim (Bool-cases (m.err_code == 0)) [
      | inl q ↦
          let read : RpcChannel Rsp = record ch { response = some rsp } in
          let o' : IsOver read = record { inited = o.inited; finished = o.finished } in
          (read, rw (on_response, p, q) (call_back-over read o'), refl, o')
      | inr q ↦
          let (c, e, n, _, o') = on_response-fails texts parse m ch o.inited (inr (ground arith)) in
          (c, e, n, o')
    ]
  ]

  -- Once a call is over nothing that happens runs the closure.
  pub happen_all-IsOver :
      (texts : ChannelTexts) (parse : List ℕ → Option Rsp) (hs : List Happening)
      (ch : RpcChannel Rsp)
      → IsOver ch
      → (ch' : RpcChannel Rsp) × (happen_all texts parse hs ch ≡ ok ch')
        × (ch'.runs ≡ ch.runs)
        × IsOver ch'
  unfolding happen_all
  happen_all-IsOver texts parse [] ch o = (ch, refl, refl, o)
  happen_all-IsOver texts parse (h ∷ hs) ch o =
      let (c, e, n, o') = happen-IsOver texts parse h ch o in
      let (c', e', n', o'') = happen_all-IsOver texts parse hs c o' in
      (c', rw (happen_all, e) e', n' ∙ n, o'')
