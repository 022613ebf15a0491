-- ===== src/Rpc/Once.antt =====
-- RpcChannel: a closure runs at most once, and what CallMethod leaves behind.
use rpc4grad.Prelude.{
  ap, Outcome-cases, ok-injective, ℕ, ◌+◌, ◌≤◌, ◌≡◌, refl, sym, ◌∙◌, subst, arith, true, false,
  Bool-cases, Option, none, some, Option-cases, ◌⊎◌, inl, inr, List, [], ◌∷◌, ◌==◌, ==_iff, ok,
  fault, null_pointer,
}
use rpc4grad.Coder.Protocol.{TinyPb, new_message, set_method_name}
use rpc4grad.MsgId.{MsgIds, is_empty}
use rpc4grad.Rpc.ErrorCode.{error_rpc_channel_init_failed, error_failed_serialize}
use rpc4grad.Rpc.Controller.{RpcController, set_error}
use rpc4grad.Rpc.Channel.{
  RpcChannel, ChannelTexts, CallArgs, Happening, connect_failed, responded, timed_out, set_error_of,
  call_back, give_up, choose_msg_id, send_request, call_method, on_response, happen, happen_all,
}
use rpc4grad.Rpc.Calls.{
  IsOver, happen-silent, on_response-succeeds, happen_all-IsOver, set_error_of-over,
}

choose_msg_id-own :
    (args : CallArgs) (c : RpcController) (ids : MsgIds)
    → is_empty c.msg_id ≡ false
    → choose_msg_id args c ids ≡ ok (c.msg_id, ids)
unfolding choose_msg_id
choose_msg_id-own args c ids h = simp (choose_msg_id, h)

module _ {Rsp : Type 0} where
  -- A call that is still open after something has happened to it is the same but for its response.
  record IsSame (ch ch' : RpcChannel Rsp) : Type 0 where
    inited : ch'.is_init ≡ true
    still : ch'.controller.is_finished ≡ false
    runs : ch'.runs ≡ ch.runs

  happen-once :
      (texts : ChannelTexts) (parse : List ℕ → Option Rsp) (h : Happening) (ch : RpcChannel Rsp)
      → ch.is_init ≡ true
      → ch.controller.is_finished ≡ false
      → (ch' : RpcChannel Rsp) × (happen texts parse h ch ≡ ok ch')
        × ((IsOver ch' × (ch'.runs ≤ ch.runs + 1)) ⊎ IsSame ch ch')
  unfolding happen on_response call_back
  happen-once texts parse (connect_failed code info) ch i f =
      let (c, e, n, _, o) = happen-silent texts parse (connect_failed code info) ch i f tt in
      (c, e, inl (o, omega (arith, n)))
  happen-once texts parse timed_out ch i f =
      let (c, e, n, _, o) = happen-silent texts parse timed_out ch i f tt in
      (c, e, inl (o, omega (arith, n)))
  happen-once texts parse (responded m) ch i f = elim (Option-cases (parse m.pb_body)) [
    | inl p ↦
        let (c, e, n, _, o) = happen-silent texts parse (responded m) ch i f (inl p) in
        (c, e, inl (o, omega (arith, n)))
    | inr (rsp, p) ↦ elim (Bool-cases (m.err_code == 0)) [
      | inr q ↦
          let (c, e, n, _, o) =
            happen-silent texts parse (responded m) ch i f (inr (ground arith)) in
          (c, e, inl (o, omega (arith, n)))
      | inl q ↦ elim (Bool-cases ch.closure) [
        | inl d ↦
            let (c, e, n, _, _, o) =
              on_response-succeeds texts parse m rsp ch i d f p ((==_iff m.err_code 0).0 q) in
            (c, e, inl (o, omega (arith, n)))
        | inr d ↦ (
          record ch { response = some rsp },
          simp (on_response, p, q, call_back, i, d, f),
          inr (record { inited = i; still = f; runs = refl }),
        )
      ]
    ]
  ]

  -- Whatever happens to a call on an initialised channel, in whatever order, there is no fault
  -- and its closure runs at most once.
  pub happen_all-once :
      (texts : ChannelTexts) (parse : List ℕ → Option Rsp) (hs : List Happening)
      (ch : RpcChannel Rsp)
      → ch.is_init ≡ true
      → (ch' : RpcChannel Rsp) × (happen_all texts parse hs ch ≡ ok ch') × (ch'.runs ≤ ch.runs + 1)
  unfolding happen_all
  happen_all-once texts parse [] ch i = (ch, refl, omega arith)
  happen_all-once texts parse (h ∷ hs) ch i = elim (Bool-cases ch.controller.is_finished) [
    | inl f ↦
        let (c, e, n, _) =
          happen_all-IsOver texts parse (h ∷ hs) ch (record { inited = i; finished = f }) in
        (c, e, omega (arith, n))
    | inr f ↦
        let (c, e, r) = happen-once texts parse h ch i f in
        elim r [
          | inl (o, n) ↦
              let (d, e', n', _) = happen_all-IsOver texts parse hs c o in
              (d, rw (happen_all, e) e', omega (arith, n, n'))
          | inr s ↦
              let (d, e', n') = happen_all-once texts parse hs c s.inited in
              (d, rw (happen_all, e) e', omega (arith, n', s.runs))
        ]
  ]

  give_up-not_init :
      (code : ℕ) (info : List ℕ) (ids : MsgIds) (ch : RpcChannel Rsp)
      → ch.is_init ≡ false
      → give_up code info ids ch ≡ fault null_pointer
  unfolding give_up call_back set_error_of
  give_up-not_init code info ids ch i = rw (give_up, call_back, i)

  give_up-over :
      (code : ℕ) (info : List ℕ) (ids : MsgIds) (ch : RpcChannel Rsp)
      → ch.is_init ≡ true
      → give_up code info ids ch ≡ ok (set_error_of code info ch, ids, none)
  unfolding give_up
  give_up-over code info ids ch i = rw (give_up, set_error_of-over code info ch i)

  -- A call that was given up.
  GivenUp : RpcChannel Rsp → RpcChannel Rsp → Type 0
  GivenUp ch ch' = IsOver ch' × (ch'.controller.is_failed ≡ true) × (ch'.runs ≡ ch.runs)

  give_up-GivenUp :
      (code : ℕ) (info : List ℕ) (ids ids' : MsgIds) (ch ch' : RpcChannel Rsp)
      → ch.is_init ≡ true
      → give_up code info ids ch ≡ ok (ch', ids', none)
      → GivenUp ch ch'
  unfolding GivenUp set_error_of set_error
  give_up-GivenUp code info ids ids' ch ch' i h =
      let same : set_error_of code info ch ≡ ch' =
        ground (arith, sym (give_up-over code info ids ch i) ∙ h) in
      subst (GivenUp ch) same (record { inited = i; finished = refl }, refl, refl)

  -- Before Init a call that has its arguments and an address ends in callBack, which looks into
  -- the controller that is not there.
  pub call_method-not_init :
      (texts : ChannelTexts) (args : CallArgs) (ids ids' : MsgIds) (addr id : List ℕ)
      (ch : RpcChannel Rsp)
      → ch.is_init ≡ false
      → ch.remote_addr ≡ some addr
      → args.has_arguments ≡ true
      → choose_msg_id args ch.controller ids ≡ ok (id, ids')
      → call_method texts args ids ch ≡ fault null_pointer
  unfolding call_method send_request
  call_method-not_init texts args ids ids' addr id ch i a h q =
      simp (call_method, h, a, q, send_request, i, give_up-not_init)

  -- After Init a call with its arguments, an address and a request that can be serialized, for which
  -- an id is chosen without a fault of the generator, sends one request: with that id, which the
  -- controller then has, and which is its own where it had one, and with the method's full name and
  -- the bytes. The closure has not run.
  pub call_method-sends :
      (texts : ChannelTexts) (args : CallArgs) (ids ids' : MsgIds) (addr body id : List ℕ)
      (ch : RpcChannel Rsp)
      → ch.is_init ≡ true
      → ch.remote_addr ≡ some addr
      → args.has_arguments ≡ true
      → args.request ≡ some body
      → choose_msg_id args ch.controller ids ≡ ok (id, ids')
      → (ch' : RpcChannel Rsp) × (m : TinyPb) × (call_method texts args ids ch
          ≡ ok (ch', ids', some m))
        × (m.msg_id ≡ id)
        × (m.msg_id ≡ ch'.controller.msg_id)
        × ((is_empty ch.controller.msg_id ≡ true) ⊎ (m.msg_id ≡ ch.controller.msg_id))
        × (m.method_name ≡ args.full_name)
        × (m.pb_body ≡ body)
        × (ch'.runs ≡ ch.runs)
        × (ch'.controller.is_finished ≡ ch.controller.is_finished)
  unfolding call_method send_request set_method_name
  call_method-sends texts args ids ids' addr body id ch i a h r q =
      let c : RpcChannel Rsp = record ch { controller = record ch.controller { msg_id = id } } in
      let m : TinyPb =
        record (set_method_name args.full_name (record new_message { msg_id = id })) {
          pb_body = body;
        } in
      (
        c,
        m,
        simp (call_method, h, a, q, send_request, i, r),
        refl,
        refl,
        elim (Bool-cases (is_empty ch.controller.msg_id)) [
          | inl e ↦ inl e
          | inr e ↦
              let own = sym (choose_msg_id-own args ch.controller ids e) ∙ q in
              inr (ap (λ (p : List ℕ × MsgIds). p.0) (sym (ok-injective own)))
        ],
        refl,
        refl,
        refl,
        refl,
      )

  -- After Init a call that sends no request is over and failed, and its closure has not run.
  pub call_method-gives_up :
      (texts : ChannelTexts) (args : CallArgs) (ids ids' : MsgIds) (ch ch' : RpcChannel Rsp)
      → ch.is_init ≡ true
      → call_method texts args ids ch ≡ ok (ch', ids', none)
      → IsOver ch' × (ch'.controller.is_failed ≡ true) × (ch'.runs ≡ ch.runs)
  unfolding GivenUp call_method send_request
  call_method-gives_up texts args ids ids' ch ch' i h = elim (Bool-cases args.has_arguments) [
    | inr p ↦
        let z = simp (call_method, p) at h in
        give_up-GivenUp error_rpc_channel_init_failed texts.null_argument ids ids' ch ch' i z
    | inl p ↦ elim (Option-cases ch.remote_addr) [
      | inl q ↦
          let z = simp (call_method, p, q) at h in
          give_up-GivenUp error_rpc_channel_init_failed texts.no_peer_addr ids ids' ch ch' i z
      | inr (addr, q) ↦ elim (Outcome-cases (choose_msg_id args ch.controller ids)) [
        | inr (why, d) ↦ let z = simp (call_method, p, q, d) at h in cc
        | inl ((id, ids1), d) ↦ elim (Option-cases args.request) [
          | inl r ↦
              let z = simp (call_method, p, q, d, send_request, i, r) at h in
              let c : RpcChannel Rsp = record ch {
                remote_addr = some addr;
                controller = record ch.controller { msg_id = id };
                is_init = true;
              } in
              give_up-GivenUp error_failed_serialize texts.bad_request ids1 ids' c ch' refl z
          | inr (body, r) ↦ let z = simp (call_method, p, q, d, send_request, i, r) at h in cc
        ]
      ]
    ]
  ]
