-- ===== src/Rpc/Serving.antt =====
-- The server's side of a call, from the bytes of a request to the bytes of its answer.
use rpc4grad.Prelude.{
  if◌then◌else◌, ℕ, ◌^◌, ◌<◌, ◌≡◌, ◌≢◌, refl, sym, ap, ap₂, ◌∙◌, subst, arith, true, some, List, [],
  ◌∷◌, ◌++◌, length, lt→ltb, Outcome, ok, fault,
}
use rpc4grad.Buffer.{TcpBuffer, IsValid, write_able, contents, grown_size}
use rpc4grad.Buffer.Contents.{length-contents}
use rpc4grad.Buffer.Write.{Fits, write_to_buffer-appends}
use rpc4grad.Coder.Protocol.{TinyPb, new_message}
use rpc4grad.Coder.Encode.{with_msg_id, frame_length, frame, stamped, encode_tiny_pb, encode}
use rpc4grad.Coder.Frames.{length-frame}
use rpc4grad.Coder.Parse.{IsSendable}
use rpc4grad.Coder.Round.{IsOpen}
use rpc4grad.Coder.Stream.{frames, arrived}
use rpc4grad.RunTime.{RunTime}
use rpc4grad.Connection.{
  TcpConnection, received, by_server, wrote, reply, listen_write, is_server, dispatch_all, on_read,
  on_write,
}
use rpc4grad.Connection.Send.{IsServing, reply-appends, on_write-keeps}
use rpc4grad.Connection.Arrival.{on_read-frames}
use rpc4grad.Rpc.Dispatcher.{Service, ErrorTexts, run_closure, dispatch}
use rpc4grad.Rpc.Answers.{answer_of, answered, dispatch-run_closure}
use rpc4grad.Rpc.AnswerFrame.{answer, filled_response-answer, with_msg_id-answer}

encode-succeeds :
    (m : TinyPb) (b : TcpBuffer)
    → IsValid b
    → grown_size b < 2 ^ 31
    → frame_length (with_msg_id m) < 2 ^ 31
    → Fits (frame (with_msg_id m)) b
    → (ms : List TinyPb) × (b' : TcpBuffer) × (encode (m ∷ []) b ≡ ok (ms, b'))
unfolding encode encode_tiny_pb
encode-succeeds m b v g small f =
    let (b', e, w) = write_to_buffer-appends (frame (with_msg_id m)) v g f in
    let fits = lt→ltb (frame_length (with_msg_id m)) (2 ^ 31) small in
    (stamped (with_msg_id m) ∷ [], b', rw (encode, encode_tiny_pb, fits, e))

-- What the answer to `m` with the body `body` asks of a server's connection: nothing waits to be
-- sent, and the frame fits.
pub record CanAnswer {A : Type 0} (m : TinyPb) (body : List ℕ) (c : TcpConnection A) : Type 0 where
  pub serving : IsServing c
  pub empty_out : contents c.out_buffer ≡ []
  pub growth : grown_size c.out_buffer < 2 ^ 31
  pub room_out : Fits (frame (answer m body)) c.out_buffer
  pub small : frame_length (answer m body) < 2 ^ 31

-- The same, with nothing in the in buffer and more room than the request takes.
pub record IsReady {A : Type 0} (m : TinyPb) (body : List ℕ) (c : TcpConnection A) : Type 0 where
  pub answers : CanAnswer m body c
  pub open_in : IsOpen c.in_buffer
  pub empty_in : contents c.in_buffer ≡ []
  pub room_in : length (frames (m ∷ [])) < write_able c.in_buffer

-- A request that can be sent, has an id and carries no error.
pub record IsRequest (m : TinyPb) : Type 0 where
  pub sendable : IsSendable m
  pub plain : m.err_info ≡ []
  pub has_id : m.msg_id ≢ []

reply-answers :
    {A : Type 0} (tid : ℕ) (m : TinyPb) (body : List ℕ) (c : TcpConnection A)
    → m.msg_id ≢ []
    → CanAnswer m body c
    → (c' : TcpConnection A) × (reply tid (answer m body ∷ []) c ≡ ok c')
      × (contents c'.out_buffer ≡ frame (answer m body))
      × (c'.sent ≡ c.sent)
      × IsServing c'
unfolding reply
reply-answers tid m body c id r =
    let same = with_msg_id-answer m body id in
    let (ms, b, e) =
      encode-succeeds (answer m body) c.out_buffer r.serving.valid_out r.growth
        (subst (λ t. frame_length t < 2 ^ 31) (sym same) r.small)
        (subst (λ t. Fits (frame t) c.out_buffer) (sym same) r.room_out) in
    let c' = listen_write tid (record c { out_buffer = b }) in
    let done : reply tid (answer m body ∷ []) c ≡ ok c' = rw (reply, e) in
    let (k, n, s) = reply-appends tid (answer m body) c c' r.serving done in
    (
      c',
      done,
      k ∙ ap (λ t. t ++ frame (with_msg_id (answer m body))) r.empty_out ∙ ap frame same,
      n,
      s,
    )

CanAnswer-in_buffer :
    {A : Type 0} (m : TinyPb) (body : List ℕ) (c : TcpConnection A) (b : TcpBuffer)
    → CanAnswer m body c
    → CanAnswer m body (record c { in_buffer = b })
CanAnswer-in_buffer m body c b r = record {
  serving = record {
    connected_state = r.serving.connected_state;
    server = r.serving.server;
    valid_out = r.serving.valid_out;
  };
  empty_out = r.empty_out;
  growth = r.growth;
  room_out = r.room_out;
  small = r.small;
}

module _ {A : Type 0} where
  dispatch_all-one :
      (f : TinyPb → TcpConnection A → Outcome (TcpConnection A)) (m : TinyPb)
      (c c' : TcpConnection A)
      → f m c ≡ ok c'
      → dispatch_all f (m ∷ []) c ≡ ok c'
  unfolding dispatch_all
  dispatch_all-one f m c c' h = rw (dispatch_all, h)

  answering :
      (c c1 : TcpConnection A) (run other : Outcome (TcpConnection A))
      → c.connection_type ≡ by_server
      → run ≡ ok c1
      → some (if is_server c then run else other) ≡ some (ok c1)
  answering c c1 run other s h =
      let server : is_server c ≡ true = ground (arith, s) in rw (server, h)

module _ {Req Rsp A : Type 0} (texts : ErrorTexts) where
  -- execute's call of the dispatcher for one message.
  unfoldable pub dispatcher :
      ℕ
      → List (List ℕ × Service Req Rsp)
      → RunTime
      → TinyPb
      → TcpConnection A
      → Outcome (TcpConnection A)
  unfolding dispatch
  dispatcher tid services rt m c = elim (dispatch texts tid services m new_message rt c) [
    | fault e ↦ fault e
    | ok (r, rt', c') ↦ ok c'
  ]

  dispatcher-answers :
      (tid : ℕ) (services : List (List ℕ × Service Req Rsp)) (rt : RunTime) (m : TinyPb)
      (s : Service Req Rsp) (name : List ℕ) (rsp : Rsp) (body : List ℕ) (c c' : TcpConnection A)
      → answer_of services (arrived m) ≡ some (s, name, some rsp)
      → s.serialize rsp ≡ some body
      → reply tid (answer m body ∷ []) c ≡ ok c'
      → dispatcher tid services rt (arrived m) c ≡ ok c'
  unfolding dispatcher run_closure
  dispatcher-answers tid services rt m s name rsp body c c' a z h =
      let e =
        dispatch-run_closure texts tid services (arrived m) new_message rt c s name (some rsp) a in
      rw (dispatcher, e, answered, run_closure, z, filled_response-answer texts m body, h)

  -- A server that is ready for a request, and has a method that takes it, runs the closure once
  -- before it returns, and gives a result that can be written, answers: after one read(2) of the request's frame and one write(2) that takes all, the
  -- answer's frame, and nothing else, has been sent behind what was sent before.
  pub on_read-answers :
      (tid : ℕ) (services : List (List ℕ × Service Req Rsp)) (rt : RunTime) (m : TinyPb)
      (s : Service Req Rsp) (name : List ℕ) (rsp : Rsp) (body : List ℕ) (c : TcpConnection A)
      → IsRequest m
      → IsReady m body c
      → answer_of services (arrived m) ≡ some (s, name, some rsp)
      → s.serialize rsp ≡ some body
      → (c1 : TcpConnection A) × (c2 : TcpConnection A) × (on_read
            (dispatcher tid services rt)
            2
            tid
            (received (frames (m ∷ [])) ∷ [])
            c
          ≡ some (ok c1))
        × (on_write tid (wrote (length (frame (answer m body))) ∷ []) c1 ≡ some (ok c2))
        × (c2.sent ≡ c.sent ++ frame (answer m body))
  unfolding dispatch_all
  on_read-answers tid services rt m s name rsp body c q r a z =
      let serving = r.answers.serving in
      let (b, e, _, _) =
        on_read-frames (dispatcher tid services rt) tid m [] c serving.connected_state r.open_in
          r.empty_in (q.sendable, q.plain, tt) r.room_in in
      let c0 = record c { in_buffer = b } in
      let (c1, h, k, n, v) =
        reply-answers tid m body c0 q.has_id (CanAnswer-in_buffer m body c b r.answers) in
      let d = dispatcher-answers tid services rt m s name rsp body c0 c1 a z h in
      let size = length-contents v.valid_out ∙ refl in
      let len = ap (λ t. length t) k in
      let (c2, w, sent, _, _, _) =
        on_write-keeps tid (length (frame (answer m body))) c1 v
          (omega (arith, size, len, length-frame (answer m body))) (omega (arith, size, len)) in
      (
        c1,
        c2,
        e
            ∙ answering c c1 _ _ serving.server
                (dispatch_all-one (dispatcher tid services rt) (arrived m) c0 c1 d),
        w,
        sent ∙ ap₂ (λ x y. x ++ y) n k,
      )
