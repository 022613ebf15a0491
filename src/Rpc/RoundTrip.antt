-- ===== src/Rpc/RoundTrip.antt =====
-- A whole call: from the request on a client's connection over the server to the closure of the
-- client's channel.
use rpc4grad.Prelude.{
  ℕ, ◌+◌, ◌^◌, ◌<◌, ◌≡◌, refl, ap, ◌∙◌, arith, true, false, Option, some, List, [], ◌∷◌, ◌++◌,
  length, if◌then◌else◌, Outcome, ok,
}
use rpc4grad.Buffer.{write_able, contents}
use rpc4grad.Coder.Protocol.{TinyPb}
use rpc4grad.Coder.Encode.{frame, frame_length}
use rpc4grad.Coder.Decode.{c_string}
use rpc4grad.Coder.Parse.{IsSendable}
use rpc4grad.Coder.Round.{IsOpen}
use rpc4grad.Coder.Stream.{frames, arrived}
use rpc4grad.RunTime.{RunTime}
use rpc4grad.Connection.{
  TcpConnection, connected, by_client, received, wrote, is_server, find_done, deliver_all, on_read,
  on_write,
}
use rpc4grad.Connection.Callbacks.{deliver-found}
use rpc4grad.Connection.Arrival.{on_read-frames}
use rpc4grad.Rpc.Dispatcher.{Service, ErrorTexts}
use rpc4grad.Rpc.Answers.{answer_of}
use rpc4grad.Rpc.AnswerFrame.{answer, arrived-answer}
use rpc4grad.Rpc.Serving.{IsRequest, IsReady, dispatcher, on_read-answers}
use rpc4grad.Rpc.Channel.{RpcChannel, ChannelTexts, on_response}
use rpc4grad.Rpc.Calls.{on_response-succeeds}

answer-IsSendable :
    (m : TinyPb) (body : List ℕ)
    → IsRequest m
    → frame_length (answer m body) < 2 ^ 31
    → IsSendable (answer m body)
unfolding c_string
answer-IsSendable m body q small = record {
  short_id = q.sendable.short_id;
  short_name = q.sendable.short_name;
  short_err = omega arith;
  no_nul = refl;
  code_word = omega arith;
  fits = small;
}

-- A client that waits for the answer to `m`, with the callback `f`: it is connected, nothing waits
-- in its in buffer, and there is more room than the answer takes.
pub record IsWaiting {B : Type 0} (m : TinyPb) (body : List ℕ) (f : B) (d : TcpConnection B)
    : Type 0 where
  pub up : d.state ≡ connected
  pub client : d.connection_type ≡ by_client
  pub open_in : IsOpen d.in_buffer
  pub empty_in : contents d.in_buffer ≡ []
  pub room_in : length (frames (answer m body ∷ [])) < write_able d.in_buffer
  pub waits : find_done m.msg_id d.read_done ≡ some f

module _ {B : Type 0} where
  delivering :
      (d : TcpConnection B) (run other : Outcome (TcpConnection B))
      → d.connection_type ≡ by_client
      → some (if is_server d then run else other) ≡ some other
  delivering d run other c = let client : is_server d ≡ false = ground (arith, c) in rw (client)

  -- One read(2) of the answer's frame calls the callback that waits for it, and no other.
  on_read-calls :
      (ignored : TinyPb → TcpConnection B → Outcome (TcpConnection B)) (tid : ℕ) (m : TinyPb)
      (body : List ℕ) (f : B) (d : TcpConnection B)
      → IsRequest m
      → frame_length (answer m body) < 2 ^ 31
      → IsWaiting m body f d
      → (d' : TcpConnection B) × (on_read ignored 2 tid
            (received (frames (answer m body ∷ [])) ∷ [])
            d
          ≡ some (ok d'))
        × (d'.called ≡ d.called ++ ((f, arrived (answer m body)) ∷ []))
  unfolding deliver_all
  on_read-calls ignored tid m body f d q small w =
      let (b, e, _, _) =
        on_read-frames ignored tid (answer m body) [] d w.up w.open_in w.empty_in
          (answer-IsSendable m body q small, refl, tt) w.room_in in
      let d0 = record d { in_buffer = b } in
      let found =
        deliver-found (arrived (answer m body)) d0 f
          (ap (λ id. find_done id d.read_done) (arrived-answer m body).0 ∙ w.waits) in
      (_, e ∙ delivering d _ _ w.client, ap (λ (x : TcpConnection B). x.called) found)

-- A call that is open: its channel is initialised, has a closure, and is not finished.
pub record IsOpenCall {R : Type 0} (ch : RpcChannel R) : Type 0 where
  pub inited : ch.is_init ≡ true
  pub closure : ch.closure ≡ true
  pub unfinished : ch.controller.is_finished ≡ false

-- The parts of a call and what each does with it: `c1` and `c2` are the server's connection after it
-- has read the request and written the answer, `d1` is the client's after it has read the answer,
-- and `ch1` the channel after the callback that the connection calls.
pub record Called {A B R : Type 0} (m : TinyPb) (body : List ℕ) (f : B) (r : R)
    (c : TcpConnection A) (d : TcpConnection B) (ch : RpcChannel R) (c2 : TcpConnection A)
    (d1 : TcpConnection B) (ch1 : RpcChannel R) : Type 0 where
  pub sent : c2.sent ≡ c.sent ++ frame (answer m body)
  pub called : d1.called ≡ d.called ++ ((f, arrived (answer m body)) ∷ [])
  pub runs : ch1.runs ≡ ch.runs + 1
  pub response : ch1.response ≡ some r
  pub failed : ch1.controller.is_failed ≡ ch.controller.is_failed

module _ {Req Rsp A B R : Type 0} where
  -- A call comes back: a request that can be sent, with an id and no error text, comes to a server
  -- that is ready for it and whose method takes it and runs the closure once before it returns, with
  -- a result that can be written, in one read(2); the server sends the frame of
  -- the answer in one write(2) that takes all, and nothing else; the client that waits for that id
  -- gets it in one read(2) and calls the callback of that id, once and no other, with the message
  -- that has the id, the method name and the body of the answer and the error code 0; and the open
  -- call of the channel that is given that message, if it can read the body, gets the response that
  -- the body stands for, does not fail, and runs its closure once.
  pub call_comes_back :
      (texts : ErrorTexts) (channel_texts : ChannelTexts) (tid client_tid : ℕ)
      (services : List (List ℕ × Service Req Rsp)) (rt : RunTime) (m : TinyPb) (s : Service Req Rsp)
      (name : List ℕ) (rsp : Rsp) (body : List ℕ) (f : B) (parse : List ℕ → Option R) (r : R)
      (c : TcpConnection A) (d : TcpConnection B)
      (ignored : TinyPb → TcpConnection B → Outcome (TcpConnection B)) (ch : RpcChannel R)
      → IsRequest m
      → IsReady m body c
      → IsWaiting m body f d
      → IsOpenCall ch
      → answer_of services (arrived m) ≡ some (s, name, some rsp)
      → s.serialize rsp ≡ some body
      → parse body ≡ some r
      → (c1 : TcpConnection A) × (c2 : TcpConnection A) × (d1 : TcpConnection B) × (ch1 : RpcChannel
          R)
        × (on_read (dispatcher texts tid services rt) 2 tid (received (frames (m ∷ [])) ∷ []) c
            ≡ some (ok c1))
        × (on_write tid (wrote (length (frame (answer m body))) ∷ []) c1 ≡ some (ok c2))
        × (on_read ignored 2 client_tid (received (frames (answer m body ∷ [])) ∷ []) d
            ≡ some (ok d1))
        × (on_response channel_texts parse (arrived (answer m body)) ch ≡ ok ch1)
        × Called m body f r c d ch c2 d1 ch1
  call_comes_back texts channel_texts tid client_tid services rt m s name rsp body f parse r c d
        ignored ch q ready w free a z p =
      let (c1, c2, e1, e2, sent) =
        on_read-answers texts tid services rt m s name rsp body c q ready a z in
      let (d1, e3, called) = on_read-calls ignored client_tid m body f d q ready.answers.small w in
      let (_, _, code, same_body) = arrived-answer m body in
      let (ch1, e4, runs, response, failed, _) =
        on_response-succeeds channel_texts parse (arrived (answer m body)) r ch free.inited
          free.closure free.unfinished (ap parse same_body ∙ p) code in
      (
        c1,
        c2,
        d1,
        ch1,
        e1,
        e2,
        e3,
        e4,
        record { sent = sent; called = called; runs = runs; response = response; failed = failed },
      )
