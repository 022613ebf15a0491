-- ===== src/Tests/WholeCall.antt =====
-- A whole call at the sample request and a service that answers with the bytes it gets and one more.
use rpc4grad.Prelude.{ℕ, ◌≡◌, refl, arith, inl, some, List, [], ◌∷◌, length, ok}
use rpc4grad.Prelude.Slices.{slice}
use rpc4grad.Prelude.Bytes.{net_bytes}
use rpc4grad.Buffer.{new_buffer, contents}
use rpc4grad.Buffer.Contents.{new_buffer-IsValid}
use rpc4grad.Coder.Encode.{frame}
use rpc4grad.Coder.Parse
use rpc4grad.Coder.Stream.{frames, arrived}
use rpc4grad.MsgId.{str_eq}
use rpc4grad.Connection.{TcpConnection, received, by_client, wrote, find_done, on_read, on_write}
use rpc4grad.Rpc.Dispatcher.{find_last_dot, parse_service_full_name, find_service}
use rpc4grad.Rpc.Answers.{answer_of}
use rpc4grad.Rpc.AnswerFrame.{answer}
use rpc4grad.Rpc.Channel.{RpcChannel, on_response}
use rpc4grad.Rpc.Serving.{IsRequest, IsReady, dispatcher}
use rpc4grad.Rpc.RoundTrip.{IsWaiting, Called, call_comes_back}
use rpc4grad.Tests.Samples.{request, request-IsSendable}
use rpc4grad.Tests.Serving.{waiting, waiting-IsOpen, waiting-empty, waiting-room, ignore}
use rpc4grad.Tests.Calling.{texts, channel_texts, echo, services, idle, open_channel, read_bytes}

abbrev body : List ℕ
body = 1 ∷ 5 ∷ 6 ∷ []

request-IsRequest : IsRequest request
request-IsRequest = record { sendable = request-IsSendable; plain = refl; has_id = λ e. cc }

waiting-out : contents waiting.out_buffer ≡ []
unfolding new_buffer contents slice
waiting-out = refl

waiting-IsReady : IsReady request body waiting
unfolding new_buffer frame net_bytes
waiting-IsReady = record {
  answers = record {
    serving = record { connected_state = refl; server = refl; valid_out = new_buffer-IsValid 128 };
    empty_out = waiting-out;
    growth = omega arith;
    room_out = inl (omega arith);
    small = omega arith;
  };
  open_in = waiting-IsOpen;
  empty_in = waiting-empty;
  room_in = waiting-room;
}

-- The client waits for the answer to the request with the callback 9.
abbrev caller : TcpConnection ℕ
caller = record waiting { connection_type = by_client; read_done = (request.msg_id, 9) ∷ [] }

caller-IsWaiting : IsWaiting request body 9 caller
unfolding new_buffer frame net_bytes find_done str_eq
caller-IsWaiting = record {
  up = refl;
  client = refl;
  open_in = waiting-IsOpen;
  empty_in = waiting-empty;
  room_in = omega arith;
  waits = refl;
}

arrived-found : answer_of services (arrived request) ≡ some (echo, b'm' ∷ [], some body)
unfolding parse_service_full_name find_last_dot find_service str_eq Parse.received
arrived-found = refl

call_comes_back_example :
    (c1 : TcpConnection ℕ) × (c2 : TcpConnection ℕ) × (d1 : TcpConnection ℕ) × (ch1 : RpcChannel
      (List ℕ))
    × (on_read
          (dispatcher texts 1 services idle)
          2
          1
          (received (frames (request ∷ [])) ∷ [])
          waiting
        ≡ some (ok c1))
    × (on_write 1 (wrote (length (frame (answer request body))) ∷ []) c1 ≡ some (ok c2))
    × (on_read ignore 2 2 (received (frames (answer request body ∷ [])) ∷ []) caller ≡ some (ok d1))
    × (on_response channel_texts read_bytes (arrived (answer request body)) open_channel ≡ ok ch1)
    × Called request body 9 body waiting caller open_channel c2 d1 ch1
call_comes_back_example =
    call_comes_back texts channel_texts 1 2 services idle request echo (b'm' ∷ []) body body 9
      read_bytes body waiting caller ignore open_channel request-IsRequest waiting-IsReady
      caller-IsWaiting (record { inited = refl; closure = refl; unfinished = refl }) arrived-found
      refl refl
