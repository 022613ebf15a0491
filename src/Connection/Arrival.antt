-- ===== src/Connection/Arrival.antt =====
-- TcpConnection::onRead: from the bytes of whole frames to what is done with their messages.
use rpc4grad.Prelude.{
  ℕ, suc, ◌<◌, ◌≡◌, ◌∙◌, ap, arith, true, false, List, [], ◌∷◌, ◌++◌, map, length, leb, ◌==◌,
  if◌then◌else◌, some, Outcome, ok,
}
use rpc4grad.Buffer.{TcpBuffer, write_able, contents}
use rpc4grad.Coder.Protocol.{TinyPb}
use rpc4grad.Coder.Decode.{decode}
use rpc4grad.Coder.Round.{IsOpen}
use rpc4grad.Coder.Stream.{frames, AllPlain, arrived, decode-frames}
use rpc4grad.Connection.{
  TcpConnection, connected, read_all, received, receive, read_loop, is_connected, is_server,
  dispatch_all, deliver_all, execute, on_read,
}
use rpc4grad.Connection.Read.{receive-appends, ensure_room-kept}

-- A read(2) that gives fewer bytes than asked for ends the loop.
pub read_loop-short :
    (ds : List ℕ) (b : TcpBuffer)
    → IsOpen b
    → length ds < write_able b
    → read_loop (received ds ∷ []) b ≡ some (ok (read_all, receive ds b))
unfolding read_loop
read_loop-short ds b o h =
    let fits : leb (length ds) (write_able b) ≡ true = ground arith in
    let short : (length ds == write_able b) ≡ false = ground arith in
    rw (read_loop, ensure_room-kept o, fits, ensure_room-kept o, short, ensure_room-kept o)

module _ {A : Type 0} where
  pub execute-decoded :
      (dispatch : TinyPb → TcpConnection A → Outcome (TcpConnection A)) (fuel : ℕ)
      (c : TcpConnection A) (ms : List TinyPb) (b : TcpBuffer)
      → decode fuel [] c.in_buffer ≡ some (ok (ms, b))
      → execute dispatch fuel c
        ≡ some (
            if is_server c
            then dispatch_all dispatch ms (record c { in_buffer = b })
            else ok (deliver_all ms (record c { in_buffer = b })))
  unfolding execute
  execute-decoded dispatch fuel c ms b h = simp (execute, h)

  pub on_read-short :
      (dispatch : TinyPb → TcpConnection A → Outcome (TcpConnection A)) (fuel tid : ℕ) (ds : List ℕ)
      (c : TcpConnection A)
      → is_connected c.state ≡ true
      → read_loop (received ds ∷ []) c.in_buffer ≡ some (ok (read_all, receive ds c.in_buffer))
      → on_read dispatch fuel tid (received ds ∷ []) c
        ≡ execute dispatch fuel (record c { in_buffer = receive ds c.in_buffer })
  unfolding on_read
  on_read-short dispatch fuel tid ds c up r = simp (on_read, up, r)

  -- Whole frames of messages that can be sent and have no error text, coming in one read(2) into
  -- an open in buffer with nothing in it and more room than they take, are all decoded on a
  -- connected connection: a server dispatches each message, a client gives each to the callback
  -- that waits for it, in order and with every field as it was sent, and the in buffer is empty
  -- again before that.
  pub on_read-frames :
      (dispatch : TinyPb → TcpConnection A → Outcome (TcpConnection A)) (tid : ℕ) (m : TinyPb)
      (ms : List TinyPb) (c : TcpConnection A)
      → c.state ≡ connected
      → IsOpen c.in_buffer
      → contents c.in_buffer ≡ []
      → AllPlain (m ∷ ms)
      → length (frames (m ∷ ms)) < write_able c.in_buffer
      → (b : TcpBuffer) × (on_read dispatch
            (suc (length (m ∷ ms)))
            tid
            (received (frames (m ∷ ms)) ∷ [])
            c
          ≡ some (
              if is_server c
              then dispatch_all dispatch (map arrived (m ∷ ms)) (record c { in_buffer = b })
              else ok (deliver_all (map arrived (m ∷ ms)) (record c { in_buffer = b }))))
        × (contents b ≡ [])
        × IsOpen b
  on_read-frames dispatch tid m ms c up o empty p h =
      let ds = frames (m ∷ ms) in
      let (held, o1, _) = receive-appends ds o h in
      let whole = held ∙ ap (λ t. t ++ ds) empty in
      let (b, e, rest, o2) = decode-frames (m ∷ ms) [] o1 p whole in
      let open_state : is_connected c.state ≡ true = ap is_connected up in
      (
        b,
        on_read-short dispatch (suc (length (m ∷ ms))) tid ds c open_state
              (read_loop-short ds c.in_buffer o h)
            ∙ (execute-decoded dispatch (suc (length (m ∷ ms)))
                (record c { in_buffer = receive ds c.in_buffer }) (map arrived (m ∷ ms)) b e),
        rest,
        o2,
      )
