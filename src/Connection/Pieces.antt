-- ===== src/Connection/Pieces.antt =====
-- TcpConnection::onRead: a frame that comes in two reads.
use rpc4grad.Prelude.{
  ℕ, ◌+◌, ◌^◌, ◌≤◌, ◌<◌, ◌≡◌, ◌≢◌, sym, ap, ◌∙◌, arith, true, Bool-cases, inl, inr, List, [], ◌∷◌,
  ◌++◌, append-nil, length, length-append, drop, if◌then◌else◌, some, Outcome, ok,
}
use rpc4grad.Buffer.{TcpBuffer, write_able, contents}
use rpc4grad.Buffer.Contents.{length-contents}
use rpc4grad.Coder.Protocol.{TinyPb}
use rpc4grad.Coder.Encode.{frame, frame_length}
use rpc4grad.Coder.Frames.{length-frame}
use rpc4grad.Coder.Parse.{IsSendable}
use rpc4grad.Coder.Round.{IsOpen}
use rpc4grad.Coder.Stream.{arrived, decode-frames}
use rpc4grad.Coder.Garbage.{NoStart}
use rpc4grad.Coder.Pieces.{decode-waits}
use rpc4grad.Connection.{
  TcpConnection, connected, received, receive, is_connected, is_server, dispatch_all, deliver_all,
  on_read,
}
use rpc4grad.Connection.Read.{receive-appends, receive-below}
use rpc4grad.Connection.Arrival.{read_loop-short, execute-decoded, on_read-short}

-- A frame in two parts: the first has the length, and no start byte but its first one; the second is
-- not empty.
pub record IsSplit (m : TinyPb) (p q : List ℕ) : Type 0 where
  pub whole : p ++ q ≡ frame m
  pub more : q ≢ []
  pub has_length : 5 ≤ length p
  pub no_start : NoStart (drop 1 p)

-- What the first part leaves of the room.
after_part :
    (m : TinyPb) (p q : List ℕ) {b : TcpBuffer}
    → IsOpen b
    → contents b ≡ []
    → p ++ q ≡ frame m
    → length (frame m) < write_able b
    → (contents (receive p b) ≡ p)
      × IsOpen (receive p b)
      × (length q < write_able (receive p b))
      × ((receive p b).read_index + frame_length m < 2 ^ 31)
after_part m p q {b} o empty e room =
    let sum : length p + length q ≡ length (frame m) =
      omega (arith, length-append p q, ap (λ t. length t) e) in
    let fits : length p < write_able b = omega (arith, sum, room) in
    let (held, open_after, same) = receive-appends p o fits in
    let below = receive-below p o fits in
    let now : contents (receive p b) ≡ p = held ∙ ap (λ t. t ++ p) empty in
    let size = length-contents open_after.valid in
    (
      now,
      open_after,
      omega (arith, sum, room, same, below, open_after.valid.sized, o.valid.sized),
      omega (
        arith,
        sum,
        room,
        same,
        below,
        size,
        ap (λ t. length t) now,
        length-frame m,
        o.small,
        o.valid.sized,
        open_after.valid.ordered,
      ),
    )

module _ {A : Type 0} where
  none_yet :
      (dispatch : TinyPb → TcpConnection A → Outcome (TcpConnection A)) (c : TcpConnection A)
      → (if is_server c then dispatch_all dispatch [] c else ok (deliver_all [] c)) ≡ ok c
  unfolding dispatch_all deliver_all
  none_yet dispatch c = elim (Bool-cases (is_server c)) [ inl s ↦ rw (s) | inr s ↦ rw (s) ]

  -- A frame that comes in two reads is put together: of a message that can be sent and has no error
  -- text, into an open in buffer with nothing in it and more room than the frame takes, the first
  -- part has no effect but that its bytes wait, if it has the length and no other start byte, and
  -- the second makes a server dispatch the message, and a client give it to the callback that waits
  -- for it, with every field as it was sent, once; the in buffer is empty again before that.
  pub on_read-pieces :
      (dispatch : TinyPb → TcpConnection A → Outcome (TcpConnection A)) (tid : ℕ) (m : TinyPb)
      (p q : List ℕ) (c : TcpConnection A)
      → c.state ≡ connected
      → IsOpen c.in_buffer
      → contents c.in_buffer ≡ []
      → IsSendable m
      → m.err_info ≡ []
      → IsSplit m p q
      → length (frame m) < write_able c.in_buffer
      → (b : TcpBuffer) × (d : TcpBuffer) × (on_read dispatch 1 tid (received p ∷ []) c
          ≡ some (ok (record c { in_buffer = b })))
        × (contents b ≡ p)
        × (on_read dispatch 2 tid (received q ∷ []) (record c { in_buffer = b })
            ≡ some (
                if is_server c
                then dispatch_all dispatch (arrived m ∷ []) (record c { in_buffer = d })
                else ok (deliver_all (arrived m ∷ []) (record c { in_buffer = d }))))
        × (contents d ≡ [])
        × IsOpen d
  on_read-pieces dispatch tid m p q c up o empty v plain s room =
      let sum : length p + length q ≡ length (frame m) =
        omega (arith, length-append p q, ap (λ t. length t) s.whole) in
      let fits : length p < write_able c.in_buffer = omega (arith, sum, room) in
      let (held, o1, room1, small) = after_part m p q o empty s.whole room in
      let b = receive p c.in_buffer in
      let c1 : TcpConnection A = record c { in_buffer = b } in
      let open_state : is_connected c.state ≡ true = ap is_connected up in
      let waits = decode-waits m p q 0 [] o1 held s.whole s.more s.has_length s.no_start small in
      let (held2, o2, _) = receive-appends q o1 room1 in
      let all : contents (receive q b) ≡ frame m ++ [] =
        held2 ∙ ap (λ t. t ++ q) held ∙ s.whole ∙ sym (append-nil (frame m)) in
      let (d, e, rest, o3) = decode-frames (m ∷ []) [] o2 (v, plain, tt) all in
      (
        b,
        d,
        on_read-short dispatch 1 tid p c open_state (read_loop-short p c.in_buffer o fits)
            ∙ execute-decoded dispatch 1 c1 [] b waits
            ∙ ap some (none_yet dispatch c1),
        held,
        on_read-short dispatch 2 tid q c1 open_state (read_loop-short q b o1 room1)
            ∙ execute-decoded dispatch 2 (record c1 { in_buffer = receive q b }) (arrived m ∷ []) d
                e,
        rest,
        o3,
      )
