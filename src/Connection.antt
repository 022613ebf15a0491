-- ===== src/Connection.antt =====
-- rocket/rocket/net/TCP/tcp_connection.h and tcp_connection.cpp. What read(2) and write(2) return is
-- an argument; a std::function that the user gives is a value of any type, and the calls made to it
-- are recorded with the message that it is given.
pub mod Read
pub mod Send
pub mod Close
pub mod Callbacks
pub mod Arrival
pub mod Pieces
use rpc4grad.Prelude.{
  ℕ, zero, suc, ◌+◌, ◌*◌, Bool, true, false, Option, none, some, List, [], ◌∷◌, ◌++◌, map, length,
  take, ltb, leb, ◌==◌, ◌&&◌, if◌then◌else◌, Outcome, ok, fault, out_of_bounds,
}
use rpc4grad.Prelude.Int.{ℤ, pos}
use rpc4grad.Prelude.Slices.{blit}
use rpc4grad.Buffer.{
  TcpBuffer, new_buffer, read_able, write_able, contents, resize_buffer, move_write_index,
}
use rpc4grad.Coder.Protocol.{TinyPb}
use rpc4grad.Coder.Encode.{encode}
use rpc4grad.Coder.Decode.{decode}
use rpc4grad.MsgId.{str_eq}
use rpc4grad.Event.Fd.{FdEvent, in_event, out_event, listen, cancle}
use rpc4grad.Event.Loop.{EventLoop, add_epoll_event, delete_epoll_event}

pub data TcpState : Type 0 where
  not_connected connected half_closing closed : TcpState

pub data ConnectionType : Type 0 where
  by_server by_client : ConnectionType

-- std::bind(&TcpConnection::onRead, this), the same of onWrite, and the handler that a client's
-- connect waits with.
pub data Handler : Type 0 where
  run_read run_write run_connect : Handler

-- `sent` is what write(2) has taken so far, `called` the callbacks run so far and `shut` whether
-- ::shutdown has been called. The event and the loop are those that the connection points to.
pub record TcpConnection (A : Type 0) : Type 0 where
  pub state : TcpState
  pub connection_type : ConnectionType
  pub in_buffer : TcpBuffer
  pub out_buffer : TcpBuffer
  pub fd_event : FdEvent Handler
  pub event_loop : EventLoop Handler
  pub write_done : List (TinyPb × A)
  pub read_done : List (List ℕ × A)
  pub sent : List ℕ
  pub called : List (A × TinyPb)
  pub shut : Bool

-- What one read(2) gives: some bytes, 0, -1 with EAGAIN, or -1 with another error.
pub data ReadResult : Type 0 where
  received : List ℕ → ReadResult
  end_of_file read_again read_error : ReadResult

-- What one write(2) gives: a count, -1 with EAGAIN, or -1 with another error.
pub data WriteResult : Type 0 where
  wrote : ℕ → WriteResult
  write_again write_error : WriteResult

-- Why the loop of onRead ends.
pub data ReadEnd : Type 0 where
  read_all remote_close : ReadEnd

-- The start of a round of the loop of onRead.
unfoldable pub ensure_room : TcpBuffer → TcpBuffer
ensure_room b = if write_able b == 0 then resize_buffer (2 * length b.buffer) b else b

-- read(2) puts the bytes at the write index, and moveWriteIndex follows.
unfoldable pub receive : List ℕ → TcpBuffer → TcpBuffer
receive ds b =
    move_write_index (pos (length ds)) (record b { buffer = blit b.write_index ds b.buffer })

-- The loop of onRead: `none` if it is still running after these results. read(2) gives no more
-- bytes than asked for.
unfoldable pub read_loop : List ReadResult → TcpBuffer → Option (Outcome (ReadEnd × TcpBuffer))
unfolding ensure_room receive
read_loop [] b = none
read_loop (received ds ∷ rs) b =
    let b' = ensure_room b in
    elim (leb (length ds) (write_able b')) [
      | false ↦ some (fault out_of_bounds)
      | true ↦ elim (length ds == write_able b') [
        | true ↦ read_loop rs (receive ds b')
        | false ↦ some (ok (read_all, receive ds b'))
      ]
    ]
read_loop (end_of_file ∷ rs) b = some (ok (remote_close, ensure_room b))
read_loop (read_again ∷ rs) b = some (ok (read_all, ensure_room b))
read_loop (read_error ∷ rs) b = read_loop rs (ensure_room b)

-- The loop of onWrite: whether everything went out, and what write(2) took; `none` if it is still
-- running. The read index stays where it is.
unfoldable pub write_loop : List WriteResult → TcpBuffer → List ℕ → Option (Bool × List ℕ)
write_loop [] b sent = if read_able b == 0 then some (true, sent) else none
write_loop (wrote n ∷ rs) b sent = elim (read_able b == 0) [
  | true ↦ some (true, sent)
  | false ↦ elim (leb (read_able b) n) [
    | true ↦ some (true, sent ++ contents b)
    | false ↦ write_loop rs b (sent ++ take n (contents b))
  ]
]
write_loop (write_again ∷ rs) b sent = some (read_able b == 0, sent)
write_loop (write_error ∷ rs) b sent = elim (read_able b == 0) [
  | true ↦ some (true, sent)
  | false ↦ write_loop rs b sent
]

abbrev pub is_closed : TcpState → Bool
is_closed closed = true
is_closed _ = false

abbrev is_open_state : TcpState → Bool
is_open_state closed = false
is_open_state not_connected = false
is_open_state _ = true

abbrev pub is_connected : TcpState → Bool
is_connected connected = true
is_connected _ = false

module _ {A : Type 0} where
  -- The argument is not used.
  unfoldable pub set_state : TcpState → TcpConnection A → TcpConnection A
  set_state state c = record c { state = connected }

  unfoldable pub set_connection_type : ConnectionType → TcpConnection A → TcpConnection A
  set_connection_type type c = record c { connection_type = type }

  -- `tid` is the thread that makes the call, here and below.
  unfoldable pub listen_write : ℕ → TcpConnection A → TcpConnection A
  listen_write tid c =
      let e = listen out_event (some run_write) none c.fd_event in
      record c { fd_event = e; event_loop = add_epoll_event tid e c.event_loop }

  unfoldable pub listen_read : ℕ → TcpConnection A → TcpConnection A
  listen_read tid c =
      let e = listen in_event (some run_read) none c.fd_event in
      record c { fd_event = e; event_loop = add_epoll_event tid e c.event_loop }

  abbrev pub is_server : TcpConnection A → Bool
  is_server c = elim c.connection_type [ by_server ↦ true | by_client ↦ false ]

  -- TcpConnection(...), over the event of its descriptor.
  unfoldable pub new_connection :
      ℕ → EventLoop Handler → FdEvent Handler → ℕ → ConnectionType → TcpConnection A
  unfolding listen_read new_buffer
  new_connection tid event_loop e buffer_size type =
      let c : TcpConnection A = record {
        state = not_connected;
        connection_type = type;
        in_buffer = new_buffer buffer_size;
        out_buffer = new_buffer buffer_size;
        fd_event = e;
        event_loop = event_loop;
        write_done = [];
        read_done = [];
        sent = [];
        called = [];
        shut = false;
      } in
      if is_server c then listen_read tid c else c

  -- The body of clear, behind the test for a closed connection.
  unfoldable close_down : ℕ → TcpConnection A → TcpConnection A
  close_down tid c =
      let e = cancle out_event (cancle in_event c.fd_event) in
      record c { fd_event = e; event_loop = delete_epoll_event tid e c.event_loop; state = closed }

  unfoldable pub clear : ℕ → TcpConnection A → TcpConnection A
  unfolding close_down
  clear tid c = if is_closed c.state then c else close_down tid c

  unfoldable pub shutdown : TcpConnection A → TcpConnection A
  shutdown c = if is_open_state c.state then record c { state = half_closing; shut = true } else c

  unfoldable pub push_send_message : TinyPb → A → TcpConnection A → TcpConnection A
  push_send_message message done c = record c {
    write_done = c.write_done ++ ((message, done) ∷ []);
  }

  -- m_read_done.find(msg_id)
  unfoldable pub find_done : List ℕ → List (List ℕ × A) → Option A
  find_done id [] = none
  find_done id ((k, f) ∷ rest) = if str_eq k id then some f else find_done id rest

  unfoldable pub erase_done : List ℕ → List (List ℕ × A) → List (List ℕ × A)
  erase_done id [] = []
  erase_done id ((k, f) ∷ rest) =
      let later = erase_done id rest in if str_eq k id then later else (k, f) ∷ later

  -- map::insert leaves an entry that is there.
  unfoldable pub push_read_message : List ℕ → A → TcpConnection A → TcpConnection A
  unfolding find_done
  push_read_message id done c = elim (find_done id c.read_done) [
    | none ↦ record c { read_done = c.read_done ++ ((id, done) ∷ []) }
    | some f ↦ c
  ]

  -- reply: the messages are encoded into the out buffer, and the descriptor is waited for.
  unfoldable pub reply : ℕ → List TinyPb → TcpConnection A → Outcome (TcpConnection A)
  unfolding encode listen_write
  reply tid messages c = elim (encode messages c.out_buffer) [
    | fault e ↦ fault e
    | ok (ms, b) ↦ ok (listen_write tid (record c { out_buffer = b }))
  ]

  -- The branch of a client in execute: the callback that waits for the message's id runs once.
  unfoldable pub deliver : TinyPb → TcpConnection A → TcpConnection A
  unfolding find_done erase_done
  deliver m c = elim (find_done m.msg_id c.read_done) [
    | none ↦ c
    | some f ↦ record c {
      called = c.called ++ ((f, m) ∷ []);
      read_done = erase_done m.msg_id c.read_done;
    }
  ]

  unfoldable pub deliver_all : List TinyPb → TcpConnection A → TcpConnection A
  unfolding deliver
  deliver_all [] c = c
  deliver_all (m ∷ ms) c = deliver_all ms (deliver m c)

  -- The branch of a server: one dispatch for each request. What the dispatcher does with the
  -- connection is a parameter here.
  unfoldable pub dispatch_all :
      (TinyPb → TcpConnection A → Outcome (TcpConnection A))
      → List TinyPb
      → TcpConnection A
      → Outcome (TcpConnection A)
  dispatch_all dispatch [] c = ok c
  dispatch_all dispatch (m ∷ ms) c = elim (dispatch m c) [
    | fault e ↦ fault e
    | ok c' ↦ dispatch_all dispatch ms c'
  ]

  -- `fuel` bounds the rounds of decode; `none` if it is still running.
  unfoldable execute :
      (TinyPb → TcpConnection A → Outcome (TcpConnection A))
      → ℕ
      → TcpConnection A
      → Option (Outcome (TcpConnection A))
  unfolding dispatch_all deliver_all
  execute dispatch fuel c = elim (decode fuel [] c.in_buffer) [
    | none ↦ none
    | some (fault e) ↦ some (fault e)
    | some (ok (ms, b)) ↦
        let c' = record c { in_buffer = b } in
        some (if is_server c then dispatch_all dispatch ms c' else ok (deliver_all ms c'))
  ]

  unfoldable pub on_read :
      (TinyPb → TcpConnection A → Outcome (TcpConnection A))
      → ℕ
      → ℕ
      → List ReadResult
      → TcpConnection A
      → Option (Outcome (TcpConnection A))
  unfolding read_loop execute clear
  on_read dispatch fuel tid rs c = elim (is_connected c.state) [
    | false ↦ some (ok (clear tid c))
    | true ↦ elim (read_loop rs c.in_buffer) [
      | none ↦ none
      | some (fault e) ↦ some (fault e)
      | some (ok (remote_close, b)) ↦ some (ok (clear tid (record c { in_buffer = b })))
      | some (ok (read_all, b)) ↦ execute dispatch fuel (record c { in_buffer = b })
    ]
  ]

  -- The messages of m_write_done and the calls of their callbacks.
  abbrev pub messages_of : List (TinyPb × A) → List TinyPb
  messages_of [] = []
  messages_of ((m, f) ∷ rest) = m ∷ messages_of rest

  -- The pairs (callback, message) of the last loop of onWrite, with the messages as encode has
  -- left them.
  abbrev pub calls_of : List (TinyPb × A) → List TinyPb → List (A × TinyPb)
  calls_of ((m, f) ∷ rest) (m' ∷ ms) = (f, m') ∷ calls_of rest ms
  calls_of _ _ = []

  -- The end of onWrite, behind its loop.
  unfoldable pub after_write : ℕ → List TinyPb → Bool × List ℕ → TcpConnection A → TcpConnection A
  after_write tid ms (is_write_all, sent) c =
      let e = if is_write_all then cancle out_event c.fd_event else c.fd_event in
      record c {
        fd_event = e;
        event_loop = if is_write_all then add_epoll_event tid e c.event_loop else c.event_loop;
        sent = sent;
        called = if is_server c then c.called else c.called ++ calls_of c.write_done ms;
        write_done = [];
      }

  unfoldable pub encode_pending : TcpConnection A → Outcome (List TinyPb × TcpBuffer)
  unfolding encode
  encode_pending c =
      if is_server c then ok ([], c.out_buffer) else encode (messages_of c.write_done) c.out_buffer

  unfoldable pub on_write :
      ℕ → List WriteResult → TcpConnection A → Option (Outcome (TcpConnection A))
  unfolding encode_pending write_loop after_write clear
  on_write tid rs c = elim (is_connected c.state) [
    | false ↦ some (ok (clear tid c))
    | true ↦ elim (encode_pending c) [
      | fault e ↦ some (fault e)
      | ok (ms, b) ↦ elim (write_loop rs b c.sent) [
        | none ↦ none
        | some r ↦ some (ok (after_write tid ms r (record c { out_buffer = b })))
      ]
    ]
  ]
