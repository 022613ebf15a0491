-- ===== src/Tests/Connections.antt =====
-- tcp_connection.cpp at concrete connections.
use rpc4grad.Prelude.{ℕ, ◌≡◌, refl, true, false, none, some, List, [], ◌∷◌, ◌++◌, ok}
use rpc4grad.Prelude.Slices.{slice, blit}
use rpc4grad.Prelude.Bytes.{net_bytes}
use rpc4grad.Buffer.{
  TcpBuffer, new_buffer, contents, move_write_index, set_write_index, offset, adjust_buffer,
  write_to_buffer, make_room, put_bytes,
}
use rpc4grad.Buffer.Contents.{new_buffer-IsValid}
use rpc4grad.Coder.Encode.{encode, encode_tiny_pb, frame, with_msg_id, stamped}
use rpc4grad.Event.Fd.{listen, listen_type, listen_error, cancle}
use rpc4grad.Event.Epoll.{contains, add_to_epoll, insert_fd}
use rpc4grad.Event.Loop.{EventLoop, add_epoll_event, register_event}
use rpc4grad.Connection.{
  TcpConnection, connected, closed, by_server, Handler, received, read_again, read_all,
  push_send_message, read_loop, receive, ensure_room, write_loop, reply, listen_write, on_write,
  after_write, encode_pending, clear, shutdown,
}
use rpc4grad.Connection.Read.{Reads, read_loop-Reads}
use rpc4grad.Connection.Send.{IsServing, resent, serve, serve-resends}
use rpc4grad.Connection.Close.{here, next, shuts, clears, sends, SameIo, Steps-closed}
use rpc4grad.Tests.Samples.{small_buffer, small_buffer-IsOpen, request}

-- As many bytes as there is room for.
abbrev five_bytes : List ℕ
five_bytes = 1 ∷ 2 ∷ 3 ∷ 4 ∷ 5 ∷ []

-- What is left of the five bytes.
abbrev after_read : TcpBuffer
after_read = receive five_bytes small_buffer

read_once :
    read_loop (received five_bytes ∷ read_again ∷ []) small_buffer
    ≡ some (ok (read_all, after_read))
unfolding read_loop ensure_room receive move_write_index set_write_index offset adjust_buffer blit
    slice
read_once = refl

read_loop-Reads_example : Reads small_buffer after_read
read_loop-Reads_example =
    read_loop-Reads (received five_bytes ∷ read_again ∷ []) small_buffer small_buffer-IsOpen
      read_once

abbrev pub idle_loop : EventLoop Handler
idle_loop = record {
  thread_id = 1;
  stop_flag = false;
  is_looping = true;
  listen_fds = 4 ∷ [];
  pending_tasks = [];
  calls = [];
  wakeups = 0;
}

abbrev pub server : TcpConnection ℕ
server = record {
  state = connected;
  connection_type = by_server;
  in_buffer = small_buffer;
  out_buffer = new_buffer 128;
  fd_event = record {
    fd = 4;
    events = record { epollin = true; epollout = false; epollerr = false };
    read_callback = none;
    write_callback = none;
    error_callback = none;
  };
  event_loop = idle_loop;
  write_done = [];
  read_done = [];
  sent = [];
  called = [];
  shut = false;
}

pub server-IsServing : IsServing server
server-IsServing = record {
  connected_state = refl;
  server = refl;
  valid_out = new_buffer-IsValid 128;
}

-- The server when it has answered one message.
abbrev pub answered : TcpConnection ℕ
answered = elim (serve 1 (request ∷ []) server) [ some (ok c) ↦ c | _ ↦ server ]

served : serve 1 (request ∷ []) server ≡ some (ok answered)
unfolding serve reply encode encode_tiny_pb with_msg_id stamped frame net_bytes write_to_buffer
    make_room put_bytes new_buffer blit slice listen_write listen listen_type listen_error
    add_epoll_event register_event add_to_epoll insert_fd contains on_write encode_pending
    write_loop after_write cancle contents
served = refl

serve-resends_example :
    answered.sent ≡ server.sent ++ resent (contents server.out_buffer) (request ∷ [])
serve-resends_example = serve-resends 1 (request ∷ []) server answered server-IsServing served

-- A closed connection that the user goes on to use.
abbrev pub closed_server : TcpConnection ℕ
closed_server = record server { state = closed }

Steps-closed_example :
    SameIo closed_server (clear 1 (push_send_message request 5 (shutdown closed_server)))
Steps-closed_example =
    Steps-closed (next (next (next here shuts) (sends request 5)) (clears 1)) refl
