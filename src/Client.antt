-- ===== src/Client.antt =====
-- rocket/rocket/net/TCP/tcp_client.{h,cpp}. What ::connect gives is an argument. The client's loop
-- and event are those of its connection; `done` is the callback of connect, and a run of it is
-- counted.
pub mod Connects
use rpc4grad.Prelude.{
  ℕ, ◌+◌, Bool, true, false, List, [], ◌∷◌, ◌++◌, Option, none, some, if◌then◌else◌,
}
use rpc4grad.Coder.Protocol.{TinyPb}
use rpc4grad.Event.Fd.{FdEvent, out_event, listen}
use rpc4grad.Event.Loop.{EventLoop, add_epoll_event, delete_epoll_event, stop}
use rpc4grad.Rpc.ErrorCode.{error_peer_closed, error_failed_connect}
use rpc4grad.Connection.{
  TcpConnection, Handler, run_connect, connected, by_client, new_connection, set_connection_type,
  set_state, push_send_message, push_read_message, listen_write, listen_read,
}

-- ::connect: 0, or -1 with EINPROGRESS, EISCONN or another error.
pub data ConnectResult : Type 0 where
  at_once in_progress is_connected_already : ConnectResult
  failed : ℕ → ConnectResult

-- `local_addr` tells whether m_local_addr is set, `runs` how often the callback has run.
pub record TcpClient (A : Type 0) : Type 0 where
  pub connection : TcpConnection A
  pub connect_error_code : ℕ
  pub connect_error_msg : List ℕ
  pub local_addr : Bool
  pub runs : ℕ

-- strerror behind the two texts.
pub record ConnectTexts : Type 0 where
  pub refused : List ℕ
  pub unknown : ℕ → List ℕ
  pub error : ℕ → List ℕ

module _ {A : Type 0} where
  -- TcpClient(remote_addr), where socket(2) gives a descriptor.
  unfoldable new_client : ℕ → EventLoop Handler → FdEvent Handler → TcpClient A
  unfolding new_connection set_connection_type
  new_client tid event_loop e = record {
    connection = set_connection_type by_client (new_connection tid event_loop e 128 by_client);
    connect_error_code = 0;
    connect_error_msg = [];
    local_addr = false;
    runs = 0;
  }

  -- A connection that is there: the state, and the local address, if getsockname gives one.
  unfoldable pub succeed : Bool → TcpClient A → TcpClient A
  unfolding set_state
  succeed named c = record c {
    connection = set_state connected c.connection;
    local_addr = if named then true else c.local_addr;
  }

  unfoldable pub fail : ℕ → List ℕ → TcpClient A → TcpClient A
  fail code msg c = record c { connect_error_code = code; connect_error_msg = msg }

  -- if (done) { done(); }
  unfoldable pub run_done : Bool → TcpClient A → TcpClient A
  run_done done c = if done then record c { runs = c.runs + 1 } else c

  -- The branch of EINPROGRESS, up to the loop.
  unfoldable pub wait_for_connect : ℕ → TcpClient A → TcpClient A
  unfolding listen
  wait_for_connect tid c =
      let e = listen out_event (some run_connect) none c.connection.fd_event in
      record c {
        connection = record (c.connection) {
          fd_event = e;
          event_loop = add_epoll_event tid e c.connection.event_loop;
        };
      }

  -- connect. EISCONN is an error here.
  unfoldable pub connect :
      ConnectTexts → ℕ → Bool → Bool → ConnectResult → TcpClient A → TcpClient A
  unfolding succeed fail run_done wait_for_connect
  connect texts tid done named at_once c = run_done done (succeed named c)
  connect texts tid done named in_progress c = wait_for_connect tid c
  connect texts tid done named is_connected_already c =
      run_done done (fail error_failed_connect (texts.error 106) c)
  connect texts tid done named (failed errno) c =
      run_done done (fail error_failed_connect (texts.error errno) c)

  -- What the handler makes of its own ::connect.
  unfoldable pub finish_connect : ConnectTexts → Bool → ConnectResult → TcpClient A → TcpClient A
  unfolding succeed fail
  finish_connect texts named at_once c = succeed named c
  finish_connect texts named is_connected_already c = succeed named c
  finish_connect texts named in_progress c = fail error_peer_closed texts.refused c
  finish_connect texts named (failed errno) c = fail error_failed_connect (texts.unknown errno) c

  -- The handler that connect waits with. The new descriptor after a failure is not used by the
  -- event or by the connection.
  unfoldable pub on_connect :
      ConnectTexts → ℕ → Bool → Bool → ConnectResult → TcpClient A → TcpClient A
  unfolding finish_connect run_done
  on_connect texts tid done named r c =
      let c' = finish_connect texts named r c in
      run_done done (record c' {
        connection = record (c'.connection) {
          event_loop = delete_epoll_event tid c'.connection.fd_event c'.connection.event_loop;
        };
      })

  unfoldable pub write_message : ℕ → TinyPb → A → TcpClient A → TcpClient A
  unfolding push_send_message listen_write
  write_message tid message done c = record c {
    connection = listen_write tid (push_send_message message done c.connection);
  }

  unfoldable read_message : ℕ → List ℕ → A → TcpClient A → TcpClient A
  unfolding push_read_message listen_read
  read_message tid msg_id done c = record c {
    connection = listen_read tid (push_read_message msg_id done c.connection);
  }

  unfoldable stop_client : TcpClient A → TcpClient A
  unfolding stop
  stop_client c =
      if c.connection.event_loop.is_looping
      then record c {
        connection = record (c.connection) { event_loop = stop c.connection.event_loop };
      }
      else c
