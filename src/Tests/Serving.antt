-- ===== src/Tests/Serving.antt =====
-- The server, the client, addresses and the guard of a mutex at concrete values.
use rpc4grad.Prelude.{ℕ, ◌≡◌, refl, arith, false, none, some, [], ◌∷◌, ◌++◌, ok, fault, not_locked}
use rpc4grad.Buffer.{TcpBuffer, new_buffer, write_able, read_able, contents}
use rpc4grad.Buffer.Contents.{new_buffer-IsValid}
use rpc4grad.Coder.Encode.{frame, with_msg_id, stamped}
use rpc4grad.Prelude.Int.{negsuc}
use rpc4grad.Connection.{TcpConnection, by_client, wrote, on_write}
use rpc4grad.NetAddr.{IpNetAddr, new_addr, to_string, decimal}
use rpc4grad.NetAddr.Texts.{new_addr-to_string}
use rpc4grad.Prelude.{◌<◌, if◌then◌else◌, length, Outcome}
use rpc4grad.Coder.Round.{IsOpen}
use rpc4grad.Coder.Stream.{frames, arrived}
use rpc4grad.Connection.{received, on_read, is_server, dispatch_all, deliver_all}
use rpc4grad.Connection.Arrival.{on_read-frames}
use rpc4grad.Tests.Samples.{request-IsSendable}
use rpc4grad.Coder.Protocol.{TinyPb}
use rpc4grad.Prelude.Bytes.{net_bytes}
use rpc4grad.Prelude.Slices.{slice}
use rpc4grad.Lock.{ScopeMutex, new_scope, unlock, destroy, destroy-unlock}
use rpc4grad.Server.{TcpServer}
use rpc4grad.Client.{TcpClient, ConnectTexts, write_message}
use rpc4grad.Client.Connects.{IsIdle, write_message-sent}
use rpc4grad.Tests.Samples.{request}
use rpc4grad.Tests.Coding.{after_request, encoded}
use rpc4grad.Prelude.{drop}
use rpc4grad.Connection.Pieces.{IsSplit, on_read-pieces}
use rpc4grad.Tests.Scanning.{front, front-split, front-short, front-NoStart}
use rpc4grad.Tests.Connections.{server, closed_server}

-- While thread 1 has let the mutex go, thread 2 has taken it.
destroy-unlock_example :
    (s : ScopeMutex) × (s' : ScopeMutex) × (new_scope 1 none ≡ some s)
    × (unlock 1 s ≡ ok s')
    × (s'.mutex ≡ none)
    × (destroy 1 (record s' { mutex = some 2 }) ≡ fault not_locked)
destroy-unlock_example = destroy-unlock 1 (some 2) (λ e. ground (arith, e))

abbrev pub two_threads : TcpServer ℕ
two_threads = record {
  io_threads = record { threads = 7 ∷ 8 ∷ []; index = negsuc 0 };
  client_counts = 0;
  client = [];
}

abbrev some_closed : TcpServer ℕ
some_closed = record two_threads { client = closed_server ∷ server ∷ [] }

abbrev pub client : TcpClient ℕ
client = record {
  connection = record server { connection_type = by_client };
  connect_error_code = 0;
  connect_error_msg = [];
  local_addr = false;
  runs = 0;
}

abbrev connect_texts : ConnectTexts
connect_texts = record { refused = []; unknown = λ e. []; error = λ e. [] }

client-IsIdle : IsIdle client.connection
client-IsIdle = record {
  connected_state = refl;
  client = refl;
  valid_out = new_buffer-IsValid 128;
  nothing_waits = refl;
}

write_message-sent_example :
    (d : TcpConnection ℕ) × (on_write 1
        (wrote (read_able after_request) ∷ [])
        (write_message 1 request 9 client).connection
      ≡ some (ok d))
    × (d.sent ≡ contents client.connection.out_buffer ++ frame (with_msg_id request))
    × (d.called ≡ (9, stamped (with_msg_id request)) ∷ [])
    × (d.write_done ≡ [])
write_message-sent_example =
    write_message-sent 1 request (stamped (with_msg_id request)) 9 client after_request
      client-IsIdle encoded

abbrev pub local_host : IpNetAddr
local_host = record { ip = b'1' ∷ b'.' ∷ b'1' ∷ []; port = 8080 }

to_string_test : to_string local_host ≡ b'1' ∷ b'.' ∷ b'1' ∷ b':' ∷ b'8' ∷ b'0' ∷ b'8' ∷ b'0' ∷ []
unfolding to_string decimal
to_string_test = refl

new_addr-to_string_example : new_addr (to_string local_host) ≡ ok local_host
new_addr-to_string_example =
    new_addr-to_string local_host (omega arith, (omega arith, (omega arith, tt))) (omega arith)

-- The server with an empty in buffer.
abbrev pub waiting : TcpConnection ℕ
waiting = record server { in_buffer = new_buffer 128 }

pub waiting-IsOpen : IsOpen waiting.in_buffer
unfolding new_buffer
waiting-IsOpen = record {
  valid = new_buffer-IsValid 128;
  open_end = omega arith;
  small = omega arith;
}

pub waiting-empty : contents waiting.in_buffer ≡ []
unfolding new_buffer contents slice
waiting-empty = refl

pub waiting-room : length (frames (request ∷ [])) < write_able waiting.in_buffer
unfolding new_buffer frame net_bytes
waiting-room = omega arith

abbrev pub ignore : TinyPb → TcpConnection ℕ → Outcome (TcpConnection ℕ)
ignore m c = ok c

on_read-frames_example :
    (b : TcpBuffer) × (on_read ignore 2 1 (received (frames (request ∷ [])) ∷ []) waiting
      ≡ some (
          if is_server waiting
          then dispatch_all ignore (arrived request ∷ []) (record waiting { in_buffer = b })
          else ok (deliver_all (arrived request ∷ []) (record waiting { in_buffer = b }))))
    × (contents b ≡ [])
    × IsOpen b
on_read-frames_example =
    on_read-frames ignore 1 request [] waiting refl waiting-IsOpen waiting-empty
      (request-IsSendable, refl, tt) waiting-room

request-IsSplit : IsSplit request front (drop 7 (frame request))
request-IsSplit = record {
  whole = front-split;
  more = front-short;
  has_length = omega arith;
  no_start = front-NoStart;
}

waiting-wide : length (frame request) < write_able waiting.in_buffer
unfolding new_buffer frame net_bytes
waiting-wide = omega arith

on_read-pieces_example :
    (b : TcpBuffer) × (d : TcpBuffer) × (on_read ignore 1 1 (received front ∷ []) waiting
      ≡ some (ok (record waiting { in_buffer = b })))
    × (contents b ≡ front)
    × (on_read ignore 2 1
          (received (drop 7 (frame request)) ∷ [])
          (record waiting { in_buffer = b })
        ≡ some (
            if is_server waiting
            then dispatch_all ignore (arrived request ∷ []) (record waiting { in_buffer = d })
            else ok (deliver_all (arrived request ∷ []) (record waiting { in_buffer = d }))))
    × (contents d ≡ [])
    × IsOpen d
on_read-pieces_example =
    on_read-pieces ignore 1 request front (drop 7 (frame request)) waiting refl waiting-IsOpen
      waiting-empty request-IsSendable refl request-IsSplit waiting-wide
