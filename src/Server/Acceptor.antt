-- ===== src/Server/Acceptor.antt =====
-- rocket/rocket/net/TCP/tcp_acceptor.{h,cpp}, and onAccept of tcp_server.cpp from accept(2) on. What
-- the system calls give is an argument.
use rpc4grad.Prelude.{
  ℕ, ◌<◌, ◌≡◌, refl, Bool, true, false, Option, none, some, List, [], ◌∷◌, ◌++◌, length,
  if◌then◌else◌, Outcome, ok, fault, out_of_bounds, ◌>>=◌,
}
use rpc4grad.Prelude.Int.{ℤ, pos, negsuc}
use rpc4grad.Prelude.Starts.{Start, started, exited, run_part, ◌then◌}
use rpc4grad.NetAddr.{IpNetAddr, check_valid, to_string}
use rpc4grad.Event.Fd.{FdEvent}
use rpc4grad.Event.FdGroup.{get_fd_event, Numbered, get_fd_event-found}
use rpc4grad.Event.Loop.{EventLoop}
use rpc4grad.Connection.{Handler}
use rpc4grad.Server.{TcpServer, on_accept}
use rpc4grad.Server.Clients.{AtFirst, client_of, on_accept-first}

-- The family is that of IPv4, which is the only one that getFamily gives.
pub record TcpAcceptor : Type 0 where
  pub local_addr : IpNetAddr
  pub listenfd : ℕ

-- What socket, bind and listen give for the address. A failure of setsockopt is only logged.
pub record SocketCalls : Type 0 where
  pub socket : Option ℕ
  pub bound : Bool
  pub listening : Bool

abbrev must : Bool → Start (Unit {0})
must true = started tt
must false = exited 1

abbrev made_socket : Option ℕ → Start ℕ
made_socket none = exited 1
made_socket (some fd) = started fd

-- TcpAcceptor(local_addr)
unfoldable pub new_acceptor : (List ℕ → Bool) → SocketCalls → IpNetAddr → Start TcpAcceptor
unfolding check_valid to_string
new_acceptor inet calls a = run_part (check_valid inet (to_string a)) then λ valid.
    must valid then λ passed. made_socket calls.socket then λ fd. must calls.bound then λ bound.
    must calls.listening then λ listening. started (record { local_addr = a; listenfd = fd })

-- accept(2): the descriptor, negative for an error, and the address that it has filled in.
pub record Accepted : Type 0 where
  pub fd : ℤ
  pub peer : IpNetAddr

-- TcpAcceptor::accept. An error is only logged: the descriptor is passed on, with the address that
-- an empty structure stands for.
unfoldable pub accept_client : Accepted → ℤ × IpNetAddr
accept_client r = elim r.fd [
  | pos fd ↦ (pos fd, r.peer)
  | negsuc n ↦
      (negsuc n, record { ip = b'0' ∷ b'.' ∷ b'0' ∷ b'.' ∷ b'0' ∷ b'.' ∷ b'0' ∷ []; port = 0 })
]

-- getFdEvent of an int: a negative index is no index of the vector, and adds no entry.
unfoldable pub event_at :
    ℤ → List (FdEvent Handler) → Option (FdEvent Handler) × List (FdEvent Handler)
unfolding get_fd_event
event_at (pos n) group = get_fd_event Handler n group
event_at (negsuc n) group = (none, group)

module _ {A : Type 0} where
  -- onAccept in the thread `tid`, with the table of events.
  unfoldable pub on_accept_fd :
      ℕ
      → (ℕ → EventLoop Handler)
      → Accepted
      → List (FdEvent Handler) × TcpServer A
      → Outcome (List (FdEvent Handler) × TcpServer A)
  unfolding accept_client event_at on_accept
  on_accept_fd tid loops r (group, s) =
      let (fd, peer) = accept_client r in
      let (event, group') = event_at fd group in
      elim event [
        | none ↦ fault out_of_bounds
        | some e ↦ on_accept tid loops e s >>= λ s'. ok (group', s')
      ]

  -- While the index of the IO thread group is -1, as it is made, or 0, a client that accept(2) gives
  -- gets a connection in the first IO thread, behind the clients that the server has, with the event
  -- of its own descriptor, if the table of events holds two or more, each at its place. The table
  -- stays such a one, and the threads and the index such ones: so the next client, and each after
  -- it, goes to the first thread again.
  pub on_accept_fd-client :
      (tid t n : ℕ) (ts : List ℕ) (loops : ℕ → EventLoop Handler) (peer : IpNetAddr)
      (group : List (FdEvent Handler)) (s : TcpServer A)
      → Numbered Handler 0 group
      → 1 < length group
      → AtFirst t ts s.io_threads
      → (e : FdEvent Handler) × (group' : List (FdEvent Handler)) × (s' : TcpServer A)
        × (on_accept_fd tid loops (record { fd = pos n; peer = peer }) (group, s) ≡ ok (group', s'))
        × (e.fd ≡ n)
        × (s'.client ≡ s.client ++ (client_of tid (loops t) e ∷ []))
        × Numbered Handler 0 group'
        × AtFirst t ts s'.io_threads
  unfolding on_accept_fd accept_client event_at
  on_accept_fd-client tid t n ts loops peer group s num two first =
      let (e, new, found, own, grown, kept) = get_fd_event-found Handler n group num two in
      let (s', h, c, m, f) = on_accept-first tid t ts loops e s first in
      (e, (get_fd_event Handler n group).1, s', rw (on_accept_fd, found, h), own, c, kept, f)

  -- An error of accept(2) is not caught: onAccept asks for the event of a negative descriptor,
  -- which is an access outside the table, whatever clients there are.
  pub on_accept_fd-error :
      (tid n : ℕ) (loops : ℕ → EventLoop Handler) (peer : IpNetAddr)
      (group : List (FdEvent Handler)) (s : TcpServer A)
      → on_accept_fd tid loops (record { fd = negsuc n; peer = peer }) (group, s)
        ≡ fault out_of_bounds
  unfolding on_accept_fd accept_client event_at
  on_accept_fd-error tid n loops peer group s = refl
