-- ===== src/Server.antt =====
-- rocket/rocket/net/TCP/tcp_server.{h,cpp} and rocket/rocket/net/io_thread_group.{h,cpp}. What
-- accept(2) gives is an argument, with the loop and the event that belong to it.
pub mod Clients
pub mod Acceptor
pub mod Startup
use rpc4grad.Prelude.{
  ℕ, zero, suc, ◌+◌, Bool, true, false, ◌||◌, List, [], ◌∷◌, ◌++◌, length, get_elem?, Option, none,
  some, ◌==◌, if◌then◌else◌, Outcome, ok, fault, out_of_bounds, ◌>>=◌,
}
use rpc4grad.Prelude.Int.{ℤ, pos, negsuc}
use rpc4grad.Event.Fd.{FdEvent}
use rpc4grad.Event.Loop.{EventLoop}
use rpc4grad.Connection.{
  TcpConnection, Handler, connected, by_server, new_connection, set_state, is_closed,
}

-- The threads by number; m_size is the size of the vector.
pub record IoThreadGroup : Type 0 where
  pub threads : List ℕ
  pub index : ℤ

-- IOthreadGroup(int size), the new threads being those given.
unfoldable pub new_io_thread_group : List ℕ → IoThreadGroup
new_io_thread_group threads = record { threads = threads; index = negsuc 0 }

-- The test of getIOthread.
abbrev is_past : IoThreadGroup → Bool
is_past g = elim g.index [ pos n ↦ n == length g.threads | negsuc n ↦ n == 0 ]

abbrev thread_at : IoThreadGroup → Outcome ℕ
thread_at g = elim g.index [
  | pos n ↦ elim (get_elem? g.threads n) [ none ↦ fault out_of_bounds | some t ↦ ok t ]
  | negsuc n ↦ fault out_of_bounds
]

-- getIOthread
unfoldable pub get_io_thread : IoThreadGroup → Outcome (ℕ × IoThreadGroup)
get_io_thread g =
    let g' = if is_past g then record g { index = pos 0 } else g in thread_at g' >>= λ t. ok (t, g')

pub record TcpServer (A : Type 0) : Type 0 where
  pub io_threads : IoThreadGroup
  pub client_counts : ℕ
  pub client : List (TcpConnection A)

module _ {A : Type 0} where
  -- onAccept, in the thread `tid` of the main loop: `loops` are the loops of the IO threads, and
  -- the event is that of the client's descriptor.
  unfoldable pub on_accept :
      ℕ → (ℕ → EventLoop Handler) → FdEvent Handler → TcpServer A → Outcome (TcpServer A)
  unfolding get_io_thread new_connection set_state
  on_accept tid loops e s = elim (get_io_thread s.io_threads) [
    | fault f ↦ fault f
    | ok (t, g) ↦ ok (record {
      io_threads = g;
      client_counts = s.client_counts + 1;
      client =
          s.client ++ (set_state connected (new_connection tid (loops t) e 128 by_server) ∷ []);
    })
  ]

  -- The loop of clearClientTimer. The pointers in the set are never null.
  unfoldable pub erase_closed : List (TcpConnection A) → List (TcpConnection A)
  erase_closed [] = []
  erase_closed (c ∷ cs) = let rest = erase_closed cs in if is_closed c.state then rest else c ∷ rest

  unfoldable pub clear_client_timer : TcpServer A → TcpServer A
  unfolding erase_closed
  clear_client_timer s = record s { client = erase_closed s.client }

  -- One client after the other.
  unfoldable pub accept_all :
      ℕ → (ℕ → EventLoop Handler) → List (FdEvent Handler) → TcpServer A → Outcome (TcpServer A)
  unfolding on_accept
  accept_all tid loops [] s = ok s
  accept_all tid loops (e ∷ es) s = on_accept tid loops e s >>= λ s'. accept_all tid loops es s'
