-- ===== src/Server/Startup.antt =====
-- rocket/rocket/net/TCP/tcp_server.cpp: init and start, with the threads of io_thread_group.cpp.
pub mod Ready
pub mod NoThreads
use rpc4grad.Prelude.{
  ℕ, zero, suc, ◌+◌, ◌<◌, ◌≡◌, refl, sym, ◌∙◌, ap, arith, Bool, true, false, Option, none, some,
  List, [], ◌∷◌, length, map, ◌⊎◌, inl, inr, ==_self, ◌==◌, if_elim, if◌then◌else◌, ltb, Bool-cases,
  Outcome, ok, fault, length_error, null_pointer, out_of_bounds, ◌>>=◌,
}
use rpc4grad.Prelude.Int.{ℤ, pos, negsuc}
use rpc4grad.Prelude.Starts.{Start, started, broken, run_part, ◌then◌}
use rpc4grad.NetAddr.{IpNetAddr, check_valid, to_string}
use rpc4grad.Config.{Config}
use rpc4grad.IoThread.{
  IoThread, constructed, posted, start_thread, Reachable, first, later, makes_loop, takes_id, posts,
  constructs, calls_start,
}
use rpc4grad.Event.Fd.{FdEvent}
use rpc4grad.Event.Epoll.{contains, insert_fd, add_to_epoll}
use rpc4grad.Event.Loop.{EventLoop, register_event, add_epoll_event}
use rpc4grad.Event.Create.{LoopCalls, readable_event, get_current_event_loop}
use rpc4grad.Timer.{
  Store, Timer, update, new_timer_event, reset_arrive_time, emplace, add_timer_event, rearm,
}
use rpc4grad.Server.{TcpServer, IoThreadGroup, new_io_thread_group, get_io_thread}
use rpc4grad.Server.Acceptor.{TcpAcceptor, SocketCalls, new_acceptor}

-- A thread when its constructor has returned, before it is started.
abbrev pub constructed_thread : ℕ → IoThread
constructed_thread tid = record {
  thread_id = some tid;
  event_loop = true;
  init_semaphore = 0;
  start_semaphore = 0;
  starts = 0;
  stop_flag = false;
  owner = constructed;
  main = posted;
}

-- The loop of IOthreadGroup(int size); `tids` gives the ids of the new threads.
unfoldable pub made_threads : (ℕ → ℕ) → ℕ → ℕ → List IoThread
made_threads tids i zero = []
made_threads tids i (suc n) = constructed_thread (tids i) ∷ made_threads tids (i + 1) n

-- resize takes a size_t, which a negative size is too large for.
unfoldable pub new_io_threads : (ℕ → ℕ) → ℤ → Outcome (List IoThread)
unfolding made_threads
new_io_threads tids (pos n) = ok (made_threads tids 0 n)
new_io_threads tids (negsuc n) = fault length_error

-- IOthreadGroup::start
unfoldable pub start_threads : List IoThread → List IoThread
unfolding start_thread
start_threads ts = map start_thread ts

-- The numbers of the threads, from `i` on.
abbrev pub numbers : ℕ → List IoThread → List ℕ
numbers i [] = []
numbers i (t ∷ ts) = i ∷ numbers (i + 1) ts

-- A server with its main loop. `timer` is the timer of that loop, and `events` what its entries
-- stand for.
pub record MainServer (A B : Type 0) : Type 0 where
  pub acceptor : TcpAcceptor
  pub main_event_loop : EventLoop A
  pub threads : List IoThread
  pub listen_fd_event : FdEvent A
  pub timer : Timer
  pub events : Store
  pub server : TcpServer B

-- What init meets: the socket calls, those for a new loop, the ids of the new threads, the time, and
-- the number of the new timer event.
pub record InitCalls : Type 0 where
  pub sockets : SocketCalls
  pub for_loop : LoopCalls
  pub tids : ℕ → ℕ
  pub now : ℕ
  pub armed_at : ℕ
  pub clear_event : ℕ

-- The handlers that init hands out: onAccept, clearClientTimer, and those of a new loop.
pub record Handlers (A : Type 0) : Type 0 where
  pub accept : A
  pub clear : ℕ
  pub drain : A
  pub on_timer : A

module _ {A B : Type 0} where
  -- init, in the thread `tid`; `current` is the loop that the thread has.
  unfoldable pub init_server :
      (List ℕ → Bool)
      → InitCalls
      → Handlers A
      → Option Config
      → ℕ
      → Option (EventLoop A)
      → Timer
      → Store
      → IpNetAddr
      → Start (MainServer A B)
  unfolding new_acceptor get_current_event_loop new_io_threads readable_event add_epoll_event
      new_timer_event add_timer_event new_io_thread_group
  init_server inet calls h config tid current timer events a =
      new_acceptor inet calls.sockets a then λ acceptor.
      get_current_event_loop current tid calls.for_loop h.drain h.on_timer then λ l. elim config [
        | none ↦ broken null_pointer
        | some c ↦ run_part (new_io_threads calls.tids c.io_threads) then λ ts.
            let e = readable_event acceptor.listenfd h.accept in
            let events' =
              update events calls.clear_event
                (new_timer_event calls.now 5000 true (some h.clear)) in
            started (record {
              acceptor = acceptor;
              main_event_loop = add_epoll_event tid e l;
              threads = ts;
              listen_fd_event = e;
              timer = add_timer_event calls.armed_at calls.clear_event events' timer;
              events = events';
              server = record {
                io_threads = new_io_thread_group (numbers 0 ts);
                client_counts = 0;
                client = [];
              };
            })
      ]

  -- start, up to the main loop.
  unfoldable pub start_server : MainServer A B → MainServer A B
  unfolding start_threads
  start_server s = record s { threads = start_threads s.threads }
