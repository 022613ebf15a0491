-- ===== src/Server/Startup/Ready.antt =====
-- TcpServer: what a server has when init and start are done.
use rpc4grad.Prelude.{ℕ, ◌+◌, ◌≡◌, true, List, [], ◌∷◌, length, ◌⊎◌}
use rpc4grad.Config.{Config}
use rpc4grad.IoThread.{IoThread, constructed, Reachable}
use rpc4grad.Event.Epoll.{contains, insert_fd}
use rpc4grad.Event.Loop.{EventLoop}
use rpc4grad.Timer.{Timer}
use rpc4grad.Timer.Order.{IsSorted}
use rpc4grad.Server.Startup.{MainServer, InitCalls}

-- Each of the threads is one that the two threads' steps lead to, has been constructed, and has been
-- started `k` times.
abbrev pub AllConstructed : ℕ → List IoThread → Type 0
AllConstructed k [] = Unit {0}
AllConstructed k (t ∷ ts) =
    (Reachable t × (t.owner ≡ constructed) × (t.starts ≡ k)) × AllConstructed k ts

-- An entry of the timer's queue.
abbrev pub Waits : ℕ → ℕ → List (ℕ × ℕ) → Type 0
Waits key p [] = ⊥
Waits key p ((k, q) ∷ rest) = ((k ≡ key) × (q ≡ p)) ⊎ Waits key p rest

-- What init has set up: the main loop watches the descriptor `fd` and keeps those it had watched,
-- there are `n` threads, and the timer will call clearClientTimer five seconds after `now`.
pub record IsSetUp {A B : Type 0} (fd n : ℕ) (calls : InitCalls) (l : EventLoop A)
    (s : MainServer A B) : Type 0 where
  pub listens : contains fd s.main_event_loop.listen_fds ≡ true
  pub kept : s.main_event_loop.listen_fds ≡ insert_fd fd l.listen_fds
  pub count : length s.threads ≡ n
  pub waits : Waits (calls.now + 5000) calls.clear_event s.timer.pending_events
  pub sorted : IsSorted s.timer
