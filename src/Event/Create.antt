-- ===== src/Event/Create.antt =====
-- rocket/rocket/net/eventLoop.cpp: the constructor of EventLoop, with initWakeupFdEvent and
-- initTimer, and getCurrentEventLoop; and the constructor of Timer in timer.cpp.
use rpc4grad.Prelude.{
  ℕ, ◌≡◌, ◌≢◌, refl, arith, Bool, true, false, Option, none, some, [], ◌∷◌, ◌==◌, ==_self,
  if◌then◌else◌,
}
use rpc4grad.Prelude.Starts.{Start, started, exited, ◌then◌}
use rpc4grad.Event.Fd.{FdEvent, in_event, new_event, listen}
use rpc4grad.Event.Epoll.{ctl_add, contains, insert_fd, add_to_epoll}
use rpc4grad.Event.Loop.{EventLoop, register_event, add_epoll_event}

-- What epoll_create, eventfd and timerfd_create give; `none` is a negative number. The result of
-- the last is not looked at.
pub record LoopCalls : Type 0 where
  pub epoll_fd : Option ℕ
  pub wakeup_fd : Option ℕ
  pub timer_fd : ℕ

abbrev opened : Option ℕ → Start ℕ
opened none = exited 1
opened (some fd) = started fd

module _ {A : Type 0} where
  abbrev blank_loop : ℕ → EventLoop A
  blank_loop tid = record {
    thread_id = tid;
    stop_flag = false;
    is_looping = false;
    listen_fds = [];
    pending_tasks = [];
    calls = [];
    wakeups = 0;
  }

  -- A new descriptor with a handler for reading.
  unfoldable pub readable_event : ℕ → A → FdEvent A
  unfolding new_event listen
  readable_event fd f = listen in_event (some f) none (new_event fd)

  unfoldable pub init_wakeup_fd_event : ℕ → Option ℕ → A → EventLoop A → Start (EventLoop A)
  unfolding readable_event add_epoll_event
  init_wakeup_fd_event tid fd drain l =
      opened fd then λ n. started (add_epoll_event tid (readable_event n drain) l)

  unfoldable pub init_timer : ℕ → ℕ → A → EventLoop A → EventLoop A
  unfolding readable_event add_epoll_event
  init_timer tid fd on_timer l = add_epoll_event tid (readable_event fd on_timer) l

  -- EventLoop(), in the thread `tid`, which may have a loop already.
  unfoldable pub new_event_loop : Bool → ℕ → LoopCalls → A → A → Start (EventLoop A)
  unfolding init_wakeup_fd_event init_timer
  new_event_loop has_loop tid calls drain on_timer =
      if has_loop
      then exited 1
      else (opened calls.epoll_fd then λ epoll_fd.
          init_wakeup_fd_event tid calls.wakeup_fd drain (blank_loop tid) then λ l.
          started (init_timer tid calls.timer_fd on_timer l))

  -- getCurrentEventLoop: the loop of the thread, made when there is none.
  unfoldable pub get_current_event_loop :
      Option (EventLoop A) → ℕ → LoopCalls → A → A → Start (EventLoop A)
  unfolding new_event_loop
  get_current_event_loop (some l) tid calls drain on_timer = started l
  get_current_event_loop none tid calls drain on_timer =
      new_event_loop false tid calls drain on_timer

  -- A thread gets one loop: the first call makes it, if epoll_create and eventfd succeed, with the
  -- wakeup descriptor and the timer registered in epoll, in this order, by one call each, if they
  -- differ; a second call gives the same loop, and a second constructor ends the process.
  pub get_current_event_loop-once :
      (tid epoll_fd wakeup_fd timer_fd : ℕ) (drain on_timer : A)
      → timer_fd ≢ wakeup_fd
      → let calls : LoopCalls = record {
        epoll_fd = some epoll_fd;
        wakeup_fd = some wakeup_fd;
        timer_fd = timer_fd;
      } in
        (l : EventLoop A) × (get_current_event_loop none tid calls drain on_timer ≡ started l)
        × (l.listen_fds ≡ timer_fd ∷ wakeup_fd ∷ [])
        × (l.calls
            ≡ record {
              op = ctl_add;
              fd = wakeup_fd;
              events = (readable_event wakeup_fd drain).events;
            }
              ∷ record {
                op = ctl_add;
                fd = timer_fd;
                events = (readable_event timer_fd on_timer).events;
              }
              ∷ [])
        × (get_current_event_loop (some l) tid calls drain on_timer ≡ started l)
        × (new_event_loop true tid calls drain on_timer ≡ exited 1)
  unfolding get_current_event_loop new_event_loop init_wakeup_fd_event init_timer readable_event
      add_epoll_event register_event add_to_epoll insert_fd contains
  get_current_event_loop-once tid epoll_fd wakeup_fd timer_fd drain on_timer n =
      let apart : (wakeup_fd == timer_fd) ≡ false = ground (arith, n) in
      let l : EventLoop A = record (blank_loop tid) {
        listen_fds = timer_fd ∷ wakeup_fd ∷ [];
        calls =
            record {
              op = ctl_add;
              fd = wakeup_fd;
              events = (readable_event wakeup_fd drain).events;
            }
            ∷ record {
              op = ctl_add;
              fd = timer_fd;
              events = (readable_event timer_fd on_timer).events;
            }
            ∷ [];
      } in
      (l, rw (==_self tid, ==_self tid, apart), refl, refl, refl, refl)
