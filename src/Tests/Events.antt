-- ===== src/Tests/Events.antt =====
-- fd_event.cpp, fd_event_group.cpp and eventLoop.cpp at concrete events.
use rpc4grad.Prelude.{ℕ, ◌≡◌, refl, sym, true, false, none, some, List, [], ◌∷◌, ◌++◌, append-nil}
use rpc4grad.Event.Fd.{FdEvent}
use rpc4grad.Event.Epoll.{contains, insert_fd, add_to_epoll}
use rpc4grad.Event.EpollTrace.{
  Interest, nothing, put, exec, Op, add, delete, close_fd, run_ops, run_ops-close_first,
}
use rpc4grad.Event.Loop.{EventLoop, Task, callback, Ready, round}

abbrev event : FdEvent ℕ
event = record {
  fd = 3;
  events = record { epollin = true; epollout = false; epollerr = false };
  read_callback = some 7;
  write_callback = none;
  error_callback = none;
}

-- The event is deleted twice, and its descriptor closed after that.
abbrev registrations : List (Op ℕ)
registrations = add event ∷ add event ∷ delete event ∷ delete event ∷ close_fd 3 ∷ []

abbrev watched : Interest
watched = put 3 (some event.events) nothing

added : run_ops (add event ∷ []) [] nothing ≡ some (3 ∷ [], watched)
unfolding run_ops add_to_epoll insert_fd contains exec
added = refl

added_in : contains 3 (3 ∷ []) ≡ true
unfolding contains
added_in = refl

run_ops-close_first_test :
    (run_ops (add event ∷ close_fd 3 ∷ delete event ∷ []) [] nothing ≡ none)
    × (run_ops (add event ∷ close_fd 3 ∷ add event ∷ []) [] nothing ≡ none)
run_ops-close_first_test =
    run_ops-close_first (add event ∷ []) event (3 ∷ []) watched added added_in

-- A loop with two tasks, whose callbacks add no task.
abbrev two_tasks : EventLoop ℕ
two_tasks = record {
  thread_id = 1;
  stop_flag = false;
  is_looping = true;
  listen_fds = 3 ∷ [];
  pending_tasks = callback (some 4) ∷ callback none ∷ [];
  calls = [];
  wakeups = 0;
}

abbrev quiet : ℕ → EventLoop ℕ → EventLoop ℕ
quiet f l = l

abbrev adds_none : ℕ → EventLoop ℕ → List (Task ℕ)
adds_none f l = []

quiet-kept :
    (f : ℕ) (l : EventLoop ℕ) → (quiet f l).pending_tasks ≡ l.pending_tasks ++ adds_none f l
quiet-kept f l = sym (append-nil l.pending_tasks)

abbrev ready : List (Ready ℕ)
ready = record { event = some event; bits = event.events } ∷ []

round_test : (round quiet (some ready) two_tasks).pending_tasks ≡ callback (some 7) ∷ []
unfolding round
round_test = refl
