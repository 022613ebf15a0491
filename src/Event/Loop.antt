-- ===== src/Event/Loop.antt =====
-- rocket/rocket/net/eventLoop.cpp: the task queue and the rounds of loop(). A callback is a value of
-- any type; what running one does is a parameter.
pub mod Rounds
use rpc4grad.Prelude.{
  ℕ, zero, suc, ◌+◌, Bool, true, false, Option, none, some, List, [], ◌∷◌, ◌++◌, ◌==◌,
  if◌then◌else◌,
}
use rpc4grad.Event.Fd.{FdEvent, TriggerEvent, in_event, out_event, error_event, Events, handler}
use rpc4grad.Event.Epoll.{EpollCall, add_to_epoll, delete_from_epoll}

-- What addTask is given: the bodies that addEpollEvent and deleteEpollEvent make for another
-- thread, or a std::function of a caller's, which may be null.
pub data Task (A : Type 0) : Type 0 where
  register unregister : FdEvent A → Task A
  callback : Option A → Task A

-- `calls` are the epoll_ctl calls made so far, `wakeups` the writes to the wakeup descriptor.
pub record EventLoop (A : Type 0) : Type 0 where
  pub thread_id : ℕ
  pub stop_flag : Bool
  pub is_looping : Bool
  pub listen_fds : List ℕ
  pub pending_tasks : List (Task A)
  pub calls : List EpollCall
  pub wakeups : ℕ

-- What epoll_wait reports: the event that the pointer of the registration names, if it is not
-- null, and the bits that are ready.
pub record Ready (A : Type 0) : Type 0 where
  pub event : Option (FdEvent A)
  pub bits : Events

abbrev opt_call : Option EpollCall → List EpollCall
opt_call none = []
opt_call (some c) = c ∷ []

module _ {A : Type 0} where
  unfoldable wakeup : EventLoop A → EventLoop A
  wakeup l = record l { wakeups = l.wakeups + 1 }

  unfoldable pub stop : EventLoop A → EventLoop A
  unfolding wakeup
  stop l = wakeup (record l { stop_flag = true })

  unfoldable add_task : Task A → Bool → EventLoop A → EventLoop A
  unfolding wakeup
  add_task cb is_wake_up l =
      let l' = record l { pending_tasks = l.pending_tasks ++ (cb ∷ []) } in
      if is_wake_up then wakeup l' else l'

  unfoldable pub register_event : FdEvent A → EventLoop A → EventLoop A
  unfolding add_to_epoll
  register_event e l =
      let (c, fds) = add_to_epoll e l.listen_fds in
      record l { listen_fds = fds; calls = l.calls ++ (c ∷ []) }

  unfoldable pub unregister_event : FdEvent A → EventLoop A → EventLoop A
  unfolding delete_from_epoll
  unregister_event e l =
      let (c, fds) = delete_from_epoll e l.listen_fds in
      record l { listen_fds = fds; calls = l.calls ++ opt_call c }

  -- `tid` is the thread that makes the call.
  unfoldable pub add_epoll_event : ℕ → FdEvent A → EventLoop A → EventLoop A
  unfolding register_event add_task
  add_epoll_event tid e l =
      if tid == l.thread_id then register_event e l else add_task (register e) true l

  unfoldable pub delete_epoll_event : ℕ → FdEvent A → EventLoop A → EventLoop A
  unfolding unregister_event add_task
  delete_epoll_event tid e l =
      if tid == l.thread_id then unregister_event e l else add_task (unregister e) true l

  -- The body of the loop over the results of epoll_wait, which runs in the loop's own thread.
  unfoldable pub on_in : FdEvent A → Bool → EventLoop A → EventLoop A
  unfolding add_task handler
  on_in e ready l = if ready then add_task (callback (handler in_event e)) false l else l

  unfoldable pub on_out : FdEvent A → Bool → EventLoop A → EventLoop A
  unfolding add_task handler
  on_out e ready l = if ready then add_task (callback (handler out_event e)) false l else l

  unfoldable pub add_error_task : Option A → EventLoop A → EventLoop A
  unfolding add_task
  add_error_task none l = l
  add_error_task (some f) l = add_task (callback (some f)) false l

  unfoldable pub on_error : FdEvent A → Bool → EventLoop A → EventLoop A
  unfolding unregister_event add_error_task handler
  on_error e ready l =
      if ready then add_error_task (handler error_event e) (unregister_event e l) else l

  unfoldable pub trigger : Ready A → EventLoop A → EventLoop A
  unfolding on_in on_out on_error
  trigger r l = elim r.event [
    | none ↦ l
    | some e ↦ on_error e r.bits.epollerr (on_out e r.bits.epollout (on_in e r.bits.epollin l))
  ]

  unfoldable pub trigger_all : List (Ready A) → EventLoop A → EventLoop A
  unfolding trigger
  trigger_all [] l = l
  trigger_all (r ∷ rs) l = trigger_all rs (trigger r l)

module _ {A : Type 0} (run : A → EventLoop A → EventLoop A) where
  unfoldable pub run_task : Task A → EventLoop A → EventLoop A
  unfolding register_event unregister_event
  run_task (register e) l = register_event e l
  run_task (unregister e) l = unregister_event e l
  run_task (callback none) l = l
  run_task (callback (some f)) l = run f l

  unfoldable pub run_tasks : List (Task A) → EventLoop A → EventLoop A
  unfolding run_task
  run_tasks [] l = l
  run_tasks (t ∷ ts) l = run_tasks ts (run_task t l)

  -- One round of the `while`: the tasks that were pending, then what epoll_wait reports, where
  -- `none` is its error. Tasks that are added meanwhile wait for the next round.
  unfoldable pub round : Option (List (Ready A)) → EventLoop A → EventLoop A
  unfolding run_tasks trigger_all
  round polled l =
      let l' = run_tasks l.pending_tasks (record l { pending_tasks = [] }) in
      elim polled [ none ↦ l' | some rs ↦ trigger_all rs l' ]

  -- loop(), with what each epoll_wait reports; `none` while the flag is not set after so many.
  unfoldable loop_rounds : List (Option (List (Ready A))) → EventLoop A → Option (EventLoop A)
  unfolding round
  loop_rounds [] l = if l.stop_flag then some l else none
  loop_rounds (p ∷ ps) l = elim l.stop_flag [ true ↦ some l | false ↦ loop_rounds ps (round p l) ]

  unfoldable pub loop : List (Option (List (Ready A))) → EventLoop A → Option (EventLoop A)
  unfolding loop_rounds
  loop polls l = loop_rounds polls (record l { is_looping = true })
