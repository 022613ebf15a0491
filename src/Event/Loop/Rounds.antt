-- ===== src/Event/Loop/Rounds.antt =====
-- EventLoop: what one round of loop() runs, and what it leaves for the next.
use rpc4grad.Prelude.{
  ◌≡◌, refl, sym, ◌∙◌, ap, Bool, true, false, Option, none, some, List, [], ◌∷◌, ◌++◌, append_assoc,
  append-nil,
}
use rpc4grad.Event.Fd.{FdEvent, in_event, out_event, error_event, handler}
use rpc4grad.Event.Loop.{
  EventLoop, Task, register, unregister, callback, Ready, trigger, trigger_all, round, run_task,
  run_tasks, on_in, on_out, on_error, add_error_task,
}

module _ {A : Type 0} where
  -- The tasks of one direction, of the error handler, and of one report.
  abbrev when_ready : Bool → Option A → List (Task A)
  when_ready true f = callback f ∷ []
  when_ready false f = []

  abbrev when_error : Bool → Option A → List (Task A)
  when_error true none = []
  when_error true (some f) = callback (some f) ∷ []
  when_error false f = []

  abbrev tasks_of : Ready A → List (Task A)
  tasks_of r = elim r.event [
    | none ↦ []
    | some e ↦
        when_ready r.bits.epollin (handler in_event e)
        ++ (when_ready r.bits.epollout (handler out_event e)
            ++ when_error r.bits.epollerr (handler error_event e))
  ]

  abbrev pub tasks_of_all : List (Ready A) → List (Task A)
  tasks_of_all [] = []
  tasks_of_all (r ∷ rs) = tasks_of r ++ tasks_of_all rs

  on_in-pending :
      (e : FdEvent A) (b : Bool) (l : EventLoop A)
      → (on_in e b l).pending_tasks ≡ l.pending_tasks ++ when_ready b (handler in_event e)
  unfolding on_in
  on_in-pending e true l = refl
  on_in-pending e false l = sym (append-nil l.pending_tasks)

  on_out-pending :
      (e : FdEvent A) (b : Bool) (l : EventLoop A)
      → (on_out e b l).pending_tasks ≡ l.pending_tasks ++ when_ready b (handler out_event e)
  unfolding on_out
  on_out-pending e true l = refl
  on_out-pending e false l = sym (append-nil l.pending_tasks)

  add_error_task-pending :
      (f : Option A) (l : EventLoop A)
      → (add_error_task f l).pending_tasks ≡ l.pending_tasks ++ when_error true f
  unfolding add_error_task
  add_error_task-pending none l = sym (append-nil l.pending_tasks)
  add_error_task-pending (some f) l = refl

  on_error-pending :
      (e : FdEvent A) (b : Bool) (l : EventLoop A)
      → (on_error e b l).pending_tasks ≡ l.pending_tasks ++ when_error b (handler error_event e)
  unfolding on_error
  on_error-pending e true l = add_error_task-pending (handler error_event e) _
  on_error-pending e false l = sym (append-nil l.pending_tasks)

  trigger-pending :
      (r : Ready A) (l : EventLoop A) → (trigger r l).pending_tasks ≡ l.pending_tasks ++ tasks_of r
  unfolding trigger
  trigger-pending r l = go r.event refl
    where
      go :
          (o : Option (FdEvent A))
          → r.event ≡ o
          → (trigger r l).pending_tasks ≡ l.pending_tasks ++ tasks_of r
      go none q = rw (q, trigger) (sym (append-nil l.pending_tasks))
      go (some e) q =
          rw
            (
              q,
              trigger,
              on_error-pending e r.bits.epollerr,
              on_out-pending e r.bits.epollout,
              on_in-pending e r.bits.epollin,
            )
            (simp append_assoc)

  trigger_all-pending :
      (rs : List (Ready A)) (l : EventLoop A)
      → (trigger_all rs l).pending_tasks ≡ l.pending_tasks ++ tasks_of_all rs
  unfolding trigger_all
  trigger_all-pending [] l = sym (append-nil l.pending_tasks)
  trigger_all-pending (r ∷ rs) l =
      trigger_all-pending rs (trigger r l)
      ∙ ap (λ t. t ++ tasks_of_all rs) (trigger-pending r l)
      ∙ append_assoc l.pending_tasks (tasks_of r) (tasks_of_all rs)

module _ {A : Type 0} (run : A → EventLoop A → EventLoop A) where
  -- The tasks that a callback adds, where running one takes none away.
  module _ (adds : A → EventLoop A → List (Task A))
      (kept : (f : A) (l : EventLoop A)
        → (run f l).pending_tasks ≡ l.pending_tasks ++ adds f l) where
    abbrev task_adds : Task A → EventLoop A → List (Task A)
    task_adds (register e) l = []
    task_adds (unregister e) l = []
    task_adds (callback none) l = []
    task_adds (callback (some f)) l = adds f l

    abbrev pub tasks_add : List (Task A) → EventLoop A → List (Task A)
    tasks_add [] l = []
    tasks_add (t ∷ ts) l = task_adds t l ++ tasks_add ts (run_task run t l)

    run_task-pending :
        (t : Task A) (l : EventLoop A)
        → (run_task run t l).pending_tasks ≡ l.pending_tasks ++ task_adds t l
    unfolding run_task
    run_task-pending (register e) l = sym (append-nil l.pending_tasks)
    run_task-pending (unregister e) l = sym (append-nil l.pending_tasks)
    run_task-pending (callback none) l = sym (append-nil l.pending_tasks)
    run_task-pending (callback (some f)) l = kept f l

    run_tasks-pending :
        (ts : List (Task A)) (l : EventLoop A)
        → (run_tasks run ts l).pending_tasks ≡ l.pending_tasks ++ tasks_add ts l
    unfolding run_tasks
    run_tasks-pending [] l = sym (append-nil l.pending_tasks)
    run_tasks-pending (t ∷ ts) l =
        run_tasks-pending ts (run_task run t l)
        ∙ ap (λ u. u ++ tasks_add ts (run_task run t l)) (run_task-pending t l)
        ∙ append_assoc l.pending_tasks (task_adds t l) (tasks_add ts (run_task run t l))

    -- A round runs each task that was pending once, oldest first, and leaves for the next round
    -- exactly the tasks that those added, in order, and then the handlers that epoll_wait reports.
    pub round-pending :
        (rs : List (Ready A)) (l : EventLoop A)
        → (round run (some rs) l).pending_tasks
          ≡ tasks_add l.pending_tasks (record l { pending_tasks = [] }) ++ tasks_of_all rs
    unfolding round
    round-pending rs l =
        trigger_all-pending rs _
        ∙ ap (λ t. t ++ tasks_of_all rs)
            (run_tasks-pending l.pending_tasks (record l { pending_tasks = [] }))
