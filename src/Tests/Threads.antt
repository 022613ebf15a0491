-- ===== src/Tests/Threads.antt =====
-- An IO thread step by step.
use rpc4grad.Prelude.{false, suc, ◌<◌, ◌≡◌, ◌≢◌, refl, arith, some, inl, inr, true}
use rpc4grad.IoThread.{
  IoThread, waiting, joined, looping, start_thread, ThreadStep, makes_loop, takes_id, posts,
  constructs, calls_start, begins, constructed, posted, ended, Reachable, first, later,
}
use rpc4grad.IoThread.Order.{rank, Reachable-unstopped, Reachable-looping, Reachable-goes_on}

-- The constructor has returned, and start has been called twice.
abbrev twice_started : IoThread
twice_started = record {
  thread_id = some 7;
  event_loop = true;
  init_semaphore = 0;
  start_semaphore = 2;
  starts = 2;
  stop_flag = false;
  owner = constructed;
  main = posted;
}

twice_started-Reachable : Reachable twice_started
unfolding start_thread
twice_started-Reachable =
    later
      (later
        (later (later (later (later first (makes_loop refl)) (takes_id 7 refl)) (posts refl))
          (constructs 0 refl refl))
        (calls_start refl))
      (calls_start refl)

-- And the loop has begun.
abbrev running : IoThread
running = record twice_started { start_semaphore = 1; main = looping }

Reachable-looping_example :
    (running.starts ≡ suc running.start_semaphore)
    × (running.owner ≢ waiting)
    × (running.owner ≢ joined)
Reachable-looping_example =
    Reachable-looping (later twice_started-Reachable (begins 1 refl refl)) refl

Reachable-goes_on_example :
    (u : IoThread) × ThreadStep twice_started u × (rank u < rank twice_started)
Reachable-goes_on_example =
    Reachable-goes_on twice_started-Reachable (inr (omega arith, inl (λ e. cc))) (λ e. cc)

Reachable-unstopped_test : (running.main ≢ ended) × (running.owner ≢ joined)
Reachable-unstopped_test =
    Reachable-unstopped (later twice_started-Reachable (begins 1 refl refl)) (λ e. cc)
