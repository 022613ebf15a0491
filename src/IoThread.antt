-- ===== src/IoThread.antt =====
-- rocket/rocket/net/io_thread.{h,cpp}: a thread with a loop of its own, and the two semaphores that
-- order its start. A step is one call of a thread.
pub mod Order
use rpc4grad.Prelude.{ℕ, suc, ◌+◌, ◌≡◌, Bool, true, false, Option, none, some}

-- Where the thread that runs the constructor stands, and where Main does.
pub data Owner : Type 0 where
  waiting constructed joined : Owner

pub data MainPc : Type 0 where
  entered has_loop has_id posted looping ended : MainPc

-- `event_loop` tells whether m_event_loop is set, `starts` counts the calls of start,
-- and `stop_flag` is m_stop_flag of the loop.
pub record IoThread : Type 0 where
  pub thread_id : Option ℕ
  pub event_loop : Bool
  pub init_semaphore : ℕ
  pub start_semaphore : ℕ
  pub starts : ℕ
  pub stop_flag : Bool
  pub owner : Owner
  pub main : MainPc

-- IOThread() up to its sem_wait.
abbrev pub created : IoThread
created = record {
  thread_id = none;
  event_loop = false;
  init_semaphore = 0;
  start_semaphore = 0;
  starts = 0;
  stop_flag = false;
  owner = waiting;
  main = entered;
}

unfoldable pub start_thread : IoThread → IoThread
start_thread t = record t { start_semaphore = t.start_semaphore + 1; starts = t.starts + 1 }

-- What ~IOThread does first: m_event_loop->stop(). The flag is that of the loop.
unfoldable pub stop_thread : IoThread → IoThread
stop_thread t = record t { stop_flag = true }

-- The calls of Main, of the constructor's sem_wait, and of start, join and the destructor by the
-- thread that has constructed. loop() ends once the stop flag is set. sem_wait takes one from a
-- semaphore above 0.
pub data ThreadStep (t : IoThread) : IoThread → Type 0 where
  makes_loop : t.main ≡ entered → ThreadStep t (record t { event_loop = true; main = has_loop })
  takes_id :
      (tid : ℕ)
      → t.main ≡ has_loop
      → ThreadStep t (record t { thread_id = some tid; main = has_id })
  posts :
      t.main ≡ has_id
      → ThreadStep t (record t { init_semaphore = t.init_semaphore + 1; main = posted })
  begins :
      (n : ℕ)
      → t.main ≡ posted
      → t.start_semaphore ≡ suc n
      → ThreadStep t (record t { start_semaphore = n; main = looping })
  ends : t.main ≡ looping → t.stop_flag ≡ true → ThreadStep t (record t { main = ended })
  constructs :
      (n : ℕ)
      → t.owner ≡ waiting
      → t.init_semaphore ≡ suc n
      → ThreadStep t (record t { init_semaphore = n; owner = constructed })
  calls_start : t.owner ≡ constructed → ThreadStep t (start_thread t)
  stops : t.owner ≡ constructed → ThreadStep t (stop_thread t)
  joins : t.owner ≡ constructed → t.main ≡ ended → ThreadStep t (record t { owner = joined })

-- What can happen from the constructor on.
pub data Reachable : IoThread → Type 0 where
  first : Reachable created
  later : {t u : IoThread} → Reachable t → ThreadStep t u → Reachable u
