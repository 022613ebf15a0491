-- ===== src/Tests/Timing.antt =====
-- timer.cpp and msg_id_util.cpp at concrete events and ids.
use rpc4grad.Prelude.{
  ℕ, suc, ◌+◌, ok, fault, out_of_bounds, ◌≡◌, ◌≢◌, refl, arith, true, false, none, some, List, [],
  ◌∷◌, replicate, zero,
}
use rpc4grad.Timer.{
  Store, Timer, new_timer, add_timer_event, emplace, due, on_timer, tasks, new_timer_event,
  reset_arrive_time,
}
use rpc4grad.Timer.Order.{IsSorted}
use rpc4grad.Timer.Firing.{expired, LeftOver, on_timer-fires}
use rpc4grad.MsgId.{MsgIds, next_id, generate_msg_id}
use rpc4grad.MsgId.Digits.{IsId, value, value_from}
use rpc4grad.MsgId.Count.{IsStarted, nth_id, nth_id-distinct, generate_msg_id-overruns}

-- Two events: the first fires once at 10, the second every 20 ms from 20 on.
abbrev events : Store
events zero = new_timer_event 0 10 false (some 100)
events (suc n) = new_timer_event 0 20 true (some 200)

abbrev queue : Timer
queue = record { pending_events = (10, 0) ∷ (20, 1) ∷ []; armed = none }

queue-IsSorted : IsSorted queue
queue-IsSorted = (omega arith, (omega arith, tt))

queue_test :
    (add_timer_event 0 0 events (add_timer_event 0 1 events new_timer)).pending_events
    ≡ queue.pending_events
unfolding add_timer_event emplace new_timer new_timer_event reset_arrive_time
queue_test = refl

on_timer_test : (on_timer 15 (λ k. 15) 15 events queue).0 ≡ 100 ∷ []
unfolding on_timer due tasks new_timer_event reset_arrive_time
on_timer_test = refl

on_timer-fires_example :
    ((on_timer 25 (λ k. 25) 26 events queue).0
      ≡ tasks events (expired 25 events queue.pending_events))
    × LeftOver 25 events (on_timer 25 (λ k. 25) 26 events queue).2.pending_events
on_timer-fires_example = on_timer-fires 25 26 (λ k. 25) events queue queue-IsSorted

-- Nineteen nines behind a one.
abbrev some_id : List ℕ
some_id = b'1' ∷ replicate 19 b'9'

some_id-IsId : IsId some_id
some_id-IsId = record { long = refl; digits = ground arith }

next_id_test : next_id some_id ≡ ok (b'2' ∷ replicate 19 b'0')
unfolding next_id
next_id_test = refl

-- The state after the random source has been read a second time.
abbrev second_run : MsgIds
second_run = record { msg_id_no = some_id; max_msg_id_no = replicate 40 b'9' }

second_run-IsStarted : IsStarted second_run
second_run-IsStarted = record { id = some_id-IsId; nines = (40, refl) }

nth_id-distinct_example :
    (t : MsgIds) × (u : MsgIds) × (nth_id (λ k. []) 3 second_run ≡ ok t)
    × (nth_id (λ k. []) 8 second_run ≡ ok u)
    × (value t.msg_id_no ≡ value some_id + 3)
    × (value u.msg_id_no ≡ value some_id + 8)
    × (t.msg_id_no ≢ u.msg_id_no)
unfolding value_from
nth_id-distinct_example =
    nth_id-distinct (λ k. []) 3 8 second_run second_run-IsStarted (omega arith) (omega arith)

-- The same maximum, behind the largest id.
abbrev last_run : MsgIds
last_run = record { msg_id_no = replicate 20 b'9'; max_msg_id_no = replicate 40 b'9' }

last_run-IsId : IsId last_run.msg_id_no
last_run-IsId = record { long = refl; digits = ground arith }

generate_msg_id-overruns_test : generate_msg_id [] last_run ≡ fault out_of_bounds
unfolding value_from
generate_msg_id-overruns_test =
    generate_msg_id-overruns [] last_run last_run-IsId (omega arith) refl
