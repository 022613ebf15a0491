-- ===== src/Timer.antt =====
-- rocket/rocket/net/timer.cpp and timer_event.cpp. An event is shared by pointer, so events stand in
-- a store by number and the multimap holds numbers. Times are milliseconds; each reading of the
-- clock is an argument.
pub mod Order
pub mod Firing
pub mod Cancel
use rpc4grad.Prelude.{
  ℕ, zero, suc, ◌+◌, ◌-◌, ◌*◌, ◌/◌, ◌%◌, Bool, true, false, Option, none, some, List, [], ◌∷◌, ◌++◌,
  ltb, leb, ◌==◌, if◌then◌else◌,
}

-- `task` is the callback, by name; `none` is an empty std::function.
pub record TimerEvent : Type 0 where
  pub arrive_time : ℕ
  pub interval : ℕ
  pub is_repeated : Bool
  pub is_canceled : Bool
  pub task : Option ℕ

-- What the pointers stand for.
abbrev pub Store : Type 0
Store = ℕ → TimerEvent

abbrev pub update : Store → ℕ → TimerEvent → Store
update s p e q = if p == q then e else s q

-- `armed` is the last interval that timerfd_settime was given, in milliseconds.
pub record Timer : Type 0 where
  pub pending_events : List (ℕ × ℕ)
  pub armed : Option ℕ

unfoldable pub new_timer : Timer
new_timer = record { pending_events = []; armed = none }

-- TimerEvent::resetArriveTime and the constructor, at the time `now`.
unfoldable pub reset_arrive_time : ℕ → TimerEvent → TimerEvent
reset_arrive_time now e = record e { arrive_time = now + e.interval }

unfoldable pub new_timer_event : ℕ → ℕ → Bool → Option ℕ → TimerEvent
unfolding reset_arrive_time
new_timer_event now interval is_repeated cb = reset_arrive_time now (record {
  arrive_time = 0;
  interval = interval;
  is_repeated = is_repeated;
  is_canceled = false;
  task = cb;
})

-- multimap::emplace: behind the entries with the same key.
unfoldable pub emplace : ℕ → ℕ → List (ℕ × ℕ) → List (ℕ × ℕ)
emplace key p [] = (key, p) ∷ []
emplace key p ((k, q) ∷ rest) =
    let later = emplace key p rest in if ltb key k then (key, p) ∷ (k, q) ∷ rest else (k, q) ∷ later

-- Timer::resetArriveTime. The seconds and nanoseconds are those of the interval.
unfoldable pub rearm : ℕ → Store → Timer → Timer
rearm now s t = elim t.pending_events [
  | [] ↦ t
  | (key, p) ∷ rest ↦ record t {
    armed = some (if ltb now (s p).arrive_time then (s p).arrive_time - now else 100);
  }
]

-- Whether addTimerEvent has to set the descriptor: the queue is empty or the event comes first.
unfoldable pub comes_first : ℕ → Store → List (ℕ × ℕ) → Bool
comes_first p s [] = true
comes_first p s ((key, q) ∷ rest) = ltb (s p).arrive_time (s q).arrive_time

unfoldable pub add_timer_event : ℕ → ℕ → Store → Timer → Timer
unfolding emplace comes_first rearm
add_timer_event now p s t =
    let t' = record t { pending_events = emplace (s p).arrive_time p t.pending_events } in
    if comes_first p s t.pending_events then rearm now s t' else t'

-- The search between lower_bound and upper_bound, and the erase.
unfoldable pub erase_entry : ℕ → ℕ → List (ℕ × ℕ) → List (ℕ × ℕ)
erase_entry key p [] = []
erase_entry key p ((k, q) ∷ rest) =
    let later = erase_entry key p rest in
    if k == key then (if q == p then rest else (k, q) ∷ later) else (k, q) ∷ later

unfoldable pub delete_timer_event : ℕ → Store → Timer → Store × Timer
unfolding erase_entry
delete_timer_event p s t = (
  update s p (record (s p) { is_canceled = true }),
  record t { pending_events = erase_entry (s p).arrive_time p t.pending_events },
)

-- The events that the `for` loop of onTimer takes (`tmps`), and what is left after the erase.
unfoldable pub due : ℕ → Store → List (ℕ × ℕ) → List ℕ
due now s [] = []
due now s ((key, p) ∷ rest) =
    let later = due now s rest in
    if leb key now then (if (s p).is_canceled then later else p ∷ later) else []

unfoldable pub not_due : ℕ → List (ℕ × ℕ) → List (ℕ × ℕ)
not_due now [] = []
not_due now ((key, p) ∷ rest) =
    let later = not_due now rest in if leb key now then later else (key, p) ∷ rest

-- Adding the repeated ones again. `clock p` is the time when `p` is set anew.
unfoldable pub add_again : (ℕ → ℕ) → List ℕ → Store → Timer → Store × Timer
unfolding reset_arrive_time add_timer_event
add_again clock [] s t = (s, t)
add_again clock (p ∷ ps) s t =
    let s' = update s p (reset_arrive_time (clock p) (s p)) in
    let again = add_again clock ps s' (add_timer_event (clock p) p s' t) in
    let once = add_again clock ps s t in if (s p).is_repeated then again else once

-- The callbacks of the events, in order, without the empty ones.
unfoldable pub tasks : Store → List ℕ → List ℕ
tasks s [] = []
tasks s (p ∷ ps) = elim (s p).task [ none ↦ tasks s ps | some f ↦ f ∷ tasks s ps ]

-- onTimer, with the callbacks that it calls at the end. `now` is the time of the first reading and
-- `later` that of the last.
unfoldable pub on_timer : ℕ → (ℕ → ℕ) → ℕ → Store → Timer → List ℕ × Store × Timer
unfolding due not_due add_again rearm tasks
on_timer now clock later s t =
    let fired = due now s t.pending_events in
    let (s', t') =
      add_again clock fired s (record t { pending_events = not_due now t.pending_events }) in
    (tasks s fired, s', rearm later s' t')
