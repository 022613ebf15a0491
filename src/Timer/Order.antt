-- ===== src/Timer/Order.antt =====
-- Timer: the queue stays in the order of its keys.
use rpc4grad.Prelude.{ℕ, ◌≤◌, ◌≡◌, List, [], ◌∷◌, Bool-cases, if_elim, inl, inr, arith}
use rpc4grad.Timer.{
  Store, Timer, update, emplace, rearm, add_timer_event, erase_entry, delete_timer_event, due,
  not_due, add_again, comes_first, on_timer, reset_arrive_time,
}

-- Every key is at least `n`, and none is below the one before it.
abbrev pub Sorted : ℕ → List (ℕ × ℕ) → Type 0
Sorted n [] = Unit {0}
Sorted n ((k, p) ∷ rest) = (n ≤ k) × Sorted k rest

abbrev pub IsSorted : Timer → Type 0
IsSorted t = Sorted 0 t.pending_events

Sorted-mono : (m n : ℕ) (es : List (ℕ × ℕ)) → m ≤ n → Sorted n es → Sorted m es
Sorted-mono m n [] h s = tt
Sorted-mono m n ((k, p) ∷ rest) h s = (omega arith, s.1)

emplace-Sorted :
    (n key p : ℕ) (es : List (ℕ × ℕ)) → n ≤ key → Sorted n es → Sorted n (emplace key p es)
unfolding emplace
emplace-Sorted n key p [] h s = (h, tt)
emplace-Sorted n key p ((k, q) ∷ rest) h s = ground (arith, emplace-Sorted k key p rest)

erase_entry-Sorted :
    (n key p : ℕ) (es : List (ℕ × ℕ)) → Sorted n es → Sorted n (erase_entry key p es)
unfolding erase_entry
erase_entry-Sorted n key p [] s = tt
erase_entry-Sorted n key p ((k, q) ∷ rest) s =
    ground (arith, erase_entry-Sorted k key p rest, Sorted-mono n k rest)

not_due-Sorted : (n now : ℕ) (es : List (ℕ × ℕ)) → Sorted n es → Sorted n (not_due now es)
unfolding not_due
not_due-Sorted n now [] s = tt
not_due-Sorted n now ((k, q) ∷ rest) s =
    ground (arith, not_due-Sorted n now rest, Sorted-mono n k rest)

pub rearm-pending :
    (now : ℕ) (s : Store) (t : Timer) → (rearm now s t).pending_events ≡ t.pending_events
unfolding rearm
rearm-pending now s t = ground arith

pub add_timer_event-pending :
    (now p : ℕ) (s : Store) (t : Timer)
    → (add_timer_event now p s t).pending_events ≡ emplace (s p).arrive_time p t.pending_events
unfolding add_timer_event
add_timer_event-pending now p s t = elim (Bool-cases (comes_first p s t.pending_events)) [
  | inl first ↦ rw (first, add_timer_event) (rearm-pending now s _)
  | inr behind ↦ rw (behind, add_timer_event)
]

-- addTimerEvent keeps the queue in the order of its keys.
pub add_timer_event-IsSorted :
    (now p : ℕ) (s : Store) (t : Timer) → IsSorted t → IsSorted (add_timer_event now p s t)
add_timer_event-IsSorted now p s t h =
    rw (add_timer_event-pending now p s t)
      (emplace-Sorted 0 (s p).arrive_time p t.pending_events (omega arith) h)

-- deleteTimerEvent keeps the queue in the order of its keys.
delete_timer_event-IsSorted :
    (p : ℕ) (s : Store) (t : Timer) → IsSorted t → IsSorted (delete_timer_event p s t).1
unfolding delete_timer_event
delete_timer_event-IsSorted p s t h = erase_entry-Sorted 0 (s p).arrive_time p t.pending_events h

add_again-IsSorted :
    (clock : ℕ → ℕ) (ps : List ℕ) (s : Store) (t : Timer)
    → IsSorted t
    → IsSorted (add_again clock ps s t).1
unfolding add_again
add_again-IsSorted clock [] s t h = h
add_again-IsSorted clock (p ∷ ps) s t h =
    let s' = update s p (reset_arrive_time (clock p) (s p)) in
    let t' = add_timer_event (clock p) p s' t in
    if_elim (λ r. IsSorted r.1) (s p).is_repeated (add_again clock ps s' t')
      (add_again clock ps s t)
      (λ _. add_again-IsSorted clock ps s' t' (add_timer_event-IsSorted (clock p) p s' t h))
      (λ _. add_again-IsSorted clock ps s t h)

-- onTimer keeps the queue in the order of its keys.
pub on_timer-IsSorted :
    (now later : ℕ) (clock : ℕ → ℕ) (s : Store) (t : Timer)
    → IsSorted t
    → IsSorted (on_timer now clock later s t).2
unfolding on_timer
on_timer-IsSorted now later clock s t h = rw rearm-pending (
    add_again-IsSorted clock (due now s t.pending_events) s _
      (not_due-Sorted 0 now t.pending_events h))
