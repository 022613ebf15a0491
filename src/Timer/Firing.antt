-- ===== src/Timer/Firing.antt =====
-- Timer::onTimer: which events fire, and what is left in the queue.
use rpc4grad.Prelude.{
  ℕ, ◌<◌, ◌≡◌, refl, ap, ◌⊎◌, true, not, ◌&&◌, List, [], ◌∷◌, ltb, leb, if◌then◌else◌, Bool-cases,
  if_elim, subst, sym, ◌∙◌, inl, inr, arith,
}
use rpc4grad.Timer.{
  Store, Timer, update, emplace, add_timer_event, due, not_due, add_again, on_timer,
  reset_arrive_time, tasks,
}
use rpc4grad.Timer.Order.{Sorted, IsSorted, add_timer_event-pending, rearm-pending}

-- The events whose key has come, and which are not cancelled, wherever they stand.
abbrev pub expired : ℕ → Store → List (ℕ × ℕ) → List ℕ
expired now s [] = []
expired now s ((k, p) ∷ rest) =
    if leb k now && not (s p).is_canceled then p ∷ expired now s rest else expired now s rest

due-none :
    (now n : ℕ) (s : Store) (es : List (ℕ × ℕ)) → now < n → Sorted n es → expired now s es ≡ []
due-none now n s [] h o = refl
due-none now n s ((k, p) ∷ rest) h o = ground (arith, due-none now k s rest)

due-expired :
    (now n : ℕ) (s : Store) (es : List (ℕ × ℕ)) → Sorted n es → due now s es ≡ expired now s es
unfolding due
due-expired now n s [] o = refl
due-expired now n s ((k, p) ∷ rest) o =
    ground (arith, due-expired now k s rest, due-none now k s rest)

-- Each key is after `now`, or its event repeats.
abbrev pub LeftOver : ℕ → Store → List (ℕ × ℕ) → Type 0
LeftOver now s [] = Unit {0}
LeftOver now s ((k, p) ∷ rest) = ((now < k) ⊎ ((s p).is_repeated ≡ true)) × LeftOver now s rest

not_due-after :
    (now n : ℕ) (s : Store) (es : List (ℕ × ℕ)) → now < n → Sorted n es → LeftOver now s es
not_due-after now n s [] h o = tt
not_due-after now n s ((k, p) ∷ rest) h o =
    (inl (omega arith), not_due-after now k s rest (omega arith) o.1)

not_due-LeftOver :
    (now n : ℕ) (s : Store) (es : List (ℕ × ℕ)) → Sorted n es → LeftOver now s (not_due now es)
unfolding not_due
not_due-LeftOver now n s [] o = tt
not_due-LeftOver now n s ((k, p) ∷ rest) o = elim (Bool-cases (leb k now)) [
  | inl past ↦ rw past (not_due-LeftOver now k s rest o.1)
  | inr ahead ↦ let h : now < k = ground arith in rw ahead (inl h, not_due-after now k s rest h o.1)
]

emplace-LeftOver :
    (now key p : ℕ) (s : Store) (es : List (ℕ × ℕ))
    → (s p).is_repeated ≡ true
    → LeftOver now s es
    → LeftOver now s (emplace key p es)
unfolding emplace
emplace-LeftOver now key p s [] r l = (inr r, tt)
emplace-LeftOver now key p s ((k, q) ∷ rest) r l = elim (Bool-cases (ltb key k)) [
  | inl before ↦ rw before (inr r, l)
  | inr behind ↦ rw behind (l.0, emplace-LeftOver now key p s rest r l.1)
]

-- Two stores with the same repeating events.
abbrev SameKind : Store → Store → Type 0
SameKind s s' = (q : ℕ) → (s' q).is_repeated ≡ (s q).is_repeated

reset-SameKind : (s : Store) (p now : ℕ) → SameKind s (update s p (reset_arrive_time now (s p)))
unfolding reset_arrive_time
reset-SameKind s p now q = ground (arith, ap (λ k. (s k).is_repeated) {x = p} {y = q})

-- `old` is the store at the start; only arrival times change.
add_again-LeftOver :
    (now : ℕ) (clock : ℕ → ℕ) (ps : List ℕ) (old s : Store) (t : Timer)
    → SameKind old s
    → LeftOver now old t.pending_events
    → LeftOver now old (add_again clock ps s t).1.pending_events
unfolding add_again
add_again-LeftOver now clock [] old s t k l = l
add_again-LeftOver now clock (p ∷ ps) old s t k l =
    let s' = update s p (reset_arrive_time (clock p) (s p)) in
    let t' = add_timer_event (clock p) p s' t in
    if_elim (λ r. LeftOver now old r.1.pending_events) (s p).is_repeated (add_again clock ps s' t')
      (add_again clock ps s t)
      (λ again.
        add_again-LeftOver now clock ps old s' t' (λ q. reset-SameKind s p (clock p) q ∙ k q)
          (subst (LeftOver now old) (sym (add_timer_event-pending (clock p) p s' t))
            (emplace-LeftOver now (s' p).arrive_time p old t.pending_events (sym (k p) ∙ again) l)))
      (λ _. add_again-LeftOver now clock ps old s t k l)

-- On a queue in the order of its keys onTimer calls the tasks of exactly the events whose time
-- has come and which are not cancelled, in the order of their times, although its loop stops at
-- the first that is not due. What stays in the queue comes after `now` or repeats, so an event
-- that does not repeat fires once.
pub on_timer-fires :
    (now later : ℕ) (clock : ℕ → ℕ) (s : Store) (t : Timer)
    → IsSorted t
    → ((on_timer now clock later s t).0 ≡ tasks s (expired now s t.pending_events))
      × LeftOver now s (on_timer now clock later s t).2.pending_events
unfolding on_timer
on_timer-fires now later clock s t o = (
  ap (tasks s) (due-expired now 0 s t.pending_events o),
  rw rearm-pending (
      add_again-LeftOver now clock (due now s t.pending_events) s s _ (λ q. refl)
        (not_due-LeftOver now 0 s t.pending_events o)),
)
