-- ===== src/Timer/Cancel.antt =====
-- Timer::deleteTimerEvent: a cancelled event does not fire, and no other event is touched.
use rpc4grad.Prelude.{
  ℕ, ◌<◌, ◌≡◌, refl, ◌∙◌, true, List, [], ◌∷◌, ◌==◌, if◌then◌else◌, Bool-cases, inl, inr, arith,
}
use rpc4grad.Timer.{Store, Timer, update, erase_entry, delete_timer_event, due}
use rpc4grad.Timer.Order.{Sorted, IsSorted}

abbrev pub without : ℕ → List ℕ → List ℕ
without p [] = []
without p (q ∷ qs) = if q == p then without p qs else q ∷ without p qs

-- The store after setCanceled(true).
abbrev cancel : ℕ → Store → Store
cancel p s = update s p (record (s p) { is_canceled = true })

canceled-cancel :
    (p q : ℕ) (s : Store)
    → (cancel p s q).is_canceled ≡ (if q == p then true else (s q).is_canceled)
canceled-cancel p q s = ground arith

due-cancel :
    (now p : ℕ) (s : Store) (es : List (ℕ × ℕ)) → due now (cancel p s) es ≡ without p (due now s es)
unfolding due
due-cancel now p s [] = refl
due-cancel now p s ((k, q) ∷ rest) = ground (arith, canceled-cancel p q s, due-cancel now p s rest)

due-late : (now n : ℕ) (s : Store) (es : List (ℕ × ℕ)) → now < n → Sorted n es → due now s es ≡ []
unfolding due
due-late now n s [] h o = refl
due-late now n s ((k, q) ∷ rest) h o = ground arith

due-erase_entry :
    (now n key p : ℕ) (s : Store) (es : List (ℕ × ℕ))
    → Sorted n es
    → (s p).is_canceled ≡ true
    → due now s (erase_entry key p es) ≡ due now s es
unfolding due erase_entry
due-erase_entry now n key p s [] o c = refl
due-erase_entry now n key p s ((k, q) ∷ rest) o c = elim (Bool-cases (q == p)) [
  | inl same ↦
      let e : q ≡ p = ground arith in
      let d : (s q).is_canceled ≡ true = rw e c in
      ground (arith, due-erase_entry now k key p s rest, due-late now k s rest)
  | inr other ↦ ground (arith, due-erase_entry now k key p s rest)
]

-- On a queue in order, after deleteTimerEvent the events that onTimer takes are those that it
-- would have taken, in the same order, without the one that was deleted, at every time and also
-- where the queue holds the event under another key than its arrival time.
pub due-delete_timer_event :
    (now p : ℕ) (s : Store) (t : Timer)
    → IsSorted t
    → let (s', t') = delete_timer_event p s t in
      due now s' t'.pending_events ≡ without p (due now s t.pending_events)
unfolding delete_timer_event
due-delete_timer_event now p s t o =
    due-erase_entry now 0 (s p).arrive_time p (cancel p s) t.pending_events o
      (ground (arith, canceled-cancel p p s))
    ∙ due-cancel now p s t.pending_events
