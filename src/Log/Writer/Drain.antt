-- ===== src/Log/Writer/Drain.antt =====
-- AsyncLogger::Loop: how many turns write what waits, and what the stop flag does.
use rpc4grad.Prelude.{
  ◌+◌, ◌^◌, ◌<◌, ◌≡◌, refl, sym, ◌∙◌, arith, true, false, none, some, List, [], ◌∷◌, ◌++◌,
  append-nil, length, ok,
}
use rpc4grad.Log.Writer.{Text, AsyncLogger, Turn, turn, log_file_name, run_turns, stop_writer}
use rpc4grad.Log.Writer.Fifo.{non_empty, joined, written, waiting, stream, turn-stream, turn-Turned}
use rpc4grad.Log.Writer.Named.{IsNamed}
use rpc4grad.Log.Writer.Files.{IsOpening, turn-to_file}

-- fopen succeeds in each of the turns.
abbrev pub AllOpening : List Turn → Type 0
AllOpening [] = Unit
AllOpening (t ∷ ts) = IsOpening t × AllOpening ts

-- The thread still runs and has not been told to stop.
pub record IsRunning (l : AsyncLogger) : Type 0 where
  pub going : l.stop_flag ≡ false
  pub inside : l.returned ≡ false

run_turns-step :
    (t : Turn) (ts : List Turn) (l : AsyncLogger) {l' : AsyncLogger}
    → l.returned ≡ false
    → turn t l ≡ some (ok l')
    → run_turns (t ∷ ts) l ≡ run_turns ts l'
unfolding run_turns
run_turns-step t ts l r h = rw (run_turns, r, h)

waiting-empty : (l : AsyncLogger) → l.buffers ≡ [] → written l ≡ stream l
unfolding stream waiting joined non_empty written
waiting-empty l e = rw (stream, waiting, e) (sym (append-nil (written l)))

-- What some turns have done once nothing waits.
pub record IsDrained (l l' : AsyncLogger) : Type 0 where
  pub texts : written l' ≡ stream l
  pub none_left : l'.buffers ≡ []
  pub running : IsRunning l'

drain :
    (ts : List Turn) (bs : List (List Text)) (l : AsyncLogger)
    → IsNamed l
    → IsRunning l
    → AllOpening ts
    → l.no + length ts < 2 ^ 31
    → l.buffers ≡ bs
    → length ts ≡ length bs
    → (l' : AsyncLogger) × (run_turns ts l ≡ ok l') × IsDrained l l'
unfolding run_turns
drain [] [] l n i a s e m =
    (l, refl, record { texts = waiting-empty l e; none_left = e; running = i })
drain [] (b ∷ bs) l n i a s e m = absurd (omega (arith, m))
drain (t ∷ ts) [] l n i a s e m = absurd (omega (arith, m))
drain (t ∷ ts) (b ∷ bs) l n i a s e m =
    let (l1, h, w) = turn-to_file t b bs l n a.0 (omega (arith, s)) e in
    let k = turn-Turned t b bs l e h in
    let on : IsRunning l1 = record {
      going = k.stop_flag ∙ i.going;
      inside = ground (arith, k.returned, i.going, i.inside);
    } in
    let (l2, r, d) =
      drain ts bs l1 w.named on a.1 (omega (arith, s, w.no_le)) k.buffers (omega (arith, m)) in
    (
      l2,
      run_turns-step t ts l i.inside h ∙ r,
      record { texts = d.texts ∙ turn-stream t l h; none_left = d.none_left; running = d.running },
    )

-- While the thread runs and is not told to stop, as many turns as batches wait, in which fopen
-- succeeds and the number of the file stays below 2 ^ 31, write every line that waits, in order
-- behind those written before, and leave the thread running with an empty queue.
pub run_turns-drains :
    (ts : List Turn) (l : AsyncLogger)
    → IsNamed l
    → IsRunning l
    → AllOpening ts
    → l.no + length ts < 2 ^ 31
    → length ts ≡ length l.buffers
    → (l' : AsyncLogger) × (run_turns ts l ≡ ok l') × IsDrained l l'
run_turns-drains ts l n i a s m = drain ts l.buffers l n i a s refl m

stopped-IsNamed : (l : AsyncLogger) → IsNamed l → IsNamed (stop_writer l)
unfolding stop_writer log_file_name
stopped-IsNamed l n = record { settled = n.settled; named = n.named }

run_turns-returned : (ts : List Turn) (l : AsyncLogger) → l.returned ≡ true → run_turns ts l ≡ ok l
unfolding run_turns
run_turns-returned [] l r = refl
run_turns-returned (t ∷ ts) l r = simp (run_turns, r)

-- After the stop flag is set the thread takes one more batch and returns, however many turns it is
-- given: the batches behind it are never written.
pub run_turns-stopped :
    (t : Turn) (ts : List Turn) (batch : List Text) (rest : List (List Text)) (l : AsyncLogger)
    → IsNamed l
    → IsOpening t
    → l.no + 1 < 2 ^ 31
    → l.returned ≡ false
    → l.buffers ≡ batch ∷ rest
    → (l' : AsyncLogger) × (run_turns (t ∷ ts) (stop_writer l) ≡ ok l')
      × (written l' ≡ written l ++ non_empty batch)
      × (l'.buffers ≡ rest)
      × (l'.returned ≡ true)
unfolding stop_writer written
run_turns-stopped t ts batch rest l n o s r e =
    let stopped = stop_writer l in
    let (l1, h, w) = turn-to_file t batch rest stopped (stopped-IsNamed l n) o s e in
    let k = turn-Turned t batch rest stopped e h in
    (
      l1,
      run_turns-step t ts stopped r h ∙ run_turns-returned ts l1 k.returned,
      k.texts,
      k.buffers,
      k.returned,
    )

-- A thread that is told to stop while nothing waits does not leave the wait.
pub turn-waits : (t : Turn) (l : AsyncLogger) → l.buffers ≡ [] → turn t (stop_writer l) ≡ none
unfolding turn stop_writer
turn-waits t l e = rw (turn, e)
