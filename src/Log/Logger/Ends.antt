-- ===== src/Log/Logger/Ends.antt =====
-- Logger: when the lines reach the files, and what flush leaves undone.
use rpc4grad.Prelude.{
  none-ne-some, length-append, suc, ◌+◌, ◌^◌, ◌<◌, ◌≡◌, refl, sym, ap, ap₂, ◌⊎◌, ◌∙◌, arith, false,
  Option, none, some, inl, inr, List, [], ◌∷◌, length, ok, fault, null_pointer,
}
use rpc4grad.Log.Writer.{
  Text, AsyncLogger, Turn, turn, log_file_name, run_turns, push_log_buffer, stop_writer,
}
use rpc4grad.Log.Writer.Fifo.{written, push_log_buffer-stream}
use rpc4grad.Log.Writer.Named.{IsNamed}
use rpc4grad.Log.Writer.Drain.{AllOpening, IsRunning, IsDrained, run_turns-drains, turn-waits}
use rpc4grad.Log.Logger.{Logger, hand_over, sync_loop, stop_logger, flush}
use rpc4grad.Log.Logger.Streams.{rpc_stream, line_stream}
use rpc4grad.Log.Logger.Steps.{IsAsync}

hand_over-succeeds :
    (ss : List Text) (w : Option AsyncLogger) (a : AsyncLogger)
    → w ≡ some a
    → (c : AsyncLogger) × (hand_over ss w ≡ ok (some c))
unfolding hand_over
hand_over-succeeds [] w a e = (a, ap ok e)
hand_over-succeeds (s ∷ ss) none a e = absurd (none-ne-some e)
hand_over-succeeds (s ∷ ss) (some c) a e = (push_log_buffer (s ∷ ss) c, refl)

hand_over-none :
    (ss : List Text) → (hand_over ss none ≡ ok none) ⊎ (hand_over ss none ≡ fault null_pointer)
unfolding hand_over
hand_over-none [] = inl refl
hand_over-none (s ∷ ss) = inr refl

push_log_buffer-IsNamed :
    (ss : List Text) (a : AsyncLogger) → IsNamed a → IsNamed (push_log_buffer ss a)
unfolding push_log_buffer log_file_name
push_log_buffer-IsNamed ss a n = record { settled = n.settled; named = n.named }

-- What a thread writes of a batch that it is handed.
handed-drains :
    (ts : List Turn) (ss : List Text) (a : AsyncLogger)
    → IsNamed a
    → IsRunning a
    → AllOpening ts
    → a.no + length ts < 2 ^ 31
    → length ts ≡ suc (length a.buffers)
    → (a' : AsyncLogger) × (run_turns ts (push_log_buffer ss a) ≡ ok a')
      × IsDrained (push_log_buffer ss a) a'
unfolding push_log_buffer
handed-drains ts ss a n i o small m =
    run_turns-drains ts (push_log_buffer ss a) (push_log_buffer-IsNamed ss a n)
      (record { going = i.going; inside = i.inside }) o small
      (omega (arith, m, length-append a.buffers (ss ∷ [])))

-- A line that has been logged reaches its file: after a sync, as many turns of the thread as batches
-- wait, one more than before, write everything that had been logged for the framework, in order,
-- while the thread is not told to stop, fopen succeeds, and the file's number stays below 2 ^ 31.
pub sync_loop-written :
    (ts : List Turn) (s : Text) (ss : List Text) (a : AsyncLogger) (l : Logger)
    → IsAsync l
    → l.async_logger ≡ some a
    → l.buffers ≡ s ∷ ss
    → IsNamed a
    → IsRunning a
    → AllOpening ts
    → a.no + length ts < 2 ^ 31
    → length ts ≡ suc (length a.buffers)
    → (l' : Logger) × (b : AsyncLogger) × (a' : AsyncLogger) × (sync_loop l ≡ ok l')
      × (l'.async_logger ≡ some b)
      × (run_turns ts b ≡ ok a')
      × (written a' ≡ rpc_stream l)
      × (a'.buffers ≡ [])
unfolding sync_loop hand_over line_stream
sync_loop-written ts s ss a l y e f n i o small m =
    let (v, q) = hand_over-succeeds l.app_buffers l.async_app_logger y.app.0 y.app.1 in
    let (a', r, d) = handed-drains ts (s ∷ ss) a n i o small m in
    (
      record l {
        buffers = [];
        app_buffers = [];
        async_logger = some (push_log_buffer (s ∷ ss) a);
        async_app_logger = some v;
      },
      push_log_buffer (s ∷ ss) a,
      a',
      simp (sync_loop, f, e, hand_over, q),
      refl,
      r,
      d.texts ∙ push_log_buffer-stream (s ∷ ss) a ∙ sym (ap₂ line_stream e f),
      d.none_left,
    )

-- flush ends the threads through their flags, but a thread whose queue is empty does not look at its
-- flag: after the flush of a logger of type 1 with nothing to log for the application, the
-- application's thread waits and has not returned, whatever its turns meet, and to join it, as
-- CoredumpHandler does, takes for ever.
pub flush-waits :
    (l : Logger) (a : AsyncLogger) (b : AsyncLogger)
    → l.async_logger ≡ some b
    → l.async_app_logger ≡ some a
    → l.app_buffers ≡ []
    → a.buffers ≡ []
    → a.returned ≡ false
    → (l' : Logger) × (a' : AsyncLogger) × (flush l ≡ ok l')
      × (l'.async_app_logger ≡ some a')
      × (a'.returned ≡ false)
      × ((t : Turn) → turn t a' ≡ none)
unfolding flush sync_loop hand_over stop_logger stop_writer
flush-waits l a b e f g k r =
    let (w, q) = hand_over-succeeds l.buffers l.async_logger b e in
    (
      record l {
        buffers = [];
        app_buffers = [];
        async_logger = some (stop_writer w);
        async_app_logger = some (stop_writer a);
      },
      stop_writer a,
      simp (flush, sync_loop, q, g, f, hand_over, stop_logger),
      refl,
      r,
      λ t. turn-waits t a k,
    )

-- flush of a logger without threads, which is what type 0 makes, calls a null pointer, whatever has
-- been logged.
pub flush-null :
    (l : Logger) → l.async_logger ≡ none → l.async_app_logger ≡ none → flush l ≡ fault null_pointer
unfolding flush sync_loop stop_logger
flush-null l e f = elim (hand_over-none l.buffers) [
  | inr p ↦ rw (flush, sync_loop, e, p)
  | inl p ↦ elim (hand_over-none l.app_buffers) [
    | inr q ↦ rw (flush, sync_loop, e, p, f, q)
    | inl q ↦ rw (flush, sync_loop, e, p, f, q, stop_logger)
  ]
]
