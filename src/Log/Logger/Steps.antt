-- ===== src/Log/Logger/Steps.antt =====
-- Logger: interleavings of what the program and the two threads do. syncLoop runs in the main loop's
-- thread and in a signal handler's flush; one run at a time has a place in the steps.
use rpc4grad.Prelude.{
  none-ne-some, ◌≡◌, ◌≢◌, refl, sym, ap, ◌∙◌, subst, false, Option, none, some, List, [], ◌∷◌, ◌++◌,
  append-nil, append_assoc, ◌==◌, ==_iff, if_elim, ok, ok-ne-fault, ok-injective,
}
use rpc4grad.Log.Writer.{Text, AsyncLogger, Turn, turn, push_log_buffer, stop_writer}
use rpc4grad.Log.Writer.Fifo.{non_empty, non_empty-append, written, waiting, stream, turn-stream}
use rpc4grad.Log.Logger.{Logger, push_log, push_app_log, hand_over, stop_logger}
use rpc4grad.Log.Logger.Streams.{line_stream, line_stream-append, hand_over-stream}

-- A logger with threads: type 1, as InitGlobalLogger makes it.
pub record IsAsync (l : Logger) : Type 0 where
  pub typed : l.log_type ≢ 0
  pub rpc : (a : AsyncLogger) × (l.async_logger ≡ some a)
  pub app : (a : AsyncLogger) × (l.async_app_logger ≡ some a)

-- How far a run of syncLoop is, if there is one: what it has swapped out of a queue waits in
-- tmp_vec, or in tmp_vec_app, between the two locks.
pub data Syncing : Type 0 where
  idle between : Syncing
  holding app_holding : List Text → Syncing

abbrev pub held : Syncing → List Text
held idle = []
held between = []
held (holding ss) = ss
held (app_holding ss) = []

abbrev pub app_held : Syncing → List Text
app_held idle = []
app_held between = []
app_held (holding ss) = []
app_held (app_holding ss) = ss

-- A queue of lines: what its thread has written and what waits in the thread's batches, then what
-- syncLoop holds, then what is gathered.
abbrev pub rpc_queue : Logger × Syncing → List Text
rpc_queue (l, y) = line_stream l.async_logger (held y ++ l.buffers)

abbrev pub app_queue : Logger × Syncing → List Text
app_queue (l, y) = line_stream l.async_app_logger (app_held y ++ l.app_buffers)

-- One thing that happens to the logger and its threads. The indices are the lines logged by it for
-- the framework and for the application. A syncLoop, also that of a flush, takes four steps: each
-- swap under the logger's lock and each push under the thread's. A flush sets the stop flags after
-- that.
pub data LoggerStep : Logger × Syncing → List Text → List Text → Logger × Syncing → Type 0 where
  logs : {l : Logger} {y : Syncing} (s : Text) → LoggerStep (l, y) (s ∷ []) [] (push_log s l, y)
  app_logs :
      {l : Logger} {y : Syncing} (s : Text) → LoggerStep (l, y) [] (s ∷ []) (push_app_log s l, y)
  swaps : {l : Logger} → LoggerStep (l, idle) [] [] (record l { buffers = [] }, holding l.buffers)
  hands :
      {l : Logger} {ss : List Text} {w : Option AsyncLogger}
      → hand_over ss l.async_logger ≡ ok w
      → LoggerStep (l, holding ss) [] [] (record l { async_logger = w }, between)
  app_swaps :
      {l : Logger}
      → LoggerStep (l, between) [] [] (record l { app_buffers = [] }, app_holding l.app_buffers)
  app_hands :
      {l : Logger} {ss : List Text} {w : Option AsyncLogger}
      → hand_over ss l.async_app_logger ≡ ok w
      → LoggerStep (l, app_holding ss) [] [] (record l { async_app_logger = w }, idle)
  stops :
      {l : Logger} {y : Syncing} {w : Option AsyncLogger}
      → stop_logger l.async_logger ≡ ok w
      → LoggerStep (l, y) [] [] (record l { async_logger = w }, y)
  app_stops :
      {l : Logger} {y : Syncing} {w : Option AsyncLogger}
      → stop_logger l.async_app_logger ≡ ok w
      → LoggerStep (l, y) [] [] (record l { async_app_logger = w }, y)
  turns :
      {l : Logger} {y : Syncing} (t : Turn) {a a' : AsyncLogger}
      → l.async_logger ≡ some a
      → a.returned ≡ false
      → turn t a ≡ some (ok a')
      → LoggerStep (l, y) [] [] (record l { async_logger = some a' }, y)
  app_turns :
      {l : Logger} {y : Syncing} (t : Turn) {a a' : AsyncLogger}
      → l.async_app_logger ≡ some a
      → a.returned ≡ false
      → turn t a ≡ some (ok a')
      → LoggerStep (l, y) [] [] (record l { async_app_logger = some a' }, y)

-- Any interleaving of them.
pub data LoggerSteps (l : Logger × Syncing)
    : List Text → List Text → Logger × Syncing → Type 0 where
  here : LoggerSteps l [] [] l
  next :
      {rs qs rs' qs' : List Text} {m n : Logger × Syncing}
      → LoggerSteps l rs qs m
      → LoggerStep m rs' qs' n
      → LoggerSteps l (rs ++ rs') (qs ++ qs') n

-- The two queues have got the lines `rs` and `qs`.
pub record Queued (l : Logger × Syncing) (rs qs : List Text) (l' : Logger × Syncing) : Type 0 where
  pub async : IsAsync l'.0
  pub rpc : rpc_queue l' ≡ rpc_queue l ++ non_empty rs
  pub app : app_queue l' ≡ app_queue l ++ non_empty qs

appended_behind :
    (w : Option AsyncLogger) (hs ss : List Text) (s : Text)
    → line_stream w (hs ++ (ss ++ (s ∷ []))) ≡ line_stream w (hs ++ ss) ++ non_empty (s ∷ [])
appended_behind w hs ss s =
    ap (line_stream w) (sym (append_assoc hs ss (s ∷ [])))
    ∙ line_stream-append w (hs ++ ss) (s ∷ [])

pub push_log-Queued :
    (s : Text) (l : Logger) (y : Syncing) → IsAsync l → Queued (l, y) (s ∷ []) [] (push_log s l, y)
unfolding push_log non_empty
push_log-Queued s l y a =
    if_elim (λ l'. Queued (l, y) (s ∷ []) [] (l', y)) (l.log_type == 0) _ _
      (λ e. absurd (a.typed ((==_iff l.log_type 0).0 e)))
      (λ e. record {
        async = record { typed = a.typed; rpc = a.rpc; app = a.app };
        rpc = appended_behind l.async_logger (held y) l.buffers s;
        app = sym (append-nil (app_queue (l, y)));
      })

hand_over-some :
    (ss : List Text) (w : Option AsyncLogger) (a : AsyncLogger) {v : Option AsyncLogger}
    → w ≡ some a
    → hand_over ss w ≡ ok v
    → (b : AsyncLogger) × (v ≡ some b)
unfolding hand_over
hand_over-some [] w a e h = (a, sym (ok-injective h) ∙ e)
hand_over-some (s ∷ ss) none a e h = absurd (none-ne-some e)
hand_over-some (s ∷ ss) (some c) a e h = (push_log_buffer (s ∷ ss) c, sym (ok-injective h))

stop_logger-stream :
    (w : Option AsyncLogger) (ss : List Text) {v : Option AsyncLogger}
    → stop_logger w ≡ ok v
    → (line_stream v ss ≡ line_stream w ss) × ((b : AsyncLogger) × (v ≡ some b))
unfolding stop_logger stop_writer line_stream stream written waiting
stop_logger-stream none ss h = absurd (ok-ne-fault (sym h))
stop_logger-stream (some a) ss h =
    subst (λ v. (line_stream v ss ≡ line_stream (some a) ss) × ((b : AsyncLogger) × (v ≡ some b)))
      (ok-injective h) (refl, (stop_writer a, refl))

-- A turn of a thread moves lines from the front of what waits to what is written.
turn-line_stream :
    (t : Turn) (w : Option AsyncLogger) (ss : List Text) {a a' : AsyncLogger}
    → w ≡ some a
    → turn t a ≡ some (ok a')
    → line_stream (some a') ss ≡ line_stream w ss
unfolding line_stream
turn-line_stream t w ss {a} {a'} e h =
    ap (λ r. r ++ non_empty ss) (turn-stream t a h) ∙ ap (λ v. line_stream v ss) (sym e)

-- What is given to a thread leaves the queue as it is.
hand_over-keeps :
    (ss gathered : List Text) (w : Option AsyncLogger) {w' : Option AsyncLogger}
    → hand_over ss w ≡ ok w'
    → line_stream w' gathered ≡ line_stream w (ss ++ gathered) ++ []
hand_over-keeps ss gathered w {w'} h =
    line_stream-append w' [] gathered
    ∙ ap (λ r. r ++ non_empty gathered) (hand_over-stream ss w h)
    ∙ sym (line_stream-append w ss gathered)
    ∙ sym (append-nil (line_stream w (ss ++ gathered)))

LoggerStep-Queued :
    {l l' : Logger × Syncing} {rs qs : List Text}
    → IsAsync l.0
    → LoggerStep l rs qs l'
    → Queued l rs qs l'
unfolding non_empty push_app_log
LoggerStep-Queued a (logs {l} {y} s) = push_log-Queued s l y a
LoggerStep-Queued a (app_logs {l} {y} s) = record {
  async = record { typed = a.typed; rpc = a.rpc; app = a.app };
  rpc = sym (append-nil (rpc_queue (l, y)));
  app = appended_behind l.async_app_logger (app_held y) l.app_buffers s;
}
LoggerStep-Queued a (swaps {l}) = record {
  async = record { typed = a.typed; rpc = a.rpc; app = a.app };
  rpc =
      ap (line_stream l.async_logger) (append-nil l.buffers)
      ∙ sym (append-nil (rpc_queue (l, idle)));
  app = sym (append-nil (app_queue (l, idle)));
}
LoggerStep-Queued a (hands {l} {ss} h) = record {
  async = record {
    typed = a.typed;
    rpc = hand_over-some ss l.async_logger a.rpc.0 a.rpc.1 h;
    app = a.app;
  };
  rpc = hand_over-keeps ss l.buffers l.async_logger h;
  app = sym (append-nil (app_queue (l, between)));
}
LoggerStep-Queued a (app_swaps {l}) = record {
  async = record { typed = a.typed; rpc = a.rpc; app = a.app };
  rpc = sym (append-nil (rpc_queue (l, between)));
  app =
      ap (line_stream l.async_app_logger) (append-nil l.app_buffers)
      ∙ sym (append-nil (app_queue (l, between)));
}
LoggerStep-Queued a (app_hands {l} {ss} h) = record {
  async = record {
    typed = a.typed;
    rpc = a.rpc;
    app = hand_over-some ss l.async_app_logger a.app.0 a.app.1 h;
  };
  rpc = sym (append-nil (rpc_queue (l, app_holding ss)));
  app = hand_over-keeps ss l.app_buffers l.async_app_logger h;
}
LoggerStep-Queued a (stops {l} {y} h) =
    let (x, c) = stop_logger-stream l.async_logger (held y ++ l.buffers) h in
    record {
      async = record { typed = a.typed; rpc = c; app = a.app };
      rpc = x ∙ sym (append-nil (rpc_queue (l, y)));
      app = sym (append-nil (app_queue (l, y)));
    }
LoggerStep-Queued a (app_stops {l} {y} h) =
    let (x, c) = stop_logger-stream l.async_app_logger (app_held y ++ l.app_buffers) h in
    record {
      async = record { typed = a.typed; rpc = a.rpc; app = c };
      rpc = sym (append-nil (rpc_queue (l, y)));
      app = x ∙ sym (append-nil (app_queue (l, y)));
    }
LoggerStep-Queued a (turns {l} {y} t {a' = b'} e r h) = record {
  async = record { typed = a.typed; rpc = (b', refl); app = a.app };
  rpc =
      turn-line_stream t l.async_logger (held y ++ l.buffers) e h
      ∙ sym (append-nil (rpc_queue (l, y)));
  app = sym (append-nil (app_queue (l, y)));
}
LoggerStep-Queued a (app_turns {l} {y} t {a' = b'} e r h) = record {
  async = record { typed = a.typed; rpc = a.rpc; app = (b', refl) };
  rpc = sym (append-nil (rpc_queue (l, y)));
  app =
      turn-line_stream t l.async_app_logger (app_held y ++ l.app_buffers) e h
      ∙ sym (append-nil (app_queue (l, y)));
}

pub LoggerSteps-Queued :
    (l : Logger × Syncing) {rs qs : List Text} {l' : Logger × Syncing}
    → IsAsync l.0
    → LoggerSteps l rs qs l'
    → Queued l rs qs l'
unfolding non_empty
LoggerSteps-Queued l a here = record {
  async = a;
  rpc = sym (append-nil (rpc_queue l));
  app = sym (append-nil (app_queue l));
}
LoggerSteps-Queued l a (next {rs} {qs} {rs'} {qs'} ss s) =
    let k = LoggerSteps-Queued l a ss in
    let j = LoggerStep-Queued k.async s in
    record {
      async = j.async;
      rpc = j.rpc ∙ appended (rpc_queue l) rs rs' k.rpc;
      app = j.app ∙ appended (app_queue l) qs qs' k.app;
    }
  where
    appended :
        (ys ts us : List Text) {xs : List Text}
        → xs ≡ ys ++ non_empty ts
        → xs ++ non_empty us ≡ ys ++ non_empty (ts ++ us)
    appended ys ts us e =
        ap (λ r. r ++ non_empty us) e
        ∙ append_assoc ys (non_empty ts) (non_empty us)
        ∙ ap (λ r. ys ++ r) (sym (non_empty-append ts us))
