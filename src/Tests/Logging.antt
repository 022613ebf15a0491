-- ===== src/Tests/Logging.antt =====
-- log.cpp at a logger with two threads.
use rpc4grad.Prelude.{
  ◌≤◌, ◌≡◌, ◌≢◌, ◌↔◌, ◌⊎◌, refl, arith, true, false, Option, none, some, inl, List, [], ◌∷◌, ◌++◌,
  ok,
}
use rpc4grad.Prelude.Int.{pos}
use rpc4grad.Log.Level.{debug, unknown, debuglog, level_number, level_of, is_logged, is_logged_iff}
use rpc4grad.Log.Writer.{
  Text, AsyncLogger, new_async_logger, Turn, turn, run_turns, push_log_buffer, stop_writer,
}
use rpc4grad.Log.Writer.Fifo.{non_empty, written}
use rpc4grad.Log.Writer.Named.{IsNamed}
use rpc4grad.Log.Writer.Files.{IsOpening, WroteTo, turn-to_file}
use rpc4grad.Log.Writer.Drain.{IsRunning, run_turns-stopped}
use rpc4grad.Log.Logger.{Logger, push_log, hand_over, sync_loop, stop_logger, flush}
use rpc4grad.Log.Logger.Streams.{rpc_stream, line_stream}
use rpc4grad.Log.Logger.Overlaps.{flush-overtakes}
use rpc4grad.Log.Logger.Steps.{IsAsync}
use rpc4grad.Log.Logger.Ends.{sync_loop-written, flush-waits}

-- The macros at the level Unknown.
is_logged_iff_example : (is_logged debuglog unknown ≡ true) ↔ (
    (level_number unknown ≤ level_number (level_of debuglog))
    × ((debuglog ≢ debuglog) ⊎ (unknown ≢ unknown)))
is_logged_iff_example = is_logged_iff debuglog unknown

-- A turn on a day 5 after whose first file is full.
abbrev day : Turn
day = record { today = b'5' ∷ []; opened = true; told = pos 11; reopened = true }

day-IsOpening : IsOpening day
day-IsOpening = record { opened = refl; reopened = refl }

abbrev writer : AsyncLogger
writer = new_async_logger (b'f' ∷ []) (b'p' ∷ []) (pos 10)

writer-IsNamed : IsNamed writer
unfolding new_async_logger
writer-IsNamed = record { settled = refl; named = inl refl }

writer-IsRunning : IsRunning writer
unfolding new_async_logger
writer-IsRunning = record { going = refl; inside = refl }

-- Two batches, the first of two lines one of which is empty.
abbrev line : Text
line = b'a' ∷ []

abbrev batch : List Text
batch = line ∷ [] ∷ []

abbrev full_writer : AsyncLogger
full_writer = record {
  buffers = batch ∷ batch ∷ [];
  file_name = b'f' ∷ [];
  file_path = b'p' ∷ [];
  no = 0;
  max_file_size = pos 10;
  date = [];
  file = none;
  reopen_flag = false;
  stop_flag = false;
  writes = [];
  returned = false;
}

full_writer-IsNamed : IsNamed full_writer
full_writer-IsNamed = record { settled = refl; named = inl refl }

turn-to_file_example :
    (l' : AsyncLogger) × (turn day full_writer ≡ some (ok l')) × WroteTo day batch full_writer l'
turn-to_file_example =
    turn-to_file day batch (batch ∷ []) full_writer full_writer-IsNamed day-IsOpening (omega arith)
      refl

run_turns-stopped_example :
    (l' : AsyncLogger) × (run_turns (day ∷ day ∷ []) (stop_writer full_writer) ≡ ok l')
    × (written l' ≡ written full_writer ++ non_empty batch)
    × (l'.buffers ≡ batch ∷ [])
    × (l'.returned ≡ true)
run_turns-stopped_example =
    run_turns-stopped day (day ∷ []) batch (batch ∷ []) full_writer full_writer-IsNamed
      day-IsOpening (omega arith) refl refl

-- A logger that has gathered a line.
abbrev logger : Logger
logger = record {
  set_level = debug;
  log_type = 1;
  buffers = line ∷ [];
  app_buffers = [];
  async_logger = some full_writer;
  async_app_logger = some writer;
  timer_interval = some (pos 500);
  printed = [];
}

logger-IsAsync : IsAsync logger
logger-IsAsync = record {
  typed = λ e. ground (arith, e);
  rpc = (full_writer, refl);
  app = (writer, refl);
}

sync_loop-written_example :
    (l' : Logger) × (b : AsyncLogger) × (a' : AsyncLogger) × (sync_loop logger ≡ ok l')
    × (l'.async_logger ≡ some b)
    × (run_turns (day ∷ day ∷ day ∷ []) b ≡ ok a')
    × (written a' ≡ rpc_stream logger)
    × (a'.buffers ≡ [])
sync_loop-written_example =
    sync_loop-written (day ∷ day ∷ day ∷ []) line [] full_writer logger logger-IsAsync refl refl
      full_writer-IsNamed (record { going = refl; inside = refl })
      (day-IsOpening, (day-IsOpening, (day-IsOpening, tt))) (omega arith) (omega arith)

flush-waits_example :
    (l' : Logger) × (a' : AsyncLogger) × (flush logger ≡ ok l')
    × (l'.async_app_logger ≡ some a')
    × (a'.returned ≡ false)
    × ((t : Turn) → turn t a' ≡ none)
unfolding new_async_logger
flush-waits_example = flush-waits logger writer full_writer refl refl refl refl refl

-- A syncLoop with a line logged between its first swap and push.
abbrev swapped : Logger
swapped = record logger { buffers = [] }

abbrev handed : Logger
handed = record (push_log line swapped) {
  async_logger = some (push_log_buffer (line ∷ []) full_writer);
}

-- The lines of the handler, which flushes between a swap and its push.
abbrev flushed : Logger
flushed = elim (flush (push_log line swapped)) [ ok l ↦ l | _ ↦ logger ]

flushed-flush : flush (push_log line swapped) ≡ ok flushed
unfolding flush sync_loop hand_over push_log stop_logger
flushed-flush = refl

abbrev late_writer : Option AsyncLogger
late_writer = elim (hand_over logger.buffers flushed.async_logger) [ ok w ↦ w | _ ↦ none ]

handed_late : hand_over logger.buffers flushed.async_logger ≡ ok late_writer
unfolding flush sync_loop hand_over push_log stop_logger
handed_late = refl

flush-overtakes_example :
    line_stream late_writer flushed.buffers
    ≡ line_stream logger.async_logger [] ++ (non_empty (line ∷ []) ++ non_empty logger.buffers)
flush-overtakes_example = flush-overtakes logger line logger-IsAsync flushed-flush handed_late
