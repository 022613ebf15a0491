-- ===== src/Log/Logger.antt =====
-- log.cpp: Logger, which gathers lines until syncLoop hands them to the two threads. Here a
-- function runs with nothing between its locks; Steps takes each lock by itself.
pub mod Streams
pub mod Steps
pub mod Overlaps
pub mod Ends
use rpc4grad.Prelude.{
  ℕ, Bool, true, false, Option, none, some, List, [], ◌∷◌, ◌++◌, ◌&&◌, length, ltb, ◌==◌,
  if◌then◌else◌, Outcome, ok, fault, null_pointer, ◌>>=◌,
}
use rpc4grad.Prelude.Int.{ℤ}
use rpc4grad.Config.{Config}
use rpc4grad.Log.Level.{
  LogLevel, Macro, debuglog, infolog, errorlog, appdebuglog, appinfolog, apperrorlog, is_logged,
  string_to_log_level,
}
use rpc4grad.Log.Writer.{Text, AsyncLogger, new_async_logger, push_log_buffer, stop_writer}

-- `log_type` is m_type: 0 writes to std::cout, and else the threads write. `printed` is what
-- std::cout has got; `timer_interval` is that of m_timer_event, `none` a null pointer.
pub record Logger : Type 0 where
  pub set_level : LogLevel
  pub log_type : ℕ
  pub buffers : List Text
  pub app_buffers : List Text
  pub async_logger : Option AsyncLogger
  pub async_app_logger : Option AsyncLogger
  pub timer_interval : Option ℤ
  pub printed : List Text

abbrev writer_for : Config → Text → AsyncLogger
writer_for c suffix =
    new_async_logger (c.log_file_name ++ suffix) c.log_file_path c.log_max_file_size

abbrev suffix_rpc : Text
suffix_rpc = b'_' ∷ b'r' ∷ b'p' ∷ b'c' ∷ []

abbrev suffix_app : Text
suffix_app = b'_' ∷ b'a' ∷ b'p' ∷ b'p' ∷ []

abbrev blank_logger : LogLevel → ℕ → Logger
blank_logger level log_type = record {
  set_level = level;
  log_type = log_type;
  buffers = [];
  app_buffers = [];
  async_logger = none;
  async_app_logger = none;
  timer_interval = none;
  printed = [];
}

-- Logger(level, type), with what GetGlobalConfig gives.
unfoldable pub new_logger : Option Config → LogLevel → ℕ → Outcome Logger
unfolding new_async_logger
new_logger config level log_type = elim (log_type == 0) [
  | true ↦ ok (blank_logger level log_type)
  | false ↦ elim config [
    | none ↦ fault null_pointer
    | some c ↦ ok (record (blank_logger level log_type) {
      async_logger = some (writer_for c suffix_rpc);
      async_app_logger = some (writer_for c suffix_app);
    })
  ]
]

-- Logger::init. The signal handlers call flush.
unfoldable pub init_logger : Option Config → Logger → Outcome Logger
init_logger config l = elim (l.log_type == 0) [
  | true ↦ ok l
  | false ↦ elim config [
    | none ↦ fault null_pointer
    | some c ↦ ok (record l { timer_interval = some c.log_flush_interval })
  ]
]

unfoldable pub init_global_logger : Option Config → ℕ → Outcome Logger
unfolding string_to_log_level new_logger init_logger
init_global_logger none log_type = fault null_pointer
init_global_logger (some c) log_type =
    new_logger (some c) (string_to_log_level c.log_level) log_type >>= init_logger (some c)

unfoldable pub push_log : Text → Logger → Logger
push_log msg l =
    if l.log_type == 0
    then record l { printed = l.printed ++ (msg ∷ []) }
    else record l { buffers = l.buffers ++ (msg ∷ []) }

-- The type is not asked for here.
unfoldable pub push_app_log : Text → Logger → Logger
push_app_log msg l = record l { app_buffers = l.app_buffers ++ (msg ∷ []) }

abbrev push_for : Macro → Text → Logger → Logger
push_for debuglog = push_log
push_for infolog = push_log
push_for errorlog = push_log
push_for appdebuglog = push_app_log
push_for appinfolog = push_app_log
push_for apperrorlog = push_app_log

-- A macro with its line; `max_size` is that of std::string.
unfoldable pub log_macro : ℕ → Macro → Text → Logger → Logger
unfolding is_logged push_log push_app_log
log_macro max_size m line l =
    if is_logged m l.set_level && ltb (length line) max_size then push_for m line l else l

-- What is swapped out goes to the thread, unless it is empty.
unfoldable pub hand_over : List Text → Option AsyncLogger → Outcome (Option AsyncLogger)
unfolding push_log_buffer
hand_over [] w = ok w
hand_over (s ∷ ss) none = fault null_pointer
hand_over (s ∷ ss) (some a) = ok (some (push_log_buffer (s ∷ ss) a))

unfoldable pub sync_loop : Logger → Outcome Logger
unfolding hand_over
sync_loop l = hand_over l.buffers l.async_logger >>= λ w.
    hand_over l.app_buffers l.async_app_logger >>= λ v.
    ok (record l { buffers = []; app_buffers = []; async_logger = w; async_app_logger = v })

unfoldable pub stop_logger : Option AsyncLogger → Outcome (Option AsyncLogger)
unfolding stop_writer
stop_logger none = fault null_pointer
stop_logger (some a) = ok (some (stop_writer a))

-- Logger::flush. AsyncLogger::flush only calls fflush once more.
unfoldable pub flush : Logger → Outcome Logger
unfolding sync_loop stop_logger
flush l = sync_loop l >>= λ l'. stop_logger l'.async_logger >>= λ w.
    stop_logger l'.async_app_logger >>= λ v.
    ok (record l' { async_logger = w; async_app_logger = v })

-- ~Logger
unfoldable pub destroy_logger : Logger → Outcome (Unit {0})
destroy_logger l = elim l.timer_interval [ none ↦ fault null_pointer | some i ↦ ok tt ]
