-- ===== src/Log/Writer.antt =====
-- log.cpp: AsyncLogger. A turn is one round of the `while` in Loop; what strftime, fopen and ftell
-- give in it is an argument. The lock makes taking a batch one step.
pub mod Quiet
pub mod Fifo
pub mod Named
pub mod Files
pub mod Drain
use rpc4grad.Prelude.{
  ℕ, ◌+◌, ◌^◌, Bool, true, false, Option, none, some, List, [], ◌∷◌, ◌++◌, map, ltb, if◌then◌else◌,
  Outcome, ok, fault, require, null_pointer, signed_overflow, ◌>>=◌, ◌>>◌,
}
use rpc4grad.Prelude.Int.{ℤ, pos, negsuc}
use rpc4grad.MsgId.{str_eq, is_empty}
use rpc4grad.NetAddr.{decimal}

abbrev pub Text : Type 0
Text = List ℕ

-- `file` is the name that m_file_handler was opened with, `none` a null pointer. `writes` are the
-- calls of fwrite so far, `returned` tells that the thread has left Loop.
pub record AsyncLogger : Type 0 where
  pub buffers : List (List Text)
  pub file_name : Text
  pub file_path : Text
  pub no : ℕ
  pub max_file_size : ℤ
  pub date : Text
  pub file : Option Text
  pub reopen_flag : Bool
  pub stop_flag : Bool
  pub writes : List (Text × Text)
  pub returned : Bool

unfoldable pub new_async_logger : Text → Text → ℤ → AsyncLogger
new_async_logger file_name file_path max_size = record {
  buffers = [];
  file_name = file_name;
  file_path = file_path;
  no = 0;
  max_file_size = max_size;
  date = [];
  file = none;
  reopen_flag = false;
  stop_flag = false;
  writes = [];
  returned = false;
}

-- What a turn meets: the date, whether each fopen succeeds, and what ftell gives.
pub record Turn : Type 0 where
  pub today : Text
  pub opened : Bool
  pub told : ℤ
  pub reopened : Bool

abbrev pub lt_ℤ : ℤ → ℤ → Bool
lt_ℤ (negsuc m) (pos n) = true
lt_ℤ (negsuc m) (negsuc n) = ltb n m
lt_ℤ (pos m) (pos n) = ltb m n
lt_ℤ (pos m) (negsuc n) = false

-- The name of the file with a date and a number.
unfoldable pub log_file_name : AsyncLogger → Text → ℕ → Text
unfolding decimal
log_file_name l date number =
    l.file_path
    ++ (b'/' ∷ l.file_name
        ++ (b'_' ∷ date ++ (b'_' ∷ b'l' ∷ b'o' ∷ b'g' ∷ b'.' ∷ decimal 10 number)))

-- A new day starts with number 0.
unfoldable pub change_date : Text → AsyncLogger → AsyncLogger
change_date today l =
    if str_eq today l.date then l else record l { reopen_flag = true; no = 0; date = today }

unfoldable pub need_file : AsyncLogger → AsyncLogger
need_file l = elim l.file [ none ↦ record l { reopen_flag = true } | some f ↦ l ]

abbrev pub open_file : Bool → Text → Option Text
open_file true name = some name
open_file false name = none

-- fclose of the old file and fopen of the new one, for appending.
unfoldable pub reopen : Turn → AsyncLogger → AsyncLogger
unfolding log_file_name
reopen t l =
    if l.reopen_flag
    then record l { file = open_file t.opened (log_file_name l t.today l.no); reopen_flag = false }
    else l

-- ftell of a null pointer is undefined, and so is ++ of the greatest int.
unfoldable pub rotate : Turn → AsyncLogger → Outcome AsyncLogger
unfolding log_file_name
rotate t l = elim l.file [
  | none ↦ fault null_pointer
  | some f ↦
      if lt_ℤ l.max_file_size t.told
      then require (ltb (l.no + 1) (2 ^ 31)) signed_overflow
        >> ok (record l {
          no = l.no + 1;
          file = open_file t.reopened (log_file_name l t.today (l.no + 1));
          reopen_flag = false;
        })
      else ok l
]

-- Empty texts are passed over. fwrite to a null pointer is undefined; fflush of one flushes every stream.
unfoldable pub write_all : List Text → AsyncLogger → Outcome AsyncLogger
write_all [] l = ok l
write_all (s ∷ ss) l = elim (is_empty s) [
  | true ↦ write_all ss l
  | false ↦ elim l.file [
    | none ↦ fault null_pointer
    | some f ↦ write_all ss (record l { writes = l.writes ++ ((f, s) ∷ []) })
  ]
]

unfoldable pub leave : AsyncLogger → AsyncLogger
leave l = if l.stop_flag then record l { returned = true } else l

-- A turn with the batch that it has taken.
unfoldable pub write_batch : Turn → List Text → AsyncLogger → Outcome AsyncLogger
unfolding change_date need_file reopen rotate write_all leave
write_batch t batch l = rotate t (reopen t (need_file (change_date t.today l))) >>= λ l'.
    write_all batch l' >>= λ l''. ok (leave l'')

-- `none` while there is no batch: the thread waits for the condition.
unfoldable pub turn : Turn → AsyncLogger → Option (Outcome AsyncLogger)
unfolding write_batch
turn t l = elim l.buffers [
  | [] ↦ none
  | batch ∷ rest ↦ some (write_batch t batch (record l { buffers = rest }))
]

-- Loop, for as many turns as are given: it ends earlier when the thread waits or has returned.
unfoldable pub run_turns : List Turn → AsyncLogger → Outcome AsyncLogger
unfolding turn
run_turns [] l = ok l
run_turns (t ∷ ts) l = elim l.returned [
  | true ↦ ok l
  | false ↦ elim (turn t l) [ none ↦ ok l | some r ↦ r >>= λ l'. run_turns ts l' ]
]

unfoldable pub push_log_buffer : List Text → AsyncLogger → AsyncLogger
push_log_buffer msg l = record l { buffers = l.buffers ++ (msg ∷ []) }

-- AsyncLogger::stop, which does not wake the thread.
unfoldable pub stop_writer : AsyncLogger → AsyncLogger
stop_writer l = record l { stop_flag = true }
