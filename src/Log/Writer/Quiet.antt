-- ===== src/Log/Writer/Quiet.antt =====
-- AsyncLogger: the parts of a turn that look after the file leave the queue alone.
use rpc4grad.Prelude.{◌≡◌, refl, ◌∙◌, arith, Option-cases, inl, inr, if_elim, ok}
use rpc4grad.Log.Writer.{Text, AsyncLogger, Turn, change_date, need_file, reopen, rotate}

-- A part of a turn that only looks after the file.
pub record IsQuiet (l l' : AsyncLogger) : Type 0 where
  pub buffers : l'.buffers ≡ l.buffers
  pub writes : l'.writes ≡ l.writes
  pub stop_flag : l'.stop_flag ≡ l.stop_flag
  pub returned : l'.returned ≡ l.returned

quiet : {l : AsyncLogger} → IsQuiet l l
quiet = record { buffers = refl; writes = refl; stop_flag = refl; returned = refl }

pub IsQuiet-trans : {l m n : AsyncLogger} → IsQuiet l m → IsQuiet m n → IsQuiet l n
IsQuiet-trans p q = record {
  buffers = q.buffers ∙ p.buffers;
  writes = q.writes ∙ p.writes;
  stop_flag = q.stop_flag ∙ p.stop_flag;
  returned = q.returned ∙ p.returned;
}

change_date-IsQuiet : (today : Text) (l : AsyncLogger) → IsQuiet l (change_date today l)
unfolding change_date
change_date-IsQuiet today l =
    if_elim (IsQuiet l) _ _ _ (λ e. quiet)
      (λ e. record { buffers = refl; writes = refl; stop_flag = refl; returned = refl })

need_file-IsQuiet : (l : AsyncLogger) → IsQuiet l (need_file l)
unfolding need_file
need_file-IsQuiet l = elim (Option-cases l.file) [
  | inl e ↦ rw (e) (record { buffers = refl; writes = refl; stop_flag = refl; returned = refl })
  | inr (f, e) ↦ rw (e) quiet
]

reopen-IsQuiet : (t : Turn) (l : AsyncLogger) → IsQuiet l (reopen t l)
unfolding reopen
reopen-IsQuiet t l =
    if_elim (IsQuiet l) _ _ _
      (λ e. record { buffers = refl; writes = refl; stop_flag = refl; returned = refl })
      (λ e. quiet)

pub rotate-IsQuiet :
    (t : Turn) (l : AsyncLogger) {l' : AsyncLogger} → rotate t l ≡ ok l' → IsQuiet l l'
unfolding rotate
rotate-IsQuiet t l h = record {
  buffers = ground arith;
  writes = ground arith;
  stop_flag = ground arith;
  returned = ground arith;
}

-- The logger when a turn has the file of the day.
abbrev pub ready : Turn → AsyncLogger → AsyncLogger
ready t l = reopen t (need_file (change_date t.today l))

pub ready-IsQuiet : (t : Turn) (l : AsyncLogger) → IsQuiet l (ready t l)
ready-IsQuiet t l =
    IsQuiet-trans (change_date-IsQuiet t.today l)
      (IsQuiet-trans (need_file-IsQuiet _) (reopen-IsQuiet t _))
