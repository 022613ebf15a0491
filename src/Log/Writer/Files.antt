-- ===== src/Log/Writer/Files.antt =====
-- AsyncLogger: which file the lines of a turn go to.
use rpc4grad.Prelude.{
  ◌+◌, ◌^◌, ◌≤◌, ◌<◌, ◌≡◌, refl, sym, ap, ◌∙◌, arith, Bool, true, false, Bool-cases, some, inl, inr,
  List, [], ◌∷◌, ◌++◌, append-nil, append_assoc, map, ltb, if_elim, ok,
}
use rpc4grad.MsgId.{is_empty}
use rpc4grad.Log.Writer.{
  Text, lt_ℤ, AsyncLogger, Turn, log_file_name, rotate, write_all, leave, write_batch, turn,
}
use rpc4grad.Log.Writer.Fifo.{non_empty}
use rpc4grad.Log.Writer.Quiet.{ready, ready-IsQuiet, rotate-IsQuiet}
use rpc4grad.Log.Writer.Named.{IsNamed, IsDated, HasFile, ready-HasFile}

-- The lines of a turn, each with the file that it goes to.
abbrev pub to_file : Text → List Text → List (Text × Text)
to_file f ss = map (λ s. (f, s)) ss

-- `m` is `l` on the day `today` with the right file open, at most one number further.
record IsWriting (l : AsyncLogger) (today : Text) (m : AsyncLogger) : Type 0 where
  date : m.date ≡ today
  path : m.file_path ≡ l.file_path
  name : m.file_name ≡ l.file_name
  no_le : m.no ≤ l.no + 1
  settled : m.reopen_flag ≡ false
  file : m.file ≡ some (log_file_name l today m.no)

rotate-IsWriting :
    (t : Turn) (l m : AsyncLogger)
    → t.reopened ≡ true
    → l.no + 1 < 2 ^ 31
    → IsDated l t.today m
    → HasFile l t.today m
    → (m' : AsyncLogger) × (rotate t m ≡ ok m') × IsWriting l t.today m'
unfolding rotate HasFile log_file_name
rotate-IsWriting t l m o small d (r, f) = elim (Bool-cases (lt_ℤ m.max_file_size t.told)) [
  | inl big ↦
      let fits : ltb (m.no + 1) (2 ^ 31) ≡ true = ground (arith, d.no_le, small) in
      (
        record m {
          no = m.no + 1;
          file = some (log_file_name l t.today (m.no + 1));
          reopen_flag = false;
        },
        simp (rotate, f, big, fits, o, d.path, d.name, log_file_name),
        record {
          date = d.date;
          path = d.path;
          name = d.name;
          no_le = omega (arith, d.no_le);
          settled = refl;
          file = refl;
        },
      )
  | inr big ↦ (
    m,
    simp (rotate, f, big),
    record {
      date = d.date;
      path = d.path;
      name = d.name;
      no_le = omega (arith, d.no_le);
      settled = r;
      file = f;
    },
  )
]

write_all-to_file :
    (ss : List Text) (f : Text) (m : AsyncLogger)
    → m.file ≡ some f
    → write_all ss m ≡ ok (record m { writes = m.writes ++ to_file f (non_empty ss) })
unfolding write_all non_empty is_empty
write_all-to_file [] f m e = ap (λ w. ok (record m { writes = w })) (sym (append-nil m.writes))
write_all-to_file ([] ∷ ss) f m e = write_all-to_file ss f m e
write_all-to_file ((c ∷ cs) ∷ ss) f m e =
    let m' = record m { writes = m.writes ++ ((f, c ∷ cs) ∷ []) } in
    let first : write_all ((c ∷ cs) ∷ ss) m ≡ write_all ss m' = simp (write_all, e) in
    first
    ∙ write_all-to_file ss f m' e
    ∙ ap (λ w. ok (record m { writes = w }))
        (append_assoc m.writes ((f, c ∷ cs) ∷ []) (to_file f (non_empty ss)))

-- What fopen gives in a turn is no null pointer.
pub record IsOpening (t : Turn) : Type 0 where
  pub opened : t.opened ≡ true
  pub reopened : t.reopened ≡ true

-- The batch of a turn has gone to one file of the day.
pub record WroteTo (t : Turn) (batch : List Text) (l l' : AsyncLogger) : Type 0 where
  pub named : IsNamed l'
  pub date : l'.date ≡ t.today
  pub no_le : l'.no ≤ l.no + 1
  pub writes : l'.writes ≡ l.writes ++ to_file (log_file_name l t.today l'.no) (non_empty batch)

sent-WroteTo :
    (t : Turn) (batch : List Text) (l m : AsyncLogger) (b : Bool)
    → m.writes ≡ l.writes
    → IsWriting l t.today m
    → WroteTo t batch l (record m {
      writes = m.writes ++ to_file (log_file_name l t.today m.no) (non_empty batch);
      returned = b;
    })
unfolding log_file_name
sent-WroteTo t batch l m b q w = record {
  named = record {
    settled = w.settled;
    named = inr (w.file ∙ simp (log_file_name, w.path, w.name, w.date));
  };
  date = w.date;
  no_le = w.no_le;
  writes = ap (λ v. v ++ to_file (log_file_name l t.today m.no) (non_empty batch)) q;
}

leave-WroteTo :
    (t : Turn) (batch : List Text) (l m : AsyncLogger)
    → m.writes ≡ l.writes
    → IsWriting l t.today m
    → WroteTo t batch l (
        leave (record m {
          writes = m.writes ++ to_file (log_file_name l t.today m.no) (non_empty batch);
        }))
unfolding leave
leave-WroteTo t batch l m q w =
    if_elim (WroteTo t batch l) m.stop_flag _ _ (λ e. sent-WroteTo t batch l m true q w)
      (λ e. sent-WroteTo t batch l m m.returned q w)

write_batch-leave :
    (t : Turn) (batch : List Text) (f : Text) (l m : AsyncLogger)
    → rotate t (ready t l) ≡ ok m
    → m.file ≡ some f
    → write_batch t batch l
      ≡ ok (leave (record m { writes = m.writes ++ to_file f (non_empty batch) }))
unfolding write_batch
write_batch-leave t batch f l m r e = simp (write_batch, r, write_all-to_file batch f m e)

-- The queue has no part in which file is open.
IsWriting-taken :
    (rest : List (List Text)) (today : Text) (l m : AsyncLogger)
    → IsWriting (record l { buffers = rest }) today m
    → IsWriting l today m
unfolding log_file_name
IsWriting-taken rest today l m w = record {
  date = w.date;
  path = w.path;
  name = w.name;
  no_le = w.no_le;
  settled = w.settled;
  file = w.file;
}

IsNamed-taken :
    (rest : List (List Text)) (l : AsyncLogger) → IsNamed l → IsNamed (record l { buffers = rest })
unfolding log_file_name
IsNamed-taken rest l n = record { settled = n.settled; named = n.named }

-- If both calls of fopen succeed and the number of the file stays below 2 ^ 31, a turn that finds a
-- batch ends without a fault: every non-empty line of the batch is written, in order, to the one
-- file whose name has the date of the turn and the logger's new number, and the open file is again
-- the one that the date and the number name.
pub turn-to_file :
    (t : Turn) (batch : List Text) (rest : List (List Text)) (l : AsyncLogger)
    → IsNamed l
    → IsOpening t
    → l.no + 1 < 2 ^ 31
    → l.buffers ≡ batch ∷ rest
    → (l' : AsyncLogger) × (turn t l ≡ some (ok l')) × WroteTo t batch l l'
unfolding turn
turn-to_file t batch rest l n o small q =
    let taken = record l { buffers = rest } in
    let (d, f) = ready-HasFile t taken (IsNamed-taken rest l n) o.opened in
    let (m, r, w) = rotate-IsWriting t taken (ready t taken) o.reopened small d f in
    let w' = IsWriting-taken rest t.today l m w in
    let kept = (rotate-IsQuiet t (ready t taken) r).writes ∙ (ready-IsQuiet t taken).writes in
    let ran = write_batch-leave t batch (log_file_name l t.today m.no) taken m r w'.file in
    (_, simp (turn, q, ran), leave-WroteTo t batch l m kept w')
