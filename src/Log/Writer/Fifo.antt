-- ===== src/Log/Writer/Fifo.antt =====
-- AsyncLogger as a queue: what has been written and what waits, in order.
use rpc4grad.Prelude.{
  none-ne-some, some-injective, ◌≡⟨◌⟩◌, ◌∎, subst, ok-injective, ◌||◌, ◌≡◌, refl, sym, ap, ◌∙◌,
  arith, true, false, some, Option-cases, inl, inr, List, [], ◌∷◌, ◌++◌, append-nil, append_assoc,
  if_elim, Outcome, ok, >>=-eq-ok, ok-ne-fault,
}
use rpc4grad.MsgId.{is_empty}
use rpc4grad.Log.Writer.{
  Text, AsyncLogger, Turn, rotate, write_all, leave, write_batch, turn, push_log_buffer,
}
use rpc4grad.Log.Writer.Quiet.{IsQuiet, IsQuiet-trans, rotate-IsQuiet, ready, ready-IsQuiet}

-- What is left of some texts without the empty ones, which no fwrite is made for.
unfoldable pub non_empty : List Text → List Text
non_empty [] = []
non_empty (s ∷ ss) = elim (is_empty s) [ true ↦ non_empty ss | false ↦ s ∷ non_empty ss ]

pub non_empty-append : (ss ts : List Text) → non_empty (ss ++ ts) ≡ non_empty ss ++ non_empty ts
unfolding non_empty is_empty
non_empty-append [] ts = refl
non_empty-append ([] ∷ ss) ts = non_empty-append ss ts
non_empty-append ((c ∷ cs) ∷ ss) ts = ap (λ r. (c ∷ cs) ∷ r) (non_empty-append ss ts)

unfoldable pub joined : List (List Text) → List Text
joined [] = []
joined (b ∷ bs) = b ++ joined bs

joined-append : (bs : List (List Text)) (b : List Text) → joined (bs ++ (b ∷ [])) ≡ joined bs ++ b
unfolding joined
joined-append [] b = append-nil b
joined-append (c ∷ bs) b =
    ap (λ r. c ++ r) (joined-append bs b) ∙ sym (append_assoc c (joined bs) b)

unfoldable pub texts_of : List (Text × Text) → List Text
texts_of [] = []
texts_of ((f, s) ∷ ws) = s ∷ texts_of ws

texts_of-append :
    (ws : List (Text × Text)) (f s : Text)
    → texts_of (ws ++ ((f, s) ∷ [])) ≡ texts_of ws ++ (s ∷ [])
unfolding texts_of
texts_of-append [] f s = refl
texts_of-append ((g, r) ∷ ws) f s = ap (λ q. r ∷ q) (texts_of-append ws f s)

-- The texts written so far, and behind them those of the batches that wait.
unfoldable pub written : AsyncLogger → List Text
written l = texts_of l.writes

unfoldable pub waiting : AsyncLogger → List Text
waiting l = non_empty (joined l.buffers)

unfoldable pub stream : AsyncLogger → List Text
stream l = written l ++ waiting l

-- The texts of `ss` have been written, and nothing else of the queue has changed.
pub record Wrote (ss : List Text) (l l' : AsyncLogger) : Type 0 where
  pub texts : written l' ≡ written l ++ non_empty ss
  pub buffers : l'.buffers ≡ l.buffers
  pub stop_flag : l'.stop_flag ≡ l.stop_flag
  pub returned : l'.returned ≡ l.returned

write_all-Wrote :
    (ss : List Text) (l : AsyncLogger) {l' : AsyncLogger} → write_all ss l ≡ ok l' → Wrote ss l l'
unfolding write_all written non_empty is_empty
write_all-Wrote [] l h = subst (Wrote [] l) (ok-injective h) (record {
  texts = sym (append-nil (written l));
  buffers = refl;
  stop_flag = refl;
  returned = refl;
})
write_all-Wrote ([] ∷ ss) l h =
    let w = write_all-Wrote ss l h in
    record { texts = w.texts; buffers = w.buffers; stop_flag = w.stop_flag; returned = w.returned }
write_all-Wrote ((c ∷ cs) ∷ ss) l {l'} h = elim (Option-cases l.file) [
  | inl e ↦ absurd (ok-ne-fault (sym (rw (write_all, e) at h)))
  | inr (f, e) ↦
      let l1 = record l { writes = l.writes ++ ((f, c ∷ cs) ∷ []) } in
      let w = write_all-Wrote ss l1 {l' = l'} (rw (write_all, e) at h) in
      record {
        texts =
            w.texts
            ∙ ap (λ r. r ++ non_empty ss) (texts_of-append l.writes f (c ∷ cs))
            ∙ append_assoc (written l) ((c ∷ cs) ∷ []) (non_empty ss);
        buffers = w.buffers;
        stop_flag = w.stop_flag;
        returned = w.returned;
      }
]

after_quiet : {ss : List Text} {l m n : AsyncLogger} → IsQuiet l m → Wrote ss m n → Wrote ss l n
unfolding written
after_quiet {ss} q w = record {
  texts = w.texts ∙ ap (λ r. texts_of r ++ non_empty ss) q.writes;
  buffers = w.buffers ∙ q.buffers;
  stop_flag = w.stop_flag ∙ q.stop_flag;
  returned = w.returned ∙ q.returned;
}

-- A turn that ends without a fault has written its batch; the thread returns if the flag is set.
pub record Turned (batch : List Text) (l l' : AsyncLogger) : Type 0 where
  pub texts : written l' ≡ written l ++ non_empty batch
  pub buffers : l'.buffers ≡ l.buffers
  pub stop_flag : l'.stop_flag ≡ l.stop_flag
  pub returned : l'.returned ≡ l.stop_flag || l.returned

leave-Turned : (batch : List Text) {l m : AsyncLogger} → Wrote batch l m → Turned batch l (leave m)
unfolding leave written
leave-Turned batch {l} {m} w =
    if_elim (Turned batch l) m.stop_flag _ _
      (λ e. record {
        texts = w.texts;
        buffers = w.buffers;
        stop_flag = w.stop_flag;
        returned = ground (arith, e, w.stop_flag);
      })
      (λ e. record {
        texts = w.texts;
        buffers = w.buffers;
        stop_flag = w.stop_flag;
        returned = ground (arith, e, w.stop_flag, w.returned);
      })

pub write_batch-Turned :
    (t : Turn) (batch : List Text) (l : AsyncLogger) {l' : AsyncLogger}
    → write_batch t batch l ≡ ok l'
    → Turned batch l l'
unfolding write_batch
write_batch-Turned t batch l {l'} h =
    let (m, r, rest) = >>=-eq-ok (rotate t (ready t l)) _ h in
    let (n, w, last) = >>=-eq-ok (write_all batch m) _ rest in
    let q = IsQuiet-trans (ready-IsQuiet t l) (rotate-IsQuiet t (ready t l) r) in
    subst (Turned batch l) (ok-injective last)
      (leave-Turned batch (after_quiet q (write_all-Wrote batch m w)))

-- A turn takes a batch from the front of the queue.
pub record Took (t : Turn) (l : AsyncLogger) (r : Outcome AsyncLogger) : Type 0 where
  pub batch : List Text
  pub rest : List (List Text)
  pub queued : l.buffers ≡ batch ∷ rest
  pub ran : write_batch t batch (record l { buffers = rest }) ≡ r

pub turn-Took :
    (t : Turn) (l : AsyncLogger) {r : Outcome AsyncLogger} → turn t l ≡ some r → Took t l r
unfolding turn
turn-Took t l {r} h = by_queue l.buffers refl
  where
    by_queue : (bs : List (List Text)) → l.buffers ≡ bs → Took t l r
    by_queue [] e = absurd (none-ne-some (rw (turn, e) at h))
    by_queue (b ∷ bs) e = record {
      batch = b;
      rest = bs;
      queued = e;
      ran = some-injective (rw (turn, e) at h);
    }

pub turn-stream :
    (t : Turn) (l : AsyncLogger) {l' : AsyncLogger} → turn t l ≡ some (ok l') → stream l' ≡ stream l
unfolding stream waiting written joined
turn-stream t l {l'} h =
    let k = turn-Took t l h in
    let w = write_batch-Turned t k.batch (record l { buffers = k.rest }) k.ran in
    stream l'
    ≡⟨ ap (λ r. r ++ non_empty (joined l'.buffers)) w.texts ⟩
      (written l ++ non_empty k.batch) ++ non_empty (joined l'.buffers)
    ≡⟨ ap (λ r. (written l ++ non_empty k.batch) ++ non_empty (joined r)) w.buffers ⟩
      (written l ++ non_empty k.batch) ++ non_empty (joined k.rest)
    ≡⟨ append_assoc (written l) (non_empty k.batch) (non_empty (joined k.rest)) ⟩
      written l ++ (non_empty k.batch ++ non_empty (joined k.rest))
    ≡⟨ ap (λ r. written l ++ r) (sym (non_empty-append k.batch (joined k.rest))) ⟩
      written l ++ non_empty (k.batch ++ joined k.rest)
    ≡⟨ ap (λ r. written l ++ non_empty (joined r)) (sym k.queued) ⟩ stream l ∎

pub push_log_buffer-stream :
    (b : List Text) (l : AsyncLogger) → stream (push_log_buffer b l) ≡ stream l ++ non_empty b
unfolding push_log_buffer stream waiting written
push_log_buffer-stream b l =
    ap (λ r. written l ++ non_empty r) (joined-append l.buffers b)
    ∙ ap (λ r. written l ++ r) (non_empty-append (joined l.buffers) b)
    ∙ sym (append_assoc (written l) (non_empty (joined l.buffers)) (non_empty b))

pub turn-Turned :
    (t : Turn) (batch : List Text) (rest : List (List Text)) (l : AsyncLogger) {l' : AsyncLogger}
    → l.buffers ≡ batch ∷ rest
    → turn t l ≡ some (ok l')
    → Turned batch (record l { buffers = rest }) l'
unfolding turn
turn-Turned t batch rest l q h =
    write_batch-Turned t batch (record l { buffers = rest }) (some-injective (rw (turn, q) at h))
