-- ===== src/Log/Writer/Named.antt =====
-- AsyncLogger: the file that is open when a turn begins to write.
use rpc4grad.Prelude.{
  ◌≤◌, ◌≡◌, refl, sym, ap, ◌∙◌, arith, true, false, Bool-cases, none, some, Option-cases, ◌⊎◌, inl,
  inr,
}
use rpc4grad.MsgId.{str_eq}
use rpc4grad.Connection.Callbacks.{str_eq-eq}
use rpc4grad.Log.Writer.{Text, AsyncLogger, Turn, log_file_name, change_date, need_file, reopen}
use rpc4grad.Log.Writer.Quiet.{ready}

-- Between two turns the open file, if there is one, has the name of the day and the number.
pub record IsNamed (l : AsyncLogger) : Type 0 where
  pub settled : l.reopen_flag ≡ false
  pub named : (l.file ≡ none) ⊎ (l.file ≡ some (log_file_name l l.date l.no))

-- `m` is `l` on the day `today`.
pub record IsDated (l : AsyncLogger) (today : Text) (m : AsyncLogger) : Type 0 where
  pub date : m.date ≡ today
  pub path : m.file_path ≡ l.file_path
  pub name : m.file_name ≡ l.file_name
  pub no_le : m.no ≤ l.no

-- The file that is wanted is open.
unfoldable pub HasFile : AsyncLogger → Text → AsyncLogger → Type 0
HasFile l today m = (m.reopen_flag ≡ false) × (m.file ≡ some (log_file_name l today m.no))

change_date-IsDated :
    (today : Text) (l : AsyncLogger)
    → IsNamed l
    → IsDated l today (change_date today l)
      × (((change_date today l).reopen_flag ≡ true)
          ⊎ (((change_date today l).reopen_flag ≡ false)
              × (((change_date today l).file ≡ none) ⊎ HasFile l today (change_date today l))))
unfolding change_date HasFile
change_date-IsDated today l n = elim (Bool-cases (str_eq today l.date)) [
  | inr d ↦ rw (d) (record { date = refl; path = refl; name = refl; no_le = omega arith }, inl refl)
  | inl d ↦
      let same : today ≡ l.date = str_eq-eq today l.date d in
      rw (d) (
        record { date = sym same; path = refl; name = refl; no_le = omega arith },
        inr (
          n.settled,
          elim n.named [
            | inl f ↦ inl f
            | inr f ↦ inr (n.settled, f ∙ ap (λ y. some (log_file_name l y l.no)) (sym same))
          ],
        ),
      )
]

need_file-HasFile :
    (l m : AsyncLogger) (today : Text)
    → IsDated l today m
    → (m.reopen_flag ≡ true) ⊎ ((m.reopen_flag ≡ false) × ((m.file ≡ none) ⊎ HasFile l today m))
    → IsDated l today (need_file m)
      × (((need_file m).reopen_flag ≡ true) ⊎ HasFile l today (need_file m))
unfolding need_file HasFile
need_file-HasFile l m today d (inr (q, inr (r, f))) =
    rw (f) (record { date = d.date; path = d.path; name = d.name; no_le = d.no_le }, inr (r, refl))
need_file-HasFile l m today d (inr (q, inl f)) =
    rw (f) (record { date = d.date; path = d.path; name = d.name; no_le = d.no_le }, inl refl)
need_file-HasFile l m today d (inl r) = elim (Option-cases m.file) [
  | inl f ↦
      rw (f) (record { date = d.date; path = d.path; name = d.name; no_le = d.no_le }, inl refl)
  | inr (g, f) ↦
      rw (f) (record { date = d.date; path = d.path; name = d.name; no_le = d.no_le }, inl r)
]

reopen-HasFile :
    (t : Turn) (l m : AsyncLogger)
    → t.opened ≡ true
    → IsDated l t.today m
    → (m.reopen_flag ≡ true) ⊎ HasFile l t.today m
    → IsDated l t.today (reopen t m) × HasFile l t.today (reopen t m)
unfolding reopen HasFile log_file_name
reopen-HasFile t l m o d (inr (r, f)) =
    rw (r) (record { date = d.date; path = d.path; name = d.name; no_le = d.no_le }, (refl, f))
reopen-HasFile t l m o d (inl r) = rw (r) (
  record { date = d.date; path = d.path; name = d.name; no_le = d.no_le },
  (refl, rw (o, d.path, d.name)),
)

pub ready-HasFile :
    (t : Turn) (l : AsyncLogger)
    → IsNamed l
    → t.opened ≡ true
    → IsDated l t.today (ready t l) × HasFile l t.today (ready t l)
ready-HasFile t l n o =
    let (d1, c1) = change_date-IsDated t.today l n in
    let (d2, c2) = need_file-HasFile l (change_date t.today l) t.today d1 c1 in
    reopen-HasFile t l (need_file (change_date t.today l)) o d2 c2
