-- ===== src/MsgId.antt =====
-- rocket/rocket/common/msg_id_util.cpp: message ids, twenty decimal digits that count up from a
-- random start. The two thread_local strings are the state; what read() gives from /dev/urandom is
-- an argument.
pub mod Digits
pub mod Count
use rpc4grad.Prelude.{
  ℕ, zero, suc, ◌+◌, ◌-◌, ◌%◌, Bool, true, false, ◌||◌, ◌&&◌, Option, none, some, List, [], ◌∷◌,
  ◌++◌, map, length, take, replicate, get_or, ◌==◌, if◌then◌else◌, Outcome, ok, fault,
  out_of_bounds, ◌>>=◌,
}

abbrev pub msg_id_length : ℕ
msg_id_length = 20

pub record MsgIds : Type 0 where
  pub msg_id_no : List ℕ
  pub max_msg_id_no : List ℕ

abbrev pub empty_ids : MsgIds
empty_ids = record { msg_id_no = []; max_msg_id_no = [] }

-- operator== of two strings
unfoldable pub str_eq : List ℕ → List ℕ → Bool
str_eq [] [] = true
str_eq [] (d ∷ ds) = false
str_eq (c ∷ cs) [] = false
str_eq (c ∷ cs) (d ∷ ds) = c == d && str_eq cs ds

unfoldable pub is_empty : List ℕ → Bool
is_empty [] = true
is_empty (c ∷ cs) = false

-- The loop that goes back over the nines from index k - 1 on; `none` when it passes the first.
unfoldable pub last_non_nine : ℕ → List ℕ → Option ℕ
last_non_nine zero s = none
last_non_nine (suc k) s = elim (get_or s k 0 == b'9') [ true ↦ last_non_nine k s | false ↦ some k ]

-- The else branch of generateMsgId. The loop reads t_msg_id_no[i] before it looks whether i is still
-- an index: with nines only it reads in front of the string, which is undefined, and so the branch
-- that sets all digits to 0 is never come to as it should be.
unfoldable pub next_id : List ℕ → Outcome (List ℕ)
unfolding last_non_nine
next_id s = elim (last_non_nine (length s) s) [
  | some i ↦ ok (take i s ++ ((get_or s i 0 + 1) ∷ replicate (length s - i - 1) b'0'))
  | none ↦ fault out_of_bounds
]

-- The digits made from random bytes.
unfoldable pub random_id : List ℕ → List ℕ
random_id [] = []
random_id (x ∷ xs) = (x % 10 + b'0') ∷ random_id xs

-- generateMsgId, with the id that it returns. `bytes` is what was read; another count than twenty
-- is an error, and the id is empty.
unfoldable pub generate_msg_id : List ℕ → MsgIds → Outcome (List ℕ × MsgIds)
unfolding str_eq is_empty next_id random_id
generate_msg_id bytes s =
    if is_empty s.msg_id_no || str_eq s.msg_id_no s.max_msg_id_no
    then if length bytes == msg_id_length
      then ok (
        random_id bytes,
        record {
          msg_id_no = random_id bytes;
          max_msg_id_no = s.max_msg_id_no ++ replicate msg_id_length b'9';
        },
      )
      else ok ([], s)
    else (next_id s.msg_id_no >>= λ t. ok (t, record s { msg_id_no = t }))
