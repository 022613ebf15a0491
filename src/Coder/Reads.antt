-- ===== src/Coder/Reads.antt =====
-- The decoder's reads of `tmp`, at an index where what follows is known.
use rpc4grad.Prelude.{
  ℕ, zero, suc, ◌+◌, ◌-◌, ◌^◌, ◌/◌, ◌%◌, ◌≤◌, ◌<◌, ◌≡◌, sym, ◌∙◌, ap, List, [], ◌∷◌, ◌++◌, some,
  length, drop, take, get_elem?, length-append, length-drop, drop-drop, drop-append, take-append,
  le→leb, ok, arith,
}
use rpc4grad.Prelude.Bytes.{net_bytes, host_word-net}
use rpc4grad.Prelude.Slices.{slice}
use rpc4grad.Coder.Decode.{byte_at, int32_at, copy_field}

-- `At tmp i rest`: from index `i` on, `tmp` holds `rest`.
abbrev pub At : List ℕ → ℕ → List ℕ → Type 0
At tmp i rest = drop i tmp ≡ rest

pub At-length :
    (tmp : List ℕ) (i : ℕ) (rest : List ℕ) → At tmp i rest → length tmp - i ≡ length rest
At-length tmp i rest h = omega (arith, length-drop i tmp, ap (λ t. length t) h)

pub At-skip : (s rest tmp : List ℕ) (i : ℕ) → At tmp i (s ++ rest) → At tmp (i + length s) rest
At-skip s rest tmp i h =
    sym (drop-drop (length s) i tmp) ∙ ap (drop (length s)) h ∙ drop-append s rest

At-slice : (s rest tmp : List ℕ) (i : ℕ) → At tmp i (s ++ rest) → slice i (length s) tmp ≡ s
unfolding slice
At-slice s rest tmp i h = ap (take (length s)) h ∙ take-append s rest

get_elem?-drop :
    (tmp : List ℕ) (i c : ℕ) (rest : List ℕ) → drop i tmp ≡ c ∷ rest → get_elem? tmp i ≡ some c
get_elem?-drop [] zero c rest h = cc
get_elem?-drop [] (suc i) c rest h = cc
get_elem?-drop (x ∷ xs) zero c rest h = cc
get_elem?-drop (x ∷ xs) (suc i) c rest h = get_elem?-drop xs i c rest h

pub byte_at-At :
    (tmp : List ℕ) (i c : ℕ) (rest : List ℕ) → At tmp i (c ∷ rest) → byte_at tmp i ≡ ok c
unfolding byte_at
byte_at-At tmp i c rest h = rw (get_elem?-drop tmp i c rest h, byte_at)

pub int32_at-net :
    (w : ℕ) (rest tmp : List ℕ) (i : ℕ)
    → w < 2 ^ 32
    → At tmp i (net_bytes w ++ rest)
    → int32_at tmp i ≡ ok w
unfolding int32_at net_bytes
int32_at-net w rest tmp i h at =
    rw
      (
        byte_at-At tmp i _ _ at,
        byte_at-At tmp (i + 1) _ _ (At-skip (w / 2 ^ 24 % 256 ∷ []) _ tmp i at),
        byte_at-At tmp (i + 2) _ _ (At-skip (w / 2 ^ 24 % 256 ∷ w / 2 ^ 16 % 256 ∷ []) _ tmp i at),
        byte_at-At tmp (i + 3) _ _
            (At-skip (w / 2 ^ 24 % 256 ∷ w / 2 ^ 16 % 256 ∷ w / 2 ^ 8 % 256 ∷ []) _ tmp i at),
      )
      (ap ok (host_word-net w h))

-- A field of the announced length is copied whole.
pub copy_field-At :
    (room : ℕ) (s rest tmp : List ℕ) (i : ℕ)
    → length s ≤ room
    → At tmp i (s ++ rest)
    → i ≤ length tmp
    → copy_field room tmp i (length s) ≡ ok s
unfolding copy_field
copy_field-At room s rest tmp i h at b =
    rw
      (
        le→leb (length s) room h,
        le→leb (i + length s) (length tmp)
            (omega (arith, At-length tmp i (s ++ rest) at, length-append s rest)),
      )
      (ap ok (At-slice s rest tmp i at))
