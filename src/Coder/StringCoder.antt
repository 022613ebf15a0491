-- ===== src/Coder/StringCoder.antt =====
-- rocket/rocket/net/coder/string_coder.h: the coder of plain texts, which keeps no boundaries.
use rpc4grad.Prelude.{
  ℕ, ◌≡◌, refl, sym, subst, ap, ap₂, ◌∙◌, arith, Bool-cases, inl, inr, List, [], ◌∷◌, ◌++◌,
  append-nil, append_assoc, length, ◌==◌, ==_iff, Outcome, ok, ◌>>=◌, >>=-eq-ok, ok-injective,
}
use rpc4grad.Buffer.{TcpBuffer, IsValid, read_able, contents, write_to_buffer, read_from_buffer}
use rpc4grad.Buffer.Contents.{length-contents}
use rpc4grad.Buffer.Write.{write_to_buffer-ok}
use rpc4grad.Buffer.Move.{read_from_buffer-splits}
use rpc4grad.Coder.Encode.{default_msg_id}

pub record StringProtocol : Type 0 where
  pub info : List ℕ
  pub msg_id : List ℕ

-- encode: only the texts are written.
unfoldable pub string_encode : List StringProtocol → TcpBuffer → Outcome TcpBuffer
unfolding write_to_buffer
string_encode [] out_buffer = ok out_buffer
string_encode (m ∷ ms) out_buffer = write_to_buffer m.info out_buffer >>= λ b. string_encode ms b

-- decode: one message of all that can be read, behind those that are there.
unfoldable pub string_decode : List StringProtocol → TcpBuffer → List StringProtocol × TcpBuffer
unfolding read_from_buffer
string_decode out buffer =
    let (re, b) = read_from_buffer [] (read_able buffer) buffer in
    (out ++ (record { info = re; msg_id = default_msg_id } ∷ []), b)

abbrev pub infos : List StringProtocol → List ℕ
infos [] = []
infos (m ∷ ms) = m.info ++ infos ms

string_encode-appends :
    (ms : List StringProtocol) (b : TcpBuffer) {b' : TcpBuffer}
    → IsValid b
    → string_encode ms b ≡ ok b'
    → (contents b' ≡ contents b ++ infos ms) × IsValid b'
unfolding string_encode
string_encode-appends [] b v h =
    subst (λ c. (contents c ≡ contents b ++ []) × IsValid c) (ok-injective h)
      (sym (append-nil (contents b)), v)
string_encode-appends (m ∷ ms) b v h =
    let (c, e, rest) = >>=-eq-ok (write_to_buffer m.info b) _ h in
    let w = write_to_buffer-ok m.info v e in
    let (k, v') = string_encode-appends ms c w.valid rest in
    (k ∙ ap (λ r. r ++ infos ms) w.appended ∙ append_assoc (contents b) m.info (infos ms), v')

nothing_left : (xs ys zs : List ℕ) → xs ++ ys ≡ zs → length xs ≡ length zs → (xs ≡ zs) × (ys ≡ [])
nothing_left [] [] zs e n = (e, refl)
nothing_left [] (y ∷ ys) zs e n = absurd (omega (arith, n, ap length e))
nothing_left (x ∷ xs) ys [] e n = absurd (omega (arith, n))
nothing_left (x ∷ xs) ys (z ∷ zs) e n =
    let same : x ≡ z = cc in
    let tails : xs ++ ys ≡ zs = cc in
    let (k, l) = nothing_left xs ys zs tails (omega (arith, n)) in (ap₂ (λ c cs. c ∷ cs) same k, l)

empty_of_length : (xs : List ℕ) → length xs ≡ 0 → xs ≡ []
empty_of_length [] h = refl
empty_of_length (x ∷ xs) h = absurd (omega (arith, h))

-- What is read when everything is asked for.
read_everything :
    (b : TcpBuffer)
    → IsValid b
    → let (out, b') = read_from_buffer [] (read_able b) b in (out ≡ contents b) × (contents b' ≡ [])
unfolding read_from_buffer
read_everything b v = elim (Bool-cases (read_able b == 0)) [
  | inl z ↦
      let nothing =
        empty_of_length (contents b) (length-contents v ∙ (==_iff (read_able b) 0).0 z) in
      rw (z) (sym nothing, nothing)
  | inr z ↦
      let (n, e, v') = read_from_buffer-splits [] (read_able b) v (ground (arith, z)) in
      nothing_left _ _ (contents b) e (omega (arith, n, length-contents v))
]

-- Messages that are encoded into a valid buffer without a fault are decoded as one message: it has
-- what waited in the buffer and the texts of them all, the boundaries are lost, and so are the ids.
-- The buffer is empty then.
pub string_decode-encode :
    (ms out : List StringProtocol) (b b' : TcpBuffer)
    → IsValid b
    → string_encode ms b ≡ ok b'
    → ((string_decode out b').0
        ≡ out ++ (record { info = contents b ++ infos ms; msg_id = default_msg_id } ∷ []))
      × (contents (string_decode out b').1 ≡ [])
unfolding string_decode
string_decode-encode ms out b b' v h =
    let (k, v') = string_encode-appends ms b v h in
    let (r, e) = read_everything b' v' in
    (ap (λ t. out ++ (record { info = t; msg_id = default_msg_id } ∷ [])) (r ∙ k), e)
