-- ===== src/Prelude/Bytes.antt =====
-- Network byte order, as `htonl` followed by `memcpy` writes it and `memcpy` followed by `ntohl`
-- reads it. A `char` is a number below 256.
use rpc4grad.Prelude.{ℕ, ◌+◌, ◌*◌, ◌/◌, ◌%◌, ◌^◌, ◌<◌, ◌≡◌, refl, List, [], ◌∷◌, arith, length}

-- The four bytes of a 32-bit word, most significant first.
unfoldable pub net_bytes : ℕ → List ℕ
net_bytes w = w / 2 ^ 24 % 256 ∷ w / 2 ^ 16 % 256 ∷ w / 2 ^ 8 % 256 ∷ w % 256 ∷ []

-- The word that four bytes make up.
unfoldable pub host_word : ℕ → ℕ → ℕ → ℕ → ℕ
host_word a b c d = a * 2 ^ 24 + b * 2 ^ 16 + c * 2 ^ 8 + d

pub length-net_bytes : (w : ℕ) → length (net_bytes w) ≡ 4
unfolding net_bytes
length-net_bytes w = refl

pub host_word-net :
    (w : ℕ)
    → w < 2 ^ 32
    → host_word (w / 2 ^ 24 % 256) (w / 2 ^ 16 % 256) (w / 2 ^ 8 % 256) (w % 256) ≡ w
unfolding host_word
host_word-net w h = omega arith
