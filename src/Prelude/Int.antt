-- ===== src/Prelude/Int.antt =====
-- Signed integers over the native numbers, and the int32_t that a 32-bit pattern stands for.
use rpc4grad.Prelude.{ℕ, ◌-◌, ◌^◌, ltb, leb, if◌then◌else◌}

-- `negsuc n` is -(n + 1).
pub data ℤ : Type 0 where
  pos : ℕ → ℤ
  negsuc : ℕ → ℤ

-- a - b, as an integer.
abbrev pub sub_ℕ : ℕ → ℕ → ℤ
sub_ℕ a b = if leb b a then pos (a - b) else negsuc (b - a - 1)

-- An int32_t is kept as its bit pattern, below 2 ^ 32; this is the number it stands for.
abbrev pub signed32 : ℕ → ℤ
signed32 w = if ltb w (2 ^ 31) then pos w else negsuc (2 ^ 32 - w - 1)
