-- ===== src/Tests/Scanning.antt =====
-- The search of tinyPB_coder.cpp for a frame, at buffers with other bytes and with a part of one.
use rpc4grad.Prelude.{
  ℕ, zero, suc, ◌≡◌, ◌≢◌, refl, arith, some, List, [], ◌∷◌, ◌++◌, replicate, drop, ok, ◌⊎◌, Outcome,
}
use rpc4grad.Prelude.Slices.{slice}
use rpc4grad.Prelude.Bytes.{net_bytes}
use rpc4grad.Buffer.{TcpBuffer, read_able, contents}
use rpc4grad.Coder.Protocol.{TinyPb}
use rpc4grad.Coder.Ends.{MeetsEmpty, decode-ends}
use rpc4grad.Coder.Encode.{frame}
use rpc4grad.Coder.Decode.{decode}
use rpc4grad.Coder.Round.{IsOpen}
use rpc4grad.Coder.Stream.{arrived}
use rpc4grad.Coder.Garbage.{NoStart, decode-twice}
use rpc4grad.Tests.Samples.{request, request-IsSendable, holding}

-- As many zeros as the frame of the request has bytes, and the frame behind them.
abbrev junk : List ℕ
junk = replicate 33 0

abbrev behind_junk : TcpBuffer
behind_junk = holding (junk ++ (frame request ++ []))

junk-NoStart : (n : ℕ) → NoStart (replicate n 0)
junk-NoStart zero = tt
junk-NoStart (suc n) = (λ e. ground (arith, e), junk-NoStart n)

behind_junk-held : contents behind_junk ≡ junk ++ (frame request ++ [])
unfolding contents slice frame net_bytes
behind_junk-held = refl

behind_junk-IsOpen : IsOpen behind_junk
unfolding frame net_bytes
behind_junk-IsOpen = record {
  valid = record { ordered = omega arith; within = omega arith; sized = refl };
  open_end = omega arith;
  small = omega arith;
}

decode-twice_example :
    (b' : TcpBuffer) × (decode 3 [] behind_junk
      ≡ some (ok (arrived request ∷ arrived request ∷ [], b')))
    × (contents b' ≡ [])
decode-twice_example =
    decode-twice junk request [] behind_junk-IsOpen (junk-NoStart 33) refl behind_junk-held
      request-IsSendable refl

-- The first seven bytes of the frame: the start byte, the length, and two of the next word.
abbrev pub front : List ℕ
front = 2 ∷ 0 ∷ 0 ∷ 0 ∷ 33 ∷ 0 ∷ 0 ∷ []

pub front-split : front ++ drop 7 (frame request) ≡ frame request
unfolding frame net_bytes
front-split = refl

pub front-NoStart : NoStart (drop 1 front)
front-NoStart = (
  λ e. ground (arith, e),
  (
    λ e. ground (arith, e),
    (
      λ e. ground (arith, e),
      (λ e. ground (arith, e), (λ e. ground (arith, e), (λ e. ground (arith, e), tt))),
    ),
  ),
)

pub front-short : drop 7 (frame request) ≢ []
unfolding frame net_bytes
front-short e = cc

decode-ends_example :
    ((r : Outcome (List TinyPb × TcpBuffer)) × (decode (suc (read_able behind_junk)) [] behind_junk
        ≡ some r))
    ⊎ MeetsEmpty behind_junk
decode-ends_example = decode-ends [] behind_junk-IsOpen
