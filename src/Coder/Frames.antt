-- ===== src/Coder/Frames.antt =====
-- The decoder's search for a frame: where it finds one that encodeTinyPB wrote.
use rpc4grad.Prelude.{
  ℕ, zero, suc, ◌+◌, ◌-◌, ◌^◌, ◌<◌, ◌≡◌, refl, sym, subst, ◌∙◌, ap, List, [], ◌∷◌, ◌++◌,
  append_assoc, append-nil, some, length, drop, length-append, lt→ltb, leb-false, ok, arith,
}
use rpc4grad.Prelude.Int.{pos}
use rpc4grad.Prelude.Bytes.{net_bytes, length-net_bytes}
use rpc4grad.Coder.Protocol.{TinyPb, pb_start, pb_end}
use rpc4grad.Coder.Encode.{frame_length, frame}
use rpc4grad.Coder.Decode.{last_index, ends_at, probe_frame, probe, scan}
use rpc4grad.Coder.Reads.{At, At-skip, byte_at-At, int32_at-net}

-- A frame without its last byte.
front : TinyPb → List ℕ
front m =
    pb_start
    ∷ (net_bytes (frame_length m)
        ++ (net_bytes (length m.msg_id)
            ++ (m.msg_id
                ++ (net_bytes (length m.method_name)
                    ++ (m.method_name
                        ++ (net_bytes m.err_code
                            ++ (net_bytes (length m.err_info)
                                ++ (m.err_info ++ (m.pb_body ++ net_bytes 1)))))))))

frame-front : (m : TinyPb) (rest : List ℕ) → frame m ++ rest ≡ front m ++ (pb_end ∷ rest)
unfolding frame front
frame-front m rest = simp append_assoc

length-front : (m : TinyPb) → length (front m) + 1 ≡ frame_length m
unfolding front
length-front m = simp (length-append, length-net_bytes) (omega arith)

-- A frame is as long as the length that stands in it.
pub length-frame : (m : TinyPb) → length (frame m) ≡ frame_length m
length-frame m = omega (
  arith,
  length-front m,
  length-append (front m) (pb_end ∷ []),
  ap (λ t. length t) (sym (append-nil (frame m)) ∙ frame-front m []),
)

pub last_index-pos : (i n : ℕ) → i + n < 2 ^ 31 → 0 < n → last_index i n ≡ ok (pos (i + n - 1))
unfolding last_index
last_index-pos i n h k = ground arith

pub ends_at-end :
    (tmp rest : List ℕ) (w j : ℕ)
    → j < w
    → At tmp j (pb_end ∷ rest)
    → ends_at tmp w (pos j) ≡ ok (some j)
unfolding ends_at
ends_at-end tmp rest w j h at = rw (leb-false w j h, byte_at-At tmp j pb_end rest at)

pub after_length : TinyPb → List ℕ → List ℕ
after_length m rest = drop 5 (frame m ++ rest)

pub frame-length_first :
    (m : TinyPb) (rest : List ℕ)
    → frame m ++ rest ≡ pb_start ∷ (net_bytes (frame_length m) ++ after_length m rest)
unfolding after_length frame net_bytes
frame-length_first m rest = refl

-- At the first byte of a whole frame the search succeeds, with the frame's last index.
pub probe-frame :
    (m : TinyPb) (rest tmp : List ℕ) (w i j : ℕ)
    → At tmp i (frame m ++ rest)
    → j + 1 ≡ i + frame_length m
    → j < w
    → w < 2 ^ 31
    → probe tmp w i ≡ ok (some (j, frame_length m))
unfolding probe probe_frame frame
probe-frame m rest tmp w i j at e h k =
    let n = frame_length m in
    let last : i + n - 1 ≡ j = omega arith in
    let next : i + length (front m) ≡ j = omega (arith, length-front m) in
    let at_end =
      subst (λ t. At tmp t (pb_end ∷ rest)) next
        (At-skip (front m) (pb_end ∷ rest) tmp i (at ∙ frame-front m rest)) in
    let at_len =
      At-skip (pb_start ∷ []) (net_bytes n ++ after_length m rest) tmp i
        (at ∙ frame-length_first m rest) in
    rw (
      byte_at-At tmp i pb_start _ at,
      lt→ltb (i + 1) w (omega arith),
      int32_at-net n (after_length m rest) tmp (i + 1) (omega arith) at_len,
      last_index-pos i n (omega arith) (omega arith),
      last,
      ends_at-end tmp rest w j h at_end,
    )

pub scan-hit :
    (tmp : List ℕ) (w n i j pk : ℕ)
    → 0 < n
    → probe tmp w i ≡ ok (some (j, pk))
    → scan tmp w n i ≡ ok (some (i, j, pk))
unfolding scan
scan-hit tmp w zero i j pk h e = absurd (omega arith)
scan-hit tmp w (suc n) i j pk h e = rw e
