-- ===== src/Buffer/Write.antt =====
-- TcpBuffer::writeToBuffer: what it appends, and when its memcpy leaves the vector.
use rpc4grad.Prelude.{
  ℕ, ◌+◌, ◌-◌, ◌*◌, ◌/◌, ◌^◌, ◌↔◌, Bool, true, false, ◌||◌, ◌≤◌, ◌<◌, min, ◌≡◌, refl, sym, ◌∙◌, ap,
  ◌⊎◌, inl, inr, List, ◌++◌, arith, length, take_all, ltb, leb, ltb→lt, lt→ltb, ltb-false, le→leb,
  leb-false, ok, fault, out_of_bounds, Bool-cases, leb→le, ok-injective, ok-ne-fault, >>=-eq-ok,
  subst,
}
use rpc4grad.Prelude.Slices.{blit, length-blit, slice-blit_end}
use rpc4grad.Buffer.{
  TcpBuffer, IsValid, read_able, write_able, contents, resize_buffer, grown_size, make_room,
  put_bytes, write_to_buffer,
}
use rpc4grad.Buffer.Contents.{length-contents, resize_buffer-IsValid, contents-resize_buffer}

-- The bytes fit the vector, as it is or after the one growth that writeToBuffer makes.
abbrev pub Fits : List ℕ → TcpBuffer → Type 0
Fits ds b = (length ds ≤ write_able b) ⊎ (read_able b + length ds ≤ grown_size b)

-- What a successful write leaves.
pub record Wrote (ds : List ℕ) (b b' : TcpBuffer) : Type 0 where
  pub valid : IsValid b'
  pub appended : contents b' ≡ contents b ++ ds

grow-contents : {b : TcpBuffer} → IsValid b → contents (resize_buffer (grown_size b) b) ≡ contents b
grow-contents {b} v =
    contents-resize_buffer (grown_size b) v
    ∙ take_all (min (grown_size b) (read_able b)) (contents b) (omega (arith, length-contents v))

put_bytes-fits :
    (ds : List ℕ) {b : TcpBuffer}
    → IsValid b
    → length ds ≤ write_able b
    → (b' : TcpBuffer) × (put_bytes ds b ≡ ok b') × Wrote ds b b'
unfolding put_bytes contents
put_bytes-fits ds {b} v h = (
  record b { buffer = blit b.write_index ds b.buffer; write_index = b.write_index + length ds },
  rw (le→leb (b.write_index + length ds) (length b.buffer) (omega arith)),
  record {
    valid = record {
      ordered = omega arith;
      within = omega arith;
      sized = omega (arith, length-blit b.write_index ds b.buffer);
    };
    appended = slice-blit_end b.read_index b.write_index ds b.buffer (omega arith) (omega arith);
  },
)

put_bytes-overruns :
    (ds : List ℕ) {b : TcpBuffer}
    → IsValid b
    → write_able b < length ds
    → put_bytes ds b ≡ fault out_of_bounds
unfolding put_bytes
put_bytes-overruns ds {b} v h =
    rw (leb-false (b.write_index + length ds) (length b.buffer) (omega arith))

make_room-kept : (n : ℕ) (b : TcpBuffer) → n ≤ write_able b → make_room n b ≡ ok b
unfolding make_room
make_room-kept n b h = rw (ltb-false (write_able b) n h)

make_room-grown :
    (n : ℕ) (b : TcpBuffer)
    → write_able b < n
    → grown_size b < 2 ^ 31
    → make_room n b ≡ ok (resize_buffer (grown_size b) b)
unfolding make_room
make_room-grown n b h g = rw (lt→ltb (write_able b) n h, lt→ltb (grown_size b) (2 ^ 31) g)

resized-write_able :
    {b : TcpBuffer}
    → IsValid b
    → write_able (resize_buffer (grown_size b) b) ≡ grown_size b - read_able b
unfolding resize_buffer
resized-write_able v = omega arith

write-grown :
    (ds : List ℕ) {b : TcpBuffer}
    → IsValid b
    → grown_size b < 2 ^ 31
    → write_able b < length ds
    → read_able b + length ds ≤ grown_size b
    → (b' : TcpBuffer) × (write_to_buffer ds b ≡ ok b') × Wrote ds b b'
unfolding write_to_buffer
write-grown ds {b} v g h f =
    let (b', e, w) =
      put_bytes-fits ds (resize_buffer-IsValid (grown_size b) v)
        (omega (arith, resized-write_able v)) in
    (
      b',
      rw (make_room-grown (length ds) b h g) e,
      record { valid = w.valid; appended = w.appended ∙ ap (λ t. t ++ ds) (grow-contents v) },
    )

-- On a valid buffer whose next size is an int, bytes that fit, as it is or after the growth, are
-- appended to what waits to be read.
pub write_to_buffer-appends :
    (ds : List ℕ) {b : TcpBuffer}
    → IsValid b
    → grown_size b < 2 ^ 31
    → Fits ds b
    → (b' : TcpBuffer) × (write_to_buffer ds b ≡ ok b') × Wrote ds b b'
unfolding write_to_buffer
write_to_buffer-appends ds {b} v g f = elim (Bool-cases (ltb (write_able b) (length ds))) [
  | inl grows ↦
      write-grown ds v g (ltb→lt _ _ grows) (ground (arith, ltb→lt (write_able b) (length ds)))
  | inr keeps ↦
      let h : length ds ≤ write_able b = ground arith in
      let (b', e, w) = put_bytes-fits ds v h in (b', rw (make_room-kept (length ds) b h) e, w)
]

-- Bytes that fit neither as it is nor after the growth are copied past the end of the vector.
overruns :
    (ds : List ℕ) {b : TcpBuffer}
    → IsValid b
    → grown_size b < 2 ^ 31
    → write_able b < length ds
    → grown_size b < read_able b + length ds
    → write_to_buffer ds b ≡ fault out_of_bounds
unfolding write_to_buffer
overruns ds {b} v g short long = rw (make_room-grown (length ds) b short g) (
    put_bytes-overruns ds (resize_buffer-IsValid (grown_size b) v)
      (omega (arith, resized-write_able v)))

fitting : List ℕ → TcpBuffer → Bool
fitting ds b = leb (length ds) (write_able b) || leb (read_able b + length ds) (grown_size b)

fitting-Fits : (ds : List ℕ) (b : TcpBuffer) → fitting ds b ≡ true → Fits ds b
unfolding fitting
fitting-Fits ds b h = ground (arith, h)

fitting-over :
    (ds : List ℕ) {b : TcpBuffer}
    → IsValid b
    → fitting ds b ≡ false
    → (b.size < b.write_index + length ds)
      × (3 * (b.size + b.write_index) / 2 + b.read_index < b.write_index + length ds)
unfolding fitting
fitting-over ds {b} v h = (ground (arith, h, v.ordered), ground (arith, h, v.ordered))

-- On a valid buffer whose next size is an int, writeToBuffer copies past the end of the vector in
-- exactly these cases: the bytes do not fit behind the write index, and three halves of the size and
-- the write index together, rounded down, are too few for them and for what waits to be read.
pub write_to_buffer-overruns :
    (ds : List ℕ) {b : TcpBuffer}
    → IsValid b
    → 3 * (b.size + b.write_index) / 2 < 2 ^ 31
    → (write_to_buffer ds b ≡ fault out_of_bounds) ↔ (
        (b.size < b.write_index + length ds)
        × (3 * (b.size + b.write_index) / 2 + b.read_index < b.write_index + length ds))
write_to_buffer-overruns ds {b} v g = (
  λ h. elim (Bool-cases (fitting ds b)) [
    | inl fits ↦
        let (b', e, w) = write_to_buffer-appends ds v g (fitting-Fits ds b fits) in
        absurd (ok-ne-fault (sym e ∙ h))
    | inr over ↦ fitting-over ds v over
  ],
  λ p.
      overruns ds v g (omega (arith, p.0, v.ordered, v.within))
        (omega (arith, p.1, v.ordered, v.within)),
)

put_bytes-ok : (ds : List ℕ) {b b' : TcpBuffer} → IsValid b → put_bytes ds b ≡ ok b' → Wrote ds b b'
put_bytes-ok ds {b} {b'} v h = elim (Bool-cases (leb (length ds) (write_able b))) [
  | inl fits ↦
      let (c, e, w) = put_bytes-fits ds v (leb→le _ _ fits) in
      subst (Wrote ds b) (ok-injective (sym e ∙ h)) w
  | inr over ↦ absurd (ok-ne-fault (sym h ∙ put_bytes-overruns ds v (ground arith)))
]

make_room-ok :
    (n : ℕ) {b b' : TcpBuffer}
    → IsValid b
    → make_room n b ≡ ok b'
    → IsValid b' × (contents b' ≡ contents b)
unfolding make_room
make_room-ok n {b} {b'} v h = elim (Bool-cases (ltb (write_able b) n)) [
  | inl grows ↦
      let e : resize_buffer (grown_size b) b ≡ b' = ground arith in
      subst (λ t. IsValid t × (contents t ≡ contents b)) e
        (resize_buffer-IsValid (grown_size b) v, grow-contents v)
  | inr keeps ↦
      let e : b ≡ b' = ground arith in
      subst (λ t. IsValid t × (contents t ≡ contents b)) e (v, refl)
]

-- Whatever writeToBuffer does without a fault, it has appended the bytes.
pub write_to_buffer-ok :
    (ds : List ℕ) {b b' : TcpBuffer} → IsValid b → write_to_buffer ds b ≡ ok b' → Wrote ds b b'
unfolding write_to_buffer
write_to_buffer-ok ds {b} {b'} v h =
    let (c, e, p) = >>=-eq-ok (make_room (length ds) b) (put_bytes ds) h in
    let (vc, k) = make_room-ok (length ds) v e in
    let w = put_bytes-ok ds vc p in
    record { valid = w.valid; appended = w.appended ∙ ap (λ t. t ++ ds) k }
