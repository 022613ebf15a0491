-- ===== src/Event/FdGroup.antt =====
-- rocket/rocket/net/fd_event_group.cpp: the table of events by descriptor.
use rpc4grad.Prelude.{
  ℕ, zero, suc, ◌+◌, ◌-◌, ◌*◌, ◌/◌, ◌≤◌, ◌<◌, ◌≡◌, refl, sym, append-nil, ap, Option, some, List,
  [], ◌∷◌, ◌++◌, length, get_elem?, length-append, ltb, if◌then◌else◌, Bool-cases, inl, inr, ltb→lt,
  arith,
}
use rpc4grad.Event.Fd.{FdEvent, new_event}

module _ (A : Type 0) where
  -- `n` new events from descriptor `i` on.
  unfoldable pub events_from : ℕ → ℕ → List (FdEvent A)
  unfolding new_event
  events_from zero i = []
  events_from (suc n) i = new_event i ∷ events_from n (i + 1)

  -- FdEventGroup(int size)
  unfoldable pub new_group : ℕ → List (FdEvent A)
  unfolding events_from
  new_group size = events_from size 0

  -- The table after the push_back loop, which runs to int(index * 1.5).
  unfoldable grow_group : ℕ → List (FdEvent A) → List (FdEvent A)
  unfolding events_from
  grow_group index group = group ++ events_from (index * 3 / 2 - length group) (length group)

  -- The entry, `none` for an access past the end, and the table.
  unfoldable pub get_fd_event : ℕ → List (FdEvent A) → Option (FdEvent A) × List (FdEvent A)
  unfolding grow_group
  get_fd_event index group =
      if ltb index (length group)
      then (get_elem? group index, group)
      else (get_elem? (grow_group index group) index, grow_group index group)

  -- Every entry stands at its own descriptor, from `i` on.
  abbrev pub Numbered : ℕ → List (FdEvent A) → Type 0
  Numbered i [] = Unit {0}
  Numbered i (e ∷ es) = (e.fd ≡ i) × Numbered (suc i) es

  length-events_from : (n i : ℕ) → length (events_from n i) ≡ n
  unfolding events_from
  length-events_from zero i = refl
  length-events_from (suc n) i = ap suc (length-events_from n (i + 1))

  events_from-Numbered : (n i : ℕ) → Numbered i (events_from n i)
  unfolding events_from
  events_from-Numbered zero i = tt
  events_from-Numbered (suc n) i =
      let e : i + 1 ≡ suc i = omega arith in (refl, rw e (events_from-Numbered n (suc i)))

  Numbered-append :
      (i : ℕ) (xs ys : List (FdEvent A))
      → Numbered i xs
      → Numbered (i + length xs) ys
      → Numbered i (xs ++ ys)
  Numbered-append i [] ys n m = let e : i + 0 ≡ i = omega arith in rw e at m
  Numbered-append i (x ∷ xs) ys n m =
      let e : i + suc (length xs) ≡ suc i + length xs = omega arith in
      (n.0, Numbered-append (suc i) xs ys n.1 (rw e at m))

  get_elem?-Numbered :
      (i j : ℕ) (xs : List (FdEvent A))
      → Numbered i xs
      → j < length xs
      → (e : FdEvent A) × (get_elem? xs j ≡ some e) × (e.fd ≡ i + j)
  get_elem?-Numbered i j [] n h = absurd (omega arith)
  get_elem?-Numbered i zero (x ∷ xs) n h = (x, refl, omega (arith, n.0))
  get_elem?-Numbered i (suc j) (x ∷ xs) n h =
      let (e, p, q) = get_elem?-Numbered (suc i) j xs n.1 (omega arith) in (e, p, omega arith)

  pub new_group-Numbered : (size : ℕ) → Numbered 0 (new_group size)
  unfolding new_group
  new_group-Numbered size = events_from-Numbered size 0

  grow_group-Numbered :
      (index : ℕ) (g : List (FdEvent A)) → Numbered 0 g → Numbered 0 (grow_group index g)
  unfolding grow_group
  grow_group-Numbered index g n = Numbered-append 0 g _ n (
      let e : 0 + length g ≡ length g = omega arith in
      rw e (events_from-Numbered (index * 3 / 2 - length g) (length g)))

  length-grow_group :
      (index : ℕ) (g : List (FdEvent A))
      → 1 < length g
      → length g ≤ index
      → index < length (grow_group index g)
  unfolding grow_group
  length-grow_group index g h k = omega (
    arith,
    length-append g (events_from (index * 3 / 2 - length g) (length g)),
    length-events_from (index * 3 / 2 - length g) (length g),
  )

  -- For any descriptor from 0 on, once the table has two entries or more, getFdEvent answers with
  -- the entry of that descriptor, and the table only gains entries, each in its place.
  pub get_fd_event-found :
      (index : ℕ) (g : List (FdEvent A))
      → Numbered 0 g
      → 1 < length g
      → (e : FdEvent A) × (new : List (FdEvent A)) × ((get_fd_event index g).0 ≡ some e)
        × (e.fd ≡ index)
        × ((get_fd_event index g).1 ≡ g ++ new)
        × Numbered 0 (get_fd_event index g).1
  unfolding get_fd_event
  get_fd_event-found index g n h = elim (Bool-cases (ltb index (length g))) [
    | inl inside ↦
        let (e, p, q) = get_elem?-Numbered 0 index g n (ltb→lt index (length g) inside) in
        (e, [], rw inside p, omega arith, rw inside (sym (append-nil g)), rw inside n)
    | inr outside ↦
        let grown = grow_group-Numbered index g n in
        let big = length-grow_group index g h (ground arith) in
        let (e, p, q) = get_elem?-Numbered 0 index (grow_group index g) grown big in
        (
          e,
          events_from (index * 3 / 2 - length g) (length g),
          rw outside p,
          omega arith,
          rw (outside, grow_group),
          rw outside grown,
        )
  ]
