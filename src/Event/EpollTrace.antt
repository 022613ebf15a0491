-- ===== src/Event/EpollTrace.antt =====
-- The registered set against the kernel's interest list, as epoll_ctl(2) describes it: adding what
-- is there fails with EEXIST, changing or deleting what is not there fails with ENOENT.
use rpc4grad.Prelude.{
  ℕ, ◌≡◌, Bool, true, false, Option, none, some, List, [], ◌∷◌, ◌==◌, if◌then◌else◌, arith, inl,
  inr, ap, ◌∙◌, ◌++◌, ==_self, Option-cases, none-ne-some, some-injective,
}
use rpc4grad.Event.Fd.{FdEvent, Events}
use rpc4grad.Event.Epoll.{
  EpollOp, ctl_add, ctl_mod, ctl_del, EpollCall, contains, insert_fd, erase_fd, add_to_epoll,
  delete_from_epoll,
}

-- The interest list: the events of each descriptor that is in it.
abbrev pub Interest : Type 0
Interest = ℕ → Option Events

abbrev pub nothing : Interest
nothing fd = none

abbrev pub put : ℕ → Option Events → Interest → Interest
put fd v k j = if fd == j then v else k j

-- `none` is an error of the call.
unfoldable pub exec : EpollOp → ℕ → Events → Interest → Option Interest
exec ctl_add fd ev k = elim (k fd) [ none ↦ some (put fd (some ev) k) | some x ↦ none ]
exec ctl_mod fd ev k = elim (k fd) [ none ↦ none | some x ↦ some (put fd (some ev) k) ]
exec ctl_del fd ev k = elim (k fd) [ none ↦ none | some x ↦ some (put fd none k) ]

abbrev pub is_some : Option Events → Bool
is_some none = false
is_some (some x) = true

-- The set holds the descriptors of the interest list.
abbrev pub Synced : List ℕ → Interest → Type 0
Synced fds k = (fd : ℕ) → contains fd fds ≡ is_some (k fd)

pub contains-insert_fd :
    (fd j : ℕ) (fds : List ℕ)
    → contains j (insert_fd fd fds) ≡ (if fd == j then true else contains j fds)
unfolding insert_fd contains
contains-insert_fd fd j fds = ground arith

pub contains-erase_fd :
    (fd j : ℕ) (fds : List ℕ)
    → contains j (erase_fd fd fds) ≡ (if fd == j then false else contains j fds)
unfolding erase_fd contains
contains-erase_fd fd j [] = ground arith
contains-erase_fd fd j (x ∷ xs) = ground (arith, contains-erase_fd fd j xs)

-- One operation on the loop's registrations, or a close(2) of a descriptor by other code, which takes
-- it off the interest list behind the loop's back.
pub data Op (A : Type 0) : Type 0 where
  add delete : FdEvent A → Op A
  close_fd : ℕ → Op A

-- A call, if the operation makes one.
abbrev pub exec_opt : Option EpollCall → Interest → Option Interest
exec_opt none k = some k
exec_opt (some c) k = exec c.op c.fd c.events k

module _ {A : Type 0} where
  -- The calls that a sequence of operations makes, in order, each at the interest list that the
  -- ones before it left.
  unfoldable pub run_ops : List (Op A) → List ℕ → Interest → Option (List ℕ × Interest)
  run_ops [] fds k = some (fds, k)
  run_ops (add e ∷ ops) fds k =
      let (c, fds') = add_to_epoll e fds in
      elim (exec c.op c.fd c.events k) [ none ↦ none | some k' ↦ run_ops ops fds' k' ]
  run_ops (delete e ∷ ops) fds k =
      let (c, fds') = delete_from_epoll e fds in
      elim (exec_opt c k) [ none ↦ none | some k' ↦ run_ops ops fds' k' ]
  run_ops (close_fd fd ∷ ops) fds k = run_ops ops fds (put fd none k)

  -- No descriptor is closed while the loop has it registered.
  unfoldable pub ClosesUnwatched : List (Op A) → List ℕ → Type 0
  ClosesUnwatched [] fds = Unit {0}
  ClosesUnwatched (add e ∷ ops) fds = ClosesUnwatched ops (add_to_epoll e fds).1
  ClosesUnwatched (delete e ∷ ops) fds = ClosesUnwatched ops (delete_from_epoll e fds).1
  ClosesUnwatched (close_fd fd ∷ ops) fds = (contains fd fds ≡ false) × ClosesUnwatched ops fds

  run_ops-append :
      (ops more : List (Op A)) (fds fds' : List ℕ) (k k' : Interest)
      → run_ops ops fds k ≡ some (fds', k')
      → run_ops (ops ++ more) fds k ≡ run_ops more fds' k'
  unfolding run_ops
  run_ops-append [] more fds fds' k k' h =
      let same : (fds, k) ≡ (fds', k') = some-injective h in
      ap (λ (p : List ℕ × Interest). run_ops more p.0 p.1) same
  run_ops-append (close_fd fd ∷ ops) more fds fds' k k' h =
      run_ops-append ops more fds fds' (put fd none k) k' h
  run_ops-append (add e ∷ ops) more fds fds' k k' h =
      let (c, gs) = add_to_epoll e fds in
      elim (Option-cases (exec c.op c.fd c.events k)) [
        | inl q ↦ absurd (none-ne-some (rw (run_ops, q) at h))
        | inr (j, q) ↦ rw (run_ops, q) (run_ops-append ops more gs fds' j k' (rw (run_ops, q) at h))
      ]
  run_ops-append (delete e ∷ ops) more fds fds' k k' h =
      let (c, gs) = delete_from_epoll e fds in
      elim (Option-cases (exec_opt c k)) [
        | inl q ↦ absurd (none-ne-some (rw (run_ops, q) at h))
        | inr (j, q) ↦ rw (run_ops, q) (run_ops-append ops more gs fds' j k' (rw (run_ops, q) at h))
      ]

  closed_fails :
      (e : FdEvent A) (fds : List ℕ) (k : Interest)
      → contains e.fd fds ≡ true
      → k e.fd ≡ none
      → (exec_opt (delete_from_epoll e fds).0 k ≡ none)
        × (let (c, gs) = add_to_epoll e fds in exec c.op c.fd c.events k ≡ none)
  unfolding exec add_to_epoll delete_from_epoll
  closed_fails e fds k there gone = (ground (arith, there, gone), ground (arith, there, gone))

  -- But if a descriptor is closed while it is registered, as connect of TcpClient does, the call that
  -- deletes its event after that fails, and so does one that adds it again, whatever was done before.
  pub run_ops-close_first :
      (ops : List (Op A)) (e : FdEvent A) (fds : List ℕ) (k : Interest)
      → run_ops ops [] nothing ≡ some (fds, k)
      → contains e.fd fds ≡ true
      → (run_ops (ops ++ (close_fd e.fd ∷ delete e ∷ [])) [] nothing ≡ none)
        × (run_ops (ops ++ (close_fd e.fd ∷ add e ∷ [])) [] nothing ≡ none)
  unfolding run_ops
  run_ops-close_first ops e fds k h there =
      let closed : put e.fd none k e.fd ≡ none = rw (==_self e.fd) in
      let fails = closed_fails e fds (put e.fd none k) there closed in
      (
        run_ops-append ops (close_fd e.fd ∷ delete e ∷ []) [] fds nothing k h
            ∙ rw (run_ops, fails.0),
        run_ops-append ops (close_fd e.fd ∷ add e ∷ []) [] fds nothing k h ∙ rw (run_ops, fails.1),
      )
