-- ===== src/Event/Epoll.antt =====
-- rocket/rocket/net/eventLoop.cpp, ADD_TO_EPOLL and DELETE_FROM_EPOLL: the set of the descriptors
-- that are registered, and the epoll_ctl call that each operation makes. The result of the call is
-- only logged by the code.
use rpc4grad.Prelude.{ℕ, Bool, false, ◌||◌, Option, none, some, List, [], ◌∷◌, ◌==◌, if◌then◌else◌}
use rpc4grad.Event.Fd.{FdEvent, Events}

-- EPOLL_CTL_ADD, EPOLL_CTL_MOD and EPOLL_CTL_DEL
pub data EpollOp : Type 0 where
  ctl_add ctl_mod ctl_del : EpollOp

-- epoll_ctl(m_epoll_fd, op, fd, &events)
pub record EpollCall : Type 0 where
  pub op : EpollOp
  pub fd : ℕ
  pub events : Events

-- m_listen_fds.find(fd) != m_listen_fds.end()
unfoldable pub contains : ℕ → List ℕ → Bool
contains fd [] = false
contains fd (x ∷ xs) = x == fd || contains fd xs

unfoldable pub insert_fd : ℕ → List ℕ → List ℕ
unfolding contains
insert_fd fd xs = if contains fd xs then xs else fd ∷ xs

unfoldable pub erase_fd : ℕ → List ℕ → List ℕ
erase_fd fd [] = []
erase_fd fd (x ∷ xs) = let rest = erase_fd fd xs in if x == fd then rest else x ∷ rest

module _ {A : Type 0} where
  unfoldable pub add_to_epoll : FdEvent A → List ℕ → EpollCall × List ℕ
  unfolding contains insert_fd
  add_to_epoll e fds = (
    record { op = if contains e.fd fds then ctl_mod else ctl_add; fd = e.fd; events = e.events },
    insert_fd e.fd fds,
  )

  -- `none` is the early return.
  unfoldable pub delete_from_epoll : FdEvent A → List ℕ → Option EpollCall × List ℕ
  unfolding contains erase_fd
  delete_from_epoll e fds =
      if contains e.fd fds
      then (some (record { op = ctl_del; fd = e.fd; events = e.events }), erase_fd e.fd fds)
      else (none, fds)
