-- ===== src/Connection/Close.antt =====
-- TcpConnection: the states of a connection, and what a closed one does.
use rpc4grad.Prelude.{
  ℕ, ◌≡◌, ◌≢◌, refl, sym, ◌∙◌, ap, false, some, List, arith, ==_self, subst, inl, inr, Outcome,
  Outcome-cases, ok-injective, ok-ne-fault, ok, fault,
}
use rpc4grad.Coder.Protocol.{TinyPb}
use rpc4grad.Event.Fd.{FdEvent, cancle, in_event, out_event}
use rpc4grad.Event.Epoll.{contains, delete_from_epoll}
use rpc4grad.Event.EpollTrace.{contains-erase_fd}
use rpc4grad.Event.Loop.{EventLoop, delete_epoll_event, unregister_event}
use rpc4grad.Connection.{
  TcpConnection, TcpState, not_connected, connected, half_closing, closed, Handler, ReadResult,
  WriteResult, set_state, clear, is_closed, is_connected, shutdown, on_read, on_write,
  push_send_message, push_read_message, reply, listen_write, listen_read, set_connection_type,
  ConnectionType,
}
use rpc4grad.Coder.Encode.{encode}

delete_epoll_event-gone :
    (e : FdEvent Handler) (l : EventLoop Handler)
    → contains e.fd (delete_epoll_event l.thread_id e l).listen_fds ≡ false
unfolding delete_epoll_event unregister_event delete_from_epoll
delete_epoll_event-gone e l =
    ground (arith, ==_self l.thread_id, contains-erase_fd e.fd e.fd l.listen_fds)

module _ {A : Type 0} where
  -- In the loop's thread clear closes a connection that was not closed: its descriptor is no
  -- longer registered, and its event waits neither for reading nor for writing.
  pub clear-closes :
      (c : TcpConnection A)
      → c.state ≢ closed
      → let c' = clear c.event_loop.thread_id c in
        (c'.state ≡ closed)
        × (contains c.fd_event.fd c'.event_loop.listen_fds ≡ false)
        × (c'.fd_event.events.epollin ≡ false)
        × (c'.fd_event.events.epollout ≡ false)
  unfolding clear cancle
  clear-closes c h =
      let z : is_closed c.state ≡ false = open_state c.state h in
      rw (z, clear)
        (
          refl,
          delete_epoll_event-gone (cancle out_event (cancle in_event c.fd_event)) c.event_loop,
          refl,
          refl,
        )
    where
      open_state : (s : TcpState) → s ≢ closed → is_closed s ≡ false
      open_state not_connected ne = refl
      open_state connected ne = refl
      open_state half_closing ne = refl
      open_state closed ne = absurd (ne refl)

  clear-closed : (tid : ℕ) (c : TcpConnection A) → c.state ≡ closed → clear tid c ≡ c
  unfolding clear
  clear-closed tid c e = let z = ap is_closed e in rw (z, clear)

  -- A step of a connection by the loop or by its user. The calls of setState and of execute, which
  -- do not look at the state, are left out.
  pub data Step (c : TcpConnection A) : TcpConnection A → Type 0 where
    reads :
        {c' : TcpConnection A} (dispatch : TinyPb → TcpConnection A → Outcome (TcpConnection A))
        (fuel tid : ℕ) (rs : List ReadResult)
        → on_read dispatch fuel tid rs c ≡ some (ok c')
        → Step c c'
    writes :
        {c' : TcpConnection A} (tid : ℕ) (rs : List WriteResult)
        → on_write tid rs c ≡ some (ok c')
        → Step c c'
    shuts : Step c (shutdown c)
    clears : (tid : ℕ) → Step c (clear tid c)
    sends : (m : TinyPb) (f : A) → Step c (push_send_message m f c)
    awaits : (id : List ℕ) (f : A) → Step c (push_read_message id f c)
    replies :
        {c' : TcpConnection A} (tid : ℕ) (ms : List TinyPb) → reply tid ms c ≡ ok c' → Step c c'
    listens_write : (tid : ℕ) → Step c (listen_write tid c)
    listens_read : (tid : ℕ) → Step c (listen_read tid c)
    takes_type : (type : ConnectionType) → Step c (set_connection_type type c)

  pub data Steps (c : TcpConnection A) : TcpConnection A → Type 0 where
    here : Steps c c
    next : {d e : TcpConnection A} → Steps c d → Step d e → Steps c e

  on_read-closed :
      (dispatch : TinyPb → TcpConnection A → Outcome (TcpConnection A)) (fuel tid : ℕ)
      (rs : List ReadResult) (c : TcpConnection A)
      → c.state ≡ closed
      → on_read dispatch fuel tid rs c ≡ some (ok c)
  unfolding on_read
  on_read-closed dispatch fuel tid rs c e =
      let z = ap is_connected e in rw (z, on_read) (ap (λ t. some (ok t)) (clear-closed tid c e))

  on_write-closed :
      (tid : ℕ) (rs : List WriteResult) (c : TcpConnection A)
      → c.state ≡ closed
      → on_write tid rs c ≡ some (ok c)
  unfolding on_write
  on_write-closed tid rs c e =
      let z = ap is_connected e in rw (z, on_write) (ap (λ t. some (ok t)) (clear-closed tid c e))

  -- What a step of a closed connection cannot change.
  pub record SameIo (c c' : TcpConnection A) : Type 0 where
    pub still_closed : c'.state ≡ closed
    pub same_in : c'.in_buffer ≡ c.in_buffer
    pub same_sent : c'.sent ≡ c.sent
    pub same_called : c'.called ≡ c.called

  Step-SameIo : {c c' : TcpConnection A} → Step c c' → c.state ≡ closed → SameIo c c'
  unfolding shutdown push_send_message push_read_message reply listen_write listen_read
      set_connection_type
  Step-SameIo {c} (reads {c'} dispatch fuel tid rs h) e =
      let q = sym (on_read-closed dispatch fuel tid rs c e) ∙ h in ground arith
  Step-SameIo {c} (writes {c'} tid rs h) e =
      let q = sym (on_write-closed tid rs c e) ∙ h in ground arith
  Step-SameIo shuts e = ground arith
  Step-SameIo {c} (clears tid) e = let q = clear-closed tid c e in rw q (ground arith)
  Step-SameIo (sends m f) e = ground arith
  Step-SameIo (awaits id f) e = ground arith
  Step-SameIo {c} (replies tid ms h) e = elim (Outcome-cases (encode ms c.out_buffer)) [
    | inr (why, q) ↦
        let failed : reply tid ms c ≡ fault why = rw (reply, q) in
        absurd (ok-ne-fault (sym h ∙ failed))
    | inl ((ds, b), q) ↦
        subst (SameIo c) (ok-injective (rw (reply, q) at h))
          (record { still_closed = e; same_in = refl; same_sent = refl; same_called = refl })
  ]
  Step-SameIo (listens_write tid) e = record {
    still_closed = e;
    same_in = refl;
    same_sent = refl;
    same_called = refl;
  }
  Step-SameIo (listens_read tid) e = record {
    still_closed = e;
    same_in = refl;
    same_sent = refl;
    same_called = refl;
  }
  Step-SameIo (takes_type type) e = record {
    still_closed = e;
    same_in = refl;
    same_sent = refl;
    same_called = refl;
  }

  -- Closed is final for onRead, onWrite, clear, shutdown, pushSendMessage, pushReadMessage, reply,
  -- listenWrite, listenRead and setConnectionType, in any order and number: a closed connection stays
  -- closed, takes in no byte, sends none and calls no callback. Calls of setState and of execute,
  -- neither of which looks at the state, are not among them.
  pub Steps-closed : {c c' : TcpConnection A} → Steps c c' → c.state ≡ closed → SameIo c c'
  Steps-closed here e = ground arith
  Steps-closed (next r s) e =
      let w = Steps-closed r e in
      let z = Step-SameIo s w.still_closed in
      record {
        still_closed = z.still_closed;
        same_in = z.same_in ∙ w.same_in;
        same_sent = z.same_sent ∙ w.same_sent;
        same_called = z.same_called ∙ w.same_called;
      }

  -- setState does not look at its argument: whatever state is asked for, also for a connection
  -- that clear has just closed, the connection counts as connected and onRead reads again.
  set_state-reopens :
      (s : TcpState) (tid : ℕ) (c : TcpConnection A)
      → ((set_state s (clear tid c)).state ≡ connected) × (set_state s c ≡ set_state connected c)
  unfolding set_state
  set_state-reopens s tid c = (refl, refl)
