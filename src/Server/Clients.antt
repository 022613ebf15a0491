-- ===== src/Server/Clients.antt =====
-- TcpServer: where the clients go, and which are cleared.
use rpc4grad.Prelude.{
  ℕ, ◌+◌, ◌≡◌, ◌≢◌, refl, sym, ◌∙◌, ap, arith, true, false, Bool-cases, ◌⊎◌, inl, inr, List, [],
  ◌∷◌, ◌++◌, map, append_assoc, append-nil, length, ◌==◌, ok,
}
use rpc4grad.Prelude.Int.{pos, negsuc}
use rpc4grad.Event.Fd.{FdEvent}
use rpc4grad.Event.Loop.{EventLoop}
use rpc4grad.Connection.{
  TcpConnection, TcpState, closed, not_connected, half_closing, Handler, connected, by_server,
  new_connection, set_state, is_closed,
}
use rpc4grad.Server.{
  IoThreadGroup, get_io_thread, TcpServer, on_accept, erase_closed, clear_client_timer, accept_all,
}

-- A group whose index is as it was made, or 0.
abbrev pub AtFirst : ℕ → List ℕ → IoThreadGroup → Type 0
AtFirst t ts g = (g.threads ≡ t ∷ ts) × ((g.index ≡ negsuc 0) ⊎ (g.index ≡ pos 0))

get_io_thread-first :
    (t : ℕ) (ts : List ℕ) (g : IoThreadGroup)
    → AtFirst t ts g
    → (g' : IoThreadGroup) × (get_io_thread g ≡ ok (t, g')) × AtFirst t ts g'
unfolding get_io_thread
get_io_thread-first t ts g (e, inl n) =
    (record { threads = t ∷ ts; index = pos 0 }, rw (e, n), (refl, inr refl))
get_io_thread-first t ts g (e, inr p) =
    let inside : (0 == length (t ∷ ts)) ≡ false = ground arith in
    (record { threads = t ∷ ts; index = pos 0 }, rw (e, p, inside), (refl, inr refl))

is_closed-eq : (st : TcpState) → is_closed st ≡ true → st ≡ closed
is_closed-eq closed e = refl
is_closed-eq not_connected e = cc
is_closed-eq connected e = cc
is_closed-eq half_closing e = cc

module _ {A : Type 0} where
  -- The connection that a client gets in the thread of the number given.
  abbrev pub client_of : ℕ → EventLoop Handler → FdEvent Handler → TcpConnection A
  client_of tid l e = set_state connected (new_connection tid l e 128 by_server)

  pub on_accept-first :
      (tid t : ℕ) (ts : List ℕ) (loops : ℕ → EventLoop Handler) (e : FdEvent Handler)
      (s : TcpServer A)
      → AtFirst t ts s.io_threads
      → (s' : TcpServer A) × (on_accept tid loops e s ≡ ok s')
        × (s'.client ≡ s.client ++ (client_of tid (loops t) e ∷ []))
        × (s'.client_counts ≡ s.client_counts + 1)
        × AtFirst t ts s'.io_threads
  unfolding on_accept
  on_accept-first tid t ts loops e s f =
      let (g, h, f') = get_io_thread-first t ts s.io_threads f in
      (
        record {
          io_threads = g;
          client_counts = s.client_counts + 1;
          client = s.client ++ (client_of tid (loops t) e ∷ []);
        },
        rw (on_accept, h),
        refl,
        refl,
        f',
      )

  -- However many clients come, all are given to the first IO thread, in the order in which they
  -- come: the index of the group never moves on.
  pub accept_all-first :
      (tid t : ℕ) (ts : List ℕ) (loops : ℕ → EventLoop Handler) (es : List (FdEvent Handler))
      (s : TcpServer A)
      → AtFirst t ts s.io_threads
      → (s' : TcpServer A) × (accept_all tid loops es s ≡ ok s')
        × (s'.client ≡ s.client ++ map (client_of tid (loops t)) es)
        × (s'.client_counts ≡ s.client_counts + length es)
  unfolding accept_all
  accept_all-first tid t ts loops [] s f = (s, refl, sym (append-nil s.client), omega arith)
  accept_all-first tid t ts loops (e ∷ es) s f =
      let (s1, h, c1, n1, f1) = on_accept-first tid t ts loops e s f in
      let (s', k, c, n) = accept_all-first tid t ts loops es s1 f1 in
      (
        s',
        rw (accept_all, h) k,
        c
            ∙ ap (λ cs. cs ++ map (client_of tid (loops t)) es) c1
            ∙ append_assoc s.client (client_of tid (loops t) e ∷ [])
                (map (client_of tid (loops t)) es),
        omega (arith, n, n1),
      )

  -- A list of connections none of which is closed.
  abbrev pub AllOpen : List (TcpConnection A) → Type 0
  AllOpen [] = Unit {0}
  AllOpen (c ∷ cs) = (is_closed c.state ≡ false) × AllOpen cs

  erase_closed-AllOpen : (cs : List (TcpConnection A)) → AllOpen (erase_closed cs)
  unfolding erase_closed
  erase_closed-AllOpen [] = tt
  erase_closed-AllOpen (c ∷ cs) = elim (Bool-cases (is_closed c.state)) [
    | inl e ↦ rw e (erase_closed-AllOpen cs)
    | inr e ↦ rw e (e, erase_closed-AllOpen cs)
  ]

  erase_closed-id : (cs : List (TcpConnection A)) → AllOpen cs → erase_closed cs ≡ cs
  unfolding erase_closed
  erase_closed-id [] o = refl
  erase_closed-id (c ∷ cs) o = simp (o.0, erase_closed-id cs o.1)

  -- Which connections of a list stand in the other, in the same order, with the closed ones left
  -- out and no other.
  pub data Kept : List (TcpConnection A) → List (TcpConnection A) → Type 0 where
    done : Kept [] []
    drops :
        {c : TcpConnection A} {cs ds : List (TcpConnection A)}
        → c.state ≡ closed
        → Kept cs ds
        → Kept (c ∷ cs) ds
    keeps :
        {c : TcpConnection A} {cs ds : List (TcpConnection A)}
        → c.state ≢ closed
        → Kept cs ds
        → Kept (c ∷ cs) (c ∷ ds)

  erase_closed-Kept : (cs : List (TcpConnection A)) → Kept cs (erase_closed cs)
  unfolding erase_closed
  erase_closed-Kept [] = done
  erase_closed-Kept (c ∷ cs) = elim (Bool-cases (is_closed c.state)) [
    | inl e ↦ rw e (drops (is_closed-eq c.state e) (erase_closed-Kept cs))
    | inr e ↦ rw e (keeps (λ k. let z = ap is_closed k in cc) (erase_closed-Kept cs))
  ]

  -- The timer drops exactly the closed connections and keeps the others in order; a second call
  -- drops nothing more.
  pub clear_client_timer-Kept :
      (s : TcpServer A)
      → Kept s.client (clear_client_timer s).client
        × AllOpen (clear_client_timer s).client
        × (clear_client_timer (clear_client_timer s) ≡ clear_client_timer s)
  unfolding clear_client_timer
  clear_client_timer-Kept s = (
    erase_closed-Kept s.client,
    erase_closed-AllOpen s.client,
    ap (λ cs. record s { client = cs })
        (erase_closed-id (erase_closed s.client) (erase_closed-AllOpen s.client)),
  )
