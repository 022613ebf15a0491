-- ===== src/Server/Startup/NoThreads.antt =====
-- TcpServer: what becomes of a server without threads.
use rpc4grad.Prelude.{
  ℕ, ◌≡◌, refl, sym, ◌∙◌, ap, Bool, Option, some, List, [], ok, fault, out_of_bounds, ok-injective,
}
use rpc4grad.Prelude.Int.{pos}
use rpc4grad.Prelude.Starts.{started, run_part, then-started, run_part-started, started-injective}
use rpc4grad.NetAddr.{IpNetAddr}
use rpc4grad.Config.{Config}
use rpc4grad.IoThread.{IoThread}
use rpc4grad.Event.Fd.{FdEvent}
use rpc4grad.Event.Loop.{EventLoop}
use rpc4grad.Event.Create.{get_current_event_loop}
use rpc4grad.Connection.{Handler}
use rpc4grad.Timer.{Store, Timer}
use rpc4grad.Server.{new_io_thread_group, get_io_thread, on_accept}
use rpc4grad.Server.Acceptor.{new_acceptor}
use rpc4grad.Server.Startup.{
  numbers, made_threads, new_io_threads, MainServer, InitCalls, Handlers, init_server, start_server,
}

module _ {A B : Type 0} where
  made_server :
      (inet : List ℕ → Bool) (calls : InitCalls) (h : Handlers A) (c : Config) (tid : ℕ)
      (current : Option (EventLoop A)) (timer : Timer) (events : Store) (a : IpNetAddr)
      {s : MainServer A B}
      → init_server inet calls h (some c) tid current timer events a ≡ started s
      → (ts : List IoThread) × (new_io_threads calls.tids c.io_threads ≡ ok ts)
        × (s.threads ≡ ts)
        × (s.server.io_threads ≡ new_io_thread_group (numbers 0 ts))
  unfolding init_server
  made_server inet calls h c tid current timer events a {s} e =
      let (acceptor, q1, e1) = then-started (new_acceptor inet calls.sockets a) _ e in
      let (l, q2, e2) =
        then-started (get_current_event_loop current tid calls.for_loop h.drain h.on_timer) _ e1 in
      let (ts, q3, e3) = then-started (run_part (new_io_threads calls.tids c.io_threads)) _ e2 in
      (
        ts,
        run_part-started (new_io_threads calls.tids c.io_threads) q3,
        sym (ap (λ (r : MainServer A B). r.threads) (started-injective e3)),
        sym (ap (λ (r : MainServer A B). r.server.io_threads) (started-injective e3)),
      )

no_thread : get_io_thread (new_io_thread_group []) ≡ fault out_of_bounds
unfolding get_io_thread new_io_thread_group
no_thread = refl

module _ {A B : Type 0} where
  -- A server whose configuration asks for no thread, as the one without a file does, comes up, but
  -- its first client is an access outside the vector of threads.
  pub init_server-no_threads :
      (inet : List ℕ → Bool) (calls : InitCalls) (h : Handlers A) (c : Config) (tid : ℕ)
      (current : Option (EventLoop A)) (timer : Timer) (events : Store) (a : IpNetAddr)
      (s : MainServer A B) (loops : ℕ → EventLoop Handler) (e : FdEvent Handler)
      → c.io_threads ≡ pos 0
      → init_server inet calls h (some c) tid current timer events a ≡ started s
      → on_accept tid loops e (start_server s).server ≡ fault out_of_bounds
  unfolding on_accept get_io_thread new_io_thread_group new_io_threads made_threads start_server
  init_server-no_threads inet calls h c tid current timer events a s loops e none_asked up =
      let (ts, q, same, group) = made_server inet calls h c tid current timer events a up in
      let empty : [] ≡ ts = ok-injective (sym (ap (new_io_threads calls.tids) none_asked) ∙ q) in
      let no_group : s.server.io_threads ≡ new_io_thread_group [] =
        group ∙ ap (λ us. new_io_thread_group (numbers 0 us)) (sym empty) in
      let past : get_io_thread (start_server s).server.io_threads ≡ fault out_of_bounds =
        ap get_io_thread no_group ∙ no_thread in
      rw (on_accept, past)
