-- ===== src/Tests/Accepting.antt =====
-- tcp_acceptor.cpp and rpc_closure.h at concrete clients and callbacks.
use rpc4grad.Prelude.{
  ℕ, ◌+◌, ◌<◌, ◌≡◌, ◌≢◌, ◌==◌, if◌then◌else◌, refl, arith, inl, none, some, List, [], ◌∷◌, ◌++◌,
  length, ok,
}
use rpc4grad.Prelude.Int.{pos}
use rpc4grad.Event.Fd.{FdEvent}
use rpc4grad.Event.FdGroup.{new_group, events_from, Numbered, new_group-Numbered}
use rpc4grad.Connection.{Handler}
use rpc4grad.Server.{TcpServer}
use rpc4grad.Server.Clients.{AtFirst, client_of}
use rpc4grad.Server.Acceptor.{on_accept_fd, on_accept_fd-client}
use rpc4grad.RunTime.{new_run_time}
use rpc4grad.Rpc.Closure.{
  Ending, returned, rocket_exception, std_exception, ExceptionTexts, World, run, reports_of,
  run-reports, run-escapes,
}
use rpc4grad.Tests.Connections.{idle_loop}
use rpc4grad.Tests.Serving.{two_threads, local_host}

abbrev table : List (FdEvent Handler)
table = new_group Handler 8

table-long : 1 < length table
unfolding new_group events_from
table-long = omega arith

-- Descriptor 9 lies behind the table, which grows.
on_accept_fd-client_example :
    (e : FdEvent Handler) × (group' : List (FdEvent Handler)) × (s' : TcpServer ℕ) × (on_accept_fd 1
        (λ t. idle_loop)
        (record { fd = pos 9; peer = local_host })
        (table, two_threads)
      ≡ ok (group', s'))
    × (e.fd ≡ 9)
    × (s'.client ≡ client_of 1 idle_loop e ∷ [])
    × Numbered Handler 0 group'
    × AtFirst 7 (8 ∷ []) s'.io_threads
on_accept_fd-client_example =
    on_accept_fd-client 1 7 9 (8 ∷ []) (λ t. idle_loop) local_host table two_threads
      (new_group-Numbered Handler 8) table-long (refl, inl refl)

abbrev exception_texts : ExceptionTexts
exception_texts = record { std_text = b's' ∷ []; unknown_text = b'u' ∷ [] }

-- A callback counts its calls and throws its own number; an exception of number 7 throws again
-- when it is handled.
abbrev throws : ℕ → ℕ → ℕ × Ending
throws f n = (n + 1, rocket_exception f (b'x' ∷ []))

abbrev handles : ℕ → List ℕ → ℕ → ℕ × Ending
handles code info n = if code == 7 then (n, std_exception) else (n + 1, returned)

abbrev keeps : ℕ → List ℕ → ℕ → ℕ × Ending
keeps code info n = (n, returned)

abbrev tells : ℕ → ℕ → List ℕ → ℕ → ℕ × Ending
tells i code info n = (n, returned)

abbrev world : World ℕ
world = record { run_time = new_run_time; errors = []; user = 0 }

run-reports_example :
    let (c', w', out) =
      run exception_texts throws keeps tells (record { interface = some 3; cb = some 5 }) world in
    (w'.errors ≡ [] ++ reports_of exception_texts throws keeps tells 3 (throws 5 0).1)
    × (c' ≡ record { interface = none; cb = some 5 })
    × (out ≡ returned)
    × (w'.run_time.rpc_interface ≡ some 3)
run-reports_example =
    run-reports exception_texts throws keeps tells 3 5 world
      ((λ code info n. refl), (λ i code info n. refl))

returned-ne-std_exception : std_exception ≢ returned
returned-ne-std_exception e = ground (arith, e)

run-escapes_test :
    let (c', w', out) =
      run exception_texts throws handles tells (record { interface = some 3; cb = some 7 }) world in
    (w'.errors ≡ []) × (c' ≡ record { interface = some 3; cb = some 7 }) × (out ≡ std_exception)
run-escapes_test =
    run-escapes exception_texts throws handles tells 3 7 world 7 (b'x' ∷ []) refl
      returned-ne-std_exception
