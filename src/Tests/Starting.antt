-- ===== src/Tests/Starting.antt =====
-- tcp_server.cpp's init and start at a loop and two configurations.
use rpc4grad.Prelude.{
  ℕ, ◌+◌, ◌≡◌, refl, Bool, true, false, none, some, List, [], ◌∷◌, fault, out_of_bounds,
}
use rpc4grad.Prelude.Int.{pos}
use rpc4grad.Prelude.Starts.{started}
use rpc4grad.NetAddr.{
  check_valid, to_string, split_colon, stoi, signed, skip_space, unsigned, digits_value, decimal,
}
use rpc4grad.Config.{Config, blank_config, default_config}
use rpc4grad.Event.Create.{get_current_event_loop}
use rpc4grad.Timer.{Timer, Store, new_timer_event}
use rpc4grad.Event.Create.{readable_event}
use rpc4grad.Server.{on_accept, new_io_thread_group}
use rpc4grad.Server.Acceptor.{new_acceptor}
use rpc4grad.Server.Startup.{
  MainServer, InitCalls, Handlers, init_server, start_server, new_io_threads, made_threads,
}
use rpc4grad.Server.Startup.NoThreads.{init_server-no_threads}
use rpc4grad.Tests.Connections.{server, idle_loop}
use rpc4grad.Tests.Serving.{local_host}
use rpc4grad.Event.Loop.{EventLoop}

abbrev takes : List ℕ → Bool
takes s = true

-- The main loop's thread is 1, and its handlers are numbers.
abbrev main_loop : EventLoop ℕ
main_loop = record {
  thread_id = 1;
  stop_flag = false;
  is_looping = false;
  listen_fds = 4 ∷ 3 ∷ [];
  pending_tasks = [];
  calls = [];
  wakeups = 0;
}

abbrev handlers : Handlers ℕ
handlers = record { accept = 1; clear = 2; drain = 3; on_timer = 4 }

abbrev calls : InitCalls
calls = record {
  sockets = record { socket = some 9; bound = true; listening = true };
  for_loop = record { epoll_fd = none; wakeup_fd = none; timer_fd = 0 };
  tids = λ i. i + 20;
  now = 100;
  armed_at = 101;
  clear_event = 0;
}

-- The timer has the event of the logger.
abbrev main_timer : Timer
main_timer = record { pending_events = (600, 1) ∷ []; armed = some 500 }

abbrev events : Store
events p = new_timer_event 100 500 true (some 5)

abbrev two_asked : Config
two_asked = record default_config { io_threads = pos 2 }

-- Without a file the configuration asks for no threads.
abbrev bare : MainServer ℕ ℕ
bare =
    elim (init_server takes calls handlers (some default_config) 1 (some main_loop) main_timer
      events local_host) [
        | started s ↦ s
        | _ ↦ record {
          acceptor = record { local_addr = local_host; listenfd = 0 };
          main_event_loop = main_loop;
          threads = [];
          listen_fd_event = readable_event 0 1;
          timer = main_timer;
          events = events;
          server = record { io_threads = new_io_thread_group []; client_counts = 0; client = [] };
        }
      ]

bare_up :
    init_server takes calls handlers
      (some default_config)
      1
      (some main_loop)
      main_timer
      events
      local_host
    ≡ started bare
unfolding init_server new_acceptor get_current_event_loop new_io_threads made_threads default_config
    blank_config check_valid to_string split_colon stoi signed skip_space unsigned digits_value
    decimal
bare_up = refl

init_server-no_threads_example :
    on_accept 1 (λ t. idle_loop) server.fd_event (start_server bare).server ≡ fault out_of_bounds
unfolding default_config blank_config
init_server-no_threads_example =
    init_server-no_threads takes calls handlers default_config 1 (some main_loop) main_timer events
      local_host bare (λ t. idle_loop) server.fd_event refl bare_up
