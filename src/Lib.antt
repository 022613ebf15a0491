-- ===== src/Lib.antt =====
-- A model of the RPC framework under rocket/rocket, and what is proved of it.
--
-- A peer sends frames of the tinyPB format over a TCP connection. The event loop of a thread waits
-- on epoll and runs the handlers of a connection; onRead puts the bytes into the in buffer, decodes
-- them and, on a server, hands each request to the dispatcher, whose answer is encoded into the out
-- buffer for onWrite. On a client the channel makes a request with a fresh message id, sends it
-- through a connection, and is called back with the answer, an error or a timeout.
--
--   Buffer      rocket/rocket/net/TCP/tcp_buffer.{h,cpp}: the bytes with the two indices and m_size.
--               resize_buffer, adjust_buffer, write_to_buffer, read_from_buffer, move_read_index and
--               move_write_index are the member functions.
--   Coder       rocket/rocket/net/coder/tinyPB_protocol.h and tinyPB_coder.cpp: encode and decode.
--               Coder/Protocol is the message, Coder/Encode and Coder/Decode the two directions,
--               and the others are about what a frame becomes: alone and behind others
--               (Coder/Round, Coder/Stream), behind other bytes (Coder/Garbage) and in part
--               (Coder/Pieces); and about when decode ends (Coder/Ends, Coder/Hang).
--               Coder/StringCoder is string_coder.h.
--   Event       rocket/rocket/net/fd_event.{h,cpp}, fd_event_group.{h,cpp} and eventLoop.{h,cpp}:
--               Event/Fd, Event/FdGroup, Event/Epoll for the two macros, and Event/Loop.
--               Event/Create is the constructor of a loop, and Event/Wakeup wakeup_fd_event.cpp with
--               the handler that empties the descriptor.
--   Timer       rocket/rocket/net/timer.{h,cpp} and timer_event.{h,cpp}.
--   MsgId       rocket/rocket/common/msg_id_util.cpp.
--   Connection  rocket/rocket/net/TCP/tcp_connection.{h,cpp}. Connection/Read and Connection/Send
--               are about the two loops, Connection/Arrival and Connection/Pieces about onRead,
--               Connection/Close and Connection/Callbacks about clear and the callbacks.
--   Rpc         rocket/rocket/net/rpc/rpc_dispatcher.cpp, rpc_controller.{h,cpp} and
--               rpc_channel.{h,cpp} (FindAddr in Rpc/FindAddr), rpc_closure.h with
--               rpc_interface.{h,cpp} in Rpc/Closure, and rocket/rocket/common/error_code.h.
--               Rpc/Serving puts the dispatcher under a connection, and Rpc/RoundTrip a client and
--               its channel at the other end.
--   RunTime     rocket/rocket/common/run_time.{h,cpp}.
--   Config      rocket/rocket/common/config.{h,cpp}, over a tree of elements.
--   Log         rocket/rocket/common/log.{h,cpp}: Log/Level for the levels, macros and lines,
--               Log/Writer for AsyncLogger and its thread, Log/Logger for Logger. Log/Logger/Steps
--               takes each locked part of a function as a step of its own.
--   IoThread    rocket/rocket/net/io_thread.{h,cpp}: two threads, their semaphores and
--               the stop flag of the loop, as steps.
--   NetAddr     rocket/rocket/net/TCP/net_addr.{h,cpp}: the text of an address.
--   Lock        rocket/rocket/common/mutex.h.
--   Server      rocket/rocket/net/TCP/tcp_server.{h,cpp} and net/io_thread_group.{h,cpp};
--               Server/Acceptor is tcp_acceptor.{h,cpp}, and Server/Startup init and start.
--   Client      rocket/rocket/net/TCP/tcp_client.{h,cpp}.
--   Prelude     helpers: lists and tests over the native numbers, faults, slices of a vector, signed
--               integers, and the bytes of a 32-bit word in network order.
--   Tests       runs at concrete inputs, and each theorem applied to one.
--
-- State is a record that the operations take and return. An access outside an object, a signed
-- overflow, an uncaught exception, a call on a null pointer and an unlock of a mutex that is not
-- held are values of `Fault`, and an operation that can meet one returns an `Outcome`. Where the
-- code can also end the process by exit, the result is a `Start`. A byte, and an int32_t of a
-- message, is its bit pattern.
--
-- decode takes fuel, one unit for each round of its loop, and `none` means that it is still
-- running: a buffer of n frames is decoded with n + 1 units, and one unit more than there are bytes
-- to read is enough unless a round takes no byte off. The loops of onRead and onWrite end
-- with the list of the results that read(2) and write(2) give, EventLoop::loop with the list of the
-- reports of epoll_wait, and the loop of a log thread with a list of turns, each with what strftime,
-- fopen and ftell give in it. Threads that share state, those of the logger and of an IO thread,
-- are interleavings of steps.
--
-- What comes from outside is an argument: the results of the system calls, the time, random bytes,
-- protobuf services and messages, TinyXML, and what a callback does and how it ends. A method of a
-- service runs the closure once before it returns, or does not run it at all, as in
-- testcases/test_rpc_server.cpp; one that runs it later or more often is not modelled. A
-- std::function is a name, and the calls made to it are recorded.
--
-- Not modelled: the text that log lines are formatted from, and the addresses that only go into
-- them; destructors that only close, delete or join; the socket structures of addresses; the system
-- calls themselves; the test programs, the code that protoc generates, and the code generator.
--
-- An open buffer is a valid one whose write index lies below the end of its vector, as the buffers
-- of a connection are from the start.
pub mod Prelude
pub mod Buffer
pub mod Coder
pub mod Event
pub mod Timer
pub mod MsgId
pub mod Connection
pub mod Rpc
pub mod Lock
pub mod NetAddr
pub mod RunTime
pub mod Config
pub mod Log
pub mod Server
pub mod Client
pub mod IoThread
pub mod Tests
