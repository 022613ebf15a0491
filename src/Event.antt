-- ===== src/Event.antt =====
-- rocket/rocket/net: file descriptor events, the epoll registration and the event loop.
pub mod Fd
pub mod FdGroup
pub mod Epoll
pub mod EpollTrace
pub mod Loop
pub mod Wakeup
pub mod Create
