-- ===== src/Rpc.antt =====
-- rocket/rocket/net/rpc: the dispatcher of a server, and the controller and channel of a client.
pub mod ErrorCode
pub mod Dispatcher
pub mod Names
pub mod Answers
pub mod Controller
pub mod Channel
pub mod AnswerFrame
pub mod Serving
pub mod RoundTrip
pub mod FindAddr
pub mod Closure
pub mod Calls
pub mod Once
