-- ===== src/Rpc.antt =====
-- tinyrpc/net/rpc: the controller of a call, the server's dispatcher, and the client's channel.
pub mod Controller
pub mod Dispatcher
pub mod Channel
pub mod Closure
