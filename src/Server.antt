-- ===== src/Server.antt =====
-- src/server_adaptor, the side that takes requests from the clients.
pub mod Throttle
pub mod Op
pub mod MsgModule
pub mod OpRequest
pub mod Dispatch
pub mod CopyUp
pub mod Config
pub mod Replies
pub mod Quota
mod Tests
