-- ===== src/Rpc.antt =====
-- The RPC layer, core/src/rpc: headers and events of a stream, the session that multiplexes
-- streams, the session that tracks response handlers, and the dispatcher.
pub mod Types
pub mod IdSpace
pub mod StreamEncoder
pub mod StreamDecoder
pub mod Session
pub mod Respondable
pub mod Dispatcher
mod Examples
