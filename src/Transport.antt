-- ===== src/Transport.antt =====
-- The transports of extensions: how clients and servers drive a dispatcher and an endpoint, and what
-- they do when a connection is lost.
pub mod Link
pub mod Program
pub mod WriteLoop
pub mod ReadLoop
pub mod Source
pub mod Wasm
pub mod StaticClient
pub mod Ws
pub mod Ipc
pub mod SyncClient
pub mod SyncServer
pub mod WsServer
pub mod IpcServer
mod ServerExamples
mod Examples
