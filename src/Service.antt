-- ===== src/Service.antt =====
-- The service layer, extensions/muxio-rpc-service, muxio-rpc-service-endpoint and
-- muxio-rpc-service-caller: the handlers of an endpoint, the responder of a streaming handler, and
-- the caller's side of a call.
pub mod ResultStatus
pub mod Error
pub mod Responder
pub mod Endpoint
pub mod Caller
pub mod Call
pub mod Prebuffered
pub mod Channel
mod PrebufferedExamples
mod EndpointExamples
mod Examples
