-- ===== src/Service/Error.antt =====
-- extensions/muxio-rpc-service/src/error.rs, and extensions/muxio-rpc-service-endpoint/src/error.rs.
-- A text is the list of its bytes; a text that the program makes of a value stands as that value.
use rust_muxio.Prelude.{ℕ, List}
use rust_muxio.Frame.Types.{FrameDecodeError, FrameEncodeError}

pub data RpcServiceErrorCode : Type 0 where
  fail system not_found : RpcServiceErrorCode

pub record RpcServiceErrorPayload : Type 0 where
  pub code : RpcServiceErrorCode
  pub message : List ℕ

-- What a handler may fail with: an `RpcServiceEndpointHandlerError`, or any error with its text.
pub data HandlerError : Type 0 where
  structured : RpcServiceErrorPayload → HandlerError
  other : List ℕ → HandlerError

-- The texts of the errors of a registration, each for a method id.
pub data Registered : Type 0 where
  streaming_handler prebuffered_handler handler : ℕ → Registered

pub data RpcServiceEndpointError : Type 0 where
  decode : FrameDecodeError → RpcServiceEndpointError
  encode : FrameEncodeError → RpcServiceEndpointError
  already_registered : Registered → RpcServiceEndpointError
