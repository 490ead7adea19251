-- ===== src/Service/Caller/Calling.antt =====
-- extensions/muxio-rpc-service-caller/src/caller_interface.rs: what `call_rpc_streaming` does around
-- its response handler.
use rust_muxio.Prelude.{ℕ, Bool, false, Option, none, some, if◌then◌else◌, Result, ok, err}
use rust_muxio.Frame.Types.{FrameDecodeError, FrameEncodeError}
use rust_muxio.Rpc.Types.{RpcRequest}
use rust_muxio.Rpc.StreamEncoder.{RpcStreamEncoder}
use rust_muxio.Rpc.Dispatcher
use rust_muxio.Rpc.Dispatcher.{RpcDispatcher}
use rust_muxio.Service.Endpoint.{default_service_max_chunk_size}
use rust_muxio.Service.Caller.{RecvState, signal}

-- Each is an `RpcServiceError::Transport`, with a text of its own.
pub data CallError : Type 0 where
  not_connected closed_prematurely : CallError
  call_failed : FrameEncodeError → CallError
  not_ready : FrameDecodeError → CallError

-- `ready_rx.await`
unfoldable pub awaited : Option (Result FrameDecodeError (Unit {0})) → Result CallError (Unit {0})
awaited none = err closed_prematurely
awaited (some (ok u)) = ok u
awaited (some (err e)) = err (not_ready e)

-- The readiness behind the call: it is signalled at once, unless an event has come before.
unfoldable pub become_ready : RecvState → Result CallError (Unit {0}) × RecvState
unfolding signal awaited
become_ready s = let s' = signal (ok tt) s in (awaited s'.readiness, s')

unfoldable pub register_call :
    {H U : Type 0}
    → RpcRequest
    → H
    → RpcDispatcher H U
    → ℕ
    → Option (Result CallError RpcStreamEncoder) × RpcDispatcher H U × ℕ
unfolding Dispatcher.start_call
register_call request recv_fn d counter =
    let (r, d', counter') =
      Dispatcher.start_call request default_service_max_chunk_size (some recv_fn) false d counter in
    (
      elim r [
        | none ↦ none
        | some (ok e) ↦ some (ok e)
        | some (err x) ↦ some (err (call_failed x))
      ],
      d',
      counter',
    )

-- The call up to its readiness; a disconnected client rejects it and registers nothing.
unfoldable pub call_rpc_streaming :
    {H U : Type 0}
    → Bool
    → RpcRequest
    → H
    → RpcDispatcher H U
    → ℕ
    → Option (Result CallError RpcStreamEncoder) × RpcDispatcher H U × ℕ
unfolding register_call
call_rpc_streaming is_connected request recv_fn d counter =
    if is_connected
    then register_call request recv_fn d counter
    else (some (err not_connected), d, counter)
