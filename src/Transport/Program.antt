-- ===== src/Transport/Program.antt =====
-- What a transport serves: the program's closures, its endpoint, and a dispatcher.
use rust_muxio.Prelude.{ℕ, Bool, List, [], ◌≡◌, refl, Result}
use rust_muxio.Frame.Types.{FrameDecodeError}
use rust_muxio.Rpc.Types.{RpcStreamEvent}
use rust_muxio.Rpc.Respondable
use rust_muxio.Rpc.Dispatcher.{fail_all_pending_requests}
use rust_muxio.Service.Error.{HandlerError, RpcServiceErrorPayload}
use rust_muxio.Service.Endpoint.{RpcServiceEndpoint}
use rust_muxio.Service.Endpoint.Reading
use rust_muxio.Service.Endpoint.Reading.{EndpointState, invoke}

-- The closures of the program, and the form of an error on the wire.
pub record Program (R S C V P : Type 0) : Type 0 where
  pub on_response : R → RpcStreamEvent → V → V
  pub on_stream : S → RpcStreamEvent → C → V → List (List ℕ × Bool) × V
  pub run : P → List ℕ → C → Result HandlerError (List ℕ)
  pub encode_payload : RpcServiceErrorPayload → List ℕ
  pub endpoint : RpcServiceEndpoint P S

module _ {R S C V P : Type 0} (program : Program R S C V P) where
  -- `endpoint.read_bytes`, its result ignored.
  unfoldable pub serve : List ℕ → C → EndpointState R S C V → EndpointState R S C V
  unfolding Reading.read_bytes
  serve bytes context state =
      (Reading.read_bytes program.on_response program.on_stream program.run program.encode_payload
        bytes context program.endpoint state).1

  -- `dispatcher.fail_all_pending_requests`
  unfoldable pub fail_pending : FrameDecodeError → EndpointState R S C V → EndpointState R S C V
  unfolding fail_all_pending_requests Respondable.clear_all_prebuffering
  fail_pending e (d, u, counter) =
      let (d', u') =
        fail_all_pending_requests (invoke program.on_response program.on_stream) e d u in
      (d', u', counter)

-- No handler waits for a response, and nothing is prebuffered.
pub record IsIdle {R S C V : Type 0} (state : EndpointState R S C V) : Type 0 where
  pub no_handlers : state.0.rpc_respondable_session.routing.response_handlers ≡ []
  pub no_buffers : state.0.rpc_respondable_session.routing.prebuffered_responses ≡ []
  pub no_flags : state.0.rpc_respondable_session.routing.prebuffering_flags ≡ []

pub fail_pending-IsIdle :
    {R S C V P : Type 0} (program : Program R S C V P) (e : FrameDecodeError)
    (state : EndpointState R S C V)
    → IsIdle (fail_pending program e state)
unfolding fail_pending
fail_pending-IsIdle program e (d, u, counter) = record {
  no_handlers = refl;
  no_buffers = refl;
  no_flags = refl;
}
