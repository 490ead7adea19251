-- ===== src/Service/Endpoint.antt =====
-- extensions/muxio-rpc-service-endpoint/src/endpoint.rs, endpoint_interface.rs and
-- endpoint_utils.rs: the registration of handlers, and what is done with requests that are
-- complete. A prebuffered handler is a value of a type `P`, a streaming handler of a type `S`.
pub mod Registration
pub mod Reading
pub mod Collect
pub mod Answering
use rust_muxio.Prelude.{
  ℕ, ◌*◌, Bool, true, false, Option, none, some, List, [], ◌∷◌, is_empty, if◌then◌else◌, Result, ok,
  err,
}
use rust_muxio.Prelude.Map.{Map, get, insert}
use rust_muxio.Frame.Types.{FrameEncodeError}
use rust_muxio.Rpc.Types.{RpcRequest, RpcResponse}
use rust_muxio.Rpc.StreamEncoder.{RpcStreamEncoder}
use rust_muxio.Rpc.Dispatcher
use rust_muxio.Rpc.Dispatcher.{RpcDispatcher}
use rust_muxio.Rpc.Respondable.{or_default}
use rust_muxio.Service.ResultStatus
use rust_muxio.Service.ResultStatus.{
  RpcResultStatus, success, system_error, method_not_found, status_to_u8,
}
use rust_muxio.Service.Error
use rust_muxio.Service.Error.{
  RpcServiceErrorCode, system, not_found, RpcServiceErrorPayload, HandlerError, structured, other,
  RpcServiceEndpointError, already_registered, streaming_handler, prebuffered_handler, handler,
}

-- DEFAULT_SERVICE_MAX_CHUNK_SIZE
abbrev pub default_service_max_chunk_size : ℕ
default_service_max_chunk_size = 1024 * 64

pub record RpcServiceEndpoint (P S : Type 0) : Type 0 where
  pub prebuffered_handlers : Map P
  pub stream_handlers : Map S

-- The wire status of a handler's error code.
unfoldable pub status_of : RpcServiceErrorCode → RpcResultStatus
status_of Error.fail = ResultStatus.fail
status_of system = system_error
status_of not_found = method_not_found

abbrev pub is_some : {V : Type 0} → Option V → Bool
is_some none = false
is_some (some v) = true

abbrev pub contains_key : {V : Type 0} → ℕ → Map V → Bool
contains_key id m = is_some (get id m)

module _ {P S : Type 0} where
  unfoldable pub new : RpcServiceEndpoint P S
  new = record { prebuffered_handlers = []; stream_handlers = [] }

  unfoldable pub register_prebuffered :
      ℕ
      → P
      → RpcServiceEndpoint P S
      → Result RpcServiceEndpointError (Unit {0}) × RpcServiceEndpoint P S
  register_prebuffered id h s =
      if contains_key id s.stream_handlers
      then (err (already_registered (streaming_handler id)), s)
      else if contains_key id s.prebuffered_handlers
      then (err (already_registered (handler id)), s)
      else (ok tt, record s { prebuffered_handlers = insert id h s.prebuffered_handlers })

  unfoldable pub register_stream_handler :
      ℕ
      → S
      → RpcServiceEndpoint P S
      → Result RpcServiceEndpointError (Unit {0}) × RpcServiceEndpoint P S
  register_stream_handler id h s =
      if contains_key id s.prebuffered_handlers
      then (err (already_registered (prebuffered_handler id)), s)
      else if contains_key id s.stream_handlers
      then (err (already_registered (streaming_handler id)), s)
      else (ok tt, record s { stream_handlers = insert id h s.stream_handlers })

abbrev finished : ℕ → RpcRequest → RpcResultStatus → Option (List ℕ) → RpcResponse
finished request_id request status payload = record {
  rpc_request_id = request_id;
  rpc_method_id = request.rpc_method_id;
  rpc_result_status = some (status_to_u8 status);
  rpc_prebuffered_payload_bytes = payload;
  is_finalized = true;
}

-- The payload, or the parameters where there is no payload or an empty one.
unfoldable pub args_for_handler : RpcRequest → List ℕ
args_for_handler request =
    let payload = or_default [] request.rpc_prebuffered_payload_bytes in
    if is_empty payload then or_default [] request.rpc_param_bytes else payload

-- A handler's work is a function of its arguments and the context, and `encode` is
-- `bitcode::encode`.
module _ {P C : Type 0} (run : P → List ℕ → C → Result HandlerError (List ℕ))
    (encode : RpcServiceErrorPayload → List ℕ) where
  unfoldable pub response_for : ℕ → RpcRequest → Result HandlerError (List ℕ) → RpcResponse
  unfolding status_of
  response_for id request (ok encoded) = finished id request success (some encoded)
  response_for id request (err (structured payload)) =
      finished id request (status_of payload.code) (some (encode payload))
  response_for id request (err (other text)) = finished id request system_error (some text)

  unfoldable pub process_with : Option P → C → ℕ → RpcRequest → RpcResponse
  process_with none context id request = finished id request method_not_found none
  process_with (some h) context id request =
      response_for id request (run h (args_for_handler request) context)

  unfoldable pub process_single_prebuffered_request : Map P → C → ℕ → RpcRequest → RpcResponse
  process_single_prebuffered_request handlers context id request =
      process_with (get request.rpc_method_id handlers) context id request

  -- `join_all` gives the responses in the order of the requests.
  unfoldable pub run_handlers :
      {S : Type 0} → C → List (ℕ × RpcRequest) → RpcServiceEndpoint P S → List RpcResponse
  run_handlers context [] s = []
  run_handlers context ((id, request) ∷ rest) s =
      process_single_prebuffered_request s.prebuffered_handlers context id request
      ∷ run_handlers context rest s

abbrev taken : ℕ → Option RpcRequest → List (ℕ × RpcRequest) → List (ℕ × RpcRequest)
taken id none more = more
taken id (some request) more = (id, request) ∷ more

module _ {H U : Type 0} where
  -- The end of `decode_bytes`: the requests that are finalized leave the dispatcher's queue.
  unfoldable pub collect_finalized :
      List ℕ → RpcDispatcher H U → List (ℕ × RpcRequest) × RpcDispatcher H U
  collect_finalized [] d = ([], d)
  collect_finalized (id ∷ ids) d =
      let (request, d') = Dispatcher.delete_rpc_request id d in
      let (more, d'') = collect_finalized ids d' in
      let kept = collect_finalized ids d in
      if or_default false (Dispatcher.is_rpc_request_finalized id d)
      then (taken id request more, d'')
      else kept

  -- The results of the responses, which are ignored, stand for what was emitted.
  unfoldable pub send_responses :
      List RpcResponse
      → RpcDispatcher H U
      → ℕ
      → List (Option (Result FrameEncodeError RpcStreamEncoder)) × RpcDispatcher H U × ℕ
  send_responses [] d counter = ([], d, counter)
  send_responses (r ∷ rest) d counter =
      let (result, d', counter') = Dispatcher.respond r default_service_max_chunk_size d counter in
      let (results, d'', counter'') = send_responses rest d' counter' in
      (result ∷ results, d'', counter'')
