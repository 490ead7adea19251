-- ===== src/Service/Caller.antt =====
-- extensions/muxio-rpc-service-caller/src/caller_interface.rs: the response handler `recv_fn` of
-- `call_rpc_streaming` and the loop of `call_rpc_buffered`, on an unbounded channel with its
-- receiver alive; and prebuffered/traits.rs: the request of `RpcCallPrebuffered::call`.
-- `lossy` is `String::from_utf8_lossy`.
pub mod Answer
pub mod Calling
pub mod DynamicChannel
use rust_muxio.Prelude.{
  ℕ, Bool, true, false, Option, none, some, List, [], ◌∷◌, ◌++◌, leb, is_empty, length,
  if◌then◌else◌, Result, ok, err,
}
use rust_muxio.Frame.Types.{FrameDecodeError}
use rust_muxio.Rpc.Types.{RpcRequest, RpcStreamEvent, header, payload_chunk, end, error}
use rust_muxio.Service.ResultStatus
use rust_muxio.Service.ResultStatus.{
  RpcResultStatus, success, system_error, method_not_found, status_try_from,
}
use rust_muxio.Service.Error
use rust_muxio.Service.Error.{RpcServiceErrorPayload, system, not_found}
use rust_muxio.Service.Endpoint.{default_service_max_chunk_size}

-- The request that carries encoded arguments: large ones go as payload, small ones in the header.
unfoldable pub request_for : ℕ → List ℕ → RpcRequest
request_for method_id encoded_args =
    if leb default_service_max_chunk_size (length encoded_args)
    then record {
      rpc_method_id = method_id;
      rpc_param_bytes = none;
      rpc_prebuffered_payload_bytes = some encoded_args;
      is_finalized = true;
    }
    else record {
      rpc_method_id = method_id;
      rpc_param_bytes = some encoded_args;
      rpc_prebuffered_payload_bytes = none;
      is_finalized = true;
    }

-- A transport error has the text of the frame error.
pub data RpcServiceError : Type 0 where
  transport : FrameDecodeError → RpcServiceError
  rpc : RpcServiceErrorPayload → RpcServiceError
  aborted : RpcServiceError

abbrev pub Delivery : Type 0
Delivery = Result RpcServiceError (List ℕ)

-- What `recv_fn` captures. `tx` and `ready_tx` tell whether the senders are still there; `sent`
-- and `readiness` are what was sent on them.
pub record RecvState : Type 0 where
  pub tx : Bool
  pub sent : List Delivery
  pub ready_tx : Bool
  pub readiness : Option (Result FrameDecodeError (Unit {0}))
  pub status : Option RpcResultStatus
  pub error_buffer : List ℕ

-- The state that a call starts with.
unfoldable pub fresh : RecvState
fresh = record {
  tx = true;
  sent = [];
  ready_tx = true;
  readiness = none;
  status = none;
  error_buffer = [];
}

-- "RPC method not found: Some(MethodNotFound)"
abbrev pub not_found_text : List ℕ
not_found_text =
    82 ∷ 80 ∷ 67 ∷ 32 ∷ 109 ∷ 101 ∷ 116 ∷ 104 ∷ 111 ∷ 100 ∷ 32 ∷ 110 ∷ 111 ∷ 116 ∷ 32 ∷ 102 ∷ 111
    ∷ 117 ∷ 110 ∷ 100 ∷ 58 ∷ 32 ∷ 83 ∷ 111 ∷ 109 ∷ 101 ∷ 40 ∷ 77 ∷ 101 ∷ 116 ∷ 104 ∷ 111 ∷ 100 ∷ 78
    ∷ 111 ∷ 116 ∷ 70 ∷ 111 ∷ 117 ∷ 110 ∷ 100 ∷ 41 ∷ []

-- "RPC failed with status: Some(SystemError)"
abbrev pub failed_text : List ℕ
failed_text =
    82 ∷ 80 ∷ 67 ∷ 32 ∷ 102 ∷ 97 ∷ 105 ∷ 108 ∷ 101 ∷ 100 ∷ 32 ∷ 119 ∷ 105 ∷ 116 ∷ 104 ∷ 32 ∷ 115
    ∷ 116 ∷ 97 ∷ 116 ∷ 117 ∷ 115 ∷ 58 ∷ 32 ∷ 83 ∷ 111 ∷ 109 ∷ 101 ∷ 40 ∷ 83 ∷ 121 ∷ 115 ∷ 116 ∷ 101
    ∷ 109 ∷ 69 ∷ 114 ∷ 114 ∷ 111 ∷ 114 ∷ 41 ∷ []

unfoldable pub status_or_success : Option RpcResultStatus → RpcResultStatus
status_or_success none = success
status_or_success (some s) = s

-- The status of a response: the first byte of its metadata, and success where that is none.
unfoldable pub result_status : List ℕ → RpcResultStatus
unfolding status_or_success
result_status [] = success
result_status (b ∷ bs) = status_or_success (status_try_from b)

unfoldable pub signal : Result FrameDecodeError (Unit {0}) → RecvState → RecvState
signal r s = if s.ready_tx then record s { ready_tx = false; readiness = some r } else s

-- `send_and_ignore` on the sender, if it is there.
unfoldable pub send : Delivery → RecvState → RecvState
send item s = if s.tx then record s { sent = s.sent ++ item ∷ [] } else s

unfoldable pub on_chunk : Option RpcResultStatus → List ℕ → RecvState → RecvState
unfolding send
on_chunk (some success) bytes s = send (ok bytes) s
on_chunk _ bytes s = record s { error_buffer = s.error_buffer ++ bytes }

module _ (lossy : List ℕ → List ℕ) where
  -- `final_msg`
  unfoldable pub message : List ℕ → List ℕ → List ℕ
  message payload default = if is_empty (lossy payload) then default else lossy payload

  -- The last thing that is sent, for the final status.
  unfoldable pub final : Option RpcResultStatus → List ℕ → RecvState → RecvState
  unfolding send message
  final (some method_not_found) payload s =
      send (err (rpc (record { code = not_found; message = message payload not_found_text }))) s
  final (some ResultStatus.fail) payload s =
      send (err (rpc (record { code = Error.fail; message = [] }))) s
  final (some system_error) payload s =
      send (err (rpc (record { code = system; message = message payload failed_text }))) s
  final _ payload s = s

  unfoldable pub recv_fn : RpcStreamEvent → RecvState → RecvState
  unfolding signal send on_chunk final result_status
  recv_fn (header id method h) s =
      signal (ok tt) (record s { status = some (result_status h.rpc_metadata_bytes) })
  recv_fn (payload_chunk h id method bytes) s = on_chunk s.status bytes s
  recv_fn (end h id method) s = record (final s.status s.error_buffer s) {
    status = none;
    error_buffer = [];
    tx = false;
  }
  recv_fn (error h id method e) s = record (send (err (transport e)) (signal (err e) s)) {
    tx = false;
  }

  -- The events of a call, one after the other.
  unfoldable pub recv_all : List RpcStreamEvent → RecvState → RecvState
  recv_all [] s = s
  recv_all (e ∷ es) s = recv_all es (recv_fn e s)

-- The loop of `call_rpc_buffered` over what the stream yields; `decode` runs on the bytes.
unfoldable pub consume : List Delivery → List ℕ → Delivery
consume [] success_buf = ok success_buf
consume (ok chunk ∷ rest) success_buf = consume rest (success_buf ++ chunk)
consume (err e ∷ rest) success_buf = err e
