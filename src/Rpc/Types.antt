-- ===== src/Rpc/Types.antt =====
-- core/src/rpc/rpc_internals/rpc_message_type.rs, rpc_header.rs, rpc_stream_event.rs,
-- core/src/rpc/rpc_request_response.rs, and the RPC constants of core/src/constants.rs. A shared
-- `Arc<RpcHeader>` is never written to, so it is the header.
use rust_muxio.Prelude.{
  ℕ, Bool, true, false, Option, none, some, List, [], ◌∷◌, ◌==◌, if◌then◌else◌,
}
use rust_muxio.Frame.Types.{FrameDecodeError}

pub data RpcMessageType : Type 0 where
  call response event : RpcMessageType

-- `msg_type as u8`
unfoldable pub message_type_to_u8 : RpcMessageType → ℕ
message_type_to_u8 call = 0
message_type_to_u8 response = 1
message_type_to_u8 event = 2

-- `RpcMessageType::try_from`; `none` is `Err(())`.
unfoldable pub message_type_try_from : ℕ → Option RpcMessageType
message_type_try_from v =
    if v == 0
    then some call
    else if v == 1
    then some response
    else if v == 2
    then some event
    else none

pub record RpcHeader : Type 0 where
  pub rpc_msg_type : RpcMessageType
  pub rpc_request_id : ℕ
  pub rpc_method_id : ℕ
  pub rpc_metadata_bytes : List ℕ

-- `header` and `end` hold the request id, the method id and the header; `payload_chunk` the bytes
-- besides.
pub data RpcStreamEvent : Type 0 where
  header : ℕ → ℕ → RpcHeader → RpcStreamEvent
  payload_chunk : RpcHeader → ℕ → ℕ → List ℕ → RpcStreamEvent
  end : RpcHeader → ℕ → ℕ → RpcStreamEvent
  error : Option RpcHeader → Option ℕ → Option ℕ → FrameDecodeError → RpcStreamEvent

-- `matches!(event, RpcStreamEvent::End { .. })`
abbrev pub is_end_event : RpcStreamEvent → Bool
is_end_event (end h r m) = true
is_end_event _ = false

pub record RpcRequest : Type 0 where
  pub rpc_method_id : ℕ
  pub rpc_param_bytes : Option (List ℕ)
  pub rpc_prebuffered_payload_bytes : Option (List ℕ)
  pub is_finalized : Bool

pub record RpcResponse : Type 0 where
  pub rpc_request_id : ℕ
  pub rpc_method_id : ℕ
  pub rpc_result_status : Option ℕ
  pub rpc_prebuffered_payload_bytes : Option (List ℕ)
  pub is_finalized : Bool

-- The first byte of the metadata, if there is one.
abbrev pub first_byte : List ℕ → Option ℕ
first_byte [] = none
first_byte (b ∷ bs) = some b

-- `RpcResponse::from_rpc_header`
unfoldable pub from_rpc_header : RpcHeader → RpcResponse
from_rpc_header h = record {
  rpc_request_id = h.rpc_request_id;
  rpc_method_id = h.rpc_method_id;
  rpc_result_status = first_byte h.rpc_metadata_bytes;
  rpc_prebuffered_payload_bytes = none;
  is_finalized = false;
}

abbrev pub rpc_frame_msg_type_offset : ℕ
rpc_frame_msg_type_offset = 0

abbrev pub rpc_frame_id_offset : ℕ
rpc_frame_id_offset = 1

abbrev pub rpc_frame_method_id_offset : ℕ
rpc_frame_method_id_offset = 5

abbrev pub rpc_frame_metadata_length_offset : ℕ
rpc_frame_metadata_length_offset = 13

abbrev pub rpc_frame_metadata_length_size : ℕ
rpc_frame_metadata_length_size = 2

abbrev pub rpc_frame_frame_header_size : ℕ
rpc_frame_frame_header_size = 15
