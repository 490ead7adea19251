-- ===== src/Rpc/StreamDecoder.antt =====
-- core/src/rpc/rpc_internals/rpc_stream_decoder.rs: `RpcStreamDecoder`, which reads the header at
-- the start of a stream and turns its frames into events.
pub mod Header
pub mod Events
pub mod Runs
pub mod Open
use rust_muxio.Prelude.{
  ℕ, ◌+◌, Option, none, some, List, [], ◌∷◌, ◌++◌, ltb, if◌then◌else◌, is_empty, length, slice,
  drop, get_or, Result, ok, err,
}
use rust_muxio.Frame.Types.{
  DecodedFrame, FrameDecodeError, corrupt_frame, read_after_cancel, is_end, is_cancel,
}
use rust_muxio.Frame.Codec.{read_uint}
use rust_muxio.Rpc.Types.{
  RpcHeader, RpcMessageType, RpcStreamEvent, header, payload_chunk, end, message_type_try_from,
  rpc_frame_msg_type_offset, rpc_frame_id_offset, rpc_frame_method_id_offset,
  rpc_frame_metadata_length_offset, rpc_frame_metadata_length_size, rpc_frame_frame_header_size,
}

pub data RpcDecoderState : Type 0 where
  await_header await_payload done : RpcDecoderState

pub record RpcStreamDecoder : Type 0 where
  pub state : RpcDecoderState
  pub header : Option RpcHeader
  pub rpc_request_id : Option ℕ
  pub rpc_method_id : Option ℕ
  pub buffer : List ℕ
  pub meta_len : ℕ

unfoldable pub new : RpcStreamDecoder
new = record {
  state = await_header;
  header = none;
  rpc_request_id = none;
  rpc_method_id = none;
  buffer = [];
  meta_len = 0;
}

-- A result, and the decoder as it was left.
abbrev pub Decoding : Type 0 → Type 0
Decoding A = Result FrameDecodeError A × RpcStreamDecoder

-- `?` on a result, at decoder `d`.
abbrev try_at :
    {A B : Type 0} → RpcStreamDecoder → Result FrameDecodeError A → (A → Decoding B) → Decoding B
try_at d (ok a) f = f a
try_at d (err e) f = (err e, d)

-- `.ok_or(FrameDecodeError::CorruptFrame)`
abbrev ok_or_corrupt : {A : Type 0} → Option A → Result FrameDecodeError A
ok_or_corrupt none = err corrupt_frame
ok_or_corrupt (some a) = ok a

-- The `AwaitHeader` branch from where the metadata is there: the header is cut off the buffer, and
-- what stands behind it is a first chunk.
unfoldable pub take_header :
    RpcMessageType → ℕ → ℕ → ℕ → RpcStreamDecoder → Decoding (List RpcStreamEvent)
take_header msg_type request_id method_id meta_len d =
    let size = rpc_frame_metadata_length_offset + rpc_frame_metadata_length_size + meta_len in
    let h : RpcHeader = record {
      rpc_msg_type = msg_type;
      rpc_request_id = request_id;
      rpc_method_id = method_id;
      rpc_metadata_bytes =
          slice d.buffer (rpc_frame_metadata_length_offset + rpc_frame_metadata_length_size) size;
    } in
    let d' = record d {
      header = some h;
      state = await_payload;
      buffer = drop size d.buffer;
      rpc_request_id = some h.rpc_request_id;
    } in
    if is_empty d'.buffer then (ok (header request_id method_id h ∷ []), d') else (
      ok (header request_id method_id h ∷ payload_chunk h request_id method_id d'.buffer ∷ []),
      record d' { buffer = [] },
    )

-- The `AwaitHeader` branch, the payload being in the buffer.
unfoldable pub read_header : RpcStreamDecoder → Decoding (List RpcStreamEvent)
read_header d =
    if ltb (length d.buffer) rpc_frame_frame_header_size
    then (ok [], d)
    else try_at d
        (ok_or_corrupt (message_type_try_from (get_or d.buffer rpc_frame_msg_type_offset 0)))
        λ msg_type.
          try_at d (read_uint 4 (slice d.buffer rpc_frame_id_offset rpc_frame_method_id_offset))
            λ request_id.
              try_at d
                (read_uint 8
                  (slice d.buffer rpc_frame_method_id_offset rpc_frame_metadata_length_offset))
                λ method_id.
                  let d' = record d { rpc_method_id = some method_id } in
                  try_at d'
                    (read_uint 2 (
                      slice d.buffer rpc_frame_metadata_length_offset
                        (rpc_frame_metadata_length_offset + rpc_frame_metadata_length_size)))
                    λ meta_len.
                      if ltb (length d.buffer) (
                        rpc_frame_metadata_length_offset + rpc_frame_metadata_length_size
                        + meta_len)
                      then (ok [], record d' { meta_len = meta_len })
                      else take_header msg_type request_id method_id meta_len d'

-- The `AwaitPayload` branch.
unfoldable pub read_payload : DecodedFrame → RpcStreamDecoder → Decoding (List RpcStreamEvent)
read_payload frame d = try_at d (ok_or_corrupt d.header) λ h.
    if is_end frame.inner.kind
    then (let d' = record d { state = done } in
        try_at d' (ok_or_corrupt d.rpc_request_id) λ request_id.
          try_at d' (ok_or_corrupt d.rpc_method_id)
            λ method_id. (ok (end h request_id method_id ∷ []), d'))
    else if is_cancel frame.inner.kind
    then (err read_after_cancel, d)
    else try_at d (ok_or_corrupt d.rpc_request_id) λ request_id.
      try_at d (ok_or_corrupt d.rpc_method_id)
        λ method_id. (ok (payload_chunk h request_id method_id frame.inner.payload ∷ []), d)

unfoldable pub decode_in :
    RpcDecoderState → DecodedFrame → RpcStreamDecoder → Decoding (List RpcStreamEvent)
decode_in await_header frame d = read_header (record d { buffer = d.buffer ++ frame.inner.payload })
decode_in await_payload frame d = read_payload frame d
decode_in done frame d = (ok [], d)

unfoldable pub decode_rpc_frame : DecodedFrame → RpcStreamDecoder → Decoding (List RpcStreamEvent)
decode_rpc_frame frame d = decode_in d.state frame d
