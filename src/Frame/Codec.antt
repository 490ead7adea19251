-- ===== src/Frame/Codec.antt =====
-- core/src/frame/frame_codec.rs: `FrameCodec::encode` and `FrameCodec::decode`. `usize` is taken
-- to be wide enough for a frame's length, as it is on 64 bits.
pub mod RoundTrip
pub mod Truncated
pub mod Sound
use rust_muxio.Prelude.{
  ℕ, ◌+◌, ◌%◌, ◌^◌, ◌≡◌, none, some, List, [], ◌∷◌, ◌++◌, ltb, ◌==◌, if◌then◌else◌, length, get_or,
  slice, Result, ok, err, and_then,
}
use rust_muxio.Prelude.Bytes.{to_le_bytes, from_le_bytes}
use rust_muxio.Frame.Types.{
  FrameKind, cancel_kind, kind_to_u8, kind_try_from, FrameDecodeError, corrupt_frame,
  incomplete_header, Frame, DecodedFrame, frame_length_field_size, frame_stream_id_offset,
  frame_seq_id_offset, frame_kind_offset, frame_header_size,
}

-- The payload's length is cast to `u32`.
unfoldable pub encode : Frame → List ℕ
encode frame =
    to_le_bytes 4 (length frame.payload % 2 ^ 32)
    ++ (to_le_bytes 4 frame.stream_id
        ++ (to_le_bytes 4 frame.seq_id ++ (kind_to_u8 frame.kind ∷ frame.payload)))

-- `uN::from_le_bytes(bytes.try_into().map_err(|_| CorruptFrame)?)` for an N of `k` bytes.
unfoldable pub read_uint : ℕ → List ℕ → Result FrameDecodeError ℕ
read_uint k bytes = if length bytes == k then ok (from_le_bytes bytes) else err corrupt_frame

-- `FrameKind::try_from(byte).map_err(|_| CorruptFrame)?`
unfoldable pub read_kind : ℕ → Result FrameDecodeError FrameKind
unfolding kind_try_from
read_kind b = elim (kind_try_from b) [ none ↦ err corrupt_frame | some k ↦ ok k ]

-- The payload of a cancel frame is discarded.
unfoldable pub payload_of : FrameKind → List ℕ → List ℕ
payload_of cancel_kind bytes = []
payload_of _ bytes = bytes

unfoldable pub decode : List ℕ → Result FrameDecodeError DecodedFrame
decode buf =
    if ltb (length buf) frame_header_size
    then err incomplete_header
    else and_then (read_uint 4 (slice buf 0 frame_length_field_size)) λ len.
      if ltb (length buf) (frame_header_size + len)
      then err incomplete_header
      else and_then (read_uint 4 (slice buf frame_stream_id_offset frame_seq_id_offset))
          λ stream_id.
            and_then (read_uint 4 (slice buf frame_seq_id_offset frame_kind_offset)) λ seq_id.
              and_then (read_kind (get_or buf frame_kind_offset 0)) λ kind. ok (record {
                inner = record {
                  stream_id = stream_id;
                  seq_id = seq_id;
                  kind = kind;
                  payload = payload_of kind (slice buf frame_header_size (frame_header_size + len));
                };
                decode_error = none;
              })
