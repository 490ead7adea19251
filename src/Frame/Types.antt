-- ===== src/Frame/Types.antt =====
-- core/src/frame/frame_kind.rs, frame_struct.rs, frame_error.rs, and the frame constants of
-- core/src/constants.rs.
use Prim.Native.String.{String}
use rust_muxio.Prelude.{ℕ, Bool, Option, none, some, List, ◌==◌, if◌then◌else◌}

pub data FrameKind : Type 0 where
  open_kind data_kind end_kind cancel_kind pong_kind ping_kind : FrameKind

-- `kind as u8`
unfoldable pub kind_to_u8 : FrameKind → ℕ
kind_to_u8 open_kind = 0
kind_to_u8 data_kind = 1
kind_to_u8 end_kind = 2
kind_to_u8 cancel_kind = 3
kind_to_u8 pong_kind = 4
kind_to_u8 ping_kind = 5

-- `FrameKind::try_from`; `none` is `Err(())`.
unfoldable pub kind_try_from : ℕ → Option FrameKind
kind_try_from value =
    if value == 0
    then some open_kind
    else if value == 1
    then some data_kind
    else if value == 2
    then some end_kind
    else if value == 3
    then some cancel_kind
    else if value == 4
    then some pong_kind
    else if value == 5
    then some ping_kind
    else none

-- `==` on kinds.
abbrev pub is_end : FrameKind → Bool
is_end end_kind = Bool.true
is_end _ = Bool.false

abbrev pub is_cancel : FrameKind → Bool
is_cancel cancel_kind = Bool.true
is_cancel _ = Bool.false

pub data FrameEncodeError : Type 0 where
  corrupt_frame_encode write_after_end write_after_cancel : FrameEncodeError

pub data FrameDecodeError : Type 0 where
  corrupt_frame read_after_end read_after_cancel incomplete_header : FrameDecodeError
  transport : String → FrameDecodeError

pub record Frame : Type 0 where
  pub stream_id : ℕ
  pub seq_id : ℕ
  pub kind : FrameKind
  pub payload : List ℕ

pub record DecodedFrame : Type 0 where
  pub inner : Frame
  pub decode_error : Option FrameDecodeError

abbrev pub frame_length_field_size : ℕ
frame_length_field_size = 4

abbrev pub frame_stream_id_offset : ℕ
frame_stream_id_offset = 4

abbrev pub frame_seq_id_offset : ℕ
frame_seq_id_offset = 8

abbrev pub frame_kind_offset : ℕ
frame_kind_offset = 12

abbrev pub frame_header_size : ℕ
frame_header_size = 13
