-- ===== src/Rpc/Session.antt =====
-- core/src/rpc/rpc_internals/rpc_session.rs: `RpcSession`. The callback of `read_bytes` is a
-- parameter: it works on a state of its own, of type `W`, and may fail.
pub mod Frames
pub mod Demux
pub mod Message
use rust_muxio.Prelude.{ℕ, ◌||◌, Option, none, some, List, [], ◌∷◌, if◌then◌else◌, Result, ok, err}
use rust_muxio.Prelude.Map.{Map, get, insert, remove}
use rust_muxio.Frame.Types.{FrameDecodeError, FrameEncodeError, DecodedFrame, is_end, is_cancel}
use rust_muxio.Frame.Decoder
use rust_muxio.Frame.Decoder.{FrameMuxStreamDecoder, Item}
use rust_muxio.Rpc.Types.{RpcHeader, RpcStreamEvent, error, is_end_event}
use rust_muxio.Rpc.IdSpace.{IdSpace, place, increment_u32_id}
use rust_muxio.Rpc.StreamEncoder
use rust_muxio.Rpc.StreamEncoder.{RpcStreamEncoder}
use rust_muxio.Rpc.StreamDecoder
use rust_muxio.Rpc.StreamDecoder.{RpcStreamDecoder, decode_rpc_frame}

pub record RpcSession : Type 0 where
  pub next_stream_id : ℕ
  pub id_space : IdSpace
  pub frame_mux_stream_decoder : FrameMuxStreamDecoder
  pub rpc_stream_decoders : Map RpcStreamDecoder

-- The global counter goes in and comes out.
unfoldable pub new : IdSpace → ℕ → RpcSession × ℕ
unfolding increment_u32_id Decoder.new
new id_space counter =
    let (id, counter') = increment_u32_id counter in
    (
      record {
        next_stream_id = id;
        id_space = id_space;
        frame_mux_stream_decoder = Decoder.new;
        rpc_stream_decoders = [];
      },
      counter',
    )

-- The encoder of a new stream; the session takes the next id of the counter.
unfoldable pub init_request :
    RpcHeader
    → ℕ
    → RpcSession
    → ℕ
    → Option (Result FrameEncodeError RpcStreamEncoder) × RpcSession × ℕ
unfolding increment_u32_id
init_request header max_chunk_size s counter =
    let (id, counter') = increment_u32_id counter in
    (
      StreamEncoder.new (place s.id_space s.next_stream_id) max_chunk_size header,
      record s { next_stream_id = id },
      counter',
    )

-- `entry(stream_id).or_default()`
unfoldable pub decoder_or_new : Option RpcStreamDecoder → RpcStreamDecoder
decoder_or_new none = StreamDecoder.new
decoder_or_new (some d) = d

abbrev pub error_event : FrameDecodeError → RpcStreamEvent
error_event e = error none none none e

module _ {W : Type 0} (on_event : RpcStreamEvent → W → Result FrameDecodeError (Unit {0}) × W) where
  -- A result, the stream decoders and the callback's state.
  abbrev pub Reading : Type 0
  Reading = Result FrameDecodeError (Unit {0}) × Map RpcStreamDecoder × W

  -- The events of one frame; the first failing callback ends it.
  unfoldable pub deliver : ℕ → List RpcStreamEvent → Map RpcStreamDecoder → W → Reading
  deliver stream_id [] decoders w = (ok tt, decoders, w)
  deliver stream_id (event ∷ events) decoders w =
      let decoders' = if is_end_event event then remove stream_id decoders else decoders in
      let (r, w') = on_event event w in
      elim r [ ok _ ↦ deliver stream_id events decoders' w' | err e ↦ (err e, decoders', w') ]

  -- "Ensure cleanup of old frames", where the events were delivered.
  unfoldable pub clean_up : DecodedFrame → Reading → Reading
  clean_up frame (ok u, decoders, w) = (
    ok u,
    (if is_cancel frame.inner.kind || is_end frame.inner.kind
        then remove frame.inner.stream_id decoders
        else decoders),
    w,
  )
  clean_up frame (err e, decoders, w) = (err e, decoders, w)

  -- A stream that cannot be decoded is dropped, reported, and ends the read.
  unfoldable pub fail_stream : ℕ → FrameDecodeError → Map RpcStreamDecoder → W → Reading
  fail_stream stream_id e decoders w =
      let (r, w') = on_event (error_event e) w in
      elim r [
        | ok _ ↦ (err e, remove stream_id decoders, w')
        | err e' ↦ (err e', remove stream_id decoders, w')
      ]

  unfoldable pub read_frame : DecodedFrame → Map RpcStreamDecoder → W → Reading
  read_frame frame decoders w =
      let id = frame.inner.stream_id in
      let (r, d) = decode_rpc_frame frame (decoder_or_new (get id decoders)) in
      elim r [
        | ok events ↦ clean_up frame (deliver id events (insert id d decoders) w)
        | err e ↦ fail_stream id e (insert id d decoders) w
      ]

  -- The loop over the items of the frame decoder; an early return leaves the rest unread.
  unfoldable pub read_items : List Item → Map RpcStreamDecoder → W → Reading
  read_items [] decoders w = (ok tt, decoders, w)
  read_items (ok frame ∷ rest) decoders w =
      let (r, decoders', w') = read_frame frame decoders w in
      elim r [ ok _ ↦ read_items rest decoders' w' | err e ↦ (err e, decoders', w') ]
  read_items (err e ∷ rest) decoders w =
      let (r, w') = on_event (error_event e) w in
      elim r [ ok _ ↦ read_items rest decoders w' | err e' ↦ (err e', decoders, w') ]

  unfoldable pub read_bytes :
      List ℕ → RpcSession → W → Result FrameDecodeError (Unit {0}) × RpcSession × W
  read_bytes input s w =
      let (d, queue) = Decoder.read_bytes s.frame_mux_stream_decoder input in
      let (r, decoders, w') = read_items queue s.rpc_stream_decoders w in
      (r, record s { frame_mux_stream_decoder = d; rpc_stream_decoders = decoders }, w')
