-- ===== src/Frame/Decoder.antt =====
-- core/src/frame/frame_mux_stream_decoder.rs: `FrameMuxStreamDecoder`. The iterator that
-- `read_bytes` returns is the list of what it yields. `next_expected` wraps as in a release build.
pub mod Chunks
pub mod Release
pub mod Stream
pub mod Reassembly
pub mod Permutation
pub mod Wire
pub mod Streams
use rust_muxio.Prelude.{
  ℕ, zero, suc, ◌+◌, ◌%◌, ◌^◌, Bool, true, false, ◌&&◌, Option, none, some, List, [], ◌∷◌, ◌++◌,
  ltb, leb, if◌then◌else◌, is_empty, length, take, drop, Result, ok, err,
}
use rust_muxio.Prelude.Bytes.{from_le_bytes}
use rust_muxio.Prelude.Map.{Map, get, insert, remove}
use rust_muxio.Frame.Types.{
  FrameDecodeError, read_after_cancel, incomplete_header, DecodedFrame, is_end, is_cancel,
  frame_length_field_size, frame_header_size,
}
use rust_muxio.Frame.Codec.{decode}

pub record StreamReassembly : Type 0 where
  pub next_expected : ℕ
  pub buffer : Map DecodedFrame
  pub is_canceled : Bool
  pub is_ended : Bool

pub record FrameMuxStreamDecoder : Type 0 where
  pub buffer : List ℕ
  pub streams : Map StreamReassembly

abbrev pub Item : Type 0
Item = Result FrameDecodeError DecodedFrame

unfoldable pub new : FrameMuxStreamDecoder
new = record { buffer = []; streams = [] }

abbrev pub fresh_stream : StreamReassembly
fresh_stream = record { next_expected = 0; buffer = []; is_canceled = false; is_ended = false }

-- `while let Some(f) = stream.buffer.remove(&stream.next_expected)`. Each round takes an entry out
-- of the buffer, so as many rounds as it has entries are enough.
unfoldable pub release : ℕ → StreamReassembly → StreamReassembly × List Item
release zero st = (st, [])
release (suc fuel) st = elim (get st.next_expected st.buffer) [
  | none ↦ (st, [])
  | some frame ↦
      let (st', out) = release fuel (record st {
        next_expected = (st.next_expected + 1) % 2 ^ 32;
        buffer = remove st.next_expected st.buffer;
      }) in
      (st', ok frame ∷ out)
]

-- `entry(stream_id).or_insert_with(…)`
unfoldable pub stream_or_fresh : Option StreamReassembly → StreamReassembly
stream_or_fresh none = fresh_stream
stream_or_fresh (some st) = st

-- The frame goes into its stream's buffer, and an `End` frame marks the stream.
unfoldable pub enqueue : DecodedFrame → StreamReassembly → StreamReassembly
enqueue frame st = record st {
  is_ended = if is_end frame.inner.kind then true else st.is_ended;
  buffer = insert frame.inner.seq_id frame st.buffer;
}

unfoldable pub reassemble : Map StreamReassembly → DecodedFrame → Map StreamReassembly × List Item
reassemble streams frame =
    let st = enqueue frame (stream_or_fresh (get frame.inner.stream_id streams)) in
    let (st', out) = release (length st.buffer) st in
    let streams' = insert frame.inner.stream_id st' streams in
    (
      if st'.is_ended && is_empty st'.buffer
          then remove frame.inner.stream_id streams'
          else streams',
      out,
    )

unfoldable pub known_canceled : Option StreamReassembly → Bool
known_canceled none = false
known_canceled (some st) = st.is_canceled

unfoldable pub mark_canceled : ℕ → Map StreamReassembly → Map StreamReassembly
mark_canceled id streams = elim (get id streams) [
  | none ↦ streams
  | some st ↦ insert id (record st { is_canceled = true }) streams
]

abbrev pub canceled : DecodedFrame → DecodedFrame
canceled frame = record frame { decode_error = some read_after_cancel }

-- What `read_bytes` does with one decoded frame.
unfoldable pub accept : Map StreamReassembly → DecodedFrame → Map StreamReassembly × List Item
accept streams frame =
    if known_canceled (get frame.inner.stream_id streams)
    then (streams, ok (canceled frame) ∷ [])
    else if is_cancel frame.inner.kind
    then (
      remove frame.inner.stream_id (mark_canceled frame.inner.stream_id streams),
      ok (canceled frame) ∷ [],
    )
    else reassemble streams frame

-- What the head of the buffer holds: less than a frame, no length field, or a frame and the rest.
pub data Head : Type 0 where
  wait no_length : Head
  whole : Item → List ℕ → Head

-- `self.buffer.get(..4).and_then(…).map(u32::from_le_bytes)`
unfoldable pub length_field : List ℕ → Option ℕ
length_field buf =
    if leb frame_length_field_size (length buf)
    then some (from_le_bytes (take frame_length_field_size buf))
    else none

unfoldable pub head : List ℕ → Head
head buf = if ltb (length buf) frame_length_field_size then wait else elim (length_field buf) [
  | none ↦ no_length
  | some len ↦
      let total = frame_header_size + len in
      if ltb (length buf) total then wait else whole (decode (take total buf)) (drop total buf)
]

unfoldable pub handle : Map StreamReassembly → Item → Map StreamReassembly × List Item
handle streams (ok frame) = accept streams frame
handle streams (err e) = (streams, err e ∷ [])

-- The loop of `read_bytes`. A frame has 13 bytes at least, so as many rounds as the buffer has
-- bytes are enough.
unfoldable pub read_loop : ℕ → FrameMuxStreamDecoder → FrameMuxStreamDecoder × List Item
read_loop zero d = (d, [])
read_loop (suc fuel) d = elim (head d.buffer) [
  | wait ↦ (d, [])
  | no_length ↦ (d, err incomplete_header ∷ [])
  | whole item rest ↦
      let (streams, out) = handle d.streams item in
      let (d', more) = read_loop fuel (record { buffer = rest; streams = streams }) in
      (d', out ++ more)
]

unfoldable pub read_bytes : FrameMuxStreamDecoder → List ℕ → FrameMuxStreamDecoder × List Item
read_bytes d input =
    read_loop (length (d.buffer ++ input)) (record d { buffer = d.buffer ++ input })
