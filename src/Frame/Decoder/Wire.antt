-- ===== src/Frame/Decoder/Wire.antt =====
-- From bytes to frames: what `read_bytes` makes of encoded frames.
use rust_muxio.Prelude.{
  ℕ, zero, suc, ◌+◌, ◌%◌, ◌^◌, ◌≤◌, ◌≡◌, refl, sym, ap, ◌∙◌, some, List, [], ◌∷◌, map, ◌++◌,
  append-nil, length, length-append, ok, arith, All, take-length-append, drop-length-append, le→ltb,
  le→leb,
}
use rust_muxio.Prelude.Bytes.{from_le_bytes-to_le_bytes}
use rust_muxio.Prelude.Map.{Map}
use rust_muxio.Frame.Types.{Frame, frame_header_size, frame_length_field_size}
use rust_muxio.Frame.Codec.{encode}
use rust_muxio.Frame.Codec.RoundTrip.{IsFrame, decoded, decode-encode, length-encode}
use rust_muxio.Frame.Decoder.{
  FrameMuxStreamDecoder, StreamReassembly, Item, head, wait, whole, length_field, handle, accept,
  read_loop, read_bytes,
}
use rust_muxio.Frame.Decoder.Chunks.{read_loop_whole, read_loop_wait, prepend}
use rust_muxio.Frame.Decoder.Reassembly.{accept_all}

-- The bytes of frames that were sent one after the other.
abbrev pub wire : List Frame → List ℕ
wire [] = []
wire (f ∷ fs) = encode f ++ wire fs

length_field-encode :
    (f : Frame) (rest : List ℕ)
    → IsFrame f
    → length_field (encode f ++ rest) ≡ some (length f.payload)
unfolding length_field encode
length_field-encode f rest h =
    rw
      (
        le→leb frame_length_field_size (length (encode f ++ rest)) (omega arith),
        from_le_bytes-to_le_bytes 4 (length f.payload % 2 ^ 32) (omega arith),
      )
      (ap some (omega (arith, h.payload_fits)))

pub head-encode :
    (f : Frame) (rest : List ℕ) → IsFrame f → head (encode f ++ rest) ≡ whole (ok (decoded f)) rest
unfolding head
head-encode f rest h =
    let n : frame_header_size + length f.payload ≡ length (encode f) = sym (length-encode f) in
    rw
      (
        le→ltb (length (encode f ++ rest)) frame_length_field_size
            (omega (arith, length-append (encode f) rest, length-encode f)),
        length_field-encode f rest h,
        n,
        le→ltb (length (encode f ++ rest)) (length (encode f))
            (omega (arith, length-append (encode f) rest)),
        take-length-append (encode f) rest,
        drop-length-append (encode f) rest,
      )
      (ap (λ (i : Item). whole i rest) (rw append-nil at (decode-encode f [] h)))

abbrev with_streams : Map StreamReassembly → FrameMuxStreamDecoder
with_streams streams = record { buffer = []; streams = streams }

pub head_empty : head [] ≡ wait
unfolding head
head_empty = refl

read_loop-wire :
    (fs : List Frame) (fuel : ℕ) (streams : Map StreamReassembly)
    → All IsFrame fs
    → length (wire fs) ≤ fuel
    → read_loop fuel (record { buffer = wire fs; streams = streams }) ≡ (
      with_streams (accept_all streams (map decoded fs)).0,
      (accept_all streams (map decoded fs)).1,
    )
unfolding accept_all handle
read_loop-wire [] fuel streams h enough = read_loop_wait fuel (with_streams streams) head_empty
read_loop-wire (f ∷ fs) zero streams h enough =
    absurd (omega (arith, length-append (encode f) (wire fs), length-encode f))
read_loop-wire (f ∷ fs) (suc fuel) streams h enough =
    read_loop_whole fuel (record { buffer = encode f ++ wire fs; streams = streams })
      (ok (decoded f)) (wire fs) (head-encode f (wire fs) h.0)
    ∙ ap (prepend (accept streams (decoded f)).1) (
        read_loop-wire fs fuel (accept streams (decoded f)).0 h.1
          (omega (arith, length-append (encode f) (wire fs), length-encode f)))

-- A decoder that holds no part of a frame takes encoded frames one by one.
pub read_bytes-wire :
    (d : FrameMuxStreamDecoder) (fs : List Frame)
    → d.buffer ≡ []
    → All IsFrame fs
    → read_bytes d (wire fs) ≡ (
      with_streams (accept_all d.streams (map decoded fs)).0,
      (accept_all d.streams (map decoded fs)).1,
    )
unfolding read_bytes
read_bytes-wire d fs e h = rw e (read_loop-wire fs (length (wire fs)) d.streams h (omega arith))
