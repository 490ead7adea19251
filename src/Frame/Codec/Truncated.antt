-- ===== src/Frame/Codec/Truncated.antt =====
-- What `decode` and the head of the decoder's buffer make of a frame that has not arrived whole.
use native.Mathlib.Decide.{dec_lt}
use rust_muxio.Prelude.{
  ℕ, suc, ◌+◌, ◌-◌, ◌%◌, ◌^◌, ◌<◌, ◌≡◌, ap, ◌∙◌, List, ◌∷◌, ◌++◌, length, take, err, arith,
  length-take, lt→ltb, le→ltb,
}
use rust_muxio.Prelude.Bytes.{to_le_bytes, from_le_bytes-to_le_bytes}
use rust_muxio.Frame.Types.{Frame, incomplete_header, kind_to_u8, frame_header_size}
use rust_muxio.Frame.Codec.{encode, decode, read_uint}
use rust_muxio.Frame.Codec.RoundTrip.{IsFrame, length-encode}

-- The 13 bytes in front of the payload, and any bytes `p` behind them.
abbrev framed : Frame → List ℕ → List ℕ
framed f p =
    to_le_bytes 4 (length f.payload % 2 ^ 32)
    ++ (to_le_bytes 4 f.stream_id ++ (to_le_bytes 4 f.seq_id ++ (kind_to_u8 f.kind ∷ p)))

decode-short : (buf : List ℕ) → length buf < frame_header_size → decode buf ≡ err incomplete_header
unfolding decode
decode-short buf h = rw (lt→ltb (length buf) frame_header_size h)

decode-framed :
    (f : Frame) (p : List ℕ)
    → IsFrame f
    → length p < length f.payload
    → decode (framed f p) ≡ err incomplete_header
unfolding decode read_uint
decode-framed f p h few = rw (
  from_le_bytes-to_le_bytes 4 (length f.payload % 2 ^ 32) (omega arith),
  le→ltb (length (framed f p)) frame_header_size (omega arith),
  lt→ltb (length (framed f p)) (frame_header_size + length f.payload % 2 ^ 32)
      (omega (arith, h.payload_fits)),
)

take-framed : (f : Frame) (m : ℕ) → take (13 + m) (encode f) ≡ framed f (take m f.payload)
unfolding encode
take-framed f m =
    let n : 13 + m ≡ suc (suc (suc (suc (suc (suc (suc (suc (suc (suc (suc (suc (suc m)))))))))))) =
      omega arith in
    ap (λ k. take k (encode f)) n

-- Less than all bytes of an encoded frame never decode to a frame: `decode` reports an incomplete
-- header, wherever the bytes are cut off.
pub decode-take :
    (f : Frame) (n : ℕ)
    → IsFrame f
    → n < length (encode f)
    → decode (take n (encode f)) ≡ err incomplete_header
decode-take f n h few = elim (dec_lt n 13) [
  | yes short ↦
      decode-short (take n (encode f)) (omega (arith, length-take n (encode f) (omega arith)))
  | no long ↦
      let e : n ≡ 13 + (n - 13) = omega arith in
      rw e (
        ap decode (take-framed f (n - 13))
        ∙ decode-framed f (take (n - 13) f.payload) h (
            omega (
              arith,
              length-encode f,
              length-take (n - 13) f.payload (omega (arith, length-encode f)),
            )))
]
