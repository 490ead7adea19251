-- ===== src/Frame/Codec/RoundTrip.antt =====
-- What `decode` gives back of what `encode` wrote.
use rust_muxio.Prelude.{
  ℕ, ◌+◌, ◌-◌, ◌%◌, ◌^◌, ◌≡◌, refl, none, List, ◌++◌, length, take, ok, arith, take-length-append,
  length-append, le→ltb,
}
use rust_muxio.Prelude.Bytes.{IsU32, from_le_bytes-to_le_bytes, to_le_bytes, from_le_bytes}
use rust_muxio.Frame.Types.{
  FrameKind, open_kind, data_kind, end_kind, cancel_kind, pong_kind, ping_kind, kind_to_u8, Frame,
  DecodedFrame, frame_header_size,
}
use rust_muxio.Frame.Codec.{encode, decode, read_uint, read_kind, payload_of}

-- A frame whose fields fit their machine types, and whose payload's length fits the length field.
pub record IsFrame (f : Frame) : Type 0 where
  pub stream_id_fits : IsU32 f.stream_id
  pub seq_id_fits : IsU32 f.seq_id
  pub payload_fits : IsU32 (length f.payload)

-- `f` as `decode` shows it: a cancel frame has lost its payload.
abbrev pub decoded : Frame → DecodedFrame
decoded f = record {
  inner = record f { payload = payload_of f.kind f.payload };
  decode_error = none;
}

pub read_kind-kind_to_u8 : (k : FrameKind) → read_kind (kind_to_u8 k) ≡ ok k
unfolding read_kind kind_to_u8
read_kind-kind_to_u8 open_kind = refl
read_kind-kind_to_u8 data_kind = refl
read_kind-kind_to_u8 end_kind = refl
read_kind-kind_to_u8 cancel_kind = refl
read_kind-kind_to_u8 pong_kind = refl
read_kind-kind_to_u8 ping_kind = refl

u32_bytes : (n : ℕ) → IsU32 n → from_le_bytes (to_le_bytes 4 n) ≡ n
u32_bytes n h = from_le_bytes-to_le_bytes 4 n (omega arith)

pub length-encode : (f : Frame) → length (encode f) ≡ 13 + length f.payload
unfolding encode
length-encode f = omega arith

take-payload : (n : ℕ) (p rest : List ℕ) → n ≡ length p → take n (p ++ rest) ≡ p
take-payload n p rest e = rw e (take-length-append p rest)

-- `decode` reads back what `encode` wrote, and does not look at what follows.
pub decode-encode :
    (f : Frame) (rest : List ℕ) → IsFrame f → decode (encode f ++ rest) ≡ ok (decoded f)
unfolding encode decode read_uint
decode-encode f rest h = rw (
  u32_bytes (length f.payload % 2 ^ 32) (omega arith),
  le→ltb (length (encode f ++ rest)) frame_header_size (omega arith),
  le→ltb (length (encode f ++ rest)) (frame_header_size + length f.payload % 2 ^ 32)
      (omega (arith, length-append f.payload rest)),
  read_kind-kind_to_u8 f.kind,
  u32_bytes f.stream_id h.stream_id_fits,
  u32_bytes f.seq_id h.seq_id_fits,
  take-payload (frame_header_size + length f.payload % 2 ^ 32 - frame_header_size) f.payload rest
      (omega arith),
)
