-- ===== src/Frame/Encoder/Guard.antt =====
-- The guard of every operation of the encoder, on an open encoder and on a closed one.
use rust_muxio.Prelude.{
  ℕ, ◌≡◌, true, some, List, [], ◌∷◌, ◌++◌, length, ok, err, if◌then◌else◌, ◌⊎◌, arith,
}
use rust_muxio.Frame.Types.{Frame, FrameEncodeError, write_after_end, write_after_cancel}
use rust_muxio.Frame.Codec.{encode}
use rust_muxio.Frame.Encoder.{
  FrameStreamEncoder, check_open, emit_frame, write_bytes, flush, end_stream, cancel_stream,
}
use rust_muxio.Frame.Encoder.Trace.{IsOpen}

pub check_open_lem : (s : FrameStreamEncoder) → IsOpen s → check_open s ≡ some (ok tt, s)
unfolding check_open
check_open_lem s (c, e) = rw (c, e)

pub emit_frame_lem :
    (s : FrameStreamEncoder) (f : Frame)
    → IsOpen s
    → emit_frame f s
      ≡ some (ok (length (encode f)), record s { emitted = s.emitted ++ encode f ∷ [] })
unfolding emit_frame
emit_frame_lem s f h = rw (check_open_lem s h)

-- The error of a stream that is closed: a cancellation goes before an end.
abbrev pub closed_error : FrameStreamEncoder → FrameEncodeError
closed_error s = if s.is_canceled then write_after_cancel else write_after_end

abbrev pub IsClosed : FrameStreamEncoder → Type 0
IsClosed s = (s.is_canceled ≡ true) ⊎ (s.is_ended ≡ true)

check_open-IsClosed :
    (s : FrameStreamEncoder) → IsClosed s → check_open s ≡ some (err (closed_error s), s)
unfolding check_open
check_open-IsClosed s h = ground arith

-- On a stream that was ended or cancelled every operation fails with that stream's error, emits
-- nothing and changes nothing.
pub closed_fails :
    (s : FrameStreamEncoder) (input : List ℕ)
    → IsClosed s
    → (write_bytes input s ≡ some (err (closed_error s), s))
      × (flush s ≡ some (err (closed_error s), s))
      × (end_stream s ≡ some (err (closed_error s), s))
      × (cancel_stream s ≡ some (err (closed_error s), s))
unfolding write_bytes flush end_stream cancel_stream
closed_fails s input h = let e = check_open-IsClosed s h in (rw e, rw e, rw e, rw e)
