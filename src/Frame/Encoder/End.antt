-- ===== src/Frame/Encoder/End.antt =====
-- `flush`, `end_stream` and `cancel_stream` on an open encoder: what has been emitted by then.
use rust_muxio.Prelude.{
  ℕ, zero, suc, ◌+◌, ◌%◌, ◌^◌, ◌<◌, ◌≤◌, ◌≡◌, refl, sym, ap, ◌∙◌, true, false, Option, some, Result,
  List, [], ◌∷◌, ◌++◌, map, append-nil, map-append, length, length-snoc, is_empty, ok, arith,
  Bool-cases, inl, inr, is_empty→eq,
}
use rust_muxio.Frame.Types.{Frame, FrameEncodeError, end_kind, cancel_kind, is_cancel, is_end}
use rust_muxio.Frame.Codec.{encode}
use rust_muxio.Frame.Codec.RoundTrip.{decoded}
use rust_muxio.Frame.Encoder.{FrameStreamEncoder, frame_of, flush, end_stream, cancel_stream}
use rust_muxio.Frame.Encoder.Trace.{
  Trace, Trace-emitting, IsOpen, IsSequence, emitting, kind_at, payloads, payloads-append,
}
use rust_muxio.Frame.Encoder.Guard.{check_open_lem, emit_frame_lem}
use rust_muxio.Frame.Encoder.Write.{flush_lem}
use rust_muxio.Frame.Decoder.Permutation.{IsStream}

-- A call of `flush` on an encoder that had emitted `fs`: every byte that was written is emitted, in
-- one frame more at most.
pub record Flushed (sid max : ℕ) (input : List ℕ) (fs : List Frame)
    (r : Option (Result FrameEncodeError ℕ × FrameStreamEncoder)) : Type 0 where
  pub written : ℕ
  pub after : FrameStreamEncoder
  pub frames : List Frame
  pub returns : r ≡ some (ok written, after)
  pub trace : Trace sid max input frames after
  pub all_out : payloads frames ≡ input
  pub one_more : length frames ≤ suc (length fs)

-- After `flush` an open encoder has emitted every byte that was written.
pub flush-Flushed :
    (sid max : ℕ) (input : List ℕ) (fs : List Frame) (s : FrameStreamEncoder)
    → Trace sid max input fs s
    → Flushed sid max input fs (flush s)
flush-Flushed sid max input fs s h = elim (Bool-cases (is_empty s.buffer)) [
  | inl e ↦ record {
    written = 0;
    after = s;
    frames = fs;
    returns = flush_lem s h.is_open ∙ rw e;
    trace = h;
    all_out =
        sym (append-nil (payloads fs))
        ∙ ap (λ t. payloads fs ++ t) (sym (is_empty→eq s.buffer e))
        ∙ h.conserves;
    one_more = omega arith;
  }
  | inr e ↦
      let t = Trace-emitting sid max input s.buffer [] fs s h (append-nil s.buffer) in
      record {
        written = length (encode (frame_of s s.next_kind s.buffer));
        after = emitting s.buffer [] s;
        frames = fs ++ frame_of s s.next_kind s.buffer ∷ [];
        returns = flush_lem s h.is_open ∙ rw e;
        trace = t;
        all_out = rw append-nil at t.conserves;
        one_more = omega (arith, length-snoc fs (frame_of s s.next_kind s.buffer));
      }
]

-- The frames of a stream that `end_stream` closes.
abbrev pub ended_frames : List Frame → FrameStreamEncoder → List Frame
ended_frames fs s = fs ++ frame_of s end_kind s.buffer ∷ []

pub end_stream_lem :
    (s : FrameStreamEncoder)
    → IsOpen s
    → end_stream s
      ≡ some (
        ok (length (encode (frame_of s end_kind s.buffer))),
        record s {
          buffer = [];
          is_ended = true;
          emitted = s.emitted ++ encode (frame_of s end_kind s.buffer) ∷ [];
        },
      )
unfolding end_stream
end_stream_lem s h =
    rw (
      check_open_lem s h,
      emit_frame_lem (record s { buffer = [] }) (frame_of s end_kind s.buffer) h,
    )

pub cancel_stream_lem :
    (s : FrameStreamEncoder)
    → IsOpen s
    → cancel_stream s
      ≡ some (
        ok (length (encode (frame_of s cancel_kind []))),
        record s {
          is_canceled = true;
          emitted = s.emitted ++ encode (frame_of s cancel_kind []) ∷ [];
        },
      )
unfolding cancel_stream
cancel_stream_lem s h = rw (check_open_lem s h, emit_frame_lem s (frame_of s cancel_kind []) h)

pub kind_at-not_cancel : (n : ℕ) → is_cancel (kind_at n) ≡ false
kind_at-not_cancel zero = refl
kind_at-not_cancel (suc n) = refl

pub kind_at-not_end : (n : ℕ) → is_end (kind_at n) ≡ false
kind_at-not_end zero = refl
kind_at-not_end (suc n) = refl

-- A sequence of frames with an `End` frame behind it is a whole stream.
IsSequence-IsStream :
    (sid n : ℕ) (fs : List Frame) (f : Frame)
    → IsSequence sid n fs
    → n + length fs < 2 ^ 32
    → f.stream_id ≡ sid
    → f.seq_id ≡ (n + length fs) % 2 ^ 32
    → f.kind ≡ end_kind
    → IsStream sid n (map decoded (fs ++ f ∷ []))
IsSequence-IsStream sid n [] f h lt a b c = (a, omega (arith, b), rw c, rw c, tt)
IsSequence-IsStream sid n (g ∷ gs) f h lt a b c = (
  h.0,
  omega (arith, h.1),
  rw h.2 (kind_at-not_cancel n),
  rw h.2 (kind_at-not_end n) ∙ not_empty gs,
  IsSequence-IsStream sid (suc n) gs f h.3 (omega arith) a
      (let e : n + suc (length gs) ≡ suc n + length gs = omega arith in rw (← e) b) c,
)
  where
    not_empty : (gs : List Frame) → false ≡ is_empty (map decoded (gs ++ f ∷ []))
    not_empty [] = refl
    not_empty (g ∷ gs) = refl

-- `end_stream` closes the stream: the frames are numbered without a gap from 0, the last is an
-- `End` frame, and their payloads together are the bytes that were written.
pub record Ended (sid : ℕ) (input : List ℕ) (frames : List Frame) (s : FrameStreamEncoder)
    : Type 0 where
  pub emits : s.emitted ≡ map encode frames
  pub conserves : payloads frames ≡ input
  pub stream : IsStream sid 0 (map decoded frames)
  pub closed : s.is_ended ≡ true

-- `end_stream` on an open encoder, fewer than 2 ^ 32 frames in, succeeds and closes the stream: the
-- frames that were emitted are numbered without a gap from 0, the last alone is an `End` frame, and
-- their payloads together are the bytes that were written.
pub end_stream-Ended :
    (sid max : ℕ) (input : List ℕ) (fs : List Frame) (s : FrameStreamEncoder)
    → Trace sid max input fs s
    → length fs < 2 ^ 32
    → (n : ℕ) × (s' : FrameStreamEncoder) × (end_stream s ≡ some (ok n, s'))
      × Ended sid input (ended_frames fs s) s'
end_stream-Ended sid max input fs s h few = (
  length (encode (frame_of s end_kind s.buffer)),
  record s {
    buffer = [];
    is_ended = true;
    emitted = s.emitted ++ encode (frame_of s end_kind s.buffer) ∷ [];
  },
  end_stream_lem s h.is_open,
  record {
    emits = rw (h.emits, map-append);
    conserves = rw (payloads-append, append-nil) h.conserves;
    stream =
        IsSequence-IsStream sid 0 fs (frame_of s end_kind s.buffer) h.numbered (omega arith)
          h.stream (h.seq ∙ omega arith) refl;
    closed = refl;
  },
)
