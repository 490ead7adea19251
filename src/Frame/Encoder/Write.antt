-- ===== src/Frame/Encoder/Write.antt =====
-- `write_bytes` and `flush` on an open encoder.
use rust_muxio.Prelude.{
  ℕ, zero, suc, ◌+◌, ◌≤◌, ◌<◌, ◌≡◌, refl, ◌∙◌, Option, none, some, List, [], ◌∷◌, ◌++◌, append-nil,
  append_assoc, length, length-drop, length-take, take, drop, take-append-drop, All, Result, ok,
  arith, le→leb, lt→leb, is_empty, if◌then◌else◌,
}
use native.Mathlib.Decide.{dec_lt}
use native.Mathlib.Nat.{add-zero, add_assoc}
use rust_muxio.Frame.Types.{Frame, FrameEncodeError}
use rust_muxio.Frame.Codec.{encode}
use rust_muxio.Frame.Encoder.{
  FrameStreamEncoder, frame_of, advance, write_chunk, write_loop, write_bytes, flush,
}
use rust_muxio.Frame.Encoder.Guard.{check_open_lem, emit_frame_lem}
use rust_muxio.Frame.Encoder.Trace.{
  IsOpen, Trace, Trace-input, Trace-emitting, emitting, encoded_size,
}

-- A call on an open encoder that had emitted `fs`: it returns `start` and the size of the frames
-- `more` that it has emitted, all of which hold a full chunk, and leaves less than a chunk.
pub record Writes (sid max : ℕ) (input : List ℕ) (fs : List Frame) (start : ℕ)
    (r : Option (Result FrameEncodeError ℕ × FrameStreamEncoder)) : Type 0 where
  pub more : List Frame
  pub after : FrameStreamEncoder
  pub returns : r ≡ some (ok (start + encoded_size more), after)
  pub trace : Trace sid max input (fs ++ more) after
  pub rest_short : length after.buffer < max
  pub full : All (λ f. length f.payload ≡ max) more

abbrev next_chunk : FrameStreamEncoder → Frame
next_chunk s = frame_of s s.next_kind (take s.max_chunk_size s.buffer)

write_chunk_lem :
    (s : FrameStreamEncoder)
    → IsOpen s
    → write_chunk s
      ≡ some (
        ok (length (encode (frame_of s s.next_kind (take s.max_chunk_size s.buffer)))),
        emitting (take s.max_chunk_size s.buffer) (drop s.max_chunk_size s.buffer) s,
      )
unfolding write_chunk advance
write_chunk_lem s h =
    rw (emit_frame_lem (record s { buffer = drop s.max_chunk_size s.buffer }) (next_chunk s) h)

abbrev after_chunk : FrameStreamEncoder → FrameStreamEncoder
after_chunk s = emitting (take s.max_chunk_size s.buffer) (drop s.max_chunk_size s.buffer) s

module _ (sid max : ℕ) (input : List ℕ) (fs : List Frame) (s : FrameStreamEncoder) (fuel start : ℕ)
    (h : Trace sid max input fs s) where
  -- A buffer of less than a chunk ends the loop.
  loop_stops : length s.buffer < max → Writes sid max input fs start (write_loop (suc fuel) start s)
  unfolding write_loop
  loop_stops less = record {
    more = [];
    after = s;
    returns = rw (lt→leb s.max_chunk_size (length s.buffer) (omega (arith, h.chunk)), add-zero);
    trace = rw append-nil h;
    rest_short = less;
    full = tt;
  }

  -- A full chunk is one round, and then the rest of the loop.
  loop_goes_on :
      max ≤ length s.buffer
      → Writes sid max input
          (fs ++ next_chunk s ∷ [])
          (start + length (encode (next_chunk s)))
          (write_loop fuel (start + length (encode (next_chunk s))) (after_chunk s))
      → Writes sid max input fs start (write_loop (suc fuel) start s)
  unfolding write_loop
  loop_goes_on enough w = record {
    more = next_chunk s ∷ w.more;
    after = w.after;
    returns =
        rw
          (
            le→leb s.max_chunk_size (length s.buffer) (omega (arith, h.chunk)),
            write_chunk_lem s h.is_open,
          )
          (rw add_assoc at w.returns);
    trace = rw append_assoc at w.trace;
    rest_short = w.rest_short;
    full = (length-take s.max_chunk_size s.buffer (omega (arith, h.chunk)) ∙ h.chunk, w.full);
  }

-- The loop ends within its fuel.
write_loop-Writes :
    (fuel sid max start : ℕ) (input : List ℕ) (fs : List Frame) (s : FrameStreamEncoder)
    → 0 < max
    → length s.buffer < fuel
    → Trace sid max input fs s
    → Writes sid max input fs start (write_loop fuel start s)
write_loop-Writes zero sid max start input fs s pos enough h = absurd (omega arith)
write_loop-Writes (suc fuel) sid max start input fs s pos enough h =
    elim (dec_lt (length s.buffer) max) [
      | yes less ↦ loop_stops sid max input fs s fuel start h less
      | no more ↦ loop_goes_on sid max input fs s fuel start h (omega arith) (
          write_loop-Writes fuel sid max (start + length (encode (next_chunk s))) input
            (fs ++ next_chunk s ∷ []) (after_chunk s) pos
            (omega (arith, length-drop s.max_chunk_size s.buffer, h.chunk))
            (Trace-emitting sid max input _ _ fs s h (take-append-drop s.max_chunk_size s.buffer)))
    ]

-- With a positive chunk size `write_bytes` on an open encoder returns: it emits full chunks, keeps
-- less than a chunk, numbers the frames, and no byte that was written is lost, added or moved.
pub write_bytes-Writes :
    (sid max : ℕ) (input more : List ℕ) (fs : List Frame) (s : FrameStreamEncoder)
    → 0 < max
    → Trace sid max input fs s
    → Writes sid max (input ++ more) fs 0 (write_bytes more s)
unfolding write_bytes
write_bytes-Writes sid max input more fs s pos h = rw (check_open_lem s h.is_open) (
    write_loop-Writes (suc (length (s.buffer ++ more))) sid max 0 (input ++ more) fs
      (record s { buffer = s.buffer ++ more }) pos (omega arith)
      (Trace-input sid max input more fs s h))

-- With a chunk size of 0 the loop of `write_bytes` on an open encoder does not end, whatever its
-- fuel.
pub write_loop-diverges :
    (fuel start : ℕ) (s : FrameStreamEncoder)
    → s.max_chunk_size ≡ 0
    → IsOpen s
    → write_loop fuel start s ≡ none
unfolding write_loop
write_loop-diverges zero start s e o = refl
write_loop-diverges (suc fuel) start s e o =
    rw (le→leb s.max_chunk_size (length s.buffer) (omega (arith, e)), write_chunk_lem s o)
      (write_loop-diverges fuel _ (after_chunk s) e o)

-- `flush` emits what the buffer holds as one frame, and nothing where it is empty.
pub flush_lem :
    (s : FrameStreamEncoder)
    → IsOpen s
    → flush s ≡ (
        if is_empty s.buffer
        then some (ok 0, s)
        else some (ok (length (encode (frame_of s s.next_kind s.buffer))), emitting s.buffer [] s))
unfolding flush advance
flush_lem s h = rw (
  check_open_lem s h,
  emit_frame_lem (record s { buffer = [] }) (frame_of s s.next_kind s.buffer) h,
)
