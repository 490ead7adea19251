-- ===== src/Frame/Encoder/Trace.antt =====
-- What an open encoder has emitted: whole frames in sequence, whose payloads and buffer are the
-- bytes that were written.
use rust_muxio.Prelude.{
  ℕ, zero, suc, ◌+◌, ◌%◌, ◌^◌, ◌≡◌, refl, sym, ap, ◌∙◌, false, List, [], ◌∷◌, ◌++◌, map, append-nil,
  append_assoc, map-append, length, length-append, length-snoc, arith,
}
use rust_muxio.Frame.Types.{FrameKind, open_kind, data_kind, Frame}
use rust_muxio.Frame.Codec.{encode}
use rust_muxio.Frame.Encoder.{FrameStreamEncoder, new, frame_of}

abbrev pub payloads : List Frame → List ℕ
payloads [] = []
payloads (f ∷ fs) = f.payload ++ payloads fs

-- The bytes that the encoded frames take up.
abbrev pub encoded_size : List Frame → ℕ
encoded_size [] = 0
encoded_size (f ∷ fs) = length (encode f) + encoded_size fs

-- The first frame of a stream opens it.
abbrev pub kind_at : ℕ → FrameKind
kind_at zero = open_kind
kind_at (suc n) = data_kind

-- The frames of stream `sid` from number `n` on.
abbrev pub IsSequence : ℕ → ℕ → List Frame → Type 0
IsSequence sid n [] = Unit
IsSequence sid n (f ∷ fs) =
    (f.stream_id ≡ sid) × (f.seq_id ≡ n % 2 ^ 32) × (f.kind ≡ kind_at n) × IsSequence sid (suc n) fs

pub IsSequence-snoc :
    (sid n m : ℕ) (fs : List Frame) (f : Frame)
    → IsSequence sid n fs
    → n + length fs ≡ m
    → f.stream_id ≡ sid
    → f.seq_id ≡ m % 2 ^ 32
    → f.kind ≡ kind_at m
    → IsSequence sid n (fs ++ f ∷ [])
IsSequence-snoc sid n m [] f h e a b c =
    let e' : m ≡ n = omega arith in (a, rw (← e') b, rw (← e') c, tt)
IsSequence-snoc sid n m (g ∷ fs) f h e a b c =
    (h.0, h.1, h.2, IsSequence-snoc sid (suc n) m fs f h.3 (omega arith) a b c)

pub payloads-append : (fs gs : List Frame) → payloads (fs ++ gs) ≡ payloads fs ++ payloads gs
payloads-append [] gs = refl
payloads-append (f ∷ fs) gs = rw (payloads-append fs gs, append_assoc)

pub encoded_size-append :
    (fs gs : List Frame) → encoded_size (fs ++ gs) ≡ encoded_size fs + encoded_size gs
encoded_size-append [] gs = omega arith
encoded_size-append (f ∷ fs) gs = omega (arith, encoded_size-append fs gs)

abbrev pub IsOpen : FrameStreamEncoder → Type 0
IsOpen s = (s.is_canceled ≡ false) × (s.is_ended ≡ false)

-- `s` was made for stream `sid` and chunks of `max`, is open, was given `input`, and emitted `fs`.
pub record Trace (sid max : ℕ) (input : List ℕ) (fs : List Frame) (s : FrameStreamEncoder)
    : Type 0 where
  pub stream : s.stream_id ≡ sid
  pub chunk : s.max_chunk_size ≡ max
  pub is_open : IsOpen s
  pub emits : s.emitted ≡ map encode fs
  pub conserves : payloads fs ++ s.buffer ≡ input
  pub numbered : IsSequence sid 0 fs
  pub seq : s.next_seq_id ≡ length fs % 2 ^ 32
  pub kind : s.next_kind ≡ kind_at (length fs)

pub Trace-new : (sid max : ℕ) → Trace sid max [] [] (new sid max)
unfolding new
Trace-new sid max = record {
  stream = refl;
  chunk = refl;
  is_open = (refl, refl);
  emits = refl;
  conserves = refl;
  numbered = tt;
  seq = refl;
  kind = refl;
}

-- More input in the buffer.
pub Trace-input :
    (sid max : ℕ) (input more : List ℕ) (fs : List Frame) (s : FrameStreamEncoder)
    → Trace sid max input fs s
    → Trace sid max (input ++ more) fs (record s { buffer = s.buffer ++ more })
Trace-input sid max input more fs s h = record {
  stream = h.stream;
  chunk = h.chunk;
  is_open = h.is_open;
  emits = h.emits;
  conserves = sym (append_assoc (payloads fs) s.buffer more) ∙ ap (λ t. t ++ more) h.conserves;
  numbered = h.numbered;
  seq = h.seq;
  kind = h.kind;
}

-- `s` after it has cut `front` off its buffer and emitted it as the next frame.
abbrev pub emitting : List ℕ → List ℕ → FrameStreamEncoder → FrameStreamEncoder
emitting front back s = record s {
  buffer = back;
  emitted = s.emitted ++ encode (frame_of s s.next_kind front) ∷ [];
  next_seq_id = (s.next_seq_id + 1) % 2 ^ 32;
  next_kind = data_kind;
}

pub Trace-emitting :
    (sid max : ℕ) (input front back : List ℕ) (fs : List Frame) (s : FrameStreamEncoder)
    → Trace sid max input fs s
    → front ++ back ≡ s.buffer
    → Trace sid max input (fs ++ frame_of s s.next_kind front ∷ []) (emitting front back s)
Trace-emitting sid max input front back fs s h e = record {
  stream = h.stream;
  chunk = h.chunk;
  is_open = h.is_open;
  emits = rw (h.emits, map-append);
  conserves =
      rw (payloads-append, append-nil, append_assoc (payloads fs) front back, e) h.conserves;
  numbered =
      IsSequence-snoc sid 0 (length fs) fs (frame_of s s.next_kind front) h.numbered (omega arith)
        h.stream h.seq h.kind;
  seq = omega (arith, h.seq, length-append fs (frame_of s s.next_kind front ∷ []));
  kind = rw length-snoc;
}
