-- ===== src/Service/Channel/Streaming.antt =====
-- A channel's stream from its call to the drop of the writer: what the other side makes of it.
use rust_muxio.Prelude.{
  ℕ, ◌+◌, ◌^◌, ◌<◌, ◌≤◌, ◌≡◌, refl, ap, ◌∙◌, subst, Option, some, List, [], ◌∷◌, ◌++◌, map,
  append_assoc, append-nil, length, length-append, length-snoc, ok, arith,
}
use rust_muxio.Frame.Types.{Frame, end_kind}
use rust_muxio.Frame.Codec.RoundTrip.{decoded}
use rust_muxio.Frame.Encoder
use rust_muxio.Frame.Encoder.{FrameStreamEncoder, frame_of}
use rust_muxio.Frame.Encoder.Trace.{Trace, Trace-new, payloads, payloads-append}
use rust_muxio.Frame.Encoder.Write.{write_bytes-Writes}
use rust_muxio.Frame.Encoder.End.{flush-Flushed, Ended, end_stream-Ended, ended_frames}
use rust_muxio.Rpc.Types.{RpcHeader}
use rust_muxio.Rpc.StreamEncoder
use rust_muxio.Rpc.StreamEncoder.{RpcStreamEncoder, header_bytes}
use rust_muxio.Rpc.StreamDecoder.Header.{IsHeader}
use rust_muxio.Rpc.StreamDecoder.Events.{join, decode_all-Delivers}
use rust_muxio.Rpc.Dispatcher.{ignore_error}
use rust_muxio.Rpc.Dispatcher.Sending.{
  Sends, IsSequence-IsPlain, join-decoded, decode_all-message, length-payloads,
}
use rust_muxio.Service.Channel.{write_task, returned, stream_on, open_stream, flushed}

-- Everything that was written is in the frames, of which there are `most` at most.
pub record IsFlowing (sid max : ℕ) (input : List ℕ) (most : ℕ) (s : FrameStreamEncoder)
    : Type 0 where
  pub frames : List Frame
  pub trace : Trace sid max input frames s
  pub all_out : payloads frames ≡ input
  pub few : length frames ≤ most

-- What writing and flushing more gives.
record Flows (sid max : ℕ) (input : List ℕ) (most : ℕ) (bytes : List ℕ) (s : FrameStreamEncoder)
    : Type 0 where
  middle : FrameStreamEncoder
  after : FrameStreamEncoder
  written : ℕ
  flushed : ℕ
  writes : Encoder.write_bytes bytes s ≡ some (ok written, middle)
  flushes : Encoder.flush middle ≡ some (ok flushed, after)
  flowing : IsFlowing sid max (input ++ bytes) (most + length bytes + 1) after

-- Not more bytes came out than were written behind what was out already.
few_bytes :
    (fs more : List Frame) (rest input bytes : List ℕ)
    → payloads fs ≡ input
    → payloads (fs ++ more) ++ rest ≡ input ++ bytes
    → length (payloads more) ≤ length bytes
few_bytes fs more rest input bytes all_out conserves = omega (
  arith,
  ap length conserves,
  ap length all_out,
  ap length (payloads-append fs more),
  length-append (payloads (fs ++ more)) rest,
  length-append (payloads fs) (payloads more),
  length-append input bytes,
)

write_flush :
    (sid max : ℕ) (input : List ℕ) (most : ℕ) (bytes : List ℕ) (s : FrameStreamEncoder)
    → 0 < max
    → IsFlowing sid max input most s
    → Flows sid max input most bytes s
write_flush sid max input most bytes s pos f =
    let w = write_bytes-Writes sid max input bytes f.frames s pos f.trace in
    let g = flush-Flushed sid max (input ++ bytes) (f.frames ++ w.more) w.after w.trace in
    record {
      middle = w.after;
      after = g.after;
      written = _;
      flushed = g.written;
      writes = w.returns;
      flushes = g.returns;
      flowing = record {
        frames = g.frames;
        trace = g.trace;
        all_out = g.all_out;
        few = omega (
          arith,
          g.one_more,
          f.few,
          length-append f.frames w.more,
          length-payloads max w.more pos w.full,
          few_bytes f.frames w.more w.after.buffer input bytes f.all_out w.trace.conserves,
        );
      };
    }

-- What the task gives: the stream is whole and closed.
record Finishes (sid max : ℕ) (input : List ℕ) (r : Option RpcStreamEncoder) : Type 0 where
  frames : List Frame
  last : FrameStreamEncoder
  closed : FrameStreamEncoder
  returns : r ≡ some (record { stream_id = sid; encoder = closed })
  trace : Trace sid max input frames last
  all_out : payloads frames ≡ input
  few : length frames + 1 < 2 ^ 32
  ended : Ended sid input (ended_frames frames last) closed

write_task-step :
    (sid : ℕ) (bytes : List ℕ) (rest : List (List ℕ)) (s s1 s2 : FrameStreamEncoder) (n m : ℕ)
    → Encoder.write_bytes bytes s ≡ some (ok n, s1)
    → Encoder.flush s1 ≡ some (ok m, s2)
    → write_task (bytes ∷ rest) (record { stream_id = sid; encoder = s })
      ≡ write_task rest (record { stream_id = sid; encoder = s2 })
unfolding write_task
write_task-step sid bytes rest s s1 s2 n m a b =
    let written : StreamEncoder.write_bytes bytes (record { stream_id = sid; encoder = s })
        ≡ some (ok n, record { stream_id = sid; encoder = s1 }) =
      unfold StreamEncoder.write_bytes in rw a refl in
    let flushed : StreamEncoder.flush (record { stream_id = sid; encoder = s1 })
        ≡ some (ok m, record { stream_id = sid; encoder = s2 }) =
      unfold StreamEncoder.flush in rw b refl in
    rw (write_task, written, flushed) refl

write_task-Finishes :
    (sid max : ℕ) (input : List ℕ) (most : ℕ) (bs : List (List ℕ)) (s : FrameStreamEncoder)
    → 0 < max
    → IsFlowing sid max input most s
    → most + length (join bs) + length bs + 1 < 2 ^ 32
    → Finishes sid max (input ++ join bs) (write_task bs (record { stream_id = sid; encoder = s }))
unfolding write_task StreamEncoder.end_stream ignore_error
write_task-Finishes sid max input most [] s pos f few =
    let (n, s', ends, ended) =
      end_stream-Ended sid max input f.frames s f.trace (omega (arith, f.few)) in
    rw append-nil (record {
      frames = f.frames;
      last = s;
      closed = s';
      returns = rw ends refl;
      trace = f.trace;
      all_out = f.all_out;
      few = omega (arith, f.few);
      ended = ended;
    })
write_task-Finishes sid max input most (b ∷ bs) s pos f few =
    let g = write_flush sid max input most b s pos f in
    let r =
      write_task-Finishes sid max (input ++ b) (most + length b + 1) bs g.after pos g.flowing
        (omega (arith, length-append b (join bs))) in
    subst (λ i. Finishes sid max i (write_task (b ∷ bs) (record { stream_id = sid; encoder = s })))
      (append_assoc input b (join bs))
      (record {
        frames = r.frames;
        last = r.last;
        closed = r.closed;
        returns = write_task-step sid b bs s g.middle g.after _ _ g.writes g.flushes ∙ r.returns;
        trace = r.trace;
        all_out = r.all_out;
        few = r.few;
        ended = r.ended;
      })

stream_on_lem :
    (sid max : ℕ) (h : RpcHeader) (bs : List (List ℕ)) (s1 s2 s3 : FrameStreamEncoder) (n m : ℕ)
    → Encoder.write_bytes (header_bytes h) (Encoder.new sid max) ≡ some (ok n, s1)
    → Encoder.flush s1 ≡ some (ok m, s2)
    → write_task bs (record { stream_id = sid; encoder = s2 })
      ≡ some (record { stream_id = sid; encoder = s3 })
    → stream_on bs (open_stream (StreamEncoder.new sid max h))
      ≡ some (ok (record { stream_id = sid; encoder = s3 }))
unfolding stream_on open_stream flushed returned StreamEncoder.new StreamEncoder.flush
stream_on_lem sid max h bs s1 s2 s3 n m a b c = rw (a, b, c) refl

-- A channel's stream, from its call to the drop of the writer, is one whole stream of frames, of
-- which a stream decoder makes the header of the call, chunks that are all bytes that were given to
-- the writer, in order, and the end: for a positive chunk size, a header that fits its fields, and
-- fewer than 2 ^ 32 - 2 bytes and chunks in all.
pub stream_on-Sends :
    (sid max : ℕ) (h : RpcHeader) (bs : List (List ℕ))
    → 0 < max
    → IsHeader h
    → length (header_bytes h) + length (join bs) + length bs + 2 < 2 ^ 32
    → Sends sid h (join bs) (stream_on bs (open_stream (StreamEncoder.new sid max h)))
stream_on-Sends sid max h bs pos fits few =
    let start : IsFlowing sid max [] 0 (Encoder.new sid max) = record {
      frames = [];
      trace = Trace-new sid max;
      all_out = refl;
      few = omega arith;
    } in
    let g = write_flush sid max [] 0 (header_bytes h) (Encoder.new sid max) pos start in
    let r =
      write_task-Finishes sid max (header_bytes h) (0 + length (header_bytes h) + 1) bs g.after pos
        g.flowing (omega arith) in
    let count = length-snoc r.frames (frame_of r.last end_kind r.last.buffer) in
    let (d, chunks, decodes, joins) =
      decode_all-message sid h (join bs) r.frames r.last r.trace.numbered (
        decode_all-Delivers h (join bs) (map decoded r.frames) fits
          (IsSequence-IsPlain sid 0 r.frames r.trace.numbered)
          (join-decoded sid 0 r.frames r.trace.numbered ∙ r.all_out)) in
    record {
      frames = ended_frames r.frames r.last;
      encoder = record { stream_id = sid; encoder = r.closed };
      decoder = d;
      chunks = chunks;
      returns =
          stream_on_lem sid max h bs g.middle g.after r.closed _ _ g.writes g.flushes r.returns;
      emits = r.ended.emits;
      stream = r.ended.stream;
      some_frame = omega (arith, count);
      few = omega (arith, count, r.few);
      short = rw r.ended.conserves (omega (arith, length-append (header_bytes h) (join bs)));
      decodes = decodes;
      joins = joins;
    }
