-- ===== src/Rpc/Dispatcher/Sending.antt =====
-- A finished message: what `call` and `respond` put on the wire for it, and what the other side
-- makes of that.
pub mod Message
use rust_muxio.Prelude.{
  ℕ, ◌+◌, ◌^◌, ◌<◌, ◌≤◌, ◌≡◌, sym, ◌∙◌, subst, true, Option, none, some, append-nil, List, [], ◌∷◌,
  ◌++◌, map, length, length-snoc, Result, ok, arith, All-append,
}
use rust_muxio.Frame.Types.{Frame, FrameEncodeError, end_kind}
use rust_muxio.Frame.Codec.{encode}
use rust_muxio.Frame.Codec.RoundTrip.{decoded}
use rust_muxio.Frame.Encoder
use rust_muxio.Frame.Encoder.{FrameStreamEncoder, frame_of}
use rust_muxio.Frame.Encoder.Trace.{Trace, Trace-new, payloads}
use rust_muxio.Frame.Encoder.Write.{write_bytes-Writes}
use rust_muxio.Frame.Encoder.End.{flush-Flushed, end_stream-Ended, ended_frames}
use rust_muxio.Frame.Decoder.Permutation.{IsStream}
use rust_muxio.Rpc.Types.{RpcHeader, header, end}
use rust_muxio.Rpc.StreamEncoder
use rust_muxio.Rpc.StreamEncoder.{RpcStreamEncoder, header_bytes}
use rust_muxio.Rpc.StreamDecoder
use rust_muxio.Rpc.StreamDecoder.{RpcStreamDecoder}
use rust_muxio.Rpc.StreamDecoder.Header.{IsHeader}
use rust_muxio.Rpc.StreamDecoder.Events.{join, decode_all, decode_all-Delivers}
use rust_muxio.Rpc.Dispatcher.{send_payload, finish, sent, send_on}
pub use rust_muxio.Rpc.Dispatcher.Sending.Message.{
  message_events, IsSequence-IsPlain, join-decoded, length-payloads, decode_all-message,
  chunk_count,
}

-- The result of sending a message: the encoder has emitted a whole stream of frames, and those
-- decode to the header that was sent, chunks that are the body, and the end.
pub record Sends (sid : ℕ) (h : RpcHeader) (body : List ℕ)
    (r : Option (Result FrameEncodeError RpcStreamEncoder)) : Type 0 where
  pub frames : List Frame
  pub encoder : RpcStreamEncoder
  pub decoder : RpcStreamDecoder
  pub chunks : List (List ℕ)
  pub returns : r ≡ some (ok encoder)
  pub emits : encoder.encoder.emitted ≡ map encode frames
  pub stream : IsStream sid 0 (map decoded frames)
  pub some_frame : 0 < length frames
  pub few : length frames < 2 ^ 32
  pub short : length (payloads frames) < 2 ^ 32
  pub decodes :
      decode_all (map decoded frames) StreamDecoder.new ≡ (ok (message_events h chunks), decoder)
  pub joins : join chunks ≡ body

-- What is sent is the writes of the header and the payload, a flush, and the end.
send_on_lem :
    (sid max : ℕ) (h : RpcHeader) (body : List ℕ) (n1 n2 n3 n4 : ℕ)
    (e1 e2 e3 e4 : FrameStreamEncoder)
    → Encoder.write_bytes (header_bytes h) (Encoder.new sid max) ≡ some (ok n1, e1)
    → Encoder.write_bytes body e1 ≡ some (ok n2, e2)
    → Encoder.flush e2 ≡ some (ok n3, e3)
    → Encoder.end_stream e3 ≡ some (ok n4, e4)
    → send_on (some body) true (StreamEncoder.new sid max h)
      ≡ some (ok (record { stream_id = sid; encoder = e4 }))
unfolding send_on sent send_payload finish StreamEncoder.new StreamEncoder.write_bytes
    StreamEncoder.flush StreamEncoder.end_stream
send_on_lem sid max h body n1 n2 n3 n4 e1 e2 e3 e4 a b c d = rw (a, b, c, d)

-- Without a payload these are the write of the header, a flush, and the end.
send_on-none_lem :
    (sid max : ℕ) (h : RpcHeader) (n1 n3 n4 : ℕ) (e1 e3 e4 : FrameStreamEncoder)
    → Encoder.write_bytes (header_bytes h) (Encoder.new sid max) ≡ some (ok n1, e1)
    → Encoder.flush e1 ≡ some (ok n3, e3)
    → Encoder.end_stream e3 ≡ some (ok n4, e4)
    → send_on none true (StreamEncoder.new sid max h)
      ≡ some (ok (record { stream_id = sid; encoder = e4 }))
unfolding send_on sent send_payload finish StreamEncoder.new StreamEncoder.write_bytes
    StreamEncoder.flush StreamEncoder.end_stream
send_on-none_lem sid max h n1 n3 n4 e1 e3 e4 a c d = rw (a, c, d)

-- A flush and the end on an encoder that was given a header and a body send the message.
closed-Sends :
    (sid max : ℕ) (h : RpcHeader) (body : List ℕ) (fs : List Frame) (s : FrameStreamEncoder)
    (r : Option (Result FrameEncodeError RpcStreamEncoder))
    → IsHeader h
    → Trace sid max (header_bytes h ++ body) fs s
    → length fs + 2 < 2 ^ 32
    → length (header_bytes h ++ body) < 2 ^ 32
    → ((n3 n4 : ℕ) (e3 e4 : FrameStreamEncoder)
        → Encoder.flush s ≡ some (ok n3, e3)
        → Encoder.end_stream e3 ≡ some (ok n4, e4)
        → r ≡ some (ok (record { stream_id = sid; encoder = e4 })))
    → Sends sid h body r
closed-Sends sid max h body fs s r fits t few short returns =
    let flushed = flush-Flushed sid max (header_bytes h ++ body) fs s t in
    let (k, s', ends, ended) =
      end_stream-Ended sid max (header_bytes h ++ body) flushed.frames flushed.after flushed.trace
        (omega (arith, flushed.one_more)) in
    let count = length-snoc flushed.frames (frame_of flushed.after end_kind flushed.after.buffer) in
    let (d, chunks, decodes, joins) =
      decode_all-message sid h body flushed.frames flushed.after flushed.trace.numbered (
        decode_all-Delivers h body (map decoded flushed.frames) fits
          (IsSequence-IsPlain sid 0 flushed.frames flushed.trace.numbered)
          (join-decoded sid 0 flushed.frames flushed.trace.numbered ∙ flushed.all_out)) in
    record {
      frames = ended_frames flushed.frames flushed.after;
      encoder = record { stream_id = sid; encoder = s' };
      decoder = d;
      chunks = chunks;
      returns = returns flushed.written k flushed.after s' flushed.returns ends;
      emits = ended.emits;
      stream = ended.stream;
      some_frame = omega (arith, count);
      few = omega (arith, count, flushed.one_more);
      short = rw ended.conserves short;
      decodes = decodes;
      joins = joins;
    }

-- With a positive chunk size, a header that fits its fields, and fewer than 2 ^ 32 - 2 bytes, header
-- included, a finalized message with a payload is sent: the encoder has emitted one whole stream of
-- frames, which decode to the header, chunks that are the payload, and the end.
pub send_on-Sends :
    (sid max : ℕ) (h : RpcHeader) (body : List ℕ)
    → 0 < max
    → IsHeader h
    → length (header_bytes h ++ body) + 2 < 2 ^ 32
    → Sends sid h body (send_on (some body) true (StreamEncoder.new sid max h))
send_on-Sends sid max h body pos fits few =
    let first =
      write_bytes-Writes sid max [] (header_bytes h) [] (Encoder.new sid max) pos
        (Trace-new sid max) in
    let second =
      write_bytes-Writes sid max (header_bytes h) body first.more first.after pos first.trace in
    let full =
      All-append (λ (f : Frame). length f.payload ≡ max) first.more second.more first.full
        second.full in
    let count =
      chunk_count sid max (header_bytes h ++ body) (first.more ++ second.more) second.after pos
        second.trace full in
    closed-Sends sid max h body (first.more ++ second.more) second.after _ fits second.trace
      (omega (arith, count)) (omega arith)
      (λ n3 n4 e3 e4 f e.
        send_on_lem sid max h body _ _ n3 n4 first.after second.after e3 e4 first.returns
          second.returns f e)

-- The same without a payload.
pub send_on-Sends-none :
    (sid max : ℕ) (h : RpcHeader)
    → 0 < max
    → IsHeader h
    → length (header_bytes h) + 2 < 2 ^ 32
    → Sends sid h [] (send_on none true (StreamEncoder.new sid max h))
send_on-Sends-none sid max h pos fits few =
    let first =
      write_bytes-Writes sid max [] (header_bytes h) [] (Encoder.new sid max) pos
        (Trace-new sid max) in
    let count =
      chunk_count sid max (header_bytes h) first.more first.after pos first.trace first.full in
    closed-Sends sid max h [] first.more first.after _ fits
      (subst (λ input. Trace sid max input first.more first.after)
        (sym (append-nil (header_bytes h))) first.trace)
      (omega (arith, count)) (rw append-nil (omega arith))
      (λ n3 n4 e3 e4 f e. send_on-none_lem sid max h _ n3 n4 first.after e3 e4 first.returns f e)
