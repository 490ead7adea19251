-- ===== src/Frame/Examples.antt =====
-- The theorems of the frame layer at concrete inputs, and runs that can be followed in the source.
use mathlib.Core.List.{Permᴰ}
use rust_muxio.Prelude.{
  ℕ, ◌≡◌, refl, true, false, inr, none, some, [], ◌∷◌, ◌++◌, map, ok, err, arith,
}
use rust_muxio.Prelude.Map.{get}
use rust_muxio.Frame.Types.{kind_to_u8, Frame, open_kind, end_kind, write_after_end}
use rust_muxio.Frame.Codec.{encode, decode, payload_of}
use rust_muxio.Frame.Codec.RoundTrip.{decoded, decode-encode}
use rust_muxio.Frame.Encoder
use rust_muxio.Frame.Encoder.{
  FrameStreamEncoder, write_loop, write_bytes, flush, end_stream, cancel_stream,
}
use rust_muxio.Frame.Encoder.Trace.{Trace, Trace-new}
use rust_muxio.Frame.Encoder.Guard.{closed_fails}
use rust_muxio.Frame.Encoder.Write.{Writes, write_bytes-Writes, write_loop-diverges}
use rust_muxio.Frame.Encoder.End.{Ended, end_stream-Ended, ended_frames}
use rust_muxio.Frame.Decoder
use rust_muxio.Frame.Decoder.{read_bytes}
use rust_muxio.Frame.Decoder.Chunks.{read_bytes-append}
use rust_muxio.Frame.Decoder.Wire.{wire}
use rust_muxio.Prelude.{take}
use rust_muxio.Frame.Types.{cancel_kind, incomplete_header}
use rust_muxio.Frame.Decoder.{new, accept, reassemble}
use rust_muxio.Frame.Decoder.Streams.{Reachable, start, read, accept-Reachable}
use rust_muxio.Frame.Codec.Truncated.{decode-take}
use rust_muxio.Frame.Codec.Sound.{StandsIn, decode-StandsIn}
use rust_muxio.Frame.Delivery.{read_all, received, delivery, read_all-in_order}

abbrev sample : Frame
sample = record { stream_id = 7; seq_id = 0; kind = open_kind; payload = 1 ∷ 2 ∷ [] }

abbrev last_one : Frame
last_one = record { stream_id = 7; seq_id = 1; kind = end_kind; payload = 3 ∷ [] }

decode-encode_example : decode (encode sample ++ 9 ∷ []) ≡ ok (decoded sample)
decode-encode_example = decode-encode sample (9 ∷ []) (omega arith)

abbrev fresh : FrameStreamEncoder
fresh = record {
  stream_id = 7;
  max_chunk_size = 2;
  next_seq_id = 0;
  next_kind = open_kind;
  buffer = [];
  is_canceled = false;
  is_ended = false;
  emitted = [];
}

fresh-Trace : Trace 7 2 [] [] fresh
unfolding Encoder.new
fresh-Trace = Trace-new 7 2

write_bytes-Writes_example : Writes 7 2 (1 ∷ 2 ∷ 3 ∷ []) [] 0 (write_bytes (1 ∷ 2 ∷ 3 ∷ []) fresh)
write_bytes-Writes_example =
    write_bytes-Writes 7 2 [] (1 ∷ 2 ∷ 3 ∷ []) [] fresh (omega arith) fresh-Trace

closed_fails_example :
    (write_bytes (1 ∷ []) (record fresh { is_ended = true })
      ≡ some (err write_after_end, record fresh { is_ended = true }))
    × (flush (record fresh { is_ended = true })
        ≡ some (err write_after_end, record fresh { is_ended = true }))
    × (end_stream (record fresh { is_ended = true })
        ≡ some (err write_after_end, record fresh { is_ended = true }))
    × (cancel_stream (record fresh { is_ended = true })
        ≡ some (err write_after_end, record fresh { is_ended = true }))
closed_fails_example = closed_fails (record fresh { is_ended = true }) (1 ∷ []) (inr refl)

write_loop-diverges_example : write_loop 5 0 (record fresh { max_chunk_size = 0 }) ≡ none
write_loop-diverges_example =
    write_loop-diverges 5 0 (record fresh { max_chunk_size = 0 }) refl (refl, refl)

abbrev written : FrameStreamEncoder
written = record fresh { buffer = 3 ∷ [] }

written-Trace : Trace 7 2 (3 ∷ []) [] written
written-Trace = record {
  stream = refl;
  chunk = refl;
  is_open = (refl, refl);
  emits = refl;
  conserves = refl;
  numbered = tt;
  seq = refl;
  kind = refl;
}

end_stream-Ended_example :
    (n : ℕ) × (s' : FrameStreamEncoder) × (end_stream written ≡ some (ok n, s'))
    × Ended 7 (3 ∷ []) (ended_frames [] written) s'
end_stream-Ended_example = end_stream-Ended 7 2 (3 ∷ []) [] written written-Trace (omega arith)

read_bytes-append_example : read_bytes Decoder.new (1 ∷ 2 ∷ 3 ∷ []) ≡ (
  (read_bytes (read_bytes Decoder.new (1 ∷ [])).0 (2 ∷ 3 ∷ [])).0,
  (read_bytes Decoder.new (1 ∷ [])).1
      ++ (read_bytes (read_bytes Decoder.new (1 ∷ [])).0 (2 ∷ 3 ∷ [])).1,
)
read_bytes-append_example = read_bytes-append Decoder.new (1 ∷ []) (2 ∷ 3 ∷ [])

-- The two frames of a stream, the second first, in one read.
read_all-in_order_example :
    (read_all Decoder.new (wire (last_one ∷ sample ∷ []) ∷ [])).1
    ≡ map ok (map decoded (sample ∷ last_one ∷ []))
unfolding payload_of encode
read_all-in_order_example =
    read_all-in_order 7 (sample ∷ last_one ∷ []) (last_one ∷ sample ∷ []) Decoder.new
      (wire (last_one ∷ sample ∷ []) ∷ []) (omega arith) (omega arith) (omega arith) (omega arith)
      (refl, refl, refl, refl, (refl, refl, refl, refl, tt)) (Permᴰ.swap refl refl)
      (unfold Decoder.new in refl) (unfold Decoder.new get in refl) refl

-- One byte, written and ended, read in one go.
delivery_example :
    (n : ℕ) × (s' : FrameStreamEncoder) × (end_stream written ≡ some (ok n, s'))
    × (s'.emitted ≡ map encode (ended_frames [] written))
    × (received (read_all Decoder.new (wire (ended_frames [] written) ∷ [])).1 ≡ 3 ∷ [])
unfolding encode
delivery_example =
    delivery 7 2 (3 ∷ []) [] (ended_frames [] written) written Decoder.new
      (wire (ended_frames [] written) ∷ []) written-Trace (omega arith) (omega arith) (omega arith)
      (Permᴰ.cons refl Permᴰ.nil) (unfold Decoder.new in refl) (unfold Decoder.new get in refl) refl

-- A decoder that has read a Cancel frame of a stream.
abbrev after_cancel : Reachable (read_bytes new (encode (record sample { kind = cancel_kind }))).0
after_cancel = read start (encode (record sample { kind = cancel_kind }))

accept-Reachable_example :
    accept
      (read_bytes new (encode (record sample { kind = cancel_kind }))).0.streams
      (decoded sample)
    ≡ reassemble
        (read_bytes new (encode (record sample { kind = cancel_kind }))).0.streams
        (decoded sample)
accept-Reachable_example = accept-Reachable (decoded sample) after_cancel

decode-take_example : decode (take 14 (encode sample)) ≡ err incomplete_header
unfolding encode
decode-take_example = decode-take sample 14 (omega arith) (omega arith)

decode-StandsIn_example : StandsIn (encode sample ++ 9 ∷ []) (decoded sample)
unfolding encode kind_to_u8
decode-StandsIn_example =
    decode-StandsIn (encode sample ++ 9 ∷ []) (decoded sample)
      (
        omega arith,
        (
          omega arith,
          (
            omega arith,
            (
              omega arith,
              (
                omega arith,
                (
                  omega arith,
                  (
                    omega arith,
                    (
                      omega arith,
                      (
                        omega arith,
                        (
                          omega arith,
                          (
                            omega arith,
                            (
                              omega arith,
                              (omega arith, (omega arith, (omega arith, (omega arith, tt)))),
                            ),
                          ),
                        ),
                      ),
                    ),
                  ),
                ),
              ),
            ),
          ),
        ),
      )
      (decode-encode sample (9 ∷ []) (omega arith))
