-- ===== src/Frame/Delivery.antt =====
-- The encoder and the decoder together: what is written on one side arrives on the other.
use mathlib.Core.List.{Permᴰ}
use rust_muxio.Prelude.{
  some, ℕ, suc, ◌+◌, ◌^◌, ◌<◌, ◌≤◌, ◌≡◌, refl, sym, ◌∙◌, none, List, [], ◌∷◌, ◌++◌, map, append-nil,
  length, length-append, length-snoc, length-map, ok, err, arith, All, false,
}
use native.Mathlib.Decide.{ℕ_discrete}
use rust_muxio.Prelude.Bytes.{IsU32}
use rust_muxio.Prelude.Perm.{All-perm, map-perm}
use rust_muxio.Prelude.Map.{get}
use rust_muxio.Frame.Types.{
  FrameKind, open_kind, data_kind, end_kind, cancel_kind, pong_kind, ping_kind, Frame, is_cancel,
}
use rust_muxio.Frame.Codec.{encode, payload_of}
use rust_muxio.Frame.Codec.RoundTrip.{IsFrame, decoded}
use rust_muxio.Frame.Encoder.{FrameStreamEncoder, end_stream, frame_of}
use rust_muxio.Frame.Encoder.Trace.{Trace, payloads}
use rust_muxio.Frame.Encoder.End.{end_stream-Ended, ended_frames}
use rust_muxio.Frame.Decoder.{FrameMuxStreamDecoder, Item, head, wait, read_bytes}
use rust_muxio.Frame.Decoder.Chunks.{read_bytes-append, read_bytes_drains, read_loop_wait}
use rust_muxio.Frame.Decoder.Permutation.{
  IsStream, accept_all-in_order, accept_all-forgets, accept_all-others,
}
use rust_muxio.Frame.Decoder.Wire.{wire, read_bytes-wire, head_empty}

-- The reads of a transport, one after the other.
unfoldable pub read_all : FrameMuxStreamDecoder → List (List ℕ) → FrameMuxStreamDecoder × List Item
read_all d [] = (d, [])
read_all d (input ∷ inputs) =
    let (d', out) = read_bytes d input in let (d'', more) = read_all d' inputs in (d'', out ++ more)

abbrev pub joined : List (List ℕ) → List ℕ
joined [] = []
joined (xs ∷ xss) = xs ++ joined xss

pub read_bytes_nothing :
    (d : FrameMuxStreamDecoder) → head d.buffer ≡ wait → read_bytes d [] ≡ (d, [])
unfolding read_bytes
read_bytes_nothing d e = rw append-nil (read_loop_wait (length d.buffer) d e)

-- Many reads are one read of all their bytes.
pub read_all-joined :
    (inputs : List (List ℕ)) (d : FrameMuxStreamDecoder)
    → head d.buffer ≡ wait
    → read_all d inputs ≡ read_bytes d (joined inputs)
unfolding read_all
read_all-joined [] d e = sym (read_bytes_nothing d e)
read_all-joined (input ∷ inputs) d e = rw (
  read_bytes-append d input (joined inputs),
  read_all-joined inputs (read_bytes d input).0 (read_bytes_drains d input),
)

-- The payload bytes that were put out without an error.
abbrev pub received : List Item → List ℕ
received [] = []
received (err e ∷ rest) = received rest
received (ok f ∷ rest) = f.inner.payload ++ received rest

pub payload_of-not_cancel :
    (k : FrameKind) (bytes : List ℕ) → is_cancel k ≡ false → payload_of k bytes ≡ bytes
unfolding payload_of
payload_of-not_cancel open_kind bytes h = refl
payload_of-not_cancel data_kind bytes h = refl
payload_of-not_cancel end_kind bytes h = refl
payload_of-not_cancel cancel_kind bytes h = cc
payload_of-not_cancel pong_kind bytes h = refl
payload_of-not_cancel ping_kind bytes h = refl

received-payloads :
    (sid n : ℕ) (fs : List Frame)
    → IsStream sid n (map decoded fs)
    → received (map ok (map decoded fs)) ≡ payloads fs
received-payloads sid n [] h = refl
received-payloads sid n (f ∷ fs) h =
    rw (payload_of-not_cancel f.kind f.payload h.2, received-payloads sid (suc n) fs h.4)

-- The frames of a stream fit the wire if its length does.
IsStream-IsFrame :
    (sid n : ℕ) (fs : List Frame)
    → IsU32 sid
    → n + length fs ≤ 2 ^ 32
    → IsU32 (length (payloads fs))
    → IsStream sid n (map decoded fs)
    → All IsFrame fs
IsStream-IsFrame sid n [] u few short h = tt
IsStream-IsFrame sid n (f ∷ fs) u few short h = (
  record {
    stream_id_fits = omega (arith, h.0);
    seq_id_fits = omega (arith, h.1);
    payload_fits = omega (arith, length-append f.payload (payloads fs));
  },
  IsStream-IsFrame sid (suc n) fs u (omega arith)
      (omega (arith, length-append f.payload (payloads fs))) h.4,
)

module _ (sid : ℕ) (frames sent : List Frame) (d : FrameMuxStreamDecoder) (reads : List (List ℕ))
    (u : IsU32 sid) (some_frame : 0 < length frames) (few : length frames < 2 ^ 32)
    (short : IsU32 (length (payloads frames))) (stream : IsStream sid 0 (map decoded frames))
    (perm : Permᴰ frames sent) (clean : d.buffer ≡ []) (unknown : get sid d.streams ≡ none)
    (cut : joined reads ≡ wire sent) where
  -- However the frames of a whole stream are ordered on the wire, and however the bytes are cut into
  -- reads, a decoder that holds no part of a frame and does not know the stream yields its frames
  -- once each and in order; the stream's id, its length and its payload's length fit 32 bits.
  pub read_all-in_order : (read_all d reads).1 ≡ map ok (map decoded frames)
  read_all-in_order =
      rw
        (
          read_all-joined reads d (rw clean head_empty),
          cut,
          read_bytes-wire d sent clean
              (All-perm IsFrame perm (IsStream-IsFrame sid 0 frames u (omega arith) short stream)),
        )
        (accept_all-in_order sid (map decoded frames) (map decoded sent) d.streams
          (rw length-map some_frame) (rw length-map few) stream (map-perm decoded perm) unknown)

  -- Behind them the decoder holds no bytes, and no stream that it did not hold before.
  pub read_all-rests :
      ((read_all d reads).0.buffer ≡ [])
      × ((k : ℕ) → get k d.streams ≡ none → get k (read_all d reads).0.streams ≡ none)
  read_all-rests =
      rw
        (
          read_all-joined reads d (rw clean head_empty),
          cut,
          read_bytes-wire d sent clean
              (All-perm IsFrame perm (IsStream-IsFrame sid 0 frames u (omega arith) short stream)),
        )
        (
          refl,
          λ k absent. elim (ℕ_discrete sid k) [
            | yes e ↦ rw (← e) (
                accept_all-forgets sid (map decoded frames) (map decoded sent) d.streams
                  (rw length-map some_frame) (rw length-map few) stream (map-perm decoded perm)
                  unknown)
            | no ne ↦
                accept_all-others sid (map decoded frames) (map decoded sent) d.streams
                  (rw length-map some_frame) (rw length-map few) stream (map-perm decoded perm)
                  unknown k ne
                ∙ absent
          ],
        )

-- end_stream on an open encoder succeeds, and the frames that have been emitted by then carry the
-- bytes that were written to a decoder that holds no part of a frame and does not know the stream,
-- unchanged and in order, whatever the order of the frames on the wire and however the bytes are
-- cut into reads, if the stream's id, the number of its frames and of its bytes fit 32 bits.
pub delivery :
    (sid max : ℕ) (input : List ℕ) (fs sent : List Frame) (s : FrameStreamEncoder)
    (d : FrameMuxStreamDecoder) (reads : List (List ℕ))
    → Trace sid max input fs s
    → IsU32 sid
    → IsU32 (suc (length fs))
    → IsU32 (length input)
    → Permᴰ (ended_frames fs s) sent
    → d.buffer ≡ []
    → get sid d.streams ≡ none
    → joined reads ≡ wire sent
    → (n : ℕ) × (s' : FrameStreamEncoder) × (end_stream s ≡ some (ok n, s'))
      × (s'.emitted ≡ map encode (ended_frames fs s))
      × (received (read_all d reads).1 ≡ input)
delivery sid max input fs sent s d reads h u few short perm clean unknown cut =
    let (n, s', e, ended) = end_stream-Ended sid max input fs s h (omega arith) in
    (
      n,
      s',
      e,
      ended.emits,
      rw
          (read_all-in_order sid (ended_frames fs s) sent d reads u
            (omega (arith, length-snoc fs (frame_of s end_kind s.buffer)))
            (omega (arith, length-snoc fs (frame_of s end_kind s.buffer)))
            (rw ended.conserves short) ended.stream perm clean unknown cut)
          (received-payloads sid 0 (ended_frames fs s) ended.stream ∙ ended.conserves),
    )
