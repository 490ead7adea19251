-- ===== src/Rpc/Dispatcher/Sending/Message.antt =====
-- The frames of a whole message: what a stream decoder makes of them.
use rust_muxio.Prelude.{
  ℕ, suc, ◌<◌, ◌≤◌, ◌≡◌, refl, ap, ◌∙◌, true, List, [], ◌∷◌, ◌++◌, map, map-append, length,
  length-append, ok, arith, All,
}
use rust_muxio.Frame.Types.{Frame, DecodedFrame, is_end, end_kind}
use rust_muxio.Frame.Codec.RoundTrip.{decoded}
use rust_muxio.Frame.Encoder.{FrameStreamEncoder, frame_of}
use rust_muxio.Frame.Encoder.Trace.{Trace, IsSequence, payloads}
use rust_muxio.Frame.Encoder.End.{ended_frames, kind_at-not_cancel, kind_at-not_end}
use rust_muxio.Frame.Delivery.{payload_of-not_cancel}
use rust_muxio.Rpc.Types.{RpcHeader, RpcStreamEvent, header, end}
use rust_muxio.Rpc.StreamDecoder
use rust_muxio.Rpc.StreamDecoder.{RpcStreamDecoder, done, decode_in, decode_rpc_frame, read_payload}
use rust_muxio.Rpc.StreamDecoder.Header.{opened}
use rust_muxio.Rpc.StreamDecoder.Events.{
  join, frame_payloads, IsPlain, behind, decode_all, chunk_of, Delivers, step,
}
use rust_muxio.Rpc.StreamDecoder.Runs.{decode_all-append}

-- The events of a whole message.
abbrev pub message_events : RpcHeader → List (List ℕ) → List RpcStreamEvent
message_events h chunks =
    header h.rpc_request_id h.rpc_method_id h ∷ map (chunk_of h) chunks
    ++ end h h.rpc_request_id h.rpc_method_id ∷ []

-- Before the end of a stream the decoder takes its frames for plain ones.
pub IsSequence-IsPlain :
    (sid n : ℕ) (fs : List Frame) → IsSequence sid n fs → All IsPlain (map decoded fs)
IsSequence-IsPlain sid n [] h = tt
IsSequence-IsPlain sid n (f ∷ fs) h = (
  (rw h.2 (kind_at-not_end n), rw h.2 (kind_at-not_cancel n)),
  IsSequence-IsPlain sid (suc n) fs h.3,
)

pub join-decoded :
    (sid n : ℕ) (fs : List Frame)
    → IsSequence sid n fs
    → join (frame_payloads (map decoded fs)) ≡ payloads fs
join-decoded sid n [] h = refl
join-decoded sid n (f ∷ fs) h = rw (
  payload_of-not_cancel f.kind f.payload (rw h.2 (kind_at-not_cancel n)),
  join-decoded sid (suc n) fs h.3,
)

-- A chunk has a byte at least, so there are not more chunks than bytes.
pub length-payloads :
    (max : ℕ) (fs : List Frame)
    → 0 < max
    → All (λ f. length f.payload ≡ max) fs
    → length fs ≤ length (payloads fs)
length-payloads max [] pos h = omega arith
length-payloads max (f ∷ fs) pos h =
    omega (arith, length-append f.payload (payloads fs), length-payloads max fs pos h.1, h.0)

-- The end of the stream is the `End` event, whatever its frame holds.
decode_end :
    (h : RpcHeader) (f : DecodedFrame) (d : RpcStreamDecoder)
    → is_end f.inner.kind ≡ true
    → decode_all (f ∷ []) (opened h d)
      ≡ (ok (end h h.rpc_request_id h.rpc_method_id ∷ []), record (opened h d) { state = done })
unfolding decode_all decode_rpc_frame decode_in read_payload
decode_end h f d e =
    step f [] (opened h d) (record (opened h d) { state = done })
      (end h h.rpc_request_id h.rpc_method_id ∷ []) (rw e)

-- A whole stream of frames decodes to a whole message.
pub decode_all-message :
    (sid : ℕ) (h : RpcHeader) (body : List ℕ) (fs : List Frame) (s : FrameStreamEncoder)
    → IsSequence sid 0 fs
    → Delivers h body (decode_all (map decoded fs) StreamDecoder.new)
    → (d : RpcStreamDecoder) × (chunks : List (List ℕ)) × (decode_all
          (map decoded (ended_frames fs s))
          StreamDecoder.new
        ≡ (ok (message_events h chunks), d))
      × (join chunks ≡ body)
decode_all-message sid h body fs s numbered r = (
  record (opened h r.last) { state = done },
  r.chunks,
  rw map-append (
      decode_all-append (map decoded fs) (decoded (frame_of s end_kind s.buffer) ∷ [])
        StreamDecoder.new (opened h r.last) _ r.decodes
      ∙ ap (behind (header h.rpc_request_id h.rpc_method_id h ∷ map (chunk_of h) r.chunks))
          (decode_end h (decoded (frame_of s end_kind s.buffer)) r.last refl)),
  r.joins,
)

-- Of full chunks there are not more than bytes were written.
pub chunk_count :
    (sid max : ℕ) (input : List ℕ) (fs : List Frame) (s : FrameStreamEncoder)
    → 0 < max
    → Trace sid max input fs s
    → All (λ f. length f.payload ≡ max) fs
    → length fs ≤ length input
chunk_count sid max input fs s pos t full =
    let n : length (payloads fs ++ s.buffer) ≡ length input = ap length t.conserves in
    omega (arith, length-payloads max fs pos full, length-append (payloads fs) s.buffer)
