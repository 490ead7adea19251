-- ===== src/Rpc/StreamDecoder/Events.antt =====
-- The frames of one stream, one after the other, and the events that they become.
use native.Mathlib.Decide.{dec_lt}
use rust_muxio.Prelude.{
  ℕ, ◌+◌, ◌≡◌, ◌<◌, ◌≤◌, refl, sym, ap, ◌∙◌, false, List, [], ◌∷◌, ◌++◌, map, length, drop, ok, err,
  arith, append_assoc, append-nil, map-append, length-append, All, lt→ltb, take, take-append-drop,
  take-append_le, drop-append_le, take-length-append, drop-length-append,
}
use rust_muxio.Frame.Types.{DecodedFrame, is_end, is_cancel}
use rust_muxio.Rpc.Types.{
  RpcHeader, RpcStreamEvent, header, payload_chunk, rpc_frame_frame_header_size,
}
use rust_muxio.Rpc.StreamDecoder.{
  RpcStreamDecoder, Decoding, await_header, new, read_header, read_payload, decode_in,
  decode_rpc_frame,
}
use rust_muxio.Rpc.StreamEncoder.{header_bytes}
use rust_muxio.Rpc.StreamDecoder.Header.{
  IsHeader, fixed_part, header_bytes_lem, fixed_part-take, first_events, opened, partial,
  read_header-partial, read_header_complete,
}

abbrev pub join : List (List ℕ) → List ℕ
join [] = []
join (p ∷ ps) = p ++ join ps

abbrev pub frame_payloads : List DecodedFrame → List (List ℕ)
frame_payloads fs = map (λ f. f.inner.payload) fs

-- A frame that neither ends nor cancels its stream.
abbrev pub IsPlain : DecodedFrame → Type 0
IsPlain f = (is_end f.inner.kind ≡ false) × (is_cancel f.inner.kind ≡ false)

-- Events that came before go in front.
abbrev pub behind :
    List RpcStreamEvent → Decoding (List RpcStreamEvent) → Decoding (List RpcStreamEvent)
behind es (ok more, d) = (ok (es ++ more), d)
behind es (err e, d) = (err e, d)

unfoldable pub decode_all : List DecodedFrame → RpcStreamDecoder → Decoding (List RpcStreamEvent)
decode_all [] d = (ok [], d)
decode_all (f ∷ fs) d =
    let (r, d') = decode_rpc_frame f d in
    elim r [ ok es ↦ behind es (decode_all fs d') | err e ↦ (err e, d') ]

abbrev pub chunk_of : RpcHeader → List ℕ → RpcStreamEvent
chunk_of h bytes = payload_chunk h h.rpc_request_id h.rpc_method_id bytes

-- The events of header `h` and a body, which comes in chunks; the decoder goes on with payload.
pub record Delivers (h : RpcHeader) (body : List ℕ) (out : Decoding (List RpcStreamEvent))
    : Type 0 where
  pub chunks : List (List ℕ)
  pub last : RpcStreamDecoder
  pub decodes :
      out
      ≡ (ok (header h.rpc_request_id h.rpc_method_id h ∷ map (chunk_of h) chunks), opened h last)
  pub joins : join chunks ≡ body

pub step :
    (f : DecodedFrame) (fs : List DecodedFrame) (d d' : RpcStreamDecoder) (es : List RpcStreamEvent)
    → decode_rpc_frame f d ≡ (ok es, d')
    → decode_all (f ∷ fs) d ≡ behind es (decode_all fs d')
unfolding decode_all
step f fs d d' es e = rw (e, decode_all, e)

pub behind_nil : (out : Decoding (List RpcStreamEvent)) → behind [] out ≡ out
behind_nil (ok more, d) = refl
behind_nil (err e, d) = refl

-- After the header every frame is a chunk.
decode_plain :
    (h : RpcHeader) (f : DecodedFrame) (d : RpcStreamDecoder)
    → IsPlain f
    → decode_rpc_frame f (opened h d) ≡ (ok (chunk_of h f.inner.payload ∷ []), opened h d)
unfolding decode_rpc_frame decode_in read_payload
decode_plain h f d plain = rw (plain.0, plain.1)

pub decode_all-opened :
    (h : RpcHeader) (fs : List DecodedFrame) (d : RpcStreamDecoder)
    → All IsPlain fs
    → decode_all fs (opened h d) ≡ (ok (map (chunk_of h) (frame_payloads fs)), opened h d)
unfolding decode_all
decode_all-opened h [] d plain = refl
decode_all-opened h (f ∷ fs) d plain =
    step f fs (opened h d) (opened h d) (chunk_of h f.inner.payload ∷ [])
      (decode_plain h f d plain.0)
    ∙ ap (behind (chunk_of h f.inner.payload ∷ [])) (decode_all-opened h fs d plain.1)

abbrev first_chunks : List ℕ → List (List ℕ)
first_chunks [] = []
first_chunks (b ∷ body) = (b ∷ body) ∷ []

first_events_lem :
    (h : RpcHeader) (body : List ℕ)
    → first_events h body
      ≡ header h.rpc_request_id h.rpc_method_id h ∷ map (chunk_of h) (first_chunks body)
first_events_lem h [] = refl
first_events_lem h (b ∷ body) = refl

join-first_chunks :
    (body : List ℕ) (ps : List (List ℕ)) → join (first_chunks body ++ ps) ≡ body ++ join ps
join-first_chunks [] ps = refl
join-first_chunks (b ∷ body) ps = refl

-- A frame that leaves the header incomplete is kept, and the decoder goes on waiting.
decode_waits :
    (f : DecodedFrame) (d : RpcStreamDecoder)
    → d.state ≡ await_header
    → decode_rpc_frame f d ≡ read_header (record d { buffer = d.buffer ++ f.inner.payload })
unfolding decode_rpc_frame decode_in
decode_waits f d e = rw e

read_header_short : (d : RpcStreamDecoder) → length d.buffer < 15 → read_header d ≡ (ok [], d)
unfolding read_header
read_header_short d short = rw (lt→ltb (length d.buffer) rpc_frame_frame_header_size short)

-- The step from waiting for the header.
Delivers-step :
    (h : RpcHeader) (body : List ℕ) (f : DecodedFrame) (fs : List DecodedFrame)
    (d d' : RpcStreamDecoder)
    → decode_rpc_frame f d ≡ (ok [], d')
    → Delivers h body (decode_all fs d')
    → Delivers h body (decode_all (f ∷ fs) d)
Delivers-step h body f fs d d' e r = record {
  chunks = r.chunks;
  last = r.last;
  decodes = step f fs d d' [] e ∙ behind_nil (decode_all fs d') ∙ r.decodes;
  joins = r.joins;
}

-- The step at which the header is complete, with `front` of the body behind it.
Delivers-header :
    (h : RpcHeader) (front body : List ℕ) (f : DecodedFrame) (fs : List DecodedFrame)
    (d d' : RpcStreamDecoder)
    → All IsPlain fs
    → decode_rpc_frame f d ≡ (ok (first_events h front), opened h d')
    → front ++ join (frame_payloads fs) ≡ body
    → Delivers h body (decode_all (f ∷ fs) d)
Delivers-header h front body f fs d d' plain e j = record {
  chunks = first_chunks front ++ frame_payloads fs;
  last = d';
  decodes =
      step f fs d (opened h d') (first_events h front) e
      ∙ ap (behind (first_events h front)) (decode_all-opened h fs d' plain)
      ∙ rw (first_events_lem h front, map-append);
  joins = join-first_chunks front (frame_payloads fs) ∙ j;
}

-- Two lists of bytes that go on to the same whole: the longer holds the shorter.
split_at :
    (front m rest body : List ℕ)
    → length front ≤ length m
    → m ++ rest ≡ front ++ body
    → (m ≡ front ++ drop (length front) m) × (drop (length front) m ++ rest ≡ body)
split_at front m rest body h e = (
  sym (take-append-drop (length front) m)
      ∙ ap (λ t. t ++ drop (length front) m)
          (sym (take-append_le (length front) m rest h)
            ∙ ap (take (length front)) e
            ∙ take-length-append front body),
  sym (drop-append_le (length front) m rest h)
      ∙ ap (drop (length front)) e
      ∙ drop-length-append front body,
)

-- While the header is incomplete: `d` waits, and holds a part of it.
decode_all-waiting :
    (h : RpcHeader) (body : List ℕ) (fs : List DecodedFrame) (d : RpcStreamDecoder)
    → IsHeader h
    → All IsPlain fs
    → d.state ≡ await_header
    → length d.buffer < 15 + length h.rpc_metadata_bytes
    → d.buffer ++ join (frame_payloads fs) ≡ fixed_part h (h.rpc_metadata_bytes ++ body)
    → Delivers h body (decode_all fs d)
decode_all-waiting h body [] d fits plain s short e =
    let n : length d.buffer ≡ length (fixed_part h (h.rpc_metadata_bytes ++ body)) =
      ap length (rw append-nil at e) in
    absurd (omega (arith, length-append h.rpc_metadata_bytes body))
decode_all-waiting h body (f ∷ fs) d fits plain s short e =
    let buf = d.buffer ++ f.inner.payload in
    let e' : buf ++ join (frame_payloads fs) ≡ fixed_part h (h.rpc_metadata_bytes ++ body) =
      append_assoc d.buffer f.inner.payload (join (frame_payloads fs)) ∙ e in
    elim (dec_lt (length buf) 15) [
      | yes few ↦
          Delivers-step h body f fs d (record d { buffer = buf })
            (decode_waits f d s ∙ read_header_short (record d { buffer = buf }) few)
            (decode_all-waiting h body fs (record d { buffer = buf }) fits plain.1 s (omega arith)
              e')
      | no many ↦
          let (b, r) =
            fixed_part-take h buf (join (frame_payloads fs)) (h.rpc_metadata_bytes ++ body)
              (omega arith) e' in
          let m = drop 15 buf in
          elim (dec_lt (length m) (length h.rpc_metadata_bytes)) [
            | yes few ↦
                Delivers-step h body f fs d (partial h m d)
                  (decode_waits f d s
                    ∙ ap (λ x. read_header (record d { buffer = x })) b
                    ∙ read_header-partial h m d fits few)
                  (decode_all-waiting h body fs (partial h m d) fits plain.1 s (omega arith)
                    (ap (fixed_part h) r))
            | no enough ↦
                let (m', r') =
                  split_at h.rpc_metadata_bytes m (join (frame_payloads fs)) body (omega arith) r in
                Delivers-header h (drop (length h.rpc_metadata_bytes) m) body f fs d d plain.1
                  (decode_waits f d s
                    ∙ ap (λ x. read_header (record d { buffer = x })) (b ∙ ap (fixed_part h) m')
                    ∙ read_header_complete h (drop (length h.rpc_metadata_bytes) m) d fits)
                  r'
          ]
    ]

-- However the bytes of a header that fits its fields, and of a body, are cut into frames that neither
-- end nor cancel the stream, a new decoder makes of them the header that was sent, first, and
-- chunks that are the body.
pub decode_all-Delivers :
    (h : RpcHeader) (body : List ℕ) (fs : List DecodedFrame)
    → IsHeader h
    → All IsPlain fs
    → join (frame_payloads fs) ≡ header_bytes h ++ body
    → Delivers h body (decode_all fs new)
unfolding new
decode_all-Delivers h body fs fits plain e =
    decode_all-waiting h body fs new fits plain refl (omega arith) (e ∙ rw (header_bytes_lem h))
