-- ===== src/Rpc/StreamDecoder/Open.antt =====
-- Frames that do not end their stream: the decoder gives no end for them.
use rust_muxio.Prelude.{
  ◌≡◌, refl, sym, ap, ◌∙◌, ◌++◌, Bool, true, false, List, [], ◌∷◌, ok, err, if◌then◌else◌, All,
  arith,
}
use rust_muxio.Frame.Types.{DecodedFrame, is_end}
use rust_muxio.Rpc.Types.{RpcStreamEvent, is_end_event}
use rust_muxio.Rpc.StreamDecoder.{
  RpcStreamDecoder, RpcDecoderState, Decoding, await_header, await_payload, done, take_header,
  read_header, read_payload, decode_in, decode_rpc_frame,
}

-- None of the events is the end.
abbrev pub GoesOn : List RpcStreamEvent → Type 0
GoesOn es = All (λ e. is_end_event e ≡ false) es

abbrev goes_on : List RpcStreamEvent → Bool
goes_on [] = true
goes_on (e ∷ es) = let rest = goes_on es in if is_end_event e then false else rest

goes_on-GoesOn : (es : List RpcStreamEvent) → goes_on es ≡ true → GoesOn es
goes_on-GoesOn [] h = tt
goes_on-GoesOn (e ∷ es) h = (ground arith, goes_on-GoesOn es (ground arith))

-- What the decoder gives goes on, or is an error.
abbrev may_go_on : Decoding (List RpcStreamEvent) → Bool
may_go_on (ok es, d) = goes_on es
may_go_on (err e, d) = true

read_header_lem : (d : RpcStreamDecoder) → may_go_on (read_header d) ≡ true
unfolding read_header take_header
read_header_lem d = ground arith

read_payload_lem :
    (f : DecodedFrame) (d : RpcStreamDecoder)
    → is_end f.inner.kind ≡ false
    → may_go_on (read_payload f d) ≡ true
unfolding read_payload
read_payload_lem f d plain = ground arith

decode_in_lem :
    (s : RpcDecoderState) (f : DecodedFrame) (d : RpcStreamDecoder)
    → is_end f.inner.kind ≡ false
    → may_go_on (decode_in s f d) ≡ true
unfolding decode_in
decode_in_lem await_header f d plain =
    read_header_lem (record d { buffer = d.buffer ++ f.inner.payload })
decode_in_lem await_payload f d plain = read_payload_lem f d plain
decode_in_lem done f d plain = refl

-- For a frame that does not end its stream the decoder gives no end.
pub decode_rpc_frame-GoesOn :
    (f : DecodedFrame) (d d' : RpcStreamDecoder) (es : List RpcStreamEvent)
    → decode_rpc_frame f d ≡ (ok es, d')
    → is_end f.inner.kind ≡ false
    → GoesOn es
unfolding decode_rpc_frame
decode_rpc_frame-GoesOn f d d' es e plain =
    goes_on-GoesOn es (ap may_go_on (sym e) ∙ decode_in_lem d.state f d plain)
