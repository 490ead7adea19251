-- ===== src/Rpc/StreamDecoder/Runs.antt =====
-- Runs of frames of one stream: a run that goes on.
use rust_muxio.Prelude.{◌≡◌, refl, sym, ap, ◌∙◌, List, [], ◌∷◌, ◌++◌, ok, err, append_assoc}
use rust_muxio.Frame.Types.{DecodedFrame, FrameDecodeError}
use rust_muxio.Rpc.Types.{RpcStreamEvent}
use rust_muxio.Rpc.StreamDecoder.{RpcStreamDecoder, Decoding, decode_rpc_frame}
use rust_muxio.Rpc.StreamDecoder.Events.{behind, decode_all, step, behind_nil}

behind-behind :
    (es0 bs : List RpcStreamEvent) (out : Decoding (List RpcStreamEvent))
    → behind es0 (behind bs out) ≡ behind (es0 ++ bs) out
behind-behind es0 bs (ok more, d) = rw append_assoc
behind-behind es0 bs (err e, d) = refl

-- More frames after a run that has decoded.
abbrev resume : List DecodedFrame → Decoding (List RpcStreamEvent) → Decoding (List RpcStreamEvent)
resume ys (ok es, d) = behind es (decode_all ys d)
resume ys (err e, d) = (err e, d)

behind-resume :
    (ys : List DecodedFrame) (es : List RpcStreamEvent) (out : Decoding (List RpcStreamEvent))
    → behind es (resume ys out) ≡ resume ys (behind es out)
behind-resume ys es (ok more, d) = behind-behind es more (decode_all ys d)
behind-resume ys es (err e, d) = refl

pub step_fails :
    (f : DecodedFrame) (fs : List DecodedFrame) (d d' : RpcStreamDecoder) (er : FrameDecodeError)
    → decode_rpc_frame f d ≡ (err er, d')
    → decode_all (f ∷ fs) d ≡ (err er, d')
unfolding decode_all
step_fails f fs d d' er e = rw (e, decode_all, e)

resume_step :
    (x : DecodedFrame) (xs ys : List DecodedFrame) (d : RpcStreamDecoder)
    (out : Decoding (List RpcStreamEvent))
    → decode_rpc_frame x d ≡ out
    → ((d' : RpcStreamDecoder) → decode_all (xs ++ ys) d' ≡ resume ys (decode_all xs d'))
    → decode_all (x ∷ xs ++ ys) d ≡ resume ys (decode_all (x ∷ xs) d)
resume_step x xs ys d (ok es, d') e rest =
    step x (xs ++ ys) d d' es e
    ∙ ap (behind es) (rest d')
    ∙ behind-resume ys es (decode_all xs d')
    ∙ ap (resume ys) (sym (step x xs d d' es e))
resume_step x xs ys d (err er, d') e rest =
    step_fails x (xs ++ ys) d d' er e ∙ ap (resume ys) (sym (step_fails x xs d d' er e))

decode_all-resume :
    (xs ys : List DecodedFrame) (d : RpcStreamDecoder)
    → decode_all (xs ++ ys) d ≡ resume ys (decode_all xs d)
unfolding decode_all
decode_all-resume [] ys d = sym (behind_nil (decode_all ys d))
decode_all-resume (x ∷ xs) ys d =
    resume_step x xs ys d (decode_rpc_frame x d) refl (λ d'. decode_all-resume xs ys d')

-- A first run of frames that decodes, and then a second.
pub decode_all-append :
    (xs ys : List DecodedFrame) (d d' : RpcStreamDecoder) (es : List RpcStreamEvent)
    → decode_all xs d ≡ (ok es, d')
    → decode_all (xs ++ ys) d ≡ behind es (decode_all ys d')
decode_all-append xs ys d d' es e = decode_all-resume xs ys d ∙ ap (resume ys) e
