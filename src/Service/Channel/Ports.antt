-- ===== src/Service/Channel/Ports.antt =====
-- What arrives at the two ends of a channel.
use rust_muxio.Prelude.{
  ℕ, ◌≡◌, refl, sym, ap, ◌∙◌, Bool, true, false, List, [], ◌∷◌, ◌++◌, map, append_assoc, append-nil,
  All,
}
use rust_muxio.Rpc.Types.{RpcHeader, RpcStreamEvent, header, payload_chunk, end, error}
use rust_muxio.Rpc.StreamDecoder.Events.{chunk_of}
use rust_muxio.Rpc.Dispatcher.Sending.{message_events}
use rust_muxio.Service.Channel.{Port, forward, on_response, on_request}

unfoldable pub run_all : (RpcStreamEvent → Port → Port) → List RpcStreamEvent → Port → Port
run_all f [] p = p
run_all f (e ∷ es) p = run_all f es (f e p)

abbrev pub held : List (List ℕ) → Port
held sent = record { is_held = true; sent = sent }

abbrev pub dropped : List (List ℕ) → Port
dropped sent = record { is_held = false; sent = sent }

run_chunks :
    (h : RpcHeader) (cs sent : List (List ℕ)) (rest : List RpcStreamEvent)
    → run_all on_response (map (chunk_of h) cs ++ rest) (held sent)
      ≡ run_all on_response rest (held (sent ++ cs))
unfolding run_all on_response forward
run_chunks h [] sent rest = ap (λ t. run_all on_response rest (held t)) (sym (append-nil sent))
run_chunks h (c ∷ cs) sent rest =
    run_chunks h cs (sent ++ c ∷ []) rest
    ∙ ap (λ t. run_all on_response rest (held t)) (append_assoc sent (c ∷ []) cs)

-- The reader of a channel is given the chunks of a response, as they come and in order, and then it
-- is closed, whatever status the response's header has.
pub run_all-message_events :
    (h : RpcHeader) (cs : List (List ℕ))
    → run_all on_response (message_events h cs) (held []) ≡ dropped cs
unfolding run_all on_response
run_all-message_events h cs =
    run_chunks h cs [] (end h h.rpc_request_id h.rpc_method_id ∷ [])
    ∙ unfold run_all on_response in refl

-- The chunks of events of any streams.
abbrev pub chunks_of : List RpcStreamEvent → List (List ℕ)
chunks_of [] = []
chunks_of (payload_chunk h id m bytes ∷ es) = bytes ∷ chunks_of es
chunks_of (header id m h ∷ es) = chunks_of es
chunks_of (end h id m ∷ es) = chunks_of es
chunks_of (error h id m e ∷ es) = chunks_of es

abbrev pub is_last : RpcStreamEvent → Bool
is_last (header id m h) = false
is_last (payload_chunk h id m bytes) = false
is_last (end h id m) = true
is_last (error h id m e) = true

closed_for_good :
    (es : List RpcStreamEvent) (sent : List (List ℕ))
    → run_all on_request es (dropped sent) ≡ dropped sent
unfolding run_all on_request forward
closed_for_good [] sent = refl
closed_for_good (header id m h ∷ es) sent = closed_for_good es sent
closed_for_good (payload_chunk h id m bytes ∷ es) sent = closed_for_good es sent
closed_for_good (end h id m ∷ es) sent = closed_for_good es sent
closed_for_good (error h id m e ∷ es) sent = closed_for_good es sent

on_last :
    (last : RpcStreamEvent) (rest : List RpcStreamEvent) (sent : List (List ℕ))
    → is_last last ≡ true
    → run_all on_request (last ∷ rest) (held sent) ≡ dropped sent
unfolding run_all on_request
on_last (header id m h) rest sent e = cc
on_last (payload_chunk h id m bytes) rest sent e = cc
on_last (end h id m) rest sent e = closed_for_good rest sent
on_last (error h id m x) rest sent e = closed_for_good rest sent

run_requests :
    (es : List RpcStreamEvent) (last : RpcStreamEvent) (rest : List RpcStreamEvent)
    (sent : List (List ℕ))
    → All (λ e. is_last e ≡ false) es
    → is_last last ≡ true
    → run_all on_request (es ++ last ∷ rest) (held sent) ≡ dropped (sent ++ chunks_of es)
unfolding run_all on_request forward
run_requests [] last rest sent h l = on_last last rest sent l ∙ ap dropped (sym (append-nil sent))
run_requests (header id m x ∷ es) last rest sent h l = run_requests es last rest sent h.1 l
run_requests (payload_chunk x id m bytes ∷ es) last rest sent h l =
    run_requests es last rest (sent ++ bytes ∷ []) h.1 l
    ∙ ap dropped (append_assoc sent (bytes ∷ []) (chunks_of es))
run_requests (end x id m ∷ es) last rest sent h l = absurd (no h.0)
  where
    no : true ≡ false → ⊥
    no e = cc
run_requests (error x id m e ∷ es) last rest sent h l = absurd (no h.0)
  where
    no : true ≡ false → ⊥
    no e = cc

-- The port of a channel handler is given the chunks of all streams of its method, in the order in
-- which they come, up to the first end or error of any of them; whatever comes behind that, of any
-- stream, is dropped.
pub run_all-first_end :
    (es : List RpcStreamEvent) (last : RpcStreamEvent) (rest : List RpcStreamEvent)
    → All (λ e. is_last e ≡ false) es
    → is_last last ≡ true
    → run_all on_request (es ++ last ∷ rest) (held []) ≡ dropped (chunks_of es)
run_all-first_end es last rest h l = run_requests es last rest [] h l
