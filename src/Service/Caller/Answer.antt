-- ===== src/Service/Caller/Answer.antt =====
-- What a buffered call gives its caller for a whole response.
use rust_muxio.Prelude.{
  ℕ, ◌^◌, ◌<◌, ◌≡◌, refl, ap, ◌∙◌, true, false, some, List, [], ◌∷◌, ◌++◌, map, append_assoc,
  append-nil, length, ok, err, arith, leb, Bool-cases, inl, inr, leb→lt,
}
use rust_muxio.Rpc.Types.{RpcHeader, RpcStreamEvent, header, end}
use rust_muxio.Rpc.Respondable.{or_default}
use rust_muxio.Rpc.StreamDecoder.Events.{join, chunk_of}
use rust_muxio.Rpc.Dispatcher.Sending.{message_events}
use rust_muxio.Service.ResultStatus
use rust_muxio.Service.ResultStatus.{RpcResultStatus, success, system_error, method_not_found}
use rust_muxio.Service.Error
use rust_muxio.Service.Error.{system, not_found}
use rust_muxio.Service.Caller.{
  RecvState, Delivery, rpc, fresh, recv_fn, recv_all, on_chunk, final, signal, send, result_status,
  consume, message, not_found_text, failed_text, request_for,
}

-- The answer for a status and a body.
abbrev pub answer : (List ℕ → List ℕ) → RpcResultStatus → List ℕ → Delivery
answer lossy success body = ok body
answer lossy ResultStatus.fail body = err (rpc (record { code = Error.fail; message = [] }))
answer lossy system_error body =
    err (rpc (record { code = system; message = message lossy body failed_text }))
answer lossy method_not_found body =
    err (rpc (record { code = not_found; message = message lossy body not_found_text }))

recv_all-append :
    (lossy : List ℕ → List ℕ) (xs ys : List RpcStreamEvent) (s : RecvState)
    → recv_all lossy (xs ++ ys) s ≡ recv_all lossy ys (recv_all lossy xs s)
unfolding recv_all
recv_all-append lossy [] ys s = refl
recv_all-append lossy (x ∷ xs) ys s = recv_all-append lossy xs ys (recv_fn lossy x s)

-- A whole response leaves no sender, so that its channel is closed.
pub recv_all-closes :
    (lossy : List ℕ → List ℕ) (h : RpcHeader) (cs : List (List ℕ)) (s : RecvState)
    → (recv_all lossy (message_events h cs) s).tx ≡ false
unfolding recv_all recv_fn
recv_all-closes lossy h cs s =
    let start = header h.rpc_request_id h.rpc_method_id h in
    let last = end h h.rpc_request_id h.rpc_method_id in
    ap (λ (t : RecvState). t.tx) (recv_all-append lossy (start ∷ map (chunk_of h) cs) (last ∷ []) s)

-- A state of a call whose header has come.
abbrev answered : RpcResultStatus → List Delivery → List ℕ → RecvState
answered status sent buffer = record {
  tx = true;
  sent = sent;
  ready_tx = false;
  readiness = some (ok tt);
  status = some status;
  error_buffer = buffer;
}

consume_chunks : (cs : List (List ℕ)) (buf : List ℕ) → consume (map ok cs) buf ≡ ok (buf ++ join cs)
unfolding consume
consume_chunks [] buf = rw append-nil
consume_chunks (c ∷ cs) buf = consume_chunks cs (buf ++ c) ∙ rw append_assoc

recv_chunks_success :
    (lossy : List ℕ → List ℕ) (h : RpcHeader) (cs : List (List ℕ)) (sent : List Delivery)
    → recv_all lossy (map (chunk_of h) cs) (answered success sent [])
      ≡ answered success (sent ++ map ok cs) []
unfolding recv_all recv_fn on_chunk send
recv_chunks_success lossy h [] sent = rw append-nil
recv_chunks_success lossy h (c ∷ cs) sent =
    recv_chunks_success lossy h cs (sent ++ ok c ∷ []) ∙ rw append_assoc

-- With another status the chunks are kept as the text of an error.
abbrev IsFailure : RpcResultStatus → Type 0
IsFailure s =
    (bytes : List ℕ) (t : RecvState)
    → on_chunk (some s) bytes t ≡ record t { error_buffer = t.error_buffer ++ bytes }

recv_chunks_failure :
    (lossy : List ℕ → List ℕ) (h : RpcHeader) (st : RpcResultStatus) (cs : List (List ℕ))
    (buf : List ℕ)
    → IsFailure st
    → recv_all lossy (map (chunk_of h) cs) (answered st [] buf) ≡ answered st [] (buf ++ join cs)
unfolding recv_all recv_fn
recv_chunks_failure lossy h st [] buf f = rw append-nil
recv_chunks_failure lossy h st (c ∷ cs) buf f =
    ap (recv_all lossy (map (chunk_of h) cs)) (f c (answered st [] buf))
    ∙ recv_chunks_failure lossy h st cs (buf ++ c) f
    ∙ rw append_assoc

ends :
    (lossy : List ℕ → List ℕ) (h : RpcHeader) (st : RpcResultStatus) (cs : List (List ℕ))
    → consume
        (recv_all lossy
          (end h h.rpc_request_id h.rpc_method_id ∷ [])
          (recv_all lossy (map (chunk_of h) cs) (answered st [] []))).sent
        []
      ≡ answer lossy st (join cs)
unfolding recv_all recv_fn final send on_chunk consume
ends lossy h success cs = rw (recv_chunks_success lossy h cs []) (consume_chunks cs [])
ends lossy h ResultStatus.fail cs =
    rw (recv_chunks_failure lossy h ResultStatus.fail cs [] (λ b t. refl))
ends lossy h system_error cs = rw (recv_chunks_failure lossy h system_error cs [] (λ b t. refl))
ends lossy h method_not_found cs =
    rw (recv_chunks_failure lossy h method_not_found cs [] (λ b t. refl))

-- For a whole response a buffered call gives the body where the status of the header is success,
-- and an error of the status's kind otherwise, however the body comes in chunks.
pub recv_all-answer :
    (lossy : List ℕ → List ℕ) (h : RpcHeader) (cs : List (List ℕ))
    → consume (recv_all lossy (message_events h cs) fresh).sent []
      ≡ answer lossy (result_status h.rpc_metadata_bytes) (join cs)
unfolding recv_all recv_fn signal fresh
recv_all-answer lossy h cs =
    rw (recv_all-append lossy (map (chunk_of h) cs))
      (ends lossy h (result_status h.rpc_metadata_bytes) cs)

-- Arguments of any size reach the wire in a header whose metadata fits its 16-bit length, and
-- nothing of them is lost: the payload, or the parameters where it is empty, are the arguments.
pub request_for-fits :
    (method_id : ℕ) (args : List ℕ)
    → (length (or_default [] (request_for method_id args).rpc_param_bytes) < 2 ^ 16)
      × (or_default [] (request_for method_id args).rpc_prebuffered_payload_bytes
            ++ or_default [] (request_for method_id args).rpc_param_bytes
          ≡ args)
unfolding request_for
request_for-fits method_id args = elim (Bool-cases (leb 65536 (length args))) [
  | inl e ↦ rw e (omega arith, append-nil args)
  | inr e ↦ rw e (leb→lt 65536 (length args) e, refl)
]
