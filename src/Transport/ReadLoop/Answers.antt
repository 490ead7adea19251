-- ===== src/Transport/ReadLoop/Answers.antt =====
-- What a client's read loop answers, whatever other tasks do with its dispatcher between the decoding
-- of bytes and the responses.
use rust_muxio.Prelude.{ℕ, ◌≡◌, refl, List, [], ◌∷◌, ok}
use rust_muxio.Rpc.Types.{RpcRequest, RpcResponse}
use rust_muxio.Service.Endpoint.{run_handlers}
use rust_muxio.Service.Endpoint.Answering.{
  AllFit, AllAnswered, send_responses-AllAnswered, send_responses-Keeps,
}
use rust_muxio.Service.Endpoint.Reading.{EndpointState, decode_bytes}
use rust_muxio.Transport.Program.{Program}
use rust_muxio.Transport.ReadLoop.{answer, on_bytes_amid, requests_or_default}

module _ {R S C V P : Type 0} (program : Program R S C V P) (context : C) where
  answer-AllAnswered :
      (lossy : List ℕ → List ℕ) (requests : List (ℕ × RpcRequest)) (state : EndpointState R S C V)
      → AllFit program.run program.encode_payload context program.endpoint requests
      → AllAnswered program.run program.encode_payload context program.endpoint lossy
          state.0.rpc_respondable_session.rpc_session.id_space
          state.0.rpc_respondable_session.rpc_session.next_stream_id state.2 requests
          (answer program context
            (run_handlers program.run program.encode_payload context requests program.endpoint)
            state).0
  unfolding answer run_handlers
  answer-AllAnswered lossy [] (d, u, counter) fits = tt
  answer-AllAnswered lossy (q ∷ qs) (d, u, counter) fits =
      send_responses-AllAnswered program.run program.encode_payload context program.endpoint lossy
        (q ∷ qs) d counter fits

  -- Answering leaves the responders, the routing and the queue.
  answer-Keeps :
      (responses : List RpcResponse) (state : EndpointState R S C V)
      → let after = (answer program context responses state).1 in
        (after.1 ≡ state.1)
        × (after.0.rpc_respondable_session.routing ≡ state.0.rpc_respondable_session.routing)
        × (after.0.rpc_request_queue ≡ state.0.rpc_request_queue)
  unfolding answer
  answer-Keeps [] (d, u, counter) = (refl, refl, refl)
  answer-Keeps (r ∷ rs) (d, u, counter) =
      let keeps = send_responses-Keeps (r ∷ rs) d counter in
      (refl, keeps.same_routing, keeps.same_queue)

  -- Whatever other tasks make of a client's dispatcher while its read loop has given up the lock
  -- for the handlers, the requests that were decoded from a read before are each answered once and
  -- in order, if the ids fit their fields and each response fits a stream: on the stream ids that
  -- come next by then, by the frames of one whole stream that decode to a response of the request's
  -- id, of whose events a buffered call makes what it makes of the handler's result; and the
  -- responders, the handlers of responses and the queue of requests stay as the other tasks have
  -- left them.
  pub on_bytes_amid-AllAnswered :
      (lossy : List ℕ → List ℕ) (meanwhile : EndpointState R S C V → EndpointState R S C V)
      (bytes : List ℕ) (state : EndpointState R S C V) (requests : List (ℕ × RpcRequest))
      (decoded : EndpointState R S C V)
      → decode_bytes program.on_response program.on_stream bytes context program.endpoint state
        ≡ (ok requests, decoded)
      → AllFit program.run program.encode_payload context program.endpoint requests
      → let amid = meanwhile decoded in
        let after = on_bytes_amid program context meanwhile bytes state in
        AllAnswered program.run program.encode_payload context program.endpoint lossy
          amid.0.rpc_respondable_session.rpc_session.id_space
          amid.0.rpc_respondable_session.rpc_session.next_stream_id amid.2 requests after.0
        × (after.1.1 ≡ amid.1)
        × (after.1.0.rpc_respondable_session.routing ≡ amid.0.rpc_respondable_session.routing)
        × (after.1.0.rpc_request_queue ≡ amid.0.rpc_request_queue)
  unfolding on_bytes_amid requests_or_default
  on_bytes_amid-AllAnswered lossy meanwhile bytes state requests decoded e fits =
      let keeps =
        answer-Keeps
          (run_handlers program.run program.encode_payload context requests program.endpoint)
          (meanwhile decoded) in
      rw e (answer-AllAnswered lossy requests (meanwhile decoded) fits, keeps.0, keeps.1, keeps.2)
