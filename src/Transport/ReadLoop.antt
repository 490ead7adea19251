-- ===== src/Transport/ReadLoop.antt =====
-- extensions/muxio-rpc-service-endpoint/src/client_read_channel.rs: `spawn_client_read_loop`. The
-- bytes of the stream come as a list, and the client is alive throughout. What streaming handlers
-- emit is in their responders.
pub mod Answers
use rust_muxio.Prelude.{
  ℕ, ◌≡◌, refl, ap, ◌∙◌, Option, List, [], ◌∷◌, is_empty, if◌then◌else◌, Result, ok, err,
}
use rust_muxio.Frame.Types.{FrameEncodeError}
use rust_muxio.Rpc.Types.{RpcRequest, RpcResponse}
use rust_muxio.Rpc.StreamEncoder.{RpcStreamEncoder}
use rust_muxio.Service.Error.{RpcServiceEndpointError}
use rust_muxio.Service.Endpoint.{run_handlers, send_responses}
use rust_muxio.Service.Endpoint.Reading
use rust_muxio.Service.Endpoint.Reading.{EndpointState, decode_bytes, answer_requests}
use rust_muxio.Transport.Program.{Program, serve}

-- `unwrap_or_default` on decoded requests.
unfoldable pub requests_or_default :
    Result RpcServiceEndpointError (List (ℕ × RpcRequest)) → List (ℕ × RpcRequest)
requests_or_default (ok requests) = requests
requests_or_default (err e) = []

module _ {R S C V P : Type 0} (program : Program R S C V P) (context : C) where
  -- The dispatcher is locked again only where there is a response. The results of the responses
  -- stand for what was emitted.
  unfoldable pub answer :
      List RpcResponse
      → EndpointState R S C V
      → List (Option (Result FrameEncodeError RpcStreamEncoder)) × EndpointState R S C V
  unfolding send_responses
  answer responses (d, u, counter) =
      if is_empty responses
      then ([], (d, u, counter))
      else (let (results, d', counter') = send_responses responses d counter in
          (results, (d', u, counter')))

  -- The body of the loop: decode, run the handlers without the lock, answer. `meanwhile` is what
  -- other tasks make of the dispatcher while the lock is given up.
  unfoldable pub on_bytes_amid :
      (EndpointState R S C V → EndpointState R S C V)
      → List ℕ
      → EndpointState R S C V
      → List (Option (Result FrameEncodeError RpcStreamEncoder)) × EndpointState R S C V
  unfolding decode_bytes run_handlers answer requests_or_default
  on_bytes_amid meanwhile bytes state =
      let (r, state') =
        decode_bytes program.on_response program.on_stream bytes context program.endpoint state in
      answer
        (run_handlers program.run program.encode_payload context (requests_or_default r)
          program.endpoint)
        (meanwhile state')

  -- The body, where no other task comes in between.
  unfoldable pub on_bytes : List ℕ → EndpointState R S C V → EndpointState R S C V
  unfolding on_bytes_amid
  on_bytes bytes state = (on_bytes_amid (λ s. s) bytes state).1

  -- The loop over the bytes of the stream.
  unfoldable pub read_loop : List (List ℕ) → EndpointState R S C V → EndpointState R S C V
  unfolding on_bytes
  read_loop [] state = state
  read_loop (bytes ∷ rest) state = read_loop rest (on_bytes bytes state)

  -- The reads of an endpoint, one after the other, the lock being held all along.
  abbrev pub serve_all : List (List ℕ) → EndpointState R S C V → EndpointState R S C V
  serve_all [] state = state
  serve_all (bytes ∷ rest) state = serve_all rest (serve program bytes context state)

  answer-answer_requests :
      (r : Result RpcServiceEndpointError (List (ℕ × RpcRequest))) (state : EndpointState R S C V)
      → (answer
          (run_handlers program.run program.encode_payload context
            (requests_or_default r)
            program.endpoint)
          state).1
        ≡ (answer_requests program.on_response program.on_stream program.run program.encode_payload
            context program.endpoint r state).1
  unfolding answer answer_requests requests_or_default run_handlers send_responses
  answer-answer_requests (err e) (d, u, counter) = refl
  answer-answer_requests (ok []) (d, u, counter) = refl
  answer-answer_requests (ok (q ∷ qs)) (d, u, counter) = refl

  pub on_bytes-serve :
      (bytes : List ℕ) (state : EndpointState R S C V)
      → on_bytes bytes state ≡ serve program bytes context state
  unfolding on_bytes on_bytes_amid serve Reading.read_bytes
  on_bytes-serve bytes state =
      let (r, state') =
        decode_bytes program.on_response program.on_stream bytes context program.endpoint state in
      answer-answer_requests r state'

  -- With nothing in between, the loop that gives up the dispatcher's lock while handlers run leaves
  -- the dispatcher, the responders and the closures' state as reads under the lock do, also behind
  -- bytes that cannot be decoded.
  pub read_loop-serve_all :
      (input : List (List ℕ)) (state : EndpointState R S C V)
      → read_loop input state ≡ serve_all input state
  unfolding read_loop
  read_loop-serve_all [] state = refl
  read_loop-serve_all (bytes ∷ rest) state =
      ap (read_loop rest) (on_bytes-serve bytes state)
      ∙ read_loop-serve_all rest (serve program bytes context state)
