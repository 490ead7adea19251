-- ===== src/Service/Endpoint/Answering.antt =====
-- The work of an endpoint on the requests that a read has completed: every one is answered, once.
use rust_muxio.Prelude.{
  ℕ, ◌+◌, ◌%◌, ◌^◌, ◌<◌, ◌≡◌, refl, subst, true, Bool, Option, none, some, List, [], ◌∷◌, length,
  length-append, Result, ok, err, arith,
}
use rust_muxio.Prelude.Map.{get}
use rust_muxio.Prelude.Bytes.{IsU32, IsU64}
use rust_muxio.Frame.Types.{FrameEncodeError}
use rust_muxio.Rpc.Types.{RpcHeader, RpcRequest, RpcResponse, RpcStreamEvent, response}
use rust_muxio.Rpc.IdSpace.{IdSpace, place, increment_u32_id}
use rust_muxio.Rpc.StreamEncoder
use rust_muxio.Rpc.StreamEncoder.{RpcStreamEncoder, header_bytes}
use rust_muxio.Rpc.StreamDecoder.Header.{IsHeader}
use rust_muxio.Rpc.Session
use rust_muxio.Rpc.Respondable
use rust_muxio.Rpc.Respondable.{as_corrupt, or_default}
use rust_muxio.Rpc.Dispatcher
use rust_muxio.Rpc.Dispatcher.{RpcDispatcher, send_on, sent, response_header}
use rust_muxio.Rpc.Dispatcher.Sending.{Sends, send_on-Sends, send_on-Sends-none, message_events}
use rust_muxio.Service.Error.{HandlerError, RpcServiceErrorPayload, structured, other}
use rust_muxio.Service.Endpoint.{
  RpcServiceEndpoint, default_service_max_chunk_size, response_for, process_with,
  process_single_prebuffered_request, run_handlers, send_responses, args_for_handler,
}
use rust_muxio.Service.Endpoint.Reading
use rust_muxio.Service.Endpoint.Reading.{EndpointState, decode_bytes, answer_requests}
use rust_muxio.Service.Caller.{recv_all, consume, fresh}
use rust_muxio.Service.Call.{expected, handled, process_with-expected}

-- What an attempt to send a response gives.
abbrev pub Attempt : Type 0
Attempt = Option (Result FrameEncodeError RpcStreamEncoder)

send_on-as_corrupt :
    (payload : Option (List ℕ)) (is_finalized : Bool) (x : Attempt) (e : RpcStreamEncoder)
    → send_on payload is_finalized x ≡ some (ok e)
    → send_on payload is_finalized x ≡ send_on payload is_finalized (as_corrupt x)
unfolding send_on as_corrupt
send_on-as_corrupt payload is_finalized none e h = refl
send_on-as_corrupt payload is_finalized (some (ok s)) e h = refl
send_on-as_corrupt payload is_finalized (some (err x)) e h = cc

-- A finalized response is sent, with a payload or without.
pub response-Sends :
    (sid : ℕ) (h : RpcHeader) (payload : Option (List ℕ)) (is_finalized : Bool)
    → is_finalized ≡ true
    → IsHeader h
    → length (header_bytes h) + length (or_default [] payload) + 2 < 2 ^ 32
    → Sends sid h (or_default [] payload) (
        send_on payload is_finalized
          (as_corrupt (StreamEncoder.new sid default_service_max_chunk_size h)))
response-Sends sid h none is_finalized last fits few =
    let s =
      send_on-Sends-none sid default_service_max_chunk_size h (omega arith) fits (omega arith) in
    rw last (subst (Sends sid h []) (send_on-as_corrupt none true _ s.encoder s.returns) s)
response-Sends sid h (some body) is_finalized last fits few =
    let s =
      send_on-Sends sid default_service_max_chunk_size h body (omega arith) fits
        (omega (arith, length-append (header_bytes h) body)) in
    rw last (subst (Sends sid h body) (send_on-as_corrupt (some body) true _ s.encoder s.returns) s)

module _ {P C : Type 0} (run : P → List ℕ → C → Result HandlerError (List ℕ))
    (encode : RpcServiceErrorPayload → List ℕ) (context : C) where
  module _ {S : Type 0} (endpoint : RpcServiceEndpoint P S) where
    -- The response to a request.
    abbrev pub reply : ℕ → RpcRequest → RpcResponse
    reply id request =
        process_single_prebuffered_request run encode endpoint.prebuffered_handlers context id
          request

    -- A request whose ids fit their fields, and whose response fits a stream.
    pub record Fits (id : ℕ) (request : RpcRequest) : Type 0 where
      pub id_fits : IsU32 id
      pub method_fits : IsU64 request.rpc_method_id
      pub payload_fits :
          length (or_default [] (reply id request).rpc_prebuffered_payload_bytes) + 18 < 2 ^ 32

    abbrev pub AllFit : List (ℕ × RpcRequest) → Type 0
    AllFit [] = Unit
    AllFit ((id, request) ∷ rest) = Fits id request × AllFit rest

    -- An attempt on stream `sid` that answers a request: the frames of one whole stream have been
    -- emitted, which decode to a response of the request's id, and of these events the caller
    -- makes what the method's handler gives for the request's arguments.
    pub record Answers (lossy : List ℕ → List ℕ) (sid id : ℕ) (request : RpcRequest) (r : Attempt)
        : Type 0 where
      pub header : RpcHeader
      pub body : List ℕ
      pub to_request : header.rpc_request_id ≡ id
      pub is_response : header.rpc_msg_type ≡ response
      pub sends : Sends sid header body r
      pub received :
          consume (recv_all lossy (message_events header sends.chunks) fresh).sent []
          ≡ expected lossy encode (
              handled run encode lossy
                (get request.rpc_method_id endpoint.prebuffered_handlers)
                (args_for_handler request)
                context)

    -- The attempts answer the requests, each once and in order. The first goes on stream `next`
    -- and the others on the streams of the counter.
    abbrev pub AllAnswered :
        (List ℕ → List ℕ) → IdSpace → ℕ → ℕ → List (ℕ × RpcRequest) → List Attempt → Type 0
    AllAnswered lossy space next counter [] [] = Unit
    AllAnswered lossy space next counter [] (r ∷ rs) = ⊥
    AllAnswered lossy space next counter (q ∷ qs) [] = ⊥
    AllAnswered lossy space next counter ((id, request) ∷ rest) (r ∷ rs) =
        Answers lossy (place space next) id request r
        × AllAnswered lossy space (counter % 2 ^ 32) ((counter + 1) % 2 ^ 64) rest rs

    reply_shape :
        (handler : Option P) (id : ℕ) (request : RpcRequest)
        → let r = process_with run encode handler context id request in
          (r.rpc_request_id ≡ id)
          × (r.rpc_method_id ≡ request.rpc_method_id)
          × (r.is_finalized ≡ true)
          × (length (header_bytes (response_header r)) ≡ 16)
          × (length (response_header r).rpc_metadata_bytes ≡ 1)
    unfolding process_with response_for header_bytes
    reply_shape none id request = (refl, refl, refl, refl, refl)
    reply_shape (some h) id request = go (run h (args_for_handler request) context)
      where
        go :
            (res : Result HandlerError (List ℕ))
            → let r = response_for run encode id request res in
              (r.rpc_request_id ≡ id)
              × (r.rpc_method_id ≡ request.rpc_method_id)
              × (r.is_finalized ≡ true)
              × (length (header_bytes (response_header r)) ≡ 16)
              × (length (response_header r).rpc_metadata_bytes ≡ 1)
        go (ok encoded) = (refl, refl, refl, refl, refl)
        go (err (structured payload)) = (refl, refl, refl, refl, refl)
        go (err (other text)) = (refl, refl, refl, refl, refl)

    answer_one :
        (lossy : List ℕ → List ℕ) (sid id : ℕ) (request : RpcRequest)
        → Fits id request
        → Answers lossy sid id request (
            send_on
              (reply id request).rpc_prebuffered_payload_bytes
              (reply id request).is_finalized
              (as_corrupt (
                StreamEncoder.new sid default_service_max_chunk_size
                  (response_header (reply id request)))))
    unfolding process_single_prebuffered_request
    answer_one lossy sid id request f =
        let handler = get request.rpc_method_id endpoint.prebuffered_handlers in
        let shape = reply_shape handler id request in
        let s =
          response-Sends sid (response_header (reply id request))
            (reply id request).rpc_prebuffered_payload_bytes (reply id request).is_finalized shape.2
            (record {
              request_id_fits = rw shape.0 f.id_fits;
              method_id_fits = rw shape.1 f.method_fits;
              metadata_fits = omega (arith, shape.4);
            })
            (omega (arith, shape.3, f.payload_fits)) in
        record {
          header = response_header (reply id request);
          body = or_default [] (reply id request).rpc_prebuffered_payload_bytes;
          to_request = shape.0;
          is_response = refl;
          sends = s;
          received =
              process_with-expected run encode lossy handler context id request s.chunks s.joins;
        }

    -- Sending the responses answers the requests, from any dispatcher and counter.
    pub send_responses-AllAnswered :
        {H U : Type 0} (lossy : List ℕ → List ℕ) (requests : List (ℕ × RpcRequest))
        (d : RpcDispatcher H U) (counter : ℕ)
        → AllFit requests
        → AllAnswered lossy d.rpc_respondable_session.rpc_session.id_space
            d.rpc_respondable_session.rpc_session.next_stream_id counter requests
            (send_responses (run_handlers run encode context requests endpoint) d counter).0
    unfolding run_handlers send_responses Dispatcher.respond Respondable.start_reply_stream
        Session.init_request increment_u32_id
    send_responses-AllAnswered lossy [] d counter f = tt
    send_responses-AllAnswered lossy ((id, request) ∷ rest) d counter f =
        (answer_one lossy _ id request f.0, send_responses-AllAnswered lossy rest _ _ f.1)

-- Of a dispatcher with the same connection state: what it has read, what waits and what it expects.
pub record Keeps {H U : Type 0} (d d' : RpcDispatcher H U) : Type 0 where
  pub same_decoder :
      d'.rpc_respondable_session.rpc_session.frame_mux_stream_decoder
      ≡ d.rpc_respondable_session.rpc_session.frame_mux_stream_decoder
  pub same_decoders :
      d'.rpc_respondable_session.rpc_session.rpc_stream_decoders
      ≡ d.rpc_respondable_session.rpc_session.rpc_stream_decoders
  pub same_routing : d'.rpc_respondable_session.routing ≡ d.rpc_respondable_session.routing
  pub same_queue : d'.rpc_request_queue ≡ d.rpc_request_queue

-- Sending responses takes stream ids, and leaves the rest of the dispatcher as it is.
pub send_responses-Keeps :
    {H U : Type 0} (responses : List RpcResponse) (d : RpcDispatcher H U) (counter : ℕ)
    → Keeps d (send_responses responses d counter).1
unfolding send_responses Dispatcher.respond Respondable.start_reply_stream Session.init_request
send_responses-Keeps [] d counter = record {
  same_decoder = refl;
  same_decoders = refl;
  same_routing = refl;
  same_queue = refl;
}
send_responses-Keeps (r ∷ responses) d counter =
    let more = send_responses-Keeps responses _ _ in
    record {
      same_decoder = more.same_decoder;
      same_decoders = more.same_decoders;
      same_routing = more.same_routing;
      same_queue = more.same_queue;
    }

module _ {R S C V P : Type 0} (on_response : R → RpcStreamEvent → V → V)
    (on_stream : S → RpcStreamEvent → C → V → List (List ℕ × Bool) × V)
    (run : P → List ℕ → C → Result HandlerError (List ℕ)) (encode : RpcServiceErrorPayload → List ℕ)
    (endpoint : RpcServiceEndpoint P S) where
  -- Where an endpoint's read decodes its bytes it succeeds, and every request that it has completed
  -- is answered once and in order, if the ids fit their fields and each response fits a stream: the
  -- frames of one whole stream are emitted, on the stream ids that come next, which decode to a
  -- response of the request's id, of whose events a buffered call makes the handler's bytes, where
  -- it succeeds, and where it fails the error that the caller reads from the status and the payload
  -- of the response (no message for a handler's failure, and for a system error its payload read as
  -- text, which of a structured error is the encoded form), or an error that the method was not
  -- found; the responders and the state of the closures are those behind the decoding.
  pub read_bytes-AllAnswered :
      (lossy : List ℕ → List ℕ) (bytes : List ℕ) (context : C) (state : EndpointState R S C V)
      (requests : List (ℕ × RpcRequest)) (decoded : EndpointState R S C V)
      → decode_bytes on_response on_stream bytes context endpoint state ≡ (ok requests, decoded)
      → AllFit run encode context endpoint requests
      → let after =
          Reading.read_bytes on_response on_stream run encode bytes context endpoint state in
        (attempts : List Attempt) × (after.0 ≡ ok attempts)
        × AllAnswered run encode context endpoint lossy
            decoded.0.rpc_respondable_session.rpc_session.id_space
            decoded.0.rpc_respondable_session.rpc_session.next_stream_id decoded.2 requests attempts
        × (after.1.1 ≡ decoded.1)
  unfolding Reading.read_bytes answer_requests
  read_bytes-AllAnswered lossy bytes context state requests (d, u, counter) e fits =
      let responses = run_handlers run encode context requests endpoint in
      (
        (send_responses responses d counter).0,
        rw e,
        send_responses-AllAnswered run encode context endpoint lossy requests d counter fits,
        rw e,
      )

  -- The work on the requests leaves what the decoding has left of the connection's state.
  pub read_bytes-Keeps :
      (bytes : List ℕ) (context : C) (state : EndpointState R S C V)
      (requests : List (ℕ × RpcRequest)) (decoded : EndpointState R S C V)
      → decode_bytes on_response on_stream bytes context endpoint state ≡ (ok requests, decoded)
      → Keeps decoded.0
          (Reading.read_bytes on_response on_stream run encode bytes context endpoint state).1.0
  unfolding Reading.read_bytes answer_requests
  read_bytes-Keeps bytes context state requests (d, u, counter) e =
      rw e (send_responses-Keeps (run_handlers run encode context requests endpoint) d counter)
