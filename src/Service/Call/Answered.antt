-- ===== src/Service/Call/Answered.antt =====
-- A call's bytes and an endpoint's answer to them.
use rust_muxio.Prelude.{
  ℕ, ◌+◌, ◌<◌, ◌^◌, ◌≡◌, refl, ap, ◌∙◌, subst, Bool, true, Option, none, some, List, [], ◌∷◌,
  Result, ok, err, arith, length,
}
use rust_muxio.Prelude.Bytes.{IsU64}
use rust_muxio.Prelude.Map.{get}
use rust_muxio.Frame.Delivery.{joined}
use rust_muxio.Rpc.Types.{RpcHeader, RpcRequest, RpcStreamEvent}
use rust_muxio.Rpc.IdSpace.{IdSpace, place}
use rust_muxio.Rpc.IdSpace.Apart.{place-apart}
use rust_muxio.Rpc.StreamEncoder.{RpcStreamEncoder}
use rust_muxio.Rpc.Session.{RpcSession}
use rust_muxio.Rpc.Respondable.{or_default}
use rust_muxio.Rpc.Dispatcher
use rust_muxio.Rpc.Dispatcher.{RpcDispatcher}
use rust_muxio.Rpc.StreamDecoder.Events.{join}
use rust_muxio.Rpc.Dispatcher.Sending.{Sends, message_events}
use rust_muxio.Rpc.Dispatcher.Requests.{collected, request_so_far}
use rust_muxio.Rpc.Dispatcher.Receiving.{IsQuiet}
use rust_muxio.Service.Error.{HandlerError, RpcServiceErrorPayload, structured, other}
use rust_muxio.Service.Caller.{request_for, recv_all, consume, fresh}
use rust_muxio.Service.Call.{
  call_header, expected, handled, args_for_handler-request_so_far, request_for-Gets,
}
use rust_muxio.Service.Endpoint.{
  RpcServiceEndpoint, default_service_max_chunk_size, process_single_prebuffered_request,
  process_with, response_for, args_for_handler,
}
use rust_muxio.Service.Endpoint.Reading
use rust_muxio.Service.Endpoint.Reading.{install_router, EndpointHandler, Shared}
use rust_muxio.Service.Endpoint.Answering.{
  Attempt, reply, Answers, AllAnswered, read_bytes-AllAnswered, Keeps, read_bytes-Keeps,
}
use rust_muxio.Rpc.Dispatcher.Whole.{IsIdle, IsAtRest}
use rust_muxio.Service.Call.Arrival.{
  request_for-method, header_of, stream_of, start_call-Sends, decode_bytes-message,
}

-- The bytes of the response to a result.
abbrev pub reply_bytes :
    (RpcServiceErrorPayload → List ℕ) → Option (Result HandlerError (List ℕ)) → List ℕ
reply_bytes encode none = []
reply_bytes encode (some (ok encoded)) = encoded
reply_bytes encode (some (err (structured payload))) = encode payload
reply_bytes encode (some (err (other text))) = text

-- A dispatcher behind a read: it is at rest where it was before, expects what it expected, and no
-- request waits.
pub record Rests {H U : Type 0} (d d' : RpcDispatcher H U) : Type 0 where
  pub at_rest :
      IsAtRest d.rpc_respondable_session.rpc_session
      → IsAtRest d'.rpc_respondable_session.rpc_session
  pub same_routing : d'.rpc_respondable_session.routing ≡ d.rpc_respondable_session.routing
  pub is_empty : d'.rpc_request_queue ≡ []

IsIdle-same :
    {k : ℕ} {s s' : RpcSession}
    → s'.frame_mux_stream_decoder ≡ s.frame_mux_stream_decoder
    → s'.rpc_stream_decoders ≡ s.rpc_stream_decoders
    → IsIdle k s
    → IsIdle k s'
IsIdle-same decoder decoders idle = record {
  no_bytes = rw decoder idle.no_bytes;
  no_stream = rw decoder idle.no_stream;
  no_decoder = rw decoders idle.no_decoder;
}

Keeps-Rests :
    {H U : Type 0} {d m d' : RpcDispatcher H U}
    → (IsAtRest d.rpc_respondable_session.rpc_session
        → IsAtRest m.rpc_respondable_session.rpc_session)
    → m.rpc_respondable_session.routing ≡ d.rpc_respondable_session.routing
    → m.rpc_request_queue ≡ []
    → Keeps m d'
    → Rests d d'
Keeps-Rests at_rest routing empty kept = record {
  at_rest = λ rests k. IsIdle-same kept.same_decoder kept.same_decoders (at_rest rests k);
  same_routing = kept.same_routing ∙ routing;
  is_empty = kept.same_queue ∙ empty;
}

module _ {S C P : Type 0} (run : P → List ℕ → C → Result HandlerError (List ℕ))
    (encode : RpcServiceErrorPayload → List ℕ) (lossy : List ℕ → List ℕ)
    (endpoint : RpcServiceEndpoint P S) (context : C) where
  -- What the method's handler gives for the arguments.
  abbrev pub result_of : ℕ → List ℕ → Option (Result HandlerError (List ℕ))
  result_of method args =
      handled run encode lossy (get method endpoint.prebuffered_handlers) args context

  pub process_with-reply_bytes :
      (handler : Option P) (id : ℕ) (request : RpcRequest)
      → or_default []
          (process_with run encode handler context id request).rpc_prebuffered_payload_bytes
        ≡ reply_bytes encode (handled run encode lossy handler (args_for_handler request) context)
  unfolding process_with response_for
  process_with-reply_bytes none id request = refl
  process_with-reply_bytes (some h) id request = go (run h (args_for_handler request) context)
    where
      go :
          (r : Result HandlerError (List ℕ))
          → or_default [] (response_for run encode id request r).rpc_prebuffered_payload_bytes
            ≡ reply_bytes encode (some r)
      go (ok encoded) = refl
      go (err (structured payload)) = refl
      go (err (other text)) = refl

  -- What the handler is run on is what the caller has given.
  pub handled-request_for :
      (id method : ℕ) (args : List ℕ) (cs : List (List ℕ))
      → join cs ≡ or_default [] (request_for method args).rpc_prebuffered_payload_bytes
      → let request =
          request_so_far (call_header id (request_for method args)) (collected cs) true in
        handled run encode lossy
          (get request.rpc_method_id endpoint.prebuffered_handlers)
          (args_for_handler request)
          context
        ≡ result_of method args
  handled-request_for id method args cs e =
      let arrived =
        args_for_handler-request_so_far (call_header id (request_for method args)) cs
        ∙ request_for-Gets method args cs e in
      ap
        (λ m.
          handled run encode lossy (get m endpoint.prebuffered_handlers)
            (args_for_handler
              (request_so_far (call_header id (request_for method args)) (collected cs) true))
            context)
        (request_for-method method args)
      ∙ ap (λ a. handled run encode lossy (get method endpoint.prebuffered_handlers) a context)
          arrived

  only_one :
      (space : IdSpace) (next counter id : ℕ) (request : RpcRequest) (attempts : List Attempt)
      → AllAnswered run encode context endpoint lossy space next counter
          ((id, request) ∷ [])
          attempts
      → (attempt : Attempt) × (attempts ≡ attempt ∷ [])
        × Answers run encode context endpoint lossy (place space next) id request attempt
  only_one space next counter id request [] a = absurd a
  only_one space next counter id request (attempt ∷ []) (a, _) = (attempt, refl, a)
  only_one space next counter id request (attempt ∷ _ ∷ _) (a, none_more) = absurd none_more

  -- An attempt on stream `sid` that answers a call: the frames of one whole stream have been
  -- emitted, which decode to a message with the call's id, and of these events the caller makes
  -- what the method's handler gives for the arguments.
  pub record AnswersCall (sid id method : ℕ) (args : List ℕ) (r : Attempt) : Type 0 where
    pub header : RpcHeader
    pub body : List ℕ
    pub to_request : header.rpc_request_id ≡ id
    pub sends : Sends sid header body r
    pub received :
        consume (recv_all lossy (message_events header sends.chunks) fresh).sent []
        ≡ expected lossy encode (result_of method args)

  module _ {R V : Type 0} (on_response : R → RpcStreamEvent → V → V)
      (on_stream : S → RpcStreamEvent → C → V → List (List ℕ × Bool) × V) where
    -- A call's bytes and an endpoint's answer to them; `d'` is the dispatcher with the router that
    -- the read has installed.
    pub call-answered :
        {H U : Type 0} (method : ℕ) (args : List ℕ) (on_result : Option H) (prebuffer : Bool)
        (caller : RpcDispatcher H U) (counter : ℕ)
        (d d' : RpcDispatcher (EndpointHandler R S C) (Shared V)) (u : Shared V) (counter' : ℕ)
        → IsU64 method
        → length args + 17 < 2 ^ 32
        → length (reply_bytes encode (result_of method args)) + 18 < 2 ^ 32
        → install_router endpoint.stream_handlers context d ≡ d'
        → IsIdle (stream_of caller) d'.rpc_respondable_session.rpc_session
        → IsQuiet
            (place caller.id_space caller.next_rpc_request_id)
            method
            d'.rpc_respondable_session.routing
        → d'.rpc_request_queue ≡ []
        → stream_of d' ≡ stream_of d
        → (e : RpcStreamEncoder) × ((Dispatcher.start_call
              (request_for method args)
              default_service_max_chunk_size
              on_result
              prebuffer
              caller
              counter).0
            ≡ some (ok e))
          × (attempt : Attempt) × ((Reading.read_bytes on_response on_stream run encode
                (joined e.encoder.emitted)
                context
                endpoint
                (d, u, counter')).0
              ≡ ok (attempt ∷ []))
          × AnswersCall
              (stream_of d)
              (place caller.id_space caller.next_rpc_request_id)
              method
              args
              attempt
          × Rests d'
              (Reading.read_bytes on_response on_stream run encode
                (joined e.encoder.emitted)
                context
                endpoint
                (d, u, counter')).1.0
    unfolding process_single_prebuffered_request
    call-answered method args on_result prebuffer caller counter d d' u counter' m few short
          installed idle quiet empty same_stream =
        let sent = start_call-Sends method args on_result prebuffer caller counter m few in
        let (s, decoded, stream, at_rest) =
          decode_bytes-message on_response on_stream endpoint (place-apart _ 0 _).1 sent context d
            d' u counter' installed idle (rw (request_for-method method args) quiet) empty in
        let same =
          handled-request_for (place caller.id_space caller.next_rpc_request_id) method args
            sent.chunks sent.joins in
        let request =
          request_so_far (header_of caller (request_for method args)) (collected sent.chunks)
            true in
        let size : length (
              or_default []
                (reply run encode context endpoint
                  (place caller.id_space caller.next_rpc_request_id)
                  request).rpc_prebuffered_payload_bytes)
            ≡ length (reply_bytes encode (result_of method args)) =
          ap length (
            process_with-reply_bytes (get request.rpc_method_id endpoint.prebuffered_handlers) _
              request
            ∙ ap (reply_bytes encode) same) in
        let (attempts, reads, all, after) =
          read_bytes-AllAnswered on_response on_stream run encode endpoint lossy
            (joined sent.encoder.encoder.emitted) context (d, u, counter') _ _ decoded
            (
              record {
                id_fits = (place-apart caller.next_rpc_request_id 0 caller.id_space).1;
                method_fits = rw (request_for-method method args) m;
                payload_fits = omega (arith, short, size);
              },
              tt,
            ) in
        let (attempt, one, a) = only_one s.id_space s.next_stream_id counter' _ _ attempts all in
        let answers =
          subst
            (λ i.
              Answers run encode context endpoint lossy i
                (place caller.id_space caller.next_rpc_request_id) request attempt)
            (stream ∙ same_stream) a in
        (
          sent.encoder,
          sent.returns,
          attempt,
          reads ∙ ap ok one,
          record {
            header = answers.header;
            body = answers.body;
            to_request = answers.to_request;
            sends = answers.sends;
            received = answers.received ∙ ap (expected lossy encode) same;
          },
          Keeps-Rests at_rest refl refl (
              read_bytes-Keeps on_response on_stream run encode endpoint
                (joined sent.encoder.encoder.emitted) context (d, u, counter') _ _ decoded),
        )
