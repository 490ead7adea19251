-- ===== src/Service/Call/Returns.antt =====
-- A prebuffered call over a connection: the bytes of the call, the endpoint's read of them, and what
-- the caller makes of the bytes of the response.
use rust_muxio.Prelude.{
  ℕ, ◌+◌, ◌<◌, ◌^◌, ◌≡◌, refl, sym, ap, ◌∙◌, subst, Bool, false, Option, none, some, List, [], ◌∷◌,
  map, Result, ok, ==_refl, length,
}
use rust_muxio.Prelude.Bytes.{IsU32, IsU64}
use rust_muxio.Prelude.Map.{Map, get, remove, get-remove}
use rust_muxio.Frame.Delivery.{joined}
use rust_muxio.Frame.Types.{FrameEncodeError}
use rust_muxio.Rpc.Types.{RpcRequest, RpcStreamEvent}
use rust_muxio.Rpc.IdSpace.{place}
use rust_muxio.Rpc.IdSpace.Apart.{place-apart}
use rust_muxio.Rpc.StreamEncoder.{RpcStreamEncoder}
use rust_muxio.Rpc.Session
use rust_muxio.Rpc.Session.Frames.{get-insert_same}
use rust_muxio.Rpc.Respondable
use rust_muxio.Rpc.Respondable.{or_default}
use rust_muxio.Rpc.Dispatcher
use rust_muxio.Rpc.Dispatcher.{RpcDispatcher, user}
use rust_muxio.Rpc.Dispatcher.Sending.{message_events}
use rust_muxio.Rpc.Dispatcher.Receiving.{IsAwaited, calls}
use rust_muxio.Service.Error.{HandlerError, RpcServiceErrorPayload}
use rust_muxio.Service.Caller.Answer.{recv_all-closes}
use rust_muxio.Service.Caller.{request_for, recv_all, consume, fresh}
use rust_muxio.Service.Call.{expected}
use rust_muxio.Service.Endpoint.{
  RpcServiceEndpoint, default_service_max_chunk_size, process_single_prebuffered_request,
}
use rust_muxio.Service.Endpoint.Reading
use rust_muxio.Service.Endpoint.Reading.{EndpointHandler, EndpointState, Shared, install_router}
use rust_muxio.Rpc.Dispatcher.Whole.{IsIdle, IsAtRest, returned, dispatcher_hands_over}
use rust_muxio.Service.Call.Arrival.{stream_of}
use rust_muxio.Service.Call.Ready.{AreReady, install_router-Installed}
use rust_muxio.Service.Call.Answered.{Rests, reply_bytes, result_of, call-answered}

pub start_call-IsAwaited :
    {H U : Type 0} (request : RpcRequest) (max : ℕ) (on_result : H) (caller : RpcDispatcher H U)
    (counter : ℕ)
    → caller.rpc_respondable_session.routing.stream_method_router ≡ none
    → IsAwaited
        (place caller.id_space caller.next_rpc_request_id)
        on_result
        (Dispatcher.start_call request max
          (some on_result)
          false
          caller
          counter).1.rpc_respondable_session.routing
unfolding Dispatcher.start_call Respondable.init_respondable_request Respondable.register_response
start_call-IsAwaited request max on_result caller counter no_router =
    let id = place caller.id_space caller.next_rpc_request_id in
    record {
      has_handler =
          get-insert_same id (user on_result)
            caller.rpc_respondable_session.routing.response_handlers;
      not_prebuffered =
          ap (or_default false)
            (get-insert_same id false caller.rpc_respondable_session.routing.prebuffering_flags);
      no_router = no_router;
    }

pub start_call-IsIdle :
    {H U : Type 0} (sid : ℕ) (request : RpcRequest) (max : ℕ) (on_result : H)
    (caller : RpcDispatcher H U) (counter : ℕ)
    → IsIdle sid caller.rpc_respondable_session.rpc_session
    → IsIdle sid
        (Dispatcher.start_call request max
          (some on_result)
          false
          caller
          counter).1.rpc_respondable_session.rpc_session
unfolding Dispatcher.start_call Respondable.init_respondable_request Session.init_request
start_call-IsIdle sid request max on_result caller counter idle = record {
  no_bytes = idle.no_bytes;
  no_stream = idle.no_stream;
  no_decoder = idle.no_decoder;
}

same_queue :
    {H U : Type 0} (request : RpcRequest) (max : ℕ) (on_result : H) (caller : RpcDispatcher H U)
    (counter : ℕ)
    → (Dispatcher.start_call request max (some on_result) false caller counter).1.rpc_request_queue
      ≡ caller.rpc_request_queue
unfolding Dispatcher.start_call
same_queue request max on_result caller counter = refl

get-remove_same : {A : Type 0} (id i : ℕ) (m : Map A) → i ≡ id → get id (remove i m) ≡ none
get-remove_same id i m e = get-remove i id m ∙ rw (e, ==_refl id) refl

-- The call of a method on a dispatcher, as a client makes it.
abbrev pub called :
    {H U : Type 0}
    → ℕ
    → List ℕ
    → H
    → RpcDispatcher H U
    → ℕ
    → Option (Result FrameEncodeError RpcStreamEncoder) × RpcDispatcher H U × ℕ
called method args on_result caller counter =
    Dispatcher.start_call (request_for method args) default_service_max_chunk_size (some on_result)
      false caller counter

module _ {R S C V P H U : Type 0} (on_response : R → RpcStreamEvent → V → V)
    (on_stream : S → RpcStreamEvent → C → V → List (List ℕ × Bool) × V)
    (run : P → List ℕ → C → Result HandlerError (List ℕ)) (encode : RpcServiceErrorPayload → List ℕ)
    (lossy : List ℕ → List ℕ) (invoke_caller : H → RpcStreamEvent → U → U) where
  -- A call has been sent, and the endpoint's read of the bytes that were emitted for it has sent one
  -- response. The read of the bytes of that calls the handler that the call was given with events of
  -- which a buffered call makes what the method's handler gives for the arguments, or "method not
  -- found" where it has no handler, and which close its channel. The caller keeps no
  -- handler of the request, and both sides are at rest if they were before.
  pub record CallReturns (method : ℕ) (args : List ℕ) (on_result : H) (caller : RpcDispatcher H U)
      (u : U) (counter : ℕ) (endpoint : RpcServiceEndpoint P S) (context : C)
      (state : EndpointState R S C V) : Type 0 where
    pub call : RpcStreamEncoder
    pub is_sent : (called method args on_result caller counter).0 ≡ some (ok call)
    pub reply : RpcStreamEncoder
    pub is_answered :
        (Reading.read_bytes on_response on_stream run encode
          (joined call.encoder.emitted)
          context
          endpoint
          state).0
        ≡ ok (some (ok reply) ∷ [])
    pub events : List RpcStreamEvent
    pub after : RpcDispatcher H U
    pub is_read :
        Dispatcher.read_bytes invoke_caller
          (joined reply.encoder.emitted)
          (called method args on_result caller counter).1
          u
        ≡ (
          ok (map (λ p. p.0) caller.rpc_request_queue),
          after,
          calls invoke_caller on_result events u,
        )
    pub is_expected :
        consume (recv_all lossy events fresh).sent []
        ≡ expected lossy encode (result_of run encode lossy endpoint context method args)
    pub is_closed : (recv_all lossy events fresh).tx ≡ false
    pub is_forgotten :
        get
          (place caller.id_space caller.next_rpc_request_id)
          after.rpc_respondable_session.routing.response_handlers
        ≡ none
    pub caller_rests :
        IsAtRest caller.rpc_respondable_session.rpc_session
        → IsAtRest after.rpc_respondable_session.rpc_session
    pub no_router : after.rpc_respondable_session.routing.stream_method_router ≡ none
    pub endpoint_rests :
        Rests
          (install_router endpoint.stream_handlers context state.0)
          (Reading.read_bytes on_response on_stream run encode
            (joined call.encoder.emitted)
            context
            endpoint
            state).1.0

  -- A prebuffered call from end to end, where the method id fits 64 bits, the arguments and the
  -- response fit a stream, the method has no streaming handler at the endpoint, no request waits,
  -- both sides are ready, holding no part of a frame and not knowing the ids of the call, and the
  -- calling side, which reads by its dispatcher, has no router: the call is sent; the endpoint's
  -- read of the bytes that were emitted for it sends one response; and the read of the bytes of
  -- that calls the handler that the call was given with events of which a buffered call makes the
  -- handler's bytes, where it succeeds, and where it fails the error that the caller reads from the
  -- status and the payload of the response (no message for a handler's failure, and for a system
  -- error its payload read as text, which of a structured error is the encoded form), or an error
  -- that the method was not found. The caller then keeps no handler of the request, and both sides
  -- are at rest if they were before.
  pub call-returns :
      (method : ℕ) (args : List ℕ) (on_result : H) (caller : RpcDispatcher H U) (u : U)
      (counter : ℕ) (endpoint : RpcServiceEndpoint P S) (context : C)
      (d : RpcDispatcher (EndpointHandler R S C) (Shared V)) (shared : Shared V) (counter' : ℕ)
      → IsU64 method
      → length args + 17 < 2 ^ 32
      → length (reply_bytes encode (result_of run encode lossy endpoint context method args)) + 18
        < 2 ^ 32
      → get method endpoint.stream_handlers ≡ none
      → AreReady endpoint.stream_handlers caller d
      → CallReturns method args on_result caller u counter endpoint context (d, shared, counter')
  unfolding process_single_prebuffered_request
  call-returns method args on_result caller u counter endpoint context d shared counter' m few short
        absent ready =
      let installed =
        install_router-Installed endpoint.stream_handlers context method caller d absent ready in
      let (e, returns, attempt, reads, a, rests) =
        call-answered run encode lossy endpoint context on_response on_stream method args
          (some on_result) false caller counter d _ shared counter' m few short refl
          installed.takes_call installed.is_quiet installed.is_empty installed.same_stream in
      let id = place caller.id_space caller.next_rpc_request_id in
      let behind = (called method args on_result caller counter).1 in
      let fits : IsU32 (stream_of d) =
        (place-apart d.rpc_respondable_session.rpc_session.next_stream_id 0 _).1 in
      let (s, hands, caller_rests) =
        dispatcher_hands_over fits a.sends invoke_caller on_result behind u
          (start_call-IsIdle (stream_of d) (request_for method args) default_service_max_chunk_size
            on_result caller counter ready.takes_response)
          (subst (λ i. IsAwaited i on_result behind.rpc_respondable_session.routing)
            (sym a.to_request)
            (start_call-IsAwaited (request_for method args) default_service_max_chunk_size on_result
              caller counter ready.no_router)) in
      record {
        call = e;
        is_sent = returns;
        reply = a.sends.encoder;
        is_answered = reads ∙ ap (λ r. ok (r ∷ [])) a.sends.returns;
        events = message_events a.header a.sends.chunks;
        after = returned fits a.sends invoke_caller behind s;
        is_read =
            hands
            ∙ ap
                (λ q. (
                  ok (map (λ p. p.0) q),
                  returned fits a.sends invoke_caller behind s,
                  calls invoke_caller on_result (message_events a.header a.sends.chunks) u,
                ))
                (same_queue (request_for method args) default_service_max_chunk_size on_result
                  caller counter);
        is_expected = a.received;
        is_closed = recv_all-closes lossy a.header a.sends.chunks fresh;
        is_forgotten =
            get-remove_same id a.header.rpc_request_id
              behind.rpc_respondable_session.routing.response_handlers a.to_request;
        caller_rests = λ rests. caller_rests (λ k.
            start_call-IsIdle k (request_for method args) default_service_max_chunk_size on_result
              caller counter (rests k));
        no_router =
            (start_call-IsAwaited (request_for method args) default_service_max_chunk_size on_result
              caller counter ready.no_router).no_router;
        endpoint_rests = rests;
      }
