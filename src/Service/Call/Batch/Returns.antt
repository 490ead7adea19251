-- ===== src/Service/Call/Batch/Returns.antt =====
-- Calls that are made at once all return.
use rust_muxio.Prelude.{ℕ, ◌≡◌, refl, sym, ap, ◌∙◌, subst, Bool, none, List, [], ◌∷◌, Result, All}
use rust_muxio.Rpc.Types.{RpcStreamEvent}
use rust_muxio.Rpc.IdSpace.{place}
use rust_muxio.Rpc.Dispatcher
use rust_muxio.Rpc.Dispatcher.{RpcDispatcher}
use rust_muxio.Rpc.Dispatcher.Receiving.{IsUnknown, IsQuiet}
use rust_muxio.Rpc.Dispatcher.Several.{all_bytes}
use rust_muxio.Rpc.Dispatcher.Several.Requests.{IsExpectedByNone}
use rust_muxio.Rpc.Dispatcher.Several.Responses.{all_calls, dispatcher_hands_over_messages}
use rust_muxio.Service.Error.{HandlerError, RpcServiceErrorPayload}
use rust_muxio.Service.Endpoint.{RpcServiceEndpoint}
use rust_muxio.Service.Endpoint.Reading
use rust_muxio.Service.Endpoint.Reading.{EndpointHandler, Shared, install_router, invoke}
use rust_muxio.Service.Endpoint.Answering.{read_bytes-AllAnswered}
use rust_muxio.Service.Call.Arrival.{request_for-method}
use rust_muxio.Service.Call.Ready.{
  install_router-IsQuiet, install_router-IsAtRest, install_router_queue,
}
use rust_muxio.Service.Call.Sequence.{Call, Connection, AreAtRest, replies}
use rust_muxio.Service.Call.Batch.{called_all, ids_of, AreDistinct, exchange_all}
use rust_muxio.Service.Call.Batch.Decoded.{decode_bytes-messages}
use rust_muxio.Service.Call.Batch.Answered.{
  AreFit, messages_of, emitted-messages_of, ids-messages_of, requests-AllFit, answered-AnswerCalls,
}
use rust_muxio.Service.Call.Batch.Heard.{
  IsAtRest-called_all, Await-AllAwaited, ids-AnswerCalls, called_all-Await, AllHeard,
  AnswerCalls-AllHeard,
}

module _ {R S C V P H U : Type 0} (on_response : R → RpcStreamEvent → V → V)
    (on_stream : S → RpcStreamEvent → C → V → List (List ℕ × Bool) × V)
    (run : P → List ℕ → C → Result HandlerError (List ℕ)) (encode : RpcServiceErrorPayload → List ℕ)
    (lossy : List ℕ → List ℕ) (invoke_caller : H → RpcStreamEvent → U → U)
    (endpoint : RpcServiceEndpoint P S) (context : C) where
  -- The endpoint expects nothing under the ids of calls, and routes none of them to a stream.
  calls_are_quiet :
      (cs : List (Call H)) (fits : AreFit run encode lossy endpoint context cs)
      (d : RpcDispatcher H U) (counter : ℕ) (e : RpcDispatcher (EndpointHandler R S C) (Shared V))
      → ((id : ℕ) → IsUnknown id e.rpc_respondable_session.routing)
      → (endpoint.stream_handlers ≡ []
          → e.rpc_respondable_session.routing.stream_method_router ≡ none)
      → All
          (IsExpectedByNone
            (invoke on_response on_stream)
            (install_router endpoint.stream_handlers context e).rpc_respondable_session.routing)
          (messages_of run encode lossy endpoint context cs fits d counter)
  calls_are_quiet [] fits d counter e unknown routes_nothing = tt
  calls_are_quiet (c ∷ cs) fits d counter e unknown routes_nothing = (
    subst
        (λ method.
          IsQuiet (place d.id_space d.next_rpc_request_id) method
            (install_router endpoint.stream_handlers context e).rpc_respondable_session.routing)
        (sym (request_for-method c.method c.args))
        (install_router-IsQuiet context endpoint.stream_handlers e
          (place d.id_space d.next_rpc_request_id) c.method fits.0.no_stream (unknown _)
          routes_nothing),
    calls_are_quiet cs fits.1 _ _ e unknown routes_nothing,
  )

  -- On a connection on which nothing is under way, and whose calling side reads by its dispatcher
  -- and has no router, any number of prebuffered calls that are all made before any is answered,
  -- where they get distinct ids, each method id fits 64 bits, its arguments and response fit a
  -- stream, and the method has no streaming handler at the endpoint: when the endpoint has read
  -- what they have emitted and the caller what the endpoint has emitted, each in one read, the
  -- calls' handlers have been called, one after the other in the order of the calls, each with
  -- events of which a buffered call makes the handler's bytes, where it succeeds, and where it
  -- fails the error that the caller reads from the status and the payload of the response (no
  -- message for a handler's failure, and for a system error its payload read as text, which of a
  -- structured error is the encoded form), or an error that the method was not found.
  pub exchange_all-AllHeard :
      (cs : List (Call H)) (conn : Connection R S C V H U)
      → AreFit run encode lossy endpoint context cs
      → AreDistinct (ids_of cs conn.caller conn.counter)
      → AreAtRest on_response on_stream run encode lossy invoke_caller endpoint context conn
      → AllHeard run encode lossy endpoint context invoke_caller cs conn.heard
          (exchange_all on_response on_stream run encode invoke_caller endpoint context cs
            conn).heard
  unfolding exchange_all
  exchange_all-AllHeard cs conn fits distinct rests =
      let ms = messages_of run encode lossy endpoint context cs fits conn.caller conn.counter in
      let sent = called_all cs conn.caller conn.counter in
      let (s, decoded, space, next, at_rest) =
        decode_bytes-messages on_response on_stream endpoint ms context conn.serving.0 _
          conn.serving.1 conn.serving.2 refl
          (install_router-IsAtRest context endpoint.stream_handlers conn.serving.0
            rests.endpoint_rests)
          (calls_are_quiet cs fits conn.caller conn.counter conn.serving.0 rests.unknown
            rests.routes_nothing)
          (subst AreDistinct
            (sym
              (ids-messages_of run encode lossy endpoint context cs fits conn.caller conn.counter))
            distinct)
          (install_router_queue context endpoint.stream_handlers conn.serving.0 ∙ rests.is_empty) in
      let (attempts, reads, all, after) =
        read_bytes-AllAnswered on_response on_stream run encode endpoint lossy (all_bytes ms)
          context conn.serving _ _ decoded
          (requests-AllFit run encode lossy endpoint context cs fits conn.caller conn.counter) in
      let (ps, emits, answers) =
        answered-AnswerCalls run encode lossy endpoint context cs fits conn.caller conn.counter
          s.id_space s.next_stream_id conn.serving.2 attempts all in
      let (s', hands, caller_rests) =
        dispatcher_hands_over_messages invoke_caller ps sent.1 conn.heard
          (IsAtRest-called_all cs conn.caller conn.counter rests.caller_rests)
          (Await-AllAwaited invoke_caller ps sent.1.rpc_respondable_session.routing
            (subst AreDistinct
              (sym (
                ids-AnswerCalls run encode lossy endpoint context cs conn.caller conn.counter ps
                  answers))
              distinct)
            (called_all-Await run encode lossy endpoint context cs conn.caller conn.counter ps
              rests.no_router distinct answers)) in
      let heard : (exchange_all on_response on_stream run encode invoke_caller endpoint context cs
            conn).heard
          ≡ all_calls invoke_caller ps conn.heard =
        ap
          (λ b.
            (Dispatcher.read_bytes invoke_caller
              (replies
                (Reading.read_bytes on_response on_stream run encode b context endpoint
                  conn.serving).0)
              sent.1 conn.heard).2)
          (emitted-messages_of run encode lossy endpoint context cs fits conn.caller conn.counter)
        ∙ ap (λ r. (Dispatcher.read_bytes invoke_caller (replies r) sent.1 conn.heard).2) reads
        ∙ ap (λ b. (Dispatcher.read_bytes invoke_caller b sent.1 conn.heard).2) emits
        ∙ ap (λ p. p.2) hands in
      subst (AllHeard run encode lossy endpoint context invoke_caller cs conn.heard) (sym heard) (
        AnswerCalls-AllHeard run encode lossy endpoint context invoke_caller cs conn.caller
          conn.counter ps conn.heard answers)
