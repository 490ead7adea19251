-- ===== src/Service/Call/Client.antt =====
-- A client reads by its own endpoint. One without streaming handlers installs no router, and its read
-- of a response is that of its dispatcher.
use rust_muxio.Prelude.{
  ℕ, ◌+◌, ◌<◌, ◌^◌, ◌≡◌, refl, sym, ap, ◌∙◌, subst, Bool, List, [], ◌∷◌, map, none, Option, Result,
  ok, err, length,
}
use rust_muxio.Prelude.Bytes.{IsU64}
use rust_muxio.Prelude.Map.{get}
use rust_muxio.Frame.Delivery.{joined}
use rust_muxio.Frame.Types.{FrameEncodeError, FrameDecodeError}
use rust_muxio.Rpc.StreamEncoder.{RpcStreamEncoder}
use rust_muxio.Rpc.Types.{RpcRequest, RpcStreamEvent}
use rust_muxio.Rpc.Dispatcher
use rust_muxio.Rpc.Dispatcher.{RpcDispatcher}
use rust_muxio.Rpc.Dispatcher.Receiving.{calls}
use rust_muxio.Service.Error.{HandlerError, RpcServiceErrorPayload, RpcServiceEndpointError, decode}
use rust_muxio.Service.Endpoint.{
  RpcServiceEndpoint, collect_finalized, run_handlers, send_responses,
}
use rust_muxio.Service.Endpoint.Reading
use rust_muxio.Service.Endpoint.Reading.{
  EndpointHandler, EndpointState, Shared, call_handler, invoke, install_router, install_writers,
  decode_bytes, answer_requests,
}
use rust_muxio.Service.Call.Ready.{AreReady}
use rust_muxio.Service.Call.Answered.{reply_bytes, result_of}
use rust_muxio.Service.Call.Returns.{CallReturns, called, call-returns}

module _ {R S C V P : Type 0} (on_response : R → RpcStreamEvent → V → V)
    (on_stream : S → RpcStreamEvent → C → V → List (List ℕ × Bool) × V)
    (run : P → List ℕ → C → Result HandlerError (List ℕ))
    (encode : RpcServiceErrorPayload → List ℕ) where
  calls-pending :
      (h : R) (events : List RpcStreamEvent) (u : Shared V)
      → (calls (invoke on_response on_stream) (call_handler h) events u).pending ≡ u.pending
  unfolding invoke
  calls-pending h [] u = refl
  calls-pending h (e ∷ es) u =
      calls-pending h es (record u { user_state = on_response h e u.user_state })

  -- The stages of a read behind the dispatcher's, where no request is there and no responder.
  nothing_to_answer :
      (bytes : List ℕ) (context : C) (endpoint : RpcServiceEndpoint P S)
      (d d' : RpcDispatcher (EndpointHandler R S C) (Shared V)) (u u' : Shared V) (counter : ℕ)
      → endpoint.stream_handlers ≡ []
      → u.pending ≡ []
      → u'.pending ≡ []
      → Dispatcher.read_bytes (invoke on_response on_stream) bytes d u ≡ (ok [], d', u')
      → Reading.read_bytes on_response on_stream run encode bytes context endpoint (d, u, counter)
        ≡ (ok [], (d', u', counter))
  unfolding Reading.read_bytes decode_bytes install_router install_writers collect_finalized
      answer_requests run_handlers send_responses
  nothing_to_answer bytes context endpoint d d' u u' counter none_here none_before none_behind e =
      ap behind read_here ∙ writers u'.pending none_behind
    where
      installed : install_router endpoint.stream_handlers context d ≡ d
      installed = subst (λ handlers. install_router handlers context d ≡ d) (sym none_here) refl

      read_here :
          Dispatcher.read_bytes
            (invoke on_response on_stream)
            bytes
            (install_router endpoint.stream_handlers context d)
            (record u { pending = [] })
          ≡ (ok [], d', u')
      read_here =
          (λ i.
            Dispatcher.read_bytes (invoke on_response on_stream) bytes (installed i)
              (record u { pending = sym none_before i }))
          ∙ e

      -- What a read does behind the dispatcher's.
      behind :
          Result FrameDecodeError (List ℕ)
            × RpcDispatcher (EndpointHandler R S C) (Shared V)
            × Shared V
          → Result RpcServiceEndpointError
              (List (Option (Result FrameEncodeError RpcStreamEncoder)))
            × EndpointState R S C V
      behind (r, d1, u1) =
          let (r', state') : Result RpcServiceEndpointError (List (ℕ × RpcRequest))
              × EndpointState R S C V =
            elim r [
              | err e ↦ (err (decode e), (d1, record u1 { pending = [] }, counter))
              | ok ids ↦
                  let (d2, u2, counter') = install_writers u1.pending d1 u1 counter in
                  let (requests, d3) = collect_finalized ids d2 in (ok requests, (d3, u2, counter'))
            ] in
          answer_requests on_response on_stream run encode context endpoint r' state'

      writers :
          (places : List ℕ)
          → places ≡ []
          → answer_requests on_response on_stream run encode context endpoint
              (ok [])
              (install_writers places d' u' counter)
            ≡ (ok [], (d', u', counter))
      writers [] h = λ i. (ok [], (d', record u' { pending = sym none_behind i }, counter))
      writers (x ∷ xs) h = absurd (cc)

  -- Where the client reads by its own endpoint, which has no streaming handler, no responder is
  -- pending and no request waits on its dispatcher, a prebuffered call returns as it does where the
  -- client reads by its dispatcher, under the conditions stated for that, and the endpoint's read
  -- of the response leaves what the dispatcher's read leaves, answers nothing and takes no id.
  pub read_bytes-CallReturns :
      {R' S' C' V' P' : Type 0} (on_response' : R' → RpcStreamEvent → V' → V')
      (on_stream' : S' → RpcStreamEvent → C' → V' → List (List ℕ × Bool) × V')
      (run' : P' → List ℕ → C' → Result HandlerError (List ℕ))
      (encode' : RpcServiceErrorPayload → List ℕ) (lossy : List ℕ → List ℕ) (method : ℕ)
      (args : List ℕ) (on_result : R) (client : RpcServiceEndpoint P S) (client_context : C)
      (caller : RpcDispatcher (EndpointHandler R S C) (Shared V)) (u : Shared V) (counter : ℕ)
      (endpoint : RpcServiceEndpoint P' S') (context : C')
      (d : RpcDispatcher (EndpointHandler R' S' C') (Shared V')) (shared : Shared V')
      (counter' later : ℕ)
      → IsU64 method
      → length args + 17 < 2 ^ 32
      → length (reply_bytes encode' (result_of run' encode' lossy endpoint context method args))
          + 18
        < 2 ^ 32
      → get method endpoint.stream_handlers ≡ none
      → AreReady endpoint.stream_handlers caller d
      → client.stream_handlers ≡ []
      → u.pending ≡ []
      → caller.rpc_request_queue ≡ []
      → (r : CallReturns on_response' on_stream' run' encode' lossy
          (invoke on_response on_stream)
          method
          args
          (call_handler on_result)
          caller
          u
          counter
          endpoint
          context
          (d, shared, counter'))
        × (Reading.read_bytes on_response on_stream run encode
              (joined r.reply.encoder.emitted)
              client_context
              client
              ((called method args (call_handler on_result) caller counter).1, u, later)
            ≡ (
              ok [],
              (
                r.after,
                calls (invoke on_response on_stream) (call_handler on_result) r.events u,
                later,
              ),
            ))
  read_bytes-CallReturns on_response' on_stream' run' encode' lossy method args on_result client
        client_context caller u counter endpoint context d shared counter' later m few short absent
        ready no_handlers none_pending no_requests =
      let r =
        call-returns on_response' on_stream' run' encode' lossy (invoke on_response on_stream)
          method args (call_handler on_result) caller u counter endpoint context d shared counter' m
          few short absent ready in
      let heard = calls (invoke on_response on_stream) (call_handler on_result) r.events u in
      (
        r,
        nothing_to_answer (joined r.reply.encoder.emitted) client_context client
            (called method args (call_handler on_result) caller counter).1 r.after u heard later
            no_handlers none_pending (calls-pending on_result r.events u ∙ none_pending)
            (r.is_read ∙ ap (λ q. (ok (map (λ (p : ℕ × _). p.0) q), r.after, heard)) no_requests),
      )
