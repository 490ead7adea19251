-- ===== src/Service/Prebuffered/Returns.antt =====
-- A typed call over a connection: what the caller gets of what the program's handler works out.
use rust_muxio.Prelude.{
  ℕ, ◌≡◌, refl, ap, ◌∙◌, Bool, true, false, Option, none, some, List, [], ◌∷◌, Result, ok, err,
}
use rust_muxio.Prelude.Map.{get}
use rust_muxio.Frame.Types.{FrameEncodeError}
use rust_muxio.Rpc.Types.{RpcStreamEvent}
use rust_muxio.Rpc.StreamEncoder.{RpcStreamEncoder}
use rust_muxio.Rpc.Dispatcher.{RpcDispatcher}
use rust_muxio.Rpc.Dispatcher.Receiving.{calls}
use rust_muxio.Service.Error.{HandlerError, RpcServiceErrorPayload}
use rust_muxio.Service.Caller.{
  RpcServiceError, Delivery, RecvState, recv_fn, recv_all, consume, fresh,
}
use rust_muxio.Service.Caller.Calling.{CallError, call_failed, call_rpc_streaming, register_call}
use rust_muxio.Service.Endpoint.{RpcServiceEndpoint}
use rust_muxio.Service.Call.{expected, handled}
use rust_muxio.Service.Call.Answered.{result_of}
use rust_muxio.Service.Call.Returns.{called}
use rust_muxio.Service.Call.Sequence.{
  Call, Connection, Fits, AreAtRest, Fits-Returns, exchange, exchange_lem,
}
use rust_muxio.Service.Prebuffered.{
  RpcMethodPrebuffered, CallFailure, failed, cannot_call, unpack, call_rpc_buffered, behind_loop,
  begin_call, end_call, typed_handler,
}

-- A call's handler is the response handler of `call_rpc_streaming`, on the state that it captures.
abbrev pub receive : (List ℕ → List ℕ) → Unit {0} → RpcStreamEvent → RecvState → RecvState
receive lossy h event s = recv_fn lossy event s

calls-receive :
    (lossy : List ℕ → List ℕ) (events : List RpcStreamEvent) (s : RecvState)
    → calls (receive lossy) tt events s ≡ recv_all lossy events s
unfolding recv_all
calls-receive lossy [] s = refl
calls-receive lossy (e ∷ es) s = calls-receive lossy es (recv_fn lossy e s)

module _ {I O E : Type 0} (m : RpcMethodPrebuffered I O E) where
  -- What is decoded is what was encoded.
  pub record IsCodec : Type 0 where
    pub request_round :
        (input : I) (args : List ℕ)
        → m.encode_request input ≡ ok args
        → m.decode_request args ≡ ok input
    pub response_round :
        (output : O) (b : List ℕ)
        → m.encode_response output ≡ ok b
        → m.decode_response b ≡ ok output

  -- What a call makes of what its stream has given in all.
  abbrev unpacked : Delivery → Result (CallFailure E) O
  unpacked (ok success_buf) = unpack (ok (m.decode_response success_buf))
  unpacked (err e) = err (failed e)

  abbrev behind_stream : Option Delivery → Option (Result RpcServiceError (Result E O))
  behind_stream d = elim d [
    | none ↦ none
    | some (err e) ↦ some (err e)
    | some (ok success_buf) ↦ some (ok (m.decode_response success_buf))
  ]

  abbrev behind_await :
      Option (Result RpcServiceError (Result E O)) → Option (Result (CallFailure E) O)
  behind_await r = elim r [ none ↦ none | some nested ↦ some (unpack nested) ]

  end_call_lem :
      (s : RecvState) (d : Delivery)
      → s.tx ≡ false
      → consume s.sent [] ≡ d
      → end_call m s ≡ some (unpacked d)
  unfolding end_call call_rpc_buffered behind_loop unpack
  end_call_lem s (ok b) closed e =
      ap (λ t. behind_await (behind_stream (behind_loop t (consume s.sent [])))) closed
      ∙ ap (λ d. behind_await (behind_stream (behind_loop false d))) e
  end_call_lem s (err x) closed e = ap (λ d. behind_await (behind_stream (behind_loop s.tx d))) e

  abbrev registered :
      Option (Result FrameEncodeError RpcStreamEncoder) → Option (Result CallError RpcStreamEncoder)
  registered r = elim r [
    | none ↦ none
    | some (ok e) ↦ some (ok e)
    | some (err x) ↦ some (err (call_failed x))
  ]

  abbrev begun :
      Option (Result CallError RpcStreamEncoder) → Option (Result (CallFailure E) RpcStreamEncoder)
  begun r = elim r [
    | none ↦ none
    | some (ok e) ↦ some (ok e)
    | some (err x) ↦ some (err (cannot_call x))
  ]

  begin_call_lem :
      {H U : Type 0} (input : I) (args : List ℕ) (on_result : H) (d : RpcDispatcher H U)
      (counter : ℕ) (e : RpcStreamEncoder)
      → m.encode_request input ≡ ok args
      → (called m.method_id args on_result d counter).0 ≡ some (ok e)
      → begin_call m true input on_result d counter ≡ (
        some (ok e),
        (called m.method_id args on_result d counter).1,
        (called m.method_id args on_result d counter).2,
      )
  unfolding begin_call call_rpc_streaming register_call
  begin_call_lem input args on_result d counter e encodes sends =
      rw (begin_call, encodes)
        (ap
          (λ r. (
            begun (registered r),
            (called m.method_id args on_result d counter).1,
            (called m.method_id args on_result d counter).2,
          ))
          sends)

  module _ {C : Type 0} (to_error : E → HandlerError) (work : I → C → Result HandlerError O)
      (encode : RpcServiceErrorPayload → List ℕ) (lossy : List ℕ → List ℕ) where
    -- The outcome of a call whose handler has worked out a result: an output that can be encoded
    -- comes back as it is, and an error as what the caller makes of its response.
    abbrev pub outcome : Result HandlerError O → Result (CallFailure E) O
    outcome (ok output) = elim (m.encode_response output) [
      | ok b ↦ ok output
      | err e ↦ unpacked (expected lossy encode (some (err (to_error e))))
    ]
    outcome (err e) = unpacked (expected lossy encode (some (err e)))

    abbrev behind_work : Result HandlerError O → Result HandlerError (List ℕ)
    behind_work (err e) = err e
    behind_work (ok output) = elim (m.encode_response output) [
      | err e ↦ err (to_error e)
      | ok response_bytes ↦ ok response_bytes
    ]

    typed_handler_lem :
        (input : I) (args : List ℕ) (context : C)
        → m.decode_request args ≡ ok input
        → typed_handler m to_error work args context ≡ behind_work (work input context)
    unfolding typed_handler
    typed_handler_lem input args context e = rw (typed_handler, e) (go (work input context))
      where
        go :
            (r : Result HandlerError O)
            → elim r [
              | err e ↦ err e
              | ok output ↦ elim (m.encode_response output) [
                | err e ↦ err (to_error e)
                | ok response_bytes ↦ ok response_bytes
              ]
            ]
              ≡ behind_work r
        go (ok output) = refl
        go (err e) = refl

    behind_work-outcome :
        (r : Result HandlerError O)
        → IsCodec
        → unpacked (expected lossy encode (some (behind_work r))) ≡ outcome r
    unfolding expected unpack
    behind_work-outcome (err e) codec = refl
    behind_work-outcome (ok output) codec = go (m.encode_response output) refl
      where
        go :
            (r : Result E (List ℕ))
            → m.encode_response output ≡ r
            → unpacked (expected lossy encode (some (behind_work (ok output))))
              ≡ outcome (ok output)
        go (ok b) e =
            rw (behind_work, outcome, e) (ap (λ r. unpack (ok r)) (codec.response_round output b e))
        go (err x) e = rw (behind_work, outcome, e) refl

abbrev pub typed_call : {I O E : Type 0} → RpcMethodPrebuffered I O E → List ℕ → Call (Unit {0})
typed_call m args = record { method = m.method_id; args = args; on_result = tt }

module _ {S C P I O E : Type 0} (run : P → List ℕ → C → Result HandlerError (List ℕ))
    (encode : RpcServiceErrorPayload → List ℕ) (lossy : List ℕ → List ℕ)
    (endpoint : RpcServiceEndpoint P S) (context : C) (m : RpcMethodPrebuffered I O E)
    (to_error : E → HandlerError) (work : I → C → Result HandlerError O) where
  -- The endpoint has a handler of the method that does the work.
  pub record Serves : Type 0 where
    pub handler : P
    pub is_registered : get m.method_id endpoint.prebuffered_handlers ≡ some handler
    pub is_typed :
        (request_bytes : List ℕ)
        → run handler request_bytes context ≡ typed_handler m to_error work request_bytes context

  served :
      (input : I) (args : List ℕ)
      → IsCodec m
      → Serves
      → m.encode_request input ≡ ok args
      → result_of run encode lossy endpoint context m.method_id args
        ≡ some (behind_work m to_error work encode lossy (work input context))
  served input args codec serves e =
      ap (λ h. handled run encode lossy h args context) serves.is_registered
      ∙ ap some (
          serves.is_typed args
          ∙ typed_handler_lem m to_error work encode lossy input args context
              (codec.request_round input args e))

module _ {R S C V P I O E : Type 0} (on_response : R → RpcStreamEvent → V → V)
    (on_stream : S → RpcStreamEvent → C → V → List (List ℕ × Bool) × V)
    (run : P → List ℕ → C → Result HandlerError (List ℕ)) (encode : RpcServiceErrorPayload → List ℕ)
    (lossy : List ℕ → List ℕ) (endpoint : RpcServiceEndpoint P S) (context : C)
    (m : RpcMethodPrebuffered I O E) (to_error : E → HandlerError)
    (work : I → C → Result HandlerError O) where
  -- A typed call on a connection on which nothing is under way and whose calling side, which reads
  -- by its dispatcher, has no router, of a method whose decoders undo its encoders and which the
  -- endpoint serves by a typed handler and by no streaming handler, with a request that can be
  -- encoded and sizes that fit: it is begun, and when the endpoint has read it and the caller the
  -- response, call returns the outcome of the handler's work on the input: an output that can be
  -- encoded comes back as it is, and an error, of the work or of encoding its output, as what a
  -- caller makes of that error's response.
  pub typed_call-outcome :
      (conn : Connection R S C V (Unit {0}) RecvState) (input : I) (args : List ℕ)
      → IsCodec m
      → Serves run encode lossy endpoint context m to_error work
      → m.encode_request input ≡ ok args
      → Fits run encode lossy endpoint context (typed_call m args)
      → AreAtRest on_response on_stream run encode lossy (receive lossy) endpoint context conn
      → conn.heard ≡ fresh
      → let sent = called m.method_id args tt conn.caller conn.counter in
        (e : RpcStreamEncoder) × (begin_call m true input tt conn.caller conn.counter
          ≡ (some (ok e), sent.1, sent.2))
        × (end_call m
              (exchange on_response on_stream run encode lossy
                (receive lossy)
                endpoint
                context
                (typed_call m args)
                conn).heard
            ≡ some (outcome m to_error work encode lossy (work input context)))
  typed_call-outcome conn input args codec serves e fits rests new =
      let r =
        Fits-Returns on_response on_stream run encode lossy (receive lossy) endpoint context
          (typed_call m args) conn fits rests in
      let heard =
        ap (λ (next : Connection R S C V (Unit {0}) RecvState). next.heard)
          (exchange_lem on_response on_stream run encode lossy (receive lossy) endpoint context
            (typed_call m args) conn r)
        ∙ calls-receive lossy r.events conn.heard
        ∙ ap (recv_all lossy r.events) new in
      (
        r.call,
        begin_call_lem m input args tt conn.caller conn.counter r.call e r.is_sent,
        ap (end_call m) heard
            ∙ end_call_lem m (recv_all lossy r.events fresh) _ r.is_closed (
                r.is_expected
                ∙ ap (expected lossy encode) (
                    served run encode lossy endpoint context m to_error work input args codec serves
                      e))
            ∙ ap some (behind_work-outcome m to_error work encode lossy (work input context) codec),
      )
