-- ===== src/Service/Call/Arrival.antt =====
-- The request of a call from the caller's dispatcher to an idle endpoint.
use rust_muxio.Prelude.{
  ℕ, ◌+◌, ◌<◌, ◌^◌, ◌≡◌, refl, ap, ◌∙◌, Bool, true, Option, List, [], ◌∷◌, ◌++◌, map, Result, ok,
  err, if_cases, leb, arith, length, length-append,
}
use rust_muxio.Prelude.Bytes.{IsU32, IsU64}
use rust_muxio.Frame.Types.{FrameDecodeError}
use rust_muxio.Frame.Delivery.{joined}
use rust_muxio.Rpc.Types.{RpcHeader, RpcRequest, RpcStreamEvent}
use rust_muxio.Rpc.IdSpace.{place}
use rust_muxio.Rpc.IdSpace.Apart.{place-apart}
use rust_muxio.Rpc.StreamEncoder.{header_bytes}
use rust_muxio.Rpc.Session
use rust_muxio.Rpc.Session.{RpcSession}
use rust_muxio.Rpc.Respondable
use rust_muxio.Rpc.Respondable.{or_default}
use rust_muxio.Rpc.Dispatcher
use rust_muxio.Rpc.Dispatcher.{RpcDispatcher, contains_request}
use rust_muxio.Rpc.Dispatcher.Sending.{Sends}
use rust_muxio.Rpc.Dispatcher.Requests.{collected, request_so_far}
use rust_muxio.Rpc.Dispatcher.Receiving.{IsQuiet}
use rust_muxio.Service.Error.{RpcServiceEndpointError, decode}
use rust_muxio.Service.Caller.{request_for}
use rust_muxio.Service.Caller.Answer.{request_for-fits}
use rust_muxio.Service.Call.{call_header}
use rust_muxio.Service.Endpoint.{
  RpcServiceEndpoint, default_service_max_chunk_size, collect_finalized,
}
use rust_muxio.Service.Endpoint.Collect.{collect_finalized-finalized}
use rust_muxio.Service.Endpoint.Reading.{
  EndpointHandler, EndpointState, Shared, decode_bytes, install_router, install_writers, invoke,
}
use rust_muxio.Service.Endpoint.Answering.{Attempt, response-Sends}
use rust_muxio.Rpc.Dispatcher.Whole.{IsIdle, IsAtRest, dispatcher_reads, received}

pub request_for-method :
    (method : ℕ) (args : List ℕ) → (request_for method args).rpc_method_id ≡ method
unfolding request_for
request_for-method method args =
    if_cases (λ (r : RpcRequest). r.rpc_method_id ≡ method)
      (leb default_service_max_chunk_size (length args)) _ _ (λ large. refl) (λ small. refl)

request_for-last : (method : ℕ) (args : List ℕ) → (request_for method args).is_finalized ≡ true
unfolding request_for
request_for-last method args =
    if_cases (λ (r : RpcRequest). r.is_finalized ≡ true)
      (leb default_service_max_chunk_size (length args)) _ _ (λ large. refl) (λ small. refl)

length-header_bytes : (h : RpcHeader) → length (header_bytes h) ≡ 15 + length h.rpc_metadata_bytes
unfolding header_bytes
length-header_bytes h = omega arith

-- The header that a call of a dispatcher gets.
abbrev pub header_of : {H U : Type 0} → RpcDispatcher H U → RpcRequest → RpcHeader
header_of d request = call_header (place d.id_space d.next_rpc_request_id) request

abbrev pub stream_of : {H U : Type 0} → RpcDispatcher H U → ℕ
stream_of d =
    place d.rpc_respondable_session.rpc_session.id_space
      d.rpc_respondable_session.rpc_session.next_stream_id

-- A call sends its request whole.
pub start_call-Sends :
    {H U : Type 0} (method : ℕ) (args : List ℕ) (on_response : Option H) (prebuffer : Bool)
    (d : RpcDispatcher H U) (counter : ℕ)
    → IsU64 method
    → length args + 17 < 2 ^ 32
    → Sends
        (stream_of d)
        (header_of d (request_for method args))
        (or_default [] (request_for method args).rpc_prebuffered_payload_bytes)
        (Dispatcher.start_call
          (request_for method args)
          default_service_max_chunk_size
          on_response
          prebuffer
          d
          counter).0
unfolding Dispatcher.start_call Respondable.init_respondable_request Session.init_request
start_call-Sends method args on_response prebuffer d counter m few =
    let (fits, all) = request_for-fits method args in
    let payload = or_default [] (request_for method args).rpc_prebuffered_payload_bytes in
    let params = or_default [] (request_for method args).rpc_param_bytes in
    let total : length (payload ++ params) ≡ length args = ap length all in
    response-Sends (stream_of d) (header_of d (request_for method args))
      (request_for method args).rpc_prebuffered_payload_bytes (request_for method args).is_finalized
      (request_for-last method args)
      (record {
        request_id_fits = (place-apart d.next_rpc_request_id 0 d.id_space).1;
        method_id_fits = rw (request_for-method method args) m;
        metadata_fits = fits;
      })
      (omega (
        arith,
        total,
        length-append payload params,
        length-header_bytes (header_of d (request_for method args)),
      ))

module _ {R S C V P : Type 0} (on_response : R → RpcStreamEvent → V → V)
    (on_stream : S → RpcStreamEvent → C → V → List (List ℕ × Bool) × V)
    (endpoint : RpcServiceEndpoint P S) where
  -- What follows the dispatcher's read.
  abbrev pub behind_read :
      ℕ
      → Result FrameDecodeError (List ℕ)
        × RpcDispatcher (EndpointHandler R S C) (Shared V)
        × Shared V
      → Result RpcServiceEndpointError (List (ℕ × RpcRequest)) × EndpointState R S C V
  behind_read counter p = elim p.0 [
    | err e ↦ (err (decode e), (p.1, record p.2 { pending = [] }, counter))
    | ok ids ↦
        let (d2, u2, counter') = install_writers p.2.pending p.1 p.2 counter in
        let (requests, d3) = collect_finalized ids d2 in (ok requests, (d3, u2, counter'))
  ]

  -- A message that arrives whole at an idle endpoint is its one completed request; `d'` is the
  -- dispatcher with the router that the read has installed.
  pub decode_bytes-message :
      {sid : ℕ} {h : RpcHeader} {body : List ℕ} {r : Attempt} (fits : IsU32 sid)
      (sent : Sends sid h body r) (context : C)
      (d d' : RpcDispatcher (EndpointHandler R S C) (Shared V)) (u : Shared V) (counter : ℕ)
      → install_router endpoint.stream_handlers context d ≡ d'
      → IsIdle sid d'.rpc_respondable_session.rpc_session
      → IsQuiet h.rpc_request_id h.rpc_method_id d'.rpc_respondable_session.routing
      → d'.rpc_request_queue ≡ []
      → (s : RpcSession) × (decode_bytes on_response on_stream
            (joined sent.encoder.encoder.emitted)
            context
            endpoint
            (d, u, counter)
          ≡ (
            ok ((h.rpc_request_id, request_so_far h (collected sent.chunks) true) ∷ []),
            (
              record (received fits sent (invoke on_response on_stream) d' s) {
                rpc_request_queue = [];
              },
              record u { pending = [] },
              counter,
            ),
          ))
        × (place s.id_space s.next_stream_id ≡ stream_of d')
        × (IsAtRest d'.rpc_respondable_session.rpc_session → IsAtRest s)
  unfolding decode_bytes install_writers contains_request
  decode_bytes-message {h = h} fits sent context d d' u counter installed idle quiet empty =
      let (s, e, space, next, rests) =
        dispatcher_reads fits sent (invoke on_response on_stream) d' (record u { pending = [] })
          idle quiet (ap (contains_request h.rpc_request_id) empty) in
      let request : ℕ × RpcRequest =
        (h.rpc_request_id, request_so_far h (collected sent.chunks) true) in
      (
        s,
        ap
              (λ t. behind_read counter (
                Dispatcher.read_bytes (invoke on_response on_stream)
                  (joined sent.encoder.encoder.emitted) t (record u { pending = [] })))
              installed
            ∙ ap (behind_read counter) e
            ∙ ap
                (λ q. behind_read counter (
                  ok (map (λ p. p.0) (q ++ request ∷ [])),
                  record (received fits sent (invoke on_response on_stream) d' s) {
                    rpc_request_queue = q ++ request ∷ [];
                  },
                  record u { pending = [] },
                ))
                empty
            ∙ ap (λ (requests, d3). (ok requests, (d3, record u { pending = [] }, counter)))
                (collect_finalized-finalized
                  (record (received fits sent (invoke on_response on_stream) d' s) {
                    rpc_request_queue = request ∷ [];
                  })
                  (refl, tt)),
        rw (space, next) refl,
        rests,
      )
