-- ===== src/Service/Endpoint/Reading.antt =====
-- extensions/muxio-rpc-service-endpoint/src/endpoint_interface.rs: `decode_bytes` and `read_bytes`.
-- A response handler of the calls that are made on the same dispatcher is a value of a type `R`, and
-- the state that the user's closures share is of a type `V`.
use rust_muxio.Prelude.{
  ℕ, zero, suc, Bool, Option, none, some, List, [], ◌∷◌, ◌++◌, length, is_empty, if◌then◌else◌,
  Result, ok, err,
}
use rust_muxio.Prelude.Map.{Map, get}
use rust_muxio.Frame.Types.{FrameEncodeError}
use rust_muxio.Rpc.Types.{RpcRequest, RpcStreamEvent}
use rust_muxio.Rpc.StreamEncoder.{RpcStreamEncoder}
use rust_muxio.Rpc.Dispatcher
use rust_muxio.Rpc.Dispatcher.{RpcDispatcher, Handler, user, World}
use rust_muxio.Service.Error.{HandlerError, RpcServiceErrorPayload, RpcServiceEndpointError, decode}
use rust_muxio.Service.Responder
use rust_muxio.Service.Responder.{StreamResponder, respond_all, set_writer}
use rust_muxio.Service.Endpoint.{
  RpcServiceEndpoint, default_service_max_chunk_size, collect_finalized, run_handlers,
  send_responses,
}

-- A responder of the store; `none` where a call on it has not returned.
abbrev pub Slot : Type 0
Slot = Option StreamResponder

unfoldable pub slot : List Slot → ℕ → Slot
slot [] n = none
slot (s ∷ ss) zero = s
slot (s ∷ ss) (suc n) = slot ss n

unfoldable pub set_slot : ℕ → Slot → List Slot → List Slot
set_slot n v [] = []
set_slot zero v (s ∷ ss) = v ∷ ss
set_slot (suc n) v (s ∷ ss) = s ∷ set_slot n v ss

-- A closure on a dispatcher of an endpoint: the handler of a call's response, or the one that the
-- router makes of a streaming handler, its responder, which stands for a place in the store, and
-- the context.
pub data EndpointHandler (R S C : Type 0) : Type 0 where
  call_handler : R → EndpointHandler R S C
  stream_handler : S → ℕ → C → EndpointHandler R S C

-- `pending` are the places of the responders that have been made since a read has begun.
pub record Shared (V : Type 0) : Type 0 where
  pub responders : List Slot
  pub pending : List ℕ
  pub user_state : V

-- What a read works on: a dispatcher, the shared state and the global counter.
abbrev pub EndpointState : (R S C V : Type 0) → Type 0
EndpointState R S C V = RpcDispatcher (EndpointHandler R S C) (Shared V) × Shared V × ℕ

module _ {R S C V : Type 0} where
  -- The closure that `set_stream_method_router` is given.
  unfoldable pub route_method :
      Map S
      → C
      → ℕ
      → ℕ
      → World (Shared V)
      → Option (Handler (EndpointHandler R S C)) × World (Shared V)
  route_method handlers context method_id request_id (q, u) = elim (get method_id handlers) [
    | none ↦ (none, (q, u))
    | some h ↦
        let place = length u.responders in
        (
          some (user (stream_handler h place context)),
          (
            q,
            record u {
              responders = u.responders ++ some (Responder.new request_id) ∷ [];
              pending = u.pending ++ place ∷ [];
            },
          ),
        )
  ]

  -- Nothing is installed where there is no streaming handler.
  unfoldable pub install_router :
      Map S
      → C
      → RpcDispatcher (EndpointHandler R S C) (Shared V)
      → RpcDispatcher (EndpointHandler R S C) (Shared V)
  unfolding Dispatcher.set_stream_method_router
  install_router handlers context d =
      if is_empty handlers
      then d
      else Dispatcher.set_stream_method_router (route_method handlers context) d

-- The responder of a place gets its writer. An encoder that cannot be made leaves it as it is.
unfoldable pub give_writer : Slot → Option (Result FrameEncodeError RpcStreamEncoder) → Slot
give_writer none e = none
give_writer (some r) none = none
give_writer (some r) (some (err x)) = some r
give_writer (some r) (some (ok e)) = set_writer e r

unfoldable pub request_of : Slot → ℕ
request_of none = 0
request_of (some r) = r.request_id

-- The responses of a streaming handler to an event.
unfoldable pub respond_on : List (List ℕ × Bool) → Slot → Slot
respond_on responses none = none
respond_on responses (some r) = respond_all responses r

module _ {R S C V : Type 0} where
  -- The loop over `pending_responders`, which is cleared behind it.
  unfoldable pub install_writers :
      List ℕ
      → RpcDispatcher (EndpointHandler R S C) (Shared V)
      → Shared V
      → ℕ
      → EndpointState R S C V
  unfolding Dispatcher.create_response_writer give_writer request_of
  install_writers [] d u counter = (d, record u { pending = [] }, counter)
  install_writers (place ∷ places) d u counter =
      let (e, d', counter') =
        Dispatcher.create_response_writer (request_of (slot u.responders place))
          default_service_max_chunk_size d counter in
      install_writers places d'
        (record u {
          responders = set_slot place (give_writer (slot u.responders place) e) u.responders;
        })
        counter'

  module _ (on_response : R → RpcStreamEvent → V → V)
      (on_stream : S → RpcStreamEvent → C → V → List (List ℕ × Bool) × V) where
    -- A closure is run: a streaming handler's responses go to its responder.
    unfoldable pub invoke : EndpointHandler R S C → RpcStreamEvent → Shared V → Shared V
    unfolding respond_on
    invoke (call_handler h) evt u = record u { user_state = on_response h evt u.user_state }
    invoke (stream_handler h place context) evt u =
        let (responses, v) = on_stream h evt context u.user_state in
        record u {
          responders = set_slot place (respond_on responses (slot u.responders place)) u.responders;
          user_state = v;
        }

    -- On an error the pending responders are dropped and get no writer.
    unfoldable pub decode_bytes :
        {P : Type 0}
        → List ℕ
        → C
        → RpcServiceEndpoint P S
        → EndpointState R S C V
        → Result RpcServiceEndpointError (List (ℕ × RpcRequest)) × EndpointState R S C V
    unfolding install_router install_writers invoke
    decode_bytes bytes context s (d, u, counter) =
        let (r, d1, u1) =
          Dispatcher.read_bytes invoke bytes (install_router s.stream_handlers context d)
            (record u { pending = [] }) in
        elim r [
          | err e ↦ (err (decode e), (d1, record u1 { pending = [] }, counter))
          | ok ids ↦
              let (d2, u2, counter') = install_writers u1.pending d1 u1 counter in
              let (requests, d3) = collect_finalized ids d2 in (ok requests, (d3, u2, counter'))
        ]

    module _ {P : Type 0} (run : P → List ℕ → C → Result HandlerError (List ℕ))
        (encode_payload : RpcServiceErrorPayload → List ℕ) where
      -- The stages behind the decoding, which an error skips.
      unfoldable pub answer_requests :
          C
          → RpcServiceEndpoint P S
          → Result RpcServiceEndpointError (List (ℕ × RpcRequest))
          → EndpointState R S C V
          → Result RpcServiceEndpointError
              (List (Option (Result FrameEncodeError RpcStreamEncoder)))
            × EndpointState R S C V
      unfolding run_handlers send_responses
      answer_requests context s (err e) state = (err e, state)
      answer_requests context s (ok requests) (d, u, counter) =
          let (results, d', counter') =
            send_responses (run_handlers run encode_payload context requests s) d counter in
          (ok results, (d', u, counter'))

      -- The results of the responses stand for what was emitted.
      unfoldable pub read_bytes :
          List ℕ
          → C
          → RpcServiceEndpoint P S
          → EndpointState R S C V
          → Result RpcServiceEndpointError
              (List (Option (Result FrameEncodeError RpcStreamEncoder)))
            × EndpointState R S C V
      unfolding decode_bytes answer_requests
      read_bytes bytes context s state =
          let (r, state') = decode_bytes bytes context s state in answer_requests context s r state'
