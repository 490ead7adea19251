-- ===== src/Service/Call/Batch/Decoded.antt =====
-- What the endpoint makes of the bytes of several calls.
use rust_muxio.Prelude.{ℕ, ◌≡◌, refl, sym, ap, ◌∙◌, subst, Bool, List, [], ◌∷◌, ◌++◌, map, ok, All}
use rust_muxio.Rpc.Types.{RpcStreamEvent}
use rust_muxio.Rpc.Session.{RpcSession}
use rust_muxio.Rpc.Dispatcher
use rust_muxio.Rpc.Dispatcher.{RpcDispatcher, Queue}
use rust_muxio.Rpc.Dispatcher.Whole.{IsAtRest}
use rust_muxio.Rpc.Dispatcher.Several
use rust_muxio.Rpc.Dispatcher.Several.{all_bytes}
use rust_muxio.Rpc.Dispatcher.Several.Requests.{
  request_of, AllNew, IsExpectedByNone, dispatcher_reads_messages,
}
use rust_muxio.Service.Endpoint.{RpcServiceEndpoint, collect_finalized}
use rust_muxio.Service.Endpoint.Collect.{ids_of, unfinished, collect_finalized-finalized}
use rust_muxio.Service.Endpoint.Reading.{
  EndpointHandler, Shared, decode_bytes, install_router, install_writers, invoke,
}
use rust_muxio.Service.Call.Arrival.{behind_read}
use rust_muxio.Service.Call.Batch.{
  AreDistinct, id_of, requests-AllNew, requests-IsDistinct, requests-finalized, requests-unfinished,
}

module _ {R S C V P : Type 0} (on_response : R → RpcStreamEvent → V → V)
    (on_stream : S → RpcStreamEvent → C → V → List (List ℕ × Bool) × V)
    (endpoint : RpcServiceEndpoint P S) where
  -- Messages that arrive in one read at an endpoint at rest are its completed requests; `d'` is the
  -- dispatcher with the router that the read has installed.
  pub decode_bytes-messages :
      (ms : List Several.Sent) (context : C)
      (d d' : RpcDispatcher (EndpointHandler R S C) (Shared V)) (u : Shared V) (counter : ℕ)
      → install_router endpoint.stream_handlers context d ≡ d'
      → IsAtRest d'.rpc_respondable_session.rpc_session
      → All (IsExpectedByNone (invoke on_response on_stream) d'.rpc_respondable_session.routing) ms
      → AreDistinct (map id_of ms)
      → d'.rpc_request_queue ≡ []
      → (s : RpcSession) × (decode_bytes on_response on_stream
            (all_bytes ms)
            context
            endpoint
            (d, u, counter)
          ≡ (
            ok (map request_of ms),
            (
              record d' {
                rpc_respondable_session = record {
                  rpc_session = s;
                  routing = d'.rpc_respondable_session.routing;
                };
                rpc_request_queue = [];
              },
              record u { pending = [] },
              counter,
            ),
          ))
        × (s.id_space ≡ d'.rpc_respondable_session.rpc_session.id_space)
        × (s.next_stream_id ≡ d'.rpc_respondable_session.rpc_session.next_stream_id)
        × IsAtRest s
  unfolding decode_bytes install_writers
  decode_bytes-messages ms context d d' u counter installed rests quiet distinct empty =
      let (s, e, space, next, at_rest) =
        dispatcher_reads_messages (invoke on_response on_stream) ms d' (record u { pending = [] })
          rests quiet (subst (AllNew ms) (sym empty) (requests-AllNew ms distinct)) in
      let back : Queue → RpcDispatcher (EndpointHandler R S C) (Shared V) = λ q. record d' {
        rpc_respondable_session = record {
          rpc_session = s;
          routing = d'.rpc_respondable_session.routing;
        };
        rpc_request_queue = q;
      } in
      (
        s,
        ap
              (λ t. behind_read on_response on_stream endpoint counter (
                Dispatcher.read_bytes (invoke on_response on_stream) (all_bytes ms) t
                  (record u { pending = [] })))
              installed
            ∙ ap (behind_read on_response on_stream endpoint counter) e
            ∙ ap
                (λ q. behind_read on_response on_stream endpoint counter (
                  ok (map (λ p. p.0) (q ++ map request_of ms)),
                  back (q ++ map request_of ms),
                  record u { pending = [] },
                ))
                empty
            ∙ ap (λ (requests, d3). (ok requests, (d3, record u { pending = [] }, counter)))
                (ap (λ ids. collect_finalized ids (back (map request_of ms)))
                    (ids_are (map request_of ms))
                  ∙ collect_finalized-finalized (back (map request_of ms))
                      (requests-IsDistinct ms distinct)
                  ∙ ap (λ q. (q, back (unfinished (map request_of ms)))) (requests-finalized ms)
                  ∙ ap (λ q. (map request_of ms, back q)) (requests-unfinished ms)),
        space,
        next,
        at_rest,
      )
    where
      ids_are : (q : Queue) → map (λ p. p.0) q ≡ ids_of q
      ids_are [] = refl
      ids_are ((id, r) ∷ q) = ap (λ ids. id ∷ ids) (ids_are q)
