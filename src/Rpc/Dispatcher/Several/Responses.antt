-- ===== src/Rpc/Dispatcher/Several/Responses.antt =====
-- Several responses that arrive in one read.
use rust_muxio.Prelude.{◌≡◌, refl, ap, List, [], ◌∷◌, map, ok}
use rust_muxio.Rpc.Types.{RpcStreamEvent}
use rust_muxio.Rpc.Session.{RpcSession}
use rust_muxio.Rpc.Respondable
use rust_muxio.Rpc.Respondable.{Routing}
use rust_muxio.Rpc.Dispatcher
use rust_muxio.Rpc.Dispatcher.{RpcDispatcher, Queue, World, Handler}
use rust_muxio.Rpc.Dispatcher.Sending.{message_events}
use rust_muxio.Rpc.Dispatcher.Receiving.{IsAwaited, callback, calls, forgotten, events_handled}
use rust_muxio.Rpc.Dispatcher.Whole.{IsAtRest, behind_session}
use rust_muxio.Rpc.Dispatcher.Several.{Sent, all_bytes, AllRun, sessions_read}

abbrev pub messages : {H : Type 0} → List (Sent × H) → List Sent
messages [] = []
messages ((m, h) ∷ rest) = m ∷ messages rest

module _ {H U : Type 0} (invoke : H → RpcStreamEvent → U → U) where
  -- A handler waits for each response when it comes.
  abbrev pub AllAwaited : List (Sent × H) → Routing (Handler H) (World U) → Type 0
  AllAwaited [] t = Unit
  AllAwaited ((m, h) ∷ rest) t =
      IsAwaited m.header.rpc_request_id h t × AllAwaited rest (forgotten m.header.rpc_request_id t)

  abbrev pub all_forgotten :
      List (Sent × H) → Routing (Handler H) (World U) → Routing (Handler H) (World U)
  all_forgotten [] t = t
  all_forgotten ((m, h) ∷ rest) t = all_forgotten rest (forgotten m.header.rpc_request_id t)

  -- The handlers on the events of their responses, one response after the other.
  abbrev pub all_calls : List (Sent × H) → U → U
  all_calls [] u = u
  all_calls ((m, h) ∷ rest) u =
      all_calls rest (calls invoke h (message_events m.header m.sends.chunks) u)

  responses_run :
      (ps : List (Sent × H)) (t : Routing (Handler H) (World U)) (q : Queue) (u : U)
      → AllAwaited ps t
      → AllRun (callback invoke) (messages ps) (t, (q, u)) (all_forgotten ps t, (q, all_calls ps u))
  responses_run [] t q u awaited = refl
  responses_run ((m, h) ∷ rest) t q u awaited = (
    _,
    events_handled invoke h m.header m.sends.chunks t q u awaited.0,
    responses_run rest (forgotten m.header.rpc_request_id t) q _ awaited.1,
  )

  abbrev pub all_returned : RpcDispatcher H U → RpcSession → List (Sent × H) → RpcDispatcher H U
  all_returned d s ps = record d {
    rpc_respondable_session = record {
      rpc_session = s;
      routing = all_forgotten ps d.rpc_respondable_session.routing;
    };
  }

  pub dispatcher_hands_over_messages :
      (ps : List (Sent × H)) (d : RpcDispatcher H U) (u : U)
      → IsAtRest d.rpc_respondable_session.rpc_session
      → AllAwaited ps d.rpc_respondable_session.routing
      → (s : RpcSession) × (Dispatcher.read_bytes invoke (all_bytes (messages ps)) d u
          ≡ (ok (map (λ p. p.0) d.rpc_request_queue), all_returned d s ps, all_calls ps u))
        × IsAtRest s
  unfolding Dispatcher.read_bytes Respondable.read_bytes
  dispatcher_hands_over_messages ps d u rests awaited =
      let (s, e, space, next, at_rest) =
        sessions_read (callback invoke) (messages ps) d.rpc_respondable_session.rpc_session
          (d.rpc_respondable_session.routing, (d.rpc_request_queue, u)) _ rests
          (responses_run ps d.rpc_respondable_session.routing d.rpc_request_queue u awaited) in
      (s, ap (behind_session d) e, at_rest)
