-- ===== src/Rpc/Dispatcher/Several/Requests.antt =====
-- Several requests that arrive in one read.
use rust_muxio.Prelude.{
  ℕ, ◌≡◌, sym, ap, subst, true, false, List, [], ◌∷◌, ◌++◌, append_assoc, append-nil, map, ok, All,
}
use rust_muxio.Rpc.Types.{RpcRequest, RpcStreamEvent}
use rust_muxio.Rpc.Session.{RpcSession}
use rust_muxio.Rpc.Session.Message.{RunsTo}
use rust_muxio.Rpc.Respondable
use rust_muxio.Rpc.Respondable.{Routing}
use rust_muxio.Rpc.Dispatcher
use rust_muxio.Rpc.Dispatcher.{RpcDispatcher, Queue, World, Handler, contains_request}
use rust_muxio.Rpc.Dispatcher.Sending.{message_events}
use rust_muxio.Rpc.Dispatcher.Requests.{queue_all-message_events, collected, request_so_far}
use rust_muxio.Rpc.Dispatcher.Receiving.{IsQuiet, callback, events_queue, message_events-IsOf}
use rust_muxio.Rpc.Dispatcher.Whole.{IsAtRest, behind_session}
use rust_muxio.Rpc.Dispatcher.Several.{Sent, all_bytes, AllRun, sessions_read}

-- The request that a message is.
abbrev pub request_of : Sent → ℕ × RpcRequest
request_of m = (m.header.rpc_request_id, request_so_far m.header (collected m.sends.chunks) true)

-- None of the ids is in the queue when its request comes.
abbrev pub AllNew : List Sent → Queue → Type 0
AllNew [] q = Unit
AllNew (m ∷ ms) q =
    (contains_request m.header.rpc_request_id q ≡ false) × AllNew ms (q ++ request_of m ∷ [])

module _ {H U : Type 0} (invoke : H → RpcStreamEvent → U → U) where
  abbrev pub IsExpectedByNone : Routing (Handler H) (World U) → Sent → Type 0
  IsExpectedByNone t m = IsQuiet m.header.rpc_request_id m.header.rpc_method_id t

  requests_run :
      (ms : List Sent) (t : Routing (Handler H) (World U)) (q : Queue) (u : U)
      → All (IsExpectedByNone t) ms
      → AllNew ms q
      → AllRun (callback invoke) ms (t, (q, u)) (t, (q ++ map request_of ms, u))
  requests_run [] t q u quiet new = ap (λ r. (t, (r, u))) (sym (append-nil q))
  requests_run (m ∷ ms) t q u quiet new = (
    (t, (q ++ request_of m ∷ [], u)),
    subst
        (λ r.
          RunsTo (callback invoke) (message_events m.header m.sends.chunks) (t, (q, u)) (t, (r, u)))
        (queue_all-message_events m.header m.sends.chunks q new.0)
        (events_queue invoke m.header.rpc_request_id m.header.rpc_method_id
          (message_events m.header m.sends.chunks) t q u quiet.0
          (message_events-IsOf m.header m.sends.chunks)),
    subst (λ r. AllRun (callback invoke) ms (t, (q ++ request_of m ∷ [], u)) (t, (r, u)))
        (append_assoc q (request_of m ∷ []) (map request_of ms))
        (requests_run ms t (q ++ request_of m ∷ []) u quiet.1 new.1),
  )

  -- Behind the read the requests are in the queue, in order.
  abbrev pub queued : RpcDispatcher H U → RpcSession → List Sent → RpcDispatcher H U
  queued d s ms = record d {
    rpc_respondable_session = record {
      rpc_session = s;
      routing = d.rpc_respondable_session.routing;
    };
    rpc_request_queue = d.rpc_request_queue ++ map request_of ms;
  }

  pub dispatcher_reads_messages :
      (ms : List Sent) (d : RpcDispatcher H U) (u : U)
      → IsAtRest d.rpc_respondable_session.rpc_session
      → All (IsExpectedByNone d.rpc_respondable_session.routing) ms
      → AllNew ms d.rpc_request_queue
      → (s : RpcSession) × (Dispatcher.read_bytes invoke (all_bytes ms) d u
          ≡ (ok (map (λ p. p.0) (queued d s ms).rpc_request_queue), queued d s ms, u))
        × (s.id_space ≡ d.rpc_respondable_session.rpc_session.id_space)
        × (s.next_stream_id ≡ d.rpc_respondable_session.rpc_session.next_stream_id)
        × IsAtRest s
  unfolding Dispatcher.read_bytes Respondable.read_bytes
  dispatcher_reads_messages ms d u rests quiet new =
      let t = d.rpc_respondable_session.routing in
      let (s, e, space, next, at_rest) =
        sessions_read (callback invoke) ms d.rpc_respondable_session.rpc_session
          (t, (d.rpc_request_queue, u)) _ rests
          (requests_run ms t d.rpc_request_queue u quiet new) in
      (s, ap (behind_session d) e, space, next, at_rest)
