-- ===== src/Rpc/Dispatcher/Receiving.antt =====
-- A request that arrives whole at a dispatcher: from the frames of its stream to the queue.
use rust_muxio.Prelude.{
  ℕ, ◌≡◌, refl, ap, ◌∙◌, false, none, some, List, [], ◌∷◌, ◌++◌, map, Result, ok, All, arith,
  Bool-cases, inl, inr,
}
use rust_muxio.Prelude.Map.{Map, get, remove}
use rust_muxio.Frame.Types.{FrameDecodeError}
use rust_muxio.Rpc.Types.{RpcHeader, RpcStreamEvent, header, payload_chunk, end, error}
use rust_muxio.Rpc.StreamDecoder.Events.{chunk_of}
use rust_muxio.Rpc.Session.Message.{RunsTo}
use rust_muxio.Rpc.Respondable.{
  Routing, or_default, event_id, event_method, is_last_event, consult, route_header, invoke_if,
  forget, fall_through, dispatch, handle_for, on_rpc_stream_event,
}
use rust_muxio.Rpc.Dispatcher.{World, Queue, Handler, catch_all, user, run_handler, on_queue}
use rust_muxio.Rpc.Dispatcher.Sending.{message_events}
use rust_muxio.Rpc.Dispatcher.Requests.{queue_all}

remove_absent : {V : Type 0} (k : ℕ) (m : Map V) → get k m ≡ none → remove k m ≡ m
unfolding get remove
remove_absent k [] h = refl
remove_absent k ((j, v) ∷ m) h = ground (arith, remove_absent k m)

-- An event of a request for a method.
abbrev pub IsOf : ℕ → ℕ → RpcStreamEvent → Type 0
IsOf id method e = (event_id e ≡ some id) × (event_method e ≡ some method)

module _ {H U : Type 0} where
  -- The session expects nothing of request `id`, and knows what to do with other requests' events.
  pub record IsUnknown (id : ℕ) (t : Routing (Handler H) (World U)) : Type 0 where
    pub no_handler : get id t.response_handlers ≡ none
    pub no_flag : get id t.prebuffering_flags ≡ none
    pub no_buffer : get id t.prebuffered_responses ≡ none
    pub catches : t.catch_all_response_handler ≡ some catch_all

  -- Besides, the router makes no handler for request `id` of a method, so that it goes to the queue.
  pub record IsQuiet (id method : ℕ) (t : Routing (Handler H) (World U)) : Type 0 where
    pub unknown : IsUnknown id t
    pub passes : (w : World U) → consult id method t.stream_method_router t w ≡ (t, w)

  forget_nothing :
      (run : Handler H → RpcStreamEvent → World U → World U) (id : ℕ) (evt : RpcStreamEvent)
      (t : Routing (Handler H) (World U))
      → IsUnknown id t
      → forget run id evt t ≡ t
  unfolding forget
  forget_nothing run id evt t h = elim (Bool-cases (is_last_event evt)) [
    | inl e ↦ rw e (λ i. record t {
      response_handlers = remove_absent id t.response_handlers h.no_handler i;
      prebuffering_flags = remove_absent id t.prebuffering_flags h.no_flag i;
      prebuffered_responses = remove_absent id t.prebuffered_responses h.no_buffer i;
    })
    | inr e ↦ rw e
  ]

  route_nothing :
      (id method : ℕ) (evt : RpcStreamEvent) (t : Routing (Handler H) (World U)) (w : World U)
      → IsQuiet id method t
      → IsOf id method evt
      → route_header evt t w ≡ (t, w)
  unfolding route_header
  route_nothing id method (header i m h) t w q of =
      let is_id : i ≡ id = let e = of.0 in cc in
      let is_method : m ≡ method = let e = of.1 in cc in
      ap (λ j. consult j m t.stream_method_router t w) is_id
      ∙ ap (λ n. consult id n t.stream_method_router t w) is_method
      ∙ q.passes w
  route_nothing id method (payload_chunk h i m bytes) t w q of = refl
  route_nothing id method (end h i m) t w q of = refl
  route_nothing id method (error h i m e) t w q of = refl

  module _ (invoke : H → RpcStreamEvent → U → U) where
    abbrev pub callback :
        RpcStreamEvent
        → Routing (Handler H) (World U) × World U
        → Result FrameDecodeError (Unit {0}) × (Routing (Handler H) (World U) × World U)
    callback = on_rpc_stream_event (run_handler invoke)

    catch_event :
        (evt : RpcStreamEvent) (t : Routing (Handler H) (World U)) (q : Queue) (u : U)
        → t.catch_all_response_handler ≡ some catch_all
        → fall_through (run_handler invoke) evt (t, (q, u)) ≡ (t, (on_queue evt q, u))
    unfolding fall_through invoke_if run_handler
    catch_event evt t q u e = ap (λ h. (t, invoke_if (run_handler invoke) h evt (q, u))) e

    pass_event :
        (id method : ℕ) (evt : RpcStreamEvent) (t : Routing (Handler H) (World U)) (q : Queue)
        (u : U)
        → IsQuiet id method t
        → IsOf id method evt
        → callback evt (t, (q, u)) ≡ (ok tt, (t, (on_queue evt q, u)))
    unfolding on_rpc_stream_event handle_for dispatch
    pass_event id method evt t q u h of =
        ap (λ r. handle_for (run_handler invoke) (event_id evt) evt r.0 r.1)
          (route_nothing id method evt t (q, u) h of)
        ∙ ap (λ i. handle_for (run_handler invoke) i evt t (q, u)) of.0
        ∙ rw (h.unknown.no_flag, h.unknown.no_handler)
            (ap (λ r. (ok tt, fall_through (run_handler invoke) evt (r, (q, u))))
                (forget_nothing (run_handler invoke) id evt t h.unknown)
              ∙ ap (λ r. (ok tt, r)) (catch_event evt t q u h.unknown.catches))

    -- The events of a request that is expected by nobody go to the queue.
    pub events_queue :
        (id method : ℕ) (es : List RpcStreamEvent) (t : Routing (Handler H) (World U)) (q : Queue)
        (u : U)
        → IsQuiet id method t
        → All (IsOf id method) es
        → RunsTo callback es (t, (q, u)) (t, (queue_all es q, u))
    unfolding queue_all
    events_queue id method [] t q u h all = refl
    events_queue id method (e ∷ es) t q u h all = (
      (t, (on_queue e q, u)),
      pass_event id method e t q u h all.0,
      events_queue id method es t (on_queue e q) u h all.1,
    )

-- The routing behind the last event of a request.
abbrev pub forgotten : {H W : Type 0} → ℕ → Routing H W → Routing H W
forgotten id t = record t {
  response_handlers = remove id t.response_handlers;
  prebuffering_flags = remove id t.prebuffering_flags;
  prebuffered_responses = remove id t.prebuffered_responses;
}

module _ {H U : Type 0} where
  -- Handler `h` waits for the response to request `id`, each event of which it is to get.
  pub record IsAwaited (id : ℕ) (h : H) (t : Routing (Handler H) (World U)) : Type 0 where
    pub has_handler : get id t.response_handlers ≡ some (user h)
    pub not_prebuffered : or_default false (get id t.prebuffering_flags) ≡ false
    pub no_router : t.stream_method_router ≡ none

  module _ (invoke : H → RpcStreamEvent → U → U) (h : H) where
    -- The handler on the events, one after the other.
    abbrev pub calls : List RpcStreamEvent → U → U
    calls [] u = u
    calls (e ∷ es) u = calls es (invoke h e u)

    routed :
        (id : ℕ) (evt : RpcStreamEvent) (t : Routing (Handler H) (World U)) (w : World U)
        → IsAwaited id h t
        → route_header evt t w ≡ (t, w)
    unfolding route_header consult
    routed id (header i m hd) t w a = ap (λ r. consult i m r t w) a.no_router
    routed id (payload_chunk hd i m bytes) t w a = refl
    routed id (end hd i m) t w a = refl
    routed id (error hd i m e) t w a = refl

    handled_event :
        (id : ℕ) (evt : RpcStreamEvent) (t : Routing (Handler H) (World U)) (q : Queue) (u : U)
        → IsAwaited id h t
        → event_id evt ≡ some id
        → callback invoke evt (t, (q, u))
          ≡ (ok tt, (forget (run_handler invoke) id evt t, (q, invoke h evt u)))
    unfolding on_rpc_stream_event handle_for dispatch run_handler
    handled_event id evt t q u a e =
        ap (λ r. handle_for (run_handler invoke) (event_id evt) evt r.0 r.1)
          (routed id evt t (q, u) a)
        ∙ ap (λ i. handle_for (run_handler invoke) i evt t (q, u)) e
        ∙ rw (a.not_prebuffered, a.has_handler) refl

    handled_body :
        (hd : RpcHeader) (cs : List (List ℕ)) (t : Routing (Handler H) (World U)) (q : Queue)
        (u : U)
        → IsAwaited hd.rpc_request_id h t
        → let es = map (chunk_of hd) cs ++ end hd hd.rpc_request_id hd.rpc_method_id ∷ [] in
          RunsTo (callback invoke) es (t, (q, u)) (forgotten hd.rpc_request_id t, (q, calls es u))
    unfolding forget
    handled_body hd [] t q u a = (
      _,
      handled_event hd.rpc_request_id (end hd hd.rpc_request_id hd.rpc_method_id) t q u a refl,
      refl,
    )
    handled_body hd (c ∷ cs) t q u a = (
      _,
      handled_event hd.rpc_request_id (chunk_of hd c) t q u a refl,
      handled_body hd cs t q _ a,
    )

    -- The events of a whole response are given to the handler that waits for it, in order, and then
    -- nothing is kept of the request.
    pub events_handled :
        (hd : RpcHeader) (cs : List (List ℕ)) (t : Routing (Handler H) (World U)) (q : Queue)
        (u : U)
        → IsAwaited hd.rpc_request_id h t
        → RunsTo
            (callback invoke)
            (message_events hd cs)
            (t, (q, u))
            (forgotten hd.rpc_request_id t, (q, calls (message_events hd cs) u))
    unfolding forget
    events_handled hd cs t q u a = (
      _,
      handled_event hd.rpc_request_id (header hd.rpc_request_id hd.rpc_method_id hd) t q u a refl,
      handled_body hd cs t q _ a,
    )

chunks-IsOf :
    (h : RpcHeader) (cs : List (List ℕ))
    → All
        (IsOf h.rpc_request_id h.rpc_method_id)
        (map (chunk_of h) cs ++ end h h.rpc_request_id h.rpc_method_id ∷ [])
chunks-IsOf h [] = ((refl, refl), tt)
chunks-IsOf h (c ∷ cs) = ((refl, refl), chunks-IsOf h cs)

pub message_events-IsOf :
    (h : RpcHeader) (cs : List (List ℕ))
    → All (IsOf h.rpc_request_id h.rpc_method_id) (message_events h cs)
message_events-IsOf h cs = ((refl, refl), chunks-IsOf h cs)
