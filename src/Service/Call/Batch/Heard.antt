-- ===== src/Service/Call/Batch/Heard.antt =====
-- The handlers of a batch of calls: they wait until their responses come.
use rust_muxio.Prelude.{
  ℕ, ◌≡◌, refl, sym, ap, ◌∙◌, subst, false, none, List, [], ◌∷◌, ◌==◌, ==_flip, map, Result, All,
}
use rust_muxio.Rpc.Types.{RpcStreamEvent}
use rust_muxio.Rpc.IdSpace.{place}
use rust_muxio.Rpc.Session.Frames.{get-insert_other, get-remove_other}
use rust_muxio.Rpc.Respondable
use rust_muxio.Rpc.Respondable.{Routing, or_default}
use rust_muxio.Rpc.Dispatcher
use rust_muxio.Rpc.Dispatcher.{RpcDispatcher, World, Handler}
use rust_muxio.Rpc.Dispatcher.Sending.{message_events}
use rust_muxio.Rpc.Dispatcher.Receiving.{IsAwaited, calls, forgotten}
use rust_muxio.Rpc.Dispatcher.Whole.{IsAtRest}
use rust_muxio.Rpc.Dispatcher.Several
use rust_muxio.Rpc.Dispatcher.Several.Responses.{AllAwaited, all_calls, messages}
use rust_muxio.Service.Caller.{request_for, recv_all, consume, fresh}
use rust_muxio.Service.Error.{HandlerError, RpcServiceErrorPayload}
use rust_muxio.Service.Endpoint.{RpcServiceEndpoint, default_service_max_chunk_size}
use rust_muxio.Service.Call.{expected}
use rust_muxio.Service.Call.Answered.{result_of}
use rust_muxio.Service.Call.Batch.Answered.{AnswerCalls}
use rust_muxio.Service.Call.Returns.{called, start_call-IsAwaited, start_call-IsIdle}
use rust_muxio.Service.Call.Sequence.{Call}
use rust_muxio.Service.Call.Batch.{called_all, ids_of, AreDistinct, id_of}

module _ {H U : Type 0} where
  -- A handler goes on waiting while the response to another request is forgotten, and while another
  -- call is made.
  IsAwaited-forgotten :
      (id other : ℕ) (h : H) (t : Routing (Handler H) (World U))
      → (other == id) ≡ false
      → IsAwaited id h t
      → IsAwaited id h (forgotten other t)
  IsAwaited-forgotten id other h t ne a = record {
    has_handler = get-remove_other other id t.response_handlers ne ∙ a.has_handler;
    not_prebuffered =
        ap (or_default false) (get-remove_other other id t.prebuffering_flags ne)
        ∙ a.not_prebuffered;
    no_router = a.no_router;
  }

  IsAwaited-called :
      (id : ℕ) (h : H) (c : Call H) (d : RpcDispatcher H U) (counter : ℕ)
      → (place d.id_space d.next_rpc_request_id == id) ≡ false
      → IsAwaited id h d.rpc_respondable_session.routing
      → IsAwaited id h
          (called c.method c.args c.on_result d counter).1.rpc_respondable_session.routing
  unfolding Dispatcher.start_call Respondable.init_respondable_request Respondable.register_response
  IsAwaited-called id h c d counter ne a = record {
    has_handler =
        get-insert_other (place d.id_space d.next_rpc_request_id) id _
          d.rpc_respondable_session.routing.response_handlers ne
        ∙ a.has_handler;
    not_prebuffered =
        ap (or_default false) (
          get-insert_other (place d.id_space d.next_rpc_request_id) id false
            d.rpc_respondable_session.routing.prebuffering_flags ne)
        ∙ a.not_prebuffered;
    no_router = a.no_router;
  }

  IsAwaited-called_all :
      (cs : List (Call H)) (id : ℕ) (h : H) (d : RpcDispatcher H U) (counter : ℕ)
      → All (λ j. (id == j) ≡ false) (ids_of cs d counter)
      → IsAwaited id h d.rpc_respondable_session.routing
      → IsAwaited id h (called_all cs d counter).1.rpc_respondable_session.routing
  unfolding called_all
  IsAwaited-called_all [] id h d counter apart a = a
  IsAwaited-called_all (c ∷ cs) id h d counter apart a =
      IsAwaited-called_all cs id h _ _ apart.1
        (IsAwaited-called id h c d counter (==_flip id _ apart.0) a)

  pub IsAtRest-called_all :
      (cs : List (Call H)) (d : RpcDispatcher H U) (counter : ℕ)
      → IsAtRest d.rpc_respondable_session.rpc_session
      → IsAtRest (called_all cs d counter).1.rpc_respondable_session.rpc_session
  unfolding called_all
  IsAtRest-called_all [] d counter rests = rests
  IsAtRest-called_all (c ∷ cs) d counter rests = IsAtRest-called_all cs _ _ (λ k.
      start_call-IsIdle k (request_for c.method c.args) default_service_max_chunk_size c.on_result d
        counter (rests k))

  -- Each handler waits for its response.
  abbrev Await : Routing (Handler H) (World U) → List (Several.Sent × H) → Type 0
  Await t [] = Unit
  Await t ((m, h) ∷ ps) = IsAwaited (id_of m) h t × Await t ps

  Await-forgotten :
      (ps : List (Several.Sent × H)) (id : ℕ) (t : Routing (Handler H) (World U))
      → All (λ j. (id == j) ≡ false) (map id_of (messages ps))
      → Await t ps
      → Await (forgotten id t) ps
  Await-forgotten [] id t apart a = tt
  Await-forgotten ((m, h) ∷ ps) id t apart a =
      (IsAwaited-forgotten (id_of m) id h t apart.0 a.0, Await-forgotten ps id t apart.1 a.1)

  -- Handlers that wait for responses of distinct ids still do when their responses come.
  pub Await-AllAwaited :
      (invoke : H → RpcStreamEvent → U → U) (ps : List (Several.Sent × H))
      (t : Routing (Handler H) (World U))
      → AreDistinct (map id_of (messages ps))
      → Await t ps
      → AllAwaited invoke ps t
  Await-AllAwaited invoke [] t distinct a = tt
  Await-AllAwaited invoke ((m, h) ∷ ps) t distinct a = (
    a.0,
    Await-AllAwaited invoke ps (forgotten (id_of m) t) distinct.1
        (Await-forgotten ps (id_of m) t distinct.0 a.1),
  )

module _ {S C P H U : Type 0} (run : P → List ℕ → C → Result HandlerError (List ℕ))
    (encode : RpcServiceErrorPayload → List ℕ) (lossy : List ℕ → List ℕ)
    (endpoint : RpcServiceEndpoint P S) (context : C) where
  pub ids-AnswerCalls :
      (cs : List (Call H)) (d : RpcDispatcher H U) (counter : ℕ) (ps : List (Several.Sent × H))
      → AnswerCalls run encode lossy endpoint context cs d counter ps
      → map id_of (messages ps) ≡ ids_of cs d counter
  ids-AnswerCalls [] d counter [] a = refl
  ids-AnswerCalls [] d counter (p ∷ ps) a = absurd a
  ids-AnswerCalls (c ∷ cs) d counter [] a = absurd a
  ids-AnswerCalls (c ∷ cs) d counter ((m, h) ∷ ps) (id, own, gets, a) =
      ap (λ i. i ∷ map id_of (messages ps)) id
      ∙ ap (λ ids. place d.id_space d.next_rpc_request_id ∷ ids) (ids-AnswerCalls cs _ _ ps a)

  -- Behind the calls each handler waits for the response to its call.
  pub called_all-Await :
      (cs : List (Call H)) (d : RpcDispatcher H U) (counter : ℕ) (ps : List (Several.Sent × H))
      → d.rpc_respondable_session.routing.stream_method_router ≡ none
      → AreDistinct (ids_of cs d counter)
      → AnswerCalls run encode lossy endpoint context cs d counter ps
      → Await (called_all cs d counter).1.rpc_respondable_session.routing ps
  unfolding called_all
  called_all-Await [] d counter [] no_router distinct a = tt
  called_all-Await [] d counter (p ∷ ps) no_router distinct a = absurd a
  called_all-Await (c ∷ cs) d counter [] no_router distinct a = absurd a
  called_all-Await (c ∷ cs) d counter ((m, h) ∷ ps) no_router distinct (id, own, gets, a) =
      let (r, d1, counter1) = called c.method c.args c.on_result d counter in
      let waits =
        start_call-IsAwaited (request_for c.method c.args) default_service_max_chunk_size
          c.on_result d counter no_router in
      (
        subst (λ i. IsAwaited i h (called_all cs d1 counter1).1.rpc_respondable_session.routing)
            (sym id)
            (subst
              (λ g.
                IsAwaited (place d.id_space d.next_rpc_request_id) g
                  (called_all cs d1 counter1).1.rpc_respondable_session.routing)
              (sym own)
              (IsAwaited-called_all cs (place d.id_space d.next_rpc_request_id) c.on_result d1
                counter1 distinct.0 waits)),
        called_all-Await cs d1 counter1 ps waits.no_router distinct.1 a,
      )

  -- What the handlers have made of events, one after the other: of the events of each a buffered call
  -- makes what the call's method gives for its arguments.
  abbrev pub AllHeard : (H → RpcStreamEvent → U → U) → List (Call H) → U → U → Type 0
  AllHeard invoke [] u u' = u ≡ u'
  AllHeard invoke (c ∷ cs) u u' =
      (events : List RpcStreamEvent) × (consume (recv_all lossy events fresh).sent []
        ≡ expected lossy encode (result_of run encode lossy endpoint context c.method c.args))
      × AllHeard invoke cs (calls invoke c.on_result events u) u'

  pub AnswerCalls-AllHeard :
      (invoke : H → RpcStreamEvent → U → U) (cs : List (Call H)) (d : RpcDispatcher H U)
      (counter : ℕ) (ps : List (Several.Sent × H)) (u : U)
      → AnswerCalls run encode lossy endpoint context cs d counter ps
      → AllHeard invoke cs u (all_calls invoke ps u)
  AnswerCalls-AllHeard invoke [] d counter [] u a = refl
  AnswerCalls-AllHeard invoke [] d counter (p ∷ ps) u a = absurd a
  AnswerCalls-AllHeard invoke (c ∷ cs) d counter [] u a = absurd a
  AnswerCalls-AllHeard invoke (c ∷ cs) d counter ((m, h) ∷ ps) u (id, own, gets, a) =
      let events = message_events m.header m.sends.chunks in
      (
        events,
        gets,
        subst (λ g. AllHeard invoke cs (calls invoke g events u) (all_calls invoke ((m, h) ∷ ps) u))
            own (AnswerCalls-AllHeard invoke cs _ _ ps (calls invoke h events u) a),
      )
