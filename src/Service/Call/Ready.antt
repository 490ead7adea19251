-- ===== src/Service/Call/Ready.antt =====
-- What the two sides of a connection need for a call, and the router that an endpoint's read installs.
use rust_muxio.Prelude.{ℕ, ◌≡◌, refl, sym, ap, ◌∙◌, subst, none, [], ◌∷◌}
use rust_muxio.Prelude.Map.{Map, get}
use rust_muxio.Rpc.IdSpace.{server, place}
use rust_muxio.Rpc.Respondable
use rust_muxio.Rpc.Respondable.{consult, route_with}
use rust_muxio.Rpc.Dispatcher
use rust_muxio.Rpc.Dispatcher.{Queue, RpcDispatcher}
use rust_muxio.Rpc.Dispatcher.Receiving.{IsUnknown, IsQuiet}
use rust_muxio.Service.Endpoint.Reading.{route_method, install_router, EndpointHandler, Shared}
use rust_muxio.Rpc.Dispatcher.Whole.{IsIdle, IsAtRest}
use rust_muxio.Service.Call.Arrival.{stream_of}

route_method_absent :
    {R S C V : Type 0} (handlers : Map S) (context : C) (method id : ℕ) (q : Queue) (u : Shared V)
    → get method handlers ≡ none
    → route_method {R = R} handlers context method id (q, u) ≡ (none, (q, u))
unfolding route_method
route_method_absent handlers context method id q u absent = rw (route_method, absent) refl

module _ {R S C V : Type 0} where
  pub install_router-IsUnknown :
      (context : C) (handlers : Map S) (d : RpcDispatcher (EndpointHandler R S C) (Shared V))
      (id : ℕ)
      → IsUnknown id d.rpc_respondable_session.routing
      → IsUnknown id (install_router handlers context d).rpc_respondable_session.routing
  unfolding install_router Dispatcher.set_stream_method_router Respondable.set_stream_method_router
  install_router-IsUnknown context [] d id unknown = unknown
  install_router-IsUnknown context (x ∷ xs) d id unknown = record {
    no_handler = unknown.no_handler;
    no_flag = unknown.no_flag;
    no_buffer = unknown.no_buffer;
    catches = unknown.catches;
  }

  pub install_router-IsAtRest :
      (context : C) (handlers : Map S) (d : RpcDispatcher (EndpointHandler R S C) (Shared V))
      → IsAtRest d.rpc_respondable_session.rpc_session
      → IsAtRest (install_router handlers context d).rpc_respondable_session.rpc_session
  unfolding install_router Dispatcher.set_stream_method_router Respondable.set_stream_method_router
  install_router-IsAtRest context [] d rests = rests
  install_router-IsAtRest context (x ∷ xs) d rests = rests

  pub install_router_nothing :
      (context : C) (handlers : Map S) (d : RpcDispatcher (EndpointHandler R S C) (Shared V))
      → handlers ≡ []
      → install_router handlers context d ≡ d
  unfolding install_router
  install_router_nothing context [] d e = refl
  install_router_nothing context (x ∷ xs) d e = cc

  pub install_router_session :
      (context : C) (handlers : Map S) (d : RpcDispatcher (EndpointHandler R S C) (Shared V))
      → (install_router handlers context d).rpc_respondable_session.rpc_session
        ≡ d.rpc_respondable_session.rpc_session
  unfolding install_router Dispatcher.set_stream_method_router Respondable.set_stream_method_router
  install_router_session context [] d = refl
  install_router_session context (x ∷ xs) d = refl

  pub install_router_queue :
      (context : C) (handlers : Map S) (d : RpcDispatcher (EndpointHandler R S C) (Shared V))
      → (install_router handlers context d).rpc_request_queue ≡ d.rpc_request_queue
  unfolding install_router Dispatcher.set_stream_method_router
  install_router_queue context [] d = refl
  install_router_queue context (x ∷ xs) d = refl

  -- The router has no handler for a method that has no streaming handler.
  pub install_router-IsQuiet :
      (context : C) (handlers : Map S) (d : RpcDispatcher (EndpointHandler R S C) (Shared V))
      (id method : ℕ)
      → get method handlers ≡ none
      → IsUnknown id d.rpc_respondable_session.routing
      → (handlers ≡ [] → d.rpc_respondable_session.routing.stream_method_router ≡ none)
      → IsQuiet id method (install_router handlers context d).rpc_respondable_session.routing
  unfolding consult route_with install_router Dispatcher.set_stream_method_router
      Respondable.set_stream_method_router
  install_router-IsQuiet context [] d id method absent unknown routes_nothing = record {
    unknown = unknown;
    passes = λ w.
        ap (λ r. consult id method r d.rpc_respondable_session.routing w) (routes_nothing refl);
  }
  install_router-IsQuiet context (x ∷ xs) d id method absent unknown routes_nothing = record {
    unknown = install_router-IsUnknown context (x ∷ xs) d id unknown;
    passes = λ (q, u).
        ap (route_with id (install_router (x ∷ xs) context d).rpc_respondable_session.routing)
          (route_method_absent (x ∷ xs) context method id q u absent);
  }

module _ {R S C V H U : Type 0} where
  -- What the two sides need for a call of a method, at an endpoint with these streaming handlers:
  -- the endpoint's session holds no part of a frame and does not know the stream of the call and its
  -- request id, and no request waits; the caller's session holds no part of a frame and does not
  -- know the stream of the response. No router was installed by the caller, and none by the endpoint
  -- if it has no streaming handlers.
  pub record AreReady (handlers : Map S) (caller : RpcDispatcher H U)
      (d : RpcDispatcher (EndpointHandler R S C) (Shared V)) : Type 0 where
    pub takes_call : IsIdle (stream_of caller) d.rpc_respondable_session.rpc_session
    pub unknown :
        IsUnknown
          (place caller.id_space caller.next_rpc_request_id)
          d.rpc_respondable_session.routing
    pub is_empty : d.rpc_request_queue ≡ []
    pub routes_nothing :
        handlers ≡ [] → d.rpc_respondable_session.routing.stream_method_router ≡ none
    pub takes_response : IsIdle (stream_of d) caller.rpc_respondable_session.rpc_session
    pub no_router : caller.rpc_respondable_session.routing.stream_method_router ≡ none

  -- A dispatcher on which an endpoint's read has installed its router.
  pub record Installed (caller : RpcDispatcher H U) (method : ℕ)
      (d d' : RpcDispatcher (EndpointHandler R S C) (Shared V)) : Type 0 where
    pub takes_call : IsIdle (stream_of caller) d'.rpc_respondable_session.rpc_session
    pub is_quiet :
        IsQuiet
          (place caller.id_space caller.next_rpc_request_id)
          method
          d'.rpc_respondable_session.routing
    pub is_empty : d'.rpc_request_queue ≡ []
    pub same_stream : stream_of d' ≡ stream_of d

  -- The router has no handler for a call of a method that has no streaming handler.
  pub install_router-Installed :
      (handlers : Map S) (context : C) (method : ℕ) (caller : RpcDispatcher H U)
      (d : RpcDispatcher (EndpointHandler R S C) (Shared V))
      → get method handlers ≡ none
      → AreReady handlers caller d
      → Installed caller method d (install_router handlers context d)
  unfolding consult route_with install_router Dispatcher.set_stream_method_router
      Respondable.set_stream_method_router
  install_router-Installed handlers context method caller d absent ready = record {
    takes_call =
        subst (IsIdle (stream_of caller)) (sym (install_router_session context handlers d))
          ready.takes_call;
    is_quiet =
        install_router-IsQuiet context handlers d (place caller.id_space caller.next_rpc_request_id)
          method absent ready.unknown ready.routes_nothing;
    is_empty = install_router_queue context handlers d ∙ ready.is_empty;
    same_stream =
        ap (λ s. place s.id_space s.next_stream_id) (install_router_session context handlers d);
  }

  -- The two sides of a connection on which nothing was sent are ready.
  pub new-AreReady :
      (handlers : Map S) (a b : ℕ)
      → AreReady handlers (Dispatcher.new a).0 (Dispatcher.new_with_id_space server b).0
  unfolding get Dispatcher.new Dispatcher.new_with_id_space
  new-AreReady handlers a b = record {
    takes_call = record { no_bytes = refl; no_stream = refl; no_decoder = refl };
    unknown = record { no_handler = refl; no_flag = refl; no_buffer = refl; catches = refl };
    is_empty = refl;
    routes_nothing = λ e. refl;
    takes_response = record { no_bytes = refl; no_stream = refl; no_decoder = refl };
    no_router = refl;
  }
