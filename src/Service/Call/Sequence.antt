-- ===== src/Service/Call/Sequence.antt =====
-- Prebuffered calls over one connection, one after the other: what each leaves of the two sides.
use rust_muxio.Prelude.{
  ℕ, ◌+◌, ◌<◌, ◌^◌, ◌≡◌, refl, ap, ◌∙◌, Bool, none, some, List, [], ◌∷◌, ◌++◌, Result, ok, err,
  append-nil, length, All,
}
use rust_muxio.Prelude.Bytes.{IsU64}
use rust_muxio.Prelude.Map.{get}
use rust_muxio.Frame.Delivery.{joined}
use rust_muxio.Rpc.Types.{RpcStreamEvent}
use rust_muxio.Rpc.IdSpace.{server}
use rust_muxio.Rpc.Dispatcher
use rust_muxio.Rpc.Dispatcher.{RpcDispatcher}
use rust_muxio.Rpc.Dispatcher.Receiving.{IsUnknown, calls}
use rust_muxio.Rpc.Dispatcher.Whole.{IsAtRest}
use rust_muxio.Service.Error.{HandlerError, RpcServiceErrorPayload, RpcServiceEndpointError}
use rust_muxio.Service.Endpoint.{RpcServiceEndpoint}
use rust_muxio.Service.Endpoint.Reading
use rust_muxio.Service.Endpoint.Reading.{EndpointHandler, EndpointState, Shared}
use rust_muxio.Service.Endpoint.Answering.{Attempt}
use rust_muxio.Service.Call.Ready.{
  AreReady, install_router-IsUnknown, install_router-IsAtRest, install_router_nothing,
}
use rust_muxio.Service.Call.Answered.{reply_bytes, result_of}
use rust_muxio.Service.Call.Returns.{called, CallReturns, call-returns}

-- A call of a method with arguments, and the handler of its response.
pub record Call (H : Type 0) : Type 0 where
  pub method : ℕ
  pub args : List ℕ
  pub on_result : H

-- The two sides of a connection, what the caller's handlers have made of the responses so far, and
-- the global counters.
pub record Connection (R S C V H U : Type 0) : Type 0 where
  pub caller : RpcDispatcher H U
  pub heard : U
  pub counter : ℕ
  pub serving : EndpointState R S C V

-- A connection whose two sides have been made with the counter at `a` and at `b`.
abbrev pub opened : {R S C V H U : Type 0} → ℕ → ℕ → U → Shared V → ℕ → ℕ → Connection R S C V H U
opened a b heard shared counter counter' = record {
  caller = (Dispatcher.new a).0;
  heard = heard;
  counter = counter;
  serving = ((Dispatcher.new_with_id_space server b).0, shared, counter');
}

abbrev pub emitted_by : Attempt → List ℕ
emitted_by none = []
emitted_by (some (err e)) = []
emitted_by (some (ok e)) = joined e.encoder.emitted

abbrev pub all_emitted : List Attempt → List ℕ
all_emitted [] = []
all_emitted (r ∷ rs) = emitted_by r ++ all_emitted rs

abbrev pub replies : Result RpcServiceEndpointError (List Attempt) → List ℕ
replies (err e) = []
replies (ok attempts) = all_emitted attempts

module _ {S C P H : Type 0} (run : P → List ℕ → C → Result HandlerError (List ℕ))
    (encode : RpcServiceErrorPayload → List ℕ) (lossy : List ℕ → List ℕ)
    (endpoint : RpcServiceEndpoint P S) (context : C) where
  -- A call whose method has no streaming handler, and whose method id, arguments and response fit
  -- their fields.
  pub record Fits (c : Call H) : Type 0 where
    pub method_fits : IsU64 c.method
    pub args_fit : length c.args + 17 < 2 ^ 32
    pub reply_fits :
        length (reply_bytes encode (result_of run encode lossy endpoint context c.method c.args))
          + 18
        < 2 ^ 32
    pub no_stream : get c.method endpoint.stream_handlers ≡ none

module _ {R S C V P H U : Type 0} (on_response : R → RpcStreamEvent → V → V)
    (on_stream : S → RpcStreamEvent → C → V → List (List ℕ × Bool) × V)
    (run : P → List ℕ → C → Result HandlerError (List ℕ)) (encode : RpcServiceErrorPayload → List ℕ)
    (lossy : List ℕ → List ℕ) (invoke_caller : H → RpcStreamEvent → U → U)
    (endpoint : RpcServiceEndpoint P S) (context : C) where
  -- A call is made, the endpoint reads what the call has emitted, and the caller reads what the
  -- endpoint has emitted.
  unfoldable pub exchange : Call H → Connection R S C V H U → Connection R S C V H U
  exchange c conn =
      let (sent, d, counter) = called c.method c.args c.on_result conn.caller conn.counter in
      let (answers, serving) =
        Reading.read_bytes on_response on_stream run encode (emitted_by sent) context endpoint
          conn.serving in
      let (ids, d', heard) = Dispatcher.read_bytes invoke_caller (replies answers) d conn.heard in
      record { caller = d'; heard = heard; counter = counter; serving = serving }

  -- Nothing is under way.
  pub record AreAtRest (conn : Connection R S C V H U) : Type 0 where
    pub caller_rests : IsAtRest conn.caller.rpc_respondable_session.rpc_session
    pub no_router : conn.caller.rpc_respondable_session.routing.stream_method_router ≡ none
    pub endpoint_rests : IsAtRest conn.serving.0.rpc_respondable_session.rpc_session
    pub unknown : (id : ℕ) → IsUnknown id conn.serving.0.rpc_respondable_session.routing
    pub is_empty : conn.serving.0.rpc_request_queue ≡ []
    pub routes_nothing :
        endpoint.stream_handlers ≡ []
        → conn.serving.0.rpc_respondable_session.routing.stream_method_router ≡ none

  AreAtRest-AreReady :
      (conn : Connection R S C V H U)
      → AreAtRest conn
      → AreReady endpoint.stream_handlers conn.caller conn.serving.0
  AreAtRest-AreReady conn rests = record {
    takes_call = rests.endpoint_rests _;
    unknown = rests.unknown _;
    is_empty = rests.is_empty;
    routes_nothing = rests.routes_nothing;
    takes_response = rests.caller_rests _;
    no_router = rests.no_router;
  }

  abbrev pub Returns : Call H → Connection R S C V H U → Type 0
  Returns c conn =
      CallReturns on_response on_stream run encode lossy invoke_caller c.method c.args c.on_result
        conn.caller conn.heard conn.counter endpoint context conn.serving

  pub Fits-Returns :
      (c : Call H) (conn : Connection R S C V H U)
      → Fits run encode lossy endpoint context c
      → AreAtRest conn
      → Returns c conn
  Fits-Returns c conn fits rests =
      call-returns on_response on_stream run encode lossy invoke_caller c.method c.args c.on_result
        conn.caller conn.heard conn.counter endpoint context conn.serving.0 conn.serving.1
        conn.serving.2 fits.method_fits fits.args_fit fits.reply_fits fits.no_stream
        (AreAtRest-AreReady conn rests)

  -- What an exchange is where the call returns.
  pub exchange_lem :
      (c : Call H) (conn : Connection R S C V H U) (r : Returns c conn)
      → exchange c conn ≡ record {
        caller = r.after;
        heard = calls invoke_caller c.on_result r.events conn.heard;
        counter = (called c.method c.args c.on_result conn.caller conn.counter).2;
        serving =
            (Reading.read_bytes on_response on_stream run encode
              (joined r.call.encoder.emitted)
              context
              endpoint
              conn.serving).1;
      }
  unfolding exchange
  exchange_lem c conn r = rw (r.is_sent, r.is_answered, append-nil, r.is_read)

  -- Behind a call that has returned nothing is under way, where nothing was before it.
  exchange-AreAtRest :
      (c : Call H) (conn : Connection R S C V H U)
      → Returns c conn
      → AreAtRest conn
      → AreAtRest (exchange c conn)
  exchange-AreAtRest c conn r rests = rw (exchange_lem c conn r) (record {
    caller_rests = r.caller_rests rests.caller_rests;
    no_router = r.no_router;
    endpoint_rests = r.endpoint_rests.at_rest (
        install_router-IsAtRest context endpoint.stream_handlers conn.serving.0
          rests.endpoint_rests);
    unknown = λ id. rw r.endpoint_rests.same_routing (
        install_router-IsUnknown context endpoint.stream_handlers conn.serving.0 id
          (rests.unknown id));
    is_empty = r.endpoint_rests.is_empty;
    routes_nothing = λ e. rw r.endpoint_rests.same_routing (
        ap
          (λ (d : RpcDispatcher (EndpointHandler R S C) (Shared V)).
            d.rpc_respondable_session.routing.stream_method_router)
          (install_router_nothing context endpoint.stream_handlers conn.serving.0 e)
        ∙ rests.routes_nothing e);
  })

  -- The calls return, one after the other: each hands its handler, on what the handlers before it
  -- have made, events that are what its method gives for its arguments.
  abbrev pub AllReturn : List (Call H) → Connection R S C V H U → Type 0
  AllReturn [] conn = Unit
  AllReturn (c ∷ cs) conn =
      (r : Returns c conn) × ((exchange c conn).heard
        ≡ calls invoke_caller c.on_result r.events conn.heard)
      × AllReturn cs (exchange c conn)

  AreAtRest-AllReturn :
      (cs : List (Call H)) (conn : Connection R S C V H U)
      → All (Fits run encode lossy endpoint context) cs
      → AreAtRest conn
      → AllReturn cs conn
  AreAtRest-AllReturn [] conn fits rests = tt
  AreAtRest-AllReturn (c ∷ cs) conn fits rests =
      let r = Fits-Returns c conn fits.0 rests in
      (
        r,
        ap (λ (next : Connection R S C V H U). next.heard) (exchange_lem c conn r),
        AreAtRest-AllReturn cs (exchange c conn) fits.1 (exchange-AreAtRest c conn r rests),
      )

  pub opened-AreAtRest :
      (a b : ℕ) (heard : U) (shared : Shared V) (counter counter' : ℕ)
      → AreAtRest (opened a b heard shared counter counter')
  unfolding get Dispatcher.new Dispatcher.new_with_id_space
  opened-AreAtRest a b heard shared counter counter' = record {
    caller_rests = λ k. record { no_bytes = refl; no_stream = refl; no_decoder = refl };
    no_router = refl;
    endpoint_rests = λ k. record { no_bytes = refl; no_stream = refl; no_decoder = refl };
    unknown = λ id. record { no_handler = refl; no_flag = refl; no_buffer = refl; catches = refl };
    is_empty = refl;
    routes_nothing = λ e. refl;
  }

  -- On a new connection whose calling side reads by its dispatcher and has no router, whatever the
  -- counters, any number of prebuffered calls of which each is made when the one before it has
  -- returned all return, where each method id fits 64 bits, its arguments and response fit a
  -- stream, and the method has no streaming handler at the endpoint: each is sent, is answered by
  -- one response, and hands its handler, on what the handlers before it have made, events of which
  -- a buffered call makes the handler's bytes, where it succeeds, and where it fails the error that
  -- the caller reads from the status and the payload of the response (no message for a handler's
  -- failure, and for a system error its payload read as text, which of a structured error is the
  -- encoded form), or an error that the method was not found.
  pub opened-AllReturn :
      (cs : List (Call H)) (a b : ℕ) (heard : U) (shared : Shared V) (counter counter' : ℕ)
      → All (Fits run encode lossy endpoint context) cs
      → AllReturn cs (opened a b heard shared counter counter')
  opened-AllReturn cs a b heard shared counter counter' fits =
      AreAtRest-AllReturn cs (opened a b heard shared counter counter') fits
        (opened-AreAtRest a b heard shared counter counter')
