-- ===== src/Service/EndpointExamples.antt =====
-- The theorems of the endpoint, of a whole call and of the caller's channel at concrete inputs.
use rust_muxio.Prelude.{
  ℕ, ◌+◌, ◌≡◌, refl, Bool, true, false, none, some, List, [], ◌∷◌, ◌++◌, arith, length, ltb, All,
  if◌then◌else◌, take, Result, ok,
}
use rust_muxio.Prelude.Map.{get}
use rust_muxio.Rpc.IdSpace.{server, place, marker}
use rust_muxio.Rpc.Types.{RpcHeader, RpcRequest, RpcStreamEvent, response}
use rust_muxio.Frame.Decoder
use rust_muxio.Rpc.Session
use rust_muxio.Rpc.Respondable
use rust_muxio.Rpc.Dispatcher
use rust_muxio.Rpc.Dispatcher.{RpcDispatcher}
use rust_muxio.Rpc.StreamDecoder.Events.{join}
use rust_muxio.Rpc.Dispatcher.Sending.{message_events}
use rust_muxio.Service.Error.{HandlerError, RpcServiceErrorPayload}
use rust_muxio.Service.ResultStatus.{status_try_from}
use rust_muxio.Service.Caller.{result_status, Delivery, consume, fresh}
use rust_muxio.Service.Caller.DynamicChannel.{
  BoundedChannel, bounded_type, new_channel, waiting, on_events,
}
use rust_muxio.Service.Caller.DynamicChannel.Room.{on_events-room}
use rust_muxio.Service.Endpoint.{
  RpcServiceEndpoint, collect_finalized, process_single_prebuffered_request, process_with,
  response_for, args_for_handler,
}
use rust_muxio.Service.Endpoint.Reading
use rust_muxio.Service.Endpoint.Reading.{EndpointState, EndpointHandler, Shared, decode_bytes}
use rust_muxio.Service.Endpoint.Answering.{Attempt, Fits, AllAnswered, read_bytes-AllAnswered}
use rust_muxio.Service.Call.Ready.{new-AreReady}
use rust_muxio.Service.Call.Sequence
use rust_muxio.Service.Call.Batch.{AreDistinct, ids_of, exchange_all}
use rust_muxio.Service.Call.Batch.Heard.{AllHeard}
use rust_muxio.Service.Call.Batch.Returns.{exchange_all-AllHeard}
use rust_muxio.Service.Call.Sequence.{opened-AreAtRest, Call, AllReturn, opened, opened-AllReturn}
use rust_muxio.Service.Call.Returns.{CallReturns, call-returns}
use rust_muxio.Transport.Program.{Program}
use rust_muxio.Transport.ReadLoop.{on_bytes_amid}
use rust_muxio.Transport.ReadLoop.Answers.{on_bytes_amid-AllAnswered}
use rust_muxio.Service.Call.Client.{read_bytes-CallReturns}
use rust_muxio.Service.Call.Returns.{called}
use rust_muxio.Service.Endpoint.Reading.{invoke, call_handler}
use rust_muxio.Frame.Delivery.{joined}
use rust_muxio.Rpc.Dispatcher.Receiving.{calls}

-- A channel that holds two items.
abbrev two_items : BoundedChannel (List Delivery)
two_items = record {
  try_send = λ item q. if ltb (length q) 2 then (true, q ++ item ∷ []) else (false, q);
  poll_next = λ q. elim q [ [] ↦ (none, []) | x ∷ xs ↦ (some x, xs) ];
  contents = λ q. q;
  capacity = 2;
}

two_items-try_send :
    (item : Delivery) (q : List Delivery)
    → (two_items.try_send item q).1 ≡ (if ltb (length q) 2 then q ++ item ∷ [] else q)
two_items-try_send item q = ground arith

abbrev a_response : RpcHeader
a_response = record {
  rpc_msg_type = response;
  rpc_request_id = 5;
  rpc_method_id = 6;
  rpc_metadata_bytes = 0 ∷ [];
}

-- Of three chunks the reader gets two.
on_events-room_example :
    consume
      (waiting two_items
        (on_events two_items
          (λ b. b)
          (message_events a_response ((7 ∷ []) ∷ (8 ∷ []) ∷ (9 ∷ []) ∷ []))
          (fresh, new_channel (λ n. []) bounded_type)).1)
      []
    ≡ ok (join (take 2 ((7 ∷ []) ∷ (8 ∷ []) ∷ (9 ∷ []) ∷ [])))
unfolding result_status status_try_from
on_events-room_example =
    on_events-room two_items (record { try_send_lem = two_items-try_send }) (λ b. b) bounded_type
      (λ n. []) a_response ((7 ∷ []) ∷ (8 ∷ []) ∷ (9 ∷ []) ∷ []) refl refl

abbrev an_endpoint : RpcServiceEndpoint ℕ ℕ
an_endpoint = record { prebuffered_handlers = (6, 60) ∷ []; stream_handlers = (8, 80) ∷ [] }

abbrev count_response : ℕ → RpcStreamEvent → ℕ → ℕ
count_response h e v = v + h

abbrev count_stream : ℕ → RpcStreamEvent → ℕ → ℕ → List (List ℕ × Bool) × ℕ
count_stream h e c v = ([], v + h)

-- A handler that gives its arguments back.
abbrev give_back : ℕ → List ℕ → ℕ → Result HandlerError (List ℕ)
give_back h args c = ok args

abbrev encode_payload : RpcServiceErrorPayload → List ℕ
encode_payload p = p.message

abbrev a_request : RpcRequest
a_request = record {
  rpc_method_id = 6;
  rpc_param_bytes = some (1 ∷ 2 ∷ []);
  rpc_prebuffered_payload_bytes = none;
  is_finalized = true;
}

abbrev a_dispatcher : RpcDispatcher (EndpointHandler ℕ ℕ ℕ) (Shared ℕ)
a_dispatcher = (Dispatcher.new_with_id_space server 7).0

abbrev shared : Shared ℕ
shared = record { responders = []; pending = []; user_state = 0 }

-- A finalized request is in the queue.
abbrev before_read : EndpointState ℕ ℕ ℕ ℕ
before_read = (record a_dispatcher { rpc_request_queue = (5, a_request) ∷ [] }, shared, 9)

abbrev decoded : EndpointState ℕ ℕ ℕ ℕ
decoded = (decode_bytes count_response count_stream [] 0 an_endpoint before_read).1

request_decoded :
    decode_bytes count_response count_stream [] 0 an_endpoint before_read
    ≡ (ok ((5, a_request) ∷ []), decoded)
unfolding decode_bytes Dispatcher.read_bytes Respondable.read_bytes Session.read_bytes
    Session.read_items Decoder.read_bytes Decoder.read_loop Dispatcher.new_with_id_space
    collect_finalized Dispatcher.is_rpc_request_finalized Dispatcher.find_request
    Dispatcher.delete_rpc_request Respondable.set_stream_method_router
request_decoded = refl

a_request-Fits : Fits give_back encode_payload 0 an_endpoint 5 a_request
unfolding get process_single_prebuffered_request process_with response_for args_for_handler
a_request-Fits = record {
  id_fits = omega arith;
  method_fits = omega arith;
  payload_fits = omega arith;
}

read_bytes-AllAnswered_example :
    let after =
      Reading.read_bytes count_response count_stream give_back encode_payload [] 0 an_endpoint
        before_read in
    (attempts : List Attempt) × (after.0 ≡ ok attempts)
    × AllAnswered give_back encode_payload 0 an_endpoint
        (λ b. b)
        decoded.0.rpc_respondable_session.rpc_session.id_space
        decoded.0.rpc_respondable_session.rpc_session.next_stream_id
        decoded.2
        ((5, a_request) ∷ [])
        attempts
    × (after.1.1 ≡ decoded.1)
read_bytes-AllAnswered_example =
    read_bytes-AllAnswered count_response count_stream give_back encode_payload an_endpoint (λ b. b)
      [] 0 before_read ((5, a_request) ∷ []) decoded request_decoded (a_request-Fits, tt)

-- The same closures as a program, and another task that takes an id of the counter meanwhile.
abbrev a_client : Program ℕ ℕ ℕ ℕ ℕ
a_client = record {
  on_response = count_response;
  on_stream = count_stream;
  run = give_back;
  encode_payload = encode_payload;
  endpoint = an_endpoint;
}

abbrev takes_id : EndpointState ℕ ℕ ℕ ℕ → EndpointState ℕ ℕ ℕ ℕ
takes_id (d, u, counter) = (d, u, counter + 1)

on_bytes_amid-AllAnswered_example :
    let amid = takes_id decoded in
    let after = on_bytes_amid a_client 0 takes_id [] before_read in
    AllAnswered give_back encode_payload 0 an_endpoint
      (λ b. b)
      amid.0.rpc_respondable_session.rpc_session.id_space
      amid.0.rpc_respondable_session.rpc_session.next_stream_id
      amid.2
      ((5, a_request) ∷ [])
      after.0
    × (after.1.1 ≡ amid.1)
    × (after.1.0.rpc_respondable_session.routing ≡ amid.0.rpc_respondable_session.routing)
    × (after.1.0.rpc_request_queue ≡ amid.0.rpc_request_queue)
on_bytes_amid-AllAnswered_example =
    on_bytes_amid-AllAnswered a_client 0 (λ b. b) takes_id [] before_read ((5, a_request) ∷ [])
      decoded request_decoded (a_request-Fits, tt)

abbrev a_caller : RpcDispatcher ℕ ℕ
a_caller = (Dispatcher.new 3).0

call-returns_example :
    CallReturns count_response count_stream give_back encode_payload
      (λ b. b)
      count_response
      6
      (1 ∷ 2 ∷ [])
      1
      a_caller
      0
      6
      an_endpoint
      0
      (a_dispatcher, shared, 9)
unfolding get
call-returns_example =
    call-returns count_response count_stream give_back encode_payload (λ b. b) count_response 6
      (1 ∷ 2 ∷ []) 1 a_caller 0 6 an_endpoint 0 a_dispatcher shared 9 (omega arith) (omega arith)
      (omega arith) refl (new-AreReady an_endpoint.stream_handlers 3 7)

-- A client with an endpoint that has no handlers.
abbrev its_endpoint : RpcServiceEndpoint ℕ ℕ
its_endpoint = record { prebuffered_handlers = []; stream_handlers = [] }

abbrev a_client_dispatcher : RpcDispatcher (EndpointHandler ℕ ℕ ℕ) (Shared ℕ)
a_client_dispatcher = (Dispatcher.new 3).0

read_bytes-CallReturns_example :
    (r : CallReturns count_response count_stream give_back encode_payload
      (λ b. b)
      (invoke count_response count_stream)
      6
      (1 ∷ 2 ∷ [])
      (call_handler 1)
      a_client_dispatcher
      shared
      6
      an_endpoint
      0
      (a_dispatcher, shared, 9))
    × (Reading.read_bytes count_response count_stream give_back encode_payload
          (joined r.reply.encoder.emitted)
          0
          its_endpoint
          ((called 6 (1 ∷ 2 ∷ []) (call_handler 1) a_client_dispatcher 6).1, shared, 7)
        ≡ (
          ok [],
          (r.after, calls (invoke count_response count_stream) (call_handler 1) r.events shared, 7),
        ))
unfolding get Dispatcher.new
read_bytes-CallReturns_example =
    read_bytes-CallReturns count_response count_stream give_back encode_payload count_response
      count_stream give_back encode_payload (λ b. b) 6 (1 ∷ 2 ∷ []) 1 its_endpoint 0
      a_client_dispatcher shared 6 an_endpoint 0 a_dispatcher shared 9 7 (omega arith) (omega arith)
      (omega arith) refl (new-AreReady an_endpoint.stream_handlers 3 7) refl refl refl

-- Of the first call the method gives its arguments back, and the second has no handler.
abbrev two_calls : List (Call ℕ)
two_calls =
    record { method = 6; args = 1 ∷ 2 ∷ []; on_result = 1 }
    ∷ record { method = 9; args = []; on_result = 2 }
    ∷ []

two_calls-AllFit : All (Sequence.Fits give_back encode_payload (λ b. b) an_endpoint 0) two_calls
unfolding get
two_calls-AllFit = (
  record {
    method_fits = omega arith;
    args_fit = omega arith;
    reply_fits = omega arith;
    no_stream = refl;
  },
  (
    record {
      method_fits = omega arith;
      args_fit = omega arith;
      reply_fits = omega arith;
      no_stream = refl;
    },
    tt,
  ),
)

opened-AllReturn_example :
    AllReturn count_response count_stream give_back encode_payload
      (λ b. b)
      count_response
      an_endpoint
      0
      two_calls
      (opened 3 7 0 shared 6 9)
opened-AllReturn_example =
    opened-AllReturn count_response count_stream give_back encode_payload (λ b. b) count_response
      an_endpoint 0 two_calls 3 7 0 shared 6 9 two_calls-AllFit

two_calls-AreDistinct : AreDistinct (
    ids_of two_calls
      (opened {R = ℕ} {S = ℕ} {C = ℕ} {V = ℕ} {H = ℕ} {U = ℕ} 3 7 0 shared 6 9).caller
      6)
unfolding Dispatcher.start_call Dispatcher.new place marker
two_calls-AreDistinct = ((refl, tt), (tt, tt))

exchange_all-AllHeard_example :
    AllHeard give_back encode_payload
      (λ b. b)
      an_endpoint
      0
      count_response
      two_calls
      0
      (exchange_all count_response count_stream give_back encode_payload count_response an_endpoint
        0 two_calls
        (opened 3 7 0 shared 6 9)).heard
exchange_all-AllHeard_example =
    exchange_all-AllHeard count_response count_stream give_back encode_payload (λ b. b)
      count_response an_endpoint 0 two_calls (opened 3 7 0 shared 6 9) two_calls-AllFit
      two_calls-AreDistinct
      (opened-AreAtRest count_response count_stream give_back encode_payload (λ b. b) count_response
        an_endpoint 0 3 7 0 shared 6 9)
