-- ===== src/Service/Call.antt =====
-- A prebuffered call from end to end: the caller's arguments to the handler, and the handler's
-- result to the caller.
pub mod Arrival
pub mod Answered
pub mod Ready
pub mod Returns
pub mod Client
pub mod Sequence
pub mod Batch
use rust_muxio.Prelude.{
  ℕ, ◌≡◌, refl, ap, ◌∙◌, true, false, Option, none, some, List, [], ◌∷◌, is_empty, if◌then◌else◌,
  leb, length, if_cases, Result, ok, err,
}
use rust_muxio.Rpc.Types.{RpcHeader, RpcRequest, call}
use rust_muxio.Rpc.Respondable.{or_default}
use rust_muxio.Rpc.StreamDecoder.Events.{join}
use rust_muxio.Rpc.Dispatcher.{Queue, contains_request, find_request, non_empty, response_header}
use rust_muxio.Rpc.Dispatcher.Sending.{message_events}
use rust_muxio.Rpc.Dispatcher.Requests.{
  queue_all, queue_all-message_events, collected, request_so_far, find_request-append,
}
use rust_muxio.Service.ResultStatus.{
  RpcResultStatus, success, system_error, method_not_found, status_to_u8,
  status_try_from-status_to_u8,
}
use rust_muxio.Service.Error.{HandlerError, structured, other, RpcServiceErrorPayload}
use rust_muxio.Service.Endpoint.{
  args_for_handler, status_of, response_for, process_with, default_service_max_chunk_size,
}
use rust_muxio.Service.Caller.{
  Delivery, request_for, result_status, status_or_success, recv_all, consume, fresh,
}
use rust_muxio.Service.Caller.Answer.{answer, recv_all-answer}

or_default-non_empty : (m : List ℕ) → or_default [] (non_empty m) ≡ m
unfolding non_empty
or_default-non_empty [] = refl
or_default-non_empty (b ∷ m) = refl

or_default-collected : (cs : List (List ℕ)) → or_default [] (collected cs) ≡ join cs
or_default-collected [] = refl
or_default-collected (c ∷ cs) = refl

-- The header that `call` makes for a request.
abbrev pub call_header : ℕ → RpcRequest → RpcHeader
call_header id request = record {
  rpc_msg_type = call;
  rpc_request_id = id;
  rpc_method_id = request.rpc_method_id;
  rpc_metadata_bytes = or_default [] request.rpc_param_bytes;
}

empty_or : (xs : List ℕ) → (if is_empty xs then [] else xs) ≡ xs
empty_or [] = refl
empty_or (x ∷ xs) = refl

pub args_for_handler-request_so_far :
    (h : RpcHeader) (cs : List (List ℕ))
    → args_for_handler (request_so_far h (collected cs) true)
      ≡ (if is_empty (join cs) then h.rpc_metadata_bytes else join cs)
unfolding args_for_handler
args_for_handler-request_so_far h cs =
    rw (or_default-collected cs, or_default-non_empty h.rpc_metadata_bytes)

-- What a handler gets of a request in one piece or the other.
abbrev pub Gets : List ℕ → RpcRequest → Type 0
Gets args request =
    (cs : List (List ℕ))
    → join cs ≡ or_default [] request.rpc_prebuffered_payload_bytes
    → (if is_empty (join cs) then or_default [] request.rpc_param_bytes else join cs) ≡ args

pub request_for-Gets : (method : ℕ) (args : List ℕ) → Gets args (request_for method args)
unfolding request_for
request_for-Gets method args =
    if_cases (Gets args) (leb default_service_max_chunk_size (length args)) _ _
      (λ large cs e. rw e (empty_or args)) (λ small cs e. rw e)

-- The arguments of a prebuffered call, of any size, reach its handler: the events of the call, in
-- whatever chunks its payload comes, leave a finalized request of the method under its id, where
-- that is new, and the handler's arguments are those of the caller.
pub request_for-args_for_handler :
    (id method : ℕ) (args : List ℕ) (cs : List (List ℕ)) (q : Queue)
    → contains_request id q ≡ false
    → join cs ≡ or_default [] (request_for method args).rpc_prebuffered_payload_bytes
    → (r : RpcRequest) × (find_request id
          (queue_all (message_events (call_header id (request_for method args)) cs) q)
        ≡ some r)
      × (r.is_finalized ≡ true)
      × (r.rpc_method_id ≡ (request_for method args).rpc_method_id)
      × (args_for_handler r ≡ args)
request_for-args_for_handler id method args cs q new e =
    let h = call_header id (request_for method args) in
    (
      request_so_far h (collected cs) true,
      ap (find_request id) (queue_all-message_events h cs q new)
          ∙ find_request-append id q (request_so_far h (collected cs) true) new,
      refl,
      refl,
      args_for_handler-request_so_far h cs ∙ request_for-Gets method args cs e,
    )

-- What a caller gets of a handler's result; `none` is a method that has no handler.
unfoldable pub expected :
    (List ℕ → List ℕ)
    → (RpcServiceErrorPayload → List ℕ)
    → Option (Result HandlerError (List ℕ))
    → Delivery
expected lossy encode none = answer lossy method_not_found []
expected lossy encode (some (ok encoded)) = ok encoded
expected lossy encode (some (err (structured payload))) =
    answer lossy (status_of payload.code) (encode payload)
expected lossy encode (some (err (other text))) = answer lossy system_error text

result_status-status_to_u8 : (s : RpcResultStatus) → result_status (status_to_u8 s ∷ []) ≡ s
unfolding result_status status_or_success
result_status-status_to_u8 s = ap status_or_success (status_try_from-status_to_u8 s)

-- The answer to a response with a status, in whatever chunks its payload comes.
answer_to :
    (lossy : List ℕ → List ℕ) (id method : ℕ) (s : RpcResultStatus) (payload : Option (List ℕ))
    (cs : List (List ℕ))
    → join cs ≡ or_default [] payload
    → consume
        (recv_all lossy
          (message_events
            (response_header (record {
              rpc_request_id = id;
              rpc_method_id = method;
              rpc_result_status = some (status_to_u8 s);
              rpc_prebuffered_payload_bytes = payload;
              is_finalized = true;
            }))
            cs)
          fresh).sent
        []
      ≡ answer lossy s (or_default [] payload)
answer_to lossy id method s payload cs e =
    recv_all-answer lossy _ cs ∙ rw (result_status-status_to_u8 s, e)

module _ {P C : Type 0} (run : P → List ℕ → C → Result HandlerError (List ℕ))
    (encode : RpcServiceErrorPayload → List ℕ) (lossy : List ℕ → List ℕ) where
  abbrev pub handled : Option P → List ℕ → C → Option (Result HandlerError (List ℕ))
  handled none args context = none
  handled (some h) args context = some (run h args context)

  -- The response to a request, sent in whatever chunks, gives the caller what the method's handler
  -- returns for the request's arguments: its bytes; the error of its code; or "method not found".
  pub process_with-expected :
      (handler : Option P) (context : C) (id : ℕ) (request : RpcRequest) (cs : List (List ℕ))
      → join cs
        ≡ or_default []
            (process_with run encode handler context id request).rpc_prebuffered_payload_bytes
      → consume
          (recv_all lossy
            (message_events
              (response_header (process_with run encode handler context id request))
              cs)
            fresh).sent
          []
        ≡ expected lossy encode (handled handler (args_for_handler request) context)
  unfolding process_with expected response_for
  process_with-expected none context id request cs e =
      answer_to lossy id request.rpc_method_id method_not_found none cs e
  process_with-expected (some h) context id request cs e =
      go (run h (args_for_handler request) context) e
    where
      go :
          (r : Result HandlerError (List ℕ))
          → join cs
            ≡ or_default [] (response_for run encode id request r).rpc_prebuffered_payload_bytes
          → consume
              (recv_all lossy
                (message_events (response_header (response_for run encode id request r)) cs)
                fresh).sent
              []
            ≡ expected lossy encode (some r)
      go (ok encoded) e = answer_to lossy id request.rpc_method_id success (some encoded) cs e
      go (err (structured payload)) e =
          answer_to lossy id request.rpc_method_id (status_of payload.code) (some (encode payload))
            cs e
      go (err (other text)) e =
          answer_to lossy id request.rpc_method_id system_error (some text) cs e
