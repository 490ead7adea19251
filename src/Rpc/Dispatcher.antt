-- ===== src/Rpc/Dispatcher.antt =====
-- core/src/rpc/rpc_dispatcher.rs: `RpcDispatcher`. A response handler of the program that uses the
-- dispatcher is a value of a type `H`; what these closures share is a state of type `U`, and
-- `invoke` runs one. The request queue is shared with the catch-all handler: it goes with `U`.
-- Poisoned locks are left out: no callback panics.
mod Queues
unfoldable pub use Queues.*
pub mod Sending
pub mod Requests
pub mod Interleaved
pub mod Receiving
pub mod Whole
pub mod Several
pub mod Failing
use rust_muxio.Prelude.{
  ℕ, Bool, true, false, Option, none, some, List, [], ◌∷◌, ◌++◌, map, ◌==◌, ◌||◌, if◌then◌else◌,
  Result, ok, err, Exec, ◌>>=◌, ◌>>◌, pure,
}
use rust_muxio.Prelude.Map.{Map}
use rust_muxio.Frame.Types.{FrameDecodeError, FrameEncodeError}
use rust_muxio.Rpc.Types.{
  RpcHeader, RpcStreamEvent, header, end, error, call, response, RpcRequest, RpcResponse,
}
use rust_muxio.Rpc.IdSpace.{IdSpace, client, place, increment_u32_id}
use rust_muxio.Rpc.StreamEncoder
use rust_muxio.Rpc.StreamEncoder.{RpcStreamEncoder}
use rust_muxio.Rpc.Respondable
use rust_muxio.Rpc.Respondable.{RpcRespondableSession, or_default}

-- The queue of a dispatcher and the state of its user's closures.
abbrev pub World : Type 0 → Type 0
World U = Queue × U

-- The handlers that a dispatcher's session knows: its own, and the user's.
pub data Handler (H : Type 0) : Type 0 where
  catch_all : Handler H
  user : H → Handler H

-- What is sent on a new stream right behind its header.
unfoldable pub send_payload : Option (List ℕ) → Exec RpcStreamEncoder FrameEncodeError (Unit {0})
send_payload none = pure tt
send_payload (some bytes) = do StreamEncoder.write_bytes bytes; pure tt

unfoldable pub finish : Bool → Exec RpcStreamEncoder FrameEncodeError (Unit {0})
finish false = pure tt
finish true = do StreamEncoder.flush; StreamEncoder.end_stream; pure tt

unfoldable pub sent :
    Option (Result FrameEncodeError (Unit {0}) × RpcStreamEncoder)
    → Option (Result FrameEncodeError RpcStreamEncoder)
sent none = none
sent (some (ok u, e)) = some (ok e)
sent (some (err x, e)) = some (err x)

-- The encoder after the payload and the end, or the first error.
unfoldable pub send_on :
    Option (List ℕ)
    → Bool
    → Option (Result FrameEncodeError RpcStreamEncoder)
    → Option (Result FrameEncodeError RpcStreamEncoder)
send_on payload is_finalized none = none
send_on payload is_finalized (some (err x)) = some (err x)
send_on payload is_finalized (some (ok e)) = sent ((do send_payload payload; finish is_finalized) e)

-- The writer of a streaming response: errors are ignored. `none` where a call does not return.
unfoldable pub ignore_error :
    Option (Result FrameEncodeError ℕ × RpcStreamEncoder) → Option RpcStreamEncoder
ignore_error none = none
ignore_error (some (r, e)) = some e

unfoldable pub and_then_on :
    Option RpcStreamEncoder → (RpcStreamEncoder → Option RpcStreamEncoder) → Option RpcStreamEncoder
and_then_on none f = none
and_then_on (some e) f = f e

unfoldable pub response_writer : List ℕ → Bool → RpcStreamEncoder → Option RpcStreamEncoder
response_writer chunk is_finalized e =
    and_then_on (ignore_error (StreamEncoder.write_bytes chunk e)) λ e1.
      and_then_on (ignore_error (StreamEncoder.flush e1))
        λ e2. if is_finalized then ignore_error (StreamEncoder.end_stream e2) else some e2

abbrev pub status_bytes : Option ℕ → List ℕ
status_bytes none = []
status_bytes (some status) = status ∷ []

abbrev pub user_handler : {H : Type 0} → Option H → Option (Handler H)
user_handler none = none
user_handler (some h) = some (user h)

abbrev pub response_header : RpcResponse → RpcHeader
response_header r = record {
  rpc_msg_type = response;
  rpc_request_id = r.rpc_request_id;
  rpc_method_id = r.rpc_method_id;
  rpc_metadata_bytes = status_bytes r.rpc_result_status;
}

pub record RpcDispatcher (H U : Type 0) : Type 0 where
  pub rpc_respondable_session : RpcRespondableSession (Handler H) (World U)
  pub id_space : IdSpace
  pub next_rpc_request_id : ℕ
  pub rpc_request_queue : Queue

module _ {H U : Type 0} where
  unfoldable pub new_with_id_space : IdSpace → ℕ → RpcDispatcher H U × ℕ
  unfolding Respondable.new increment_u32_id Respondable.set_catch_all_response_handler
  new_with_id_space id_space counter =
      let (session, counter1) = Respondable.new {H = Handler H} {W = World U} id_space counter in
      let (id, counter2) = increment_u32_id counter1 in
      (
        record {
          rpc_respondable_session = Respondable.set_catch_all_response_handler catch_all session;
          id_space = id_space;
          next_rpc_request_id = id;
          rpc_request_queue = [];
        },
        counter2,
      )

  unfoldable pub new : ℕ → RpcDispatcher H U × ℕ
  unfolding new_with_id_space
  new counter = new_with_id_space client counter

  -- `call`: the result, the dispatcher and the global counter.
  unfoldable pub start_call :
      RpcRequest
      → ℕ
      → Option H
      → Bool
      → RpcDispatcher H U
      → ℕ
      → Option (Result FrameEncodeError RpcStreamEncoder) × RpcDispatcher H U × ℕ
  unfolding increment_u32_id Respondable.init_respondable_request
  start_call request max_chunk_size on_response prebuffer_response d counter =
      let (id, counter1) = increment_u32_id counter in
      let h : RpcHeader = record {
        rpc_msg_type = call;
        rpc_request_id = place d.id_space d.next_rpc_request_id;
        rpc_method_id = request.rpc_method_id;
        rpc_metadata_bytes = or_default [] request.rpc_param_bytes;
      } in
      let (e, session, counter2) =
        Respondable.init_respondable_request h max_chunk_size (user_handler on_response)
          prebuffer_response d.rpc_respondable_session counter1 in
      (
        send_on request.rpc_prebuffered_payload_bytes request.is_finalized e,
        record d { rpc_respondable_session = session; next_rpc_request_id = id },
        counter2,
      )

  unfoldable pub respond :
      RpcResponse
      → ℕ
      → RpcDispatcher H U
      → ℕ
      → Option (Result FrameEncodeError RpcStreamEncoder) × RpcDispatcher H U × ℕ
  unfolding Respondable.start_reply_stream
  respond r max_chunk_size d counter =
      let (e, session, counter') =
        Respondable.start_reply_stream (response_header r) max_chunk_size d.rpc_respondable_session
          counter in
      (
        send_on r.rpc_prebuffered_payload_bytes r.is_finalized e,
        record d { rpc_respondable_session = session },
        counter',
      )

  -- The encoder that the writer, `response_writer`, owns.
  unfoldable pub create_response_writer :
      ℕ
      → ℕ
      → RpcDispatcher H U
      → ℕ
      → Option (Result FrameEncodeError RpcStreamEncoder) × RpcDispatcher H U × ℕ
  unfolding Respondable.start_reply_stream
  create_response_writer request_id max_chunk_size d counter =
      let h : RpcHeader = record {
        rpc_msg_type = response;
        rpc_request_id = request_id;
        rpc_method_id = 0;
        rpc_metadata_bytes = 0 ∷ [];
      } in
      let (e, session, counter') =
        Respondable.start_reply_stream h max_chunk_size d.rpc_respondable_session counter in
      (e, record d { rpc_respondable_session = session }, counter')

  unfoldable pub set_stream_method_router :
      (ℕ → ℕ → World U → Option (Handler H) × World U) → RpcDispatcher H U → RpcDispatcher H U
  set_stream_method_router router d = record d {
    rpc_respondable_session = Respondable.set_stream_method_router router d.rpc_respondable_session;
  }

  unfoldable pub get_rpc_request : ℕ → RpcDispatcher H U → Option Queue
  get_rpc_request id d =
      if contains_request id d.rpc_request_queue then some d.rpc_request_queue else none

  unfoldable pub is_rpc_request_finalized : ℕ → RpcDispatcher H U → Option Bool
  is_rpc_request_finalized id d = elim (find_request id d.rpc_request_queue) [
    | none ↦ none
    | some r ↦ some r.is_finalized
  ]

  unfoldable pub delete_rpc_request : ℕ → RpcDispatcher H U → Option RpcRequest × RpcDispatcher H U
  delete_rpc_request id d = (
    find_request id d.rpc_request_queue,
    record d { rpc_request_queue = remove_first id d.rpc_request_queue },
  )

  module _ (invoke : H → RpcStreamEvent → U → U) where
    unfoldable pub run_handler : Handler H → RpcStreamEvent → World U → World U
    run_handler catch_all evt (q, u) = (on_queue evt q, u)
    run_handler (user h) evt (q, u) = (q, invoke h evt u)

    -- On success the ids of the requests in the queue.
    unfoldable pub read_bytes :
        List ℕ → RpcDispatcher H U → U → Result FrameDecodeError (List ℕ) × RpcDispatcher H U × U
    read_bytes bytes d u =
        let (r, session, w) =
          Respondable.read_bytes run_handler bytes d.rpc_respondable_session
            (d.rpc_request_queue, u) in
        let d' = record d { rpc_respondable_session = session; rpc_request_queue = w.0 } in
        elim r [ ok _ ↦ (ok (map (λ p. p.0) w.0), d', w.1) | err e ↦ (err e, d', w.1) ]

    -- The handlers that were taken are each called with an error for their request.
    unfoldable pub fail_handlers : FrameDecodeError → Map (Handler H) → World U → World U
    unfolding run_handler
    fail_handlers e [] w = w
    fail_handlers e ((id, h) ∷ rest) w =
        fail_handlers e rest (run_handler h (error none (some id) none e) w)

    unfoldable pub fail_all_pending_requests :
        FrameDecodeError → RpcDispatcher H U → U → RpcDispatcher H U × U
    unfolding Respondable.clear_all_prebuffering
    fail_all_pending_requests e d u =
        let handlers = d.rpc_respondable_session.routing.response_handlers in
        let s = d.rpc_respondable_session in
        let taken = record s { routing = record s.routing { response_handlers = [] } } in
        let (q, u') = fail_handlers e handlers ([], u) in
        (
          record d {
            rpc_respondable_session = Respondable.clear_all_prebuffering taken;
            rpc_request_queue = q;
          },
          u',
        )
