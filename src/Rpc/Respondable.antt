-- ===== src/Rpc/Respondable.antt =====
-- core/src/rpc/rpc_internals/rpc_respondable_session.rs: `RpcRespondableSession`. A response
-- handler is a value of a type `H`; the closures that handlers stand for share a state of type `W`,
-- and `invoke` runs one on an event.
pub mod Cleanup
pub mod Isolation
pub mod Prebuffering
use rust_muxio.Prelude.{
  ℕ, Bool, true, false, Option, none, some, List, [], ◌++◌, length, if◌then◌else◌, Result, ok, err,
}
use rust_muxio.Prelude.Map.{Map, get, insert, remove}
use rust_muxio.Frame.Types.{FrameDecodeError, FrameEncodeError, corrupt_frame, corrupt_frame_encode}
use rust_muxio.Rpc.Types.{RpcHeader, RpcStreamEvent, header, payload_chunk, end, error}
use rust_muxio.Rpc.IdSpace.{IdSpace}
use rust_muxio.Rpc.StreamEncoder.{RpcStreamEncoder}
use rust_muxio.Rpc.Session
use rust_muxio.Rpc.Session.{RpcSession}

-- What the session keeps besides `rpc_session`; the callback of `read_bytes` works on it.
pub record Routing (H W : Type 0) : Type 0 where
  pub response_handlers : Map H
  pub catch_all_response_handler : Option H
  pub prebuffered_responses : Map (List ℕ)
  pub prebuffering_flags : Map Bool
  pub stream_method_router : Option (ℕ → ℕ → W → Option H × W)

pub record RpcRespondableSession (H W : Type 0) : Type 0 where
  pub rpc_session : RpcSession
  pub routing : Routing H W

-- `.map_err(|_| FrameEncodeError::CorruptFrame)`
unfoldable pub as_corrupt :
    Option (Result FrameEncodeError RpcStreamEncoder)
    → Option (Result FrameEncodeError RpcStreamEncoder)
as_corrupt none = none
as_corrupt (some (ok e)) = some (ok e)
as_corrupt (some (err x)) = some (err corrupt_frame_encode)

abbrev pub or_default : {A : Type 0} → A → Option A → A
or_default d none = d
or_default d (some a) = a

abbrev pub event_id : RpcStreamEvent → Option ℕ
event_id (header r m h) = some r
event_id (payload_chunk h r m bytes) = some r
event_id (end h r m) = some r
event_id (error h r m e) = r

abbrev pub event_method : RpcStreamEvent → Option ℕ
event_method (header r m h) = some m
event_method (payload_chunk h r m bytes) = some m
event_method (end h r m) = some m
event_method (error h r m e) = m

-- `matches!(evt, RpcStreamEvent::End { .. } | RpcStreamEvent::Error { .. })`
abbrev pub is_last_event : RpcStreamEvent → Bool
is_last_event (end h r m) = true
is_last_event (error h r m e) = true
is_last_event _ = false

module _ {H W : Type 0} where
  unfoldable pub new : IdSpace → ℕ → RpcRespondableSession H W × ℕ
  unfolding Session.new
  new id_space counter =
      let (s, counter') = Session.new id_space counter in
      (
        record {
          rpc_session = s;
          routing = record {
            response_handlers = [];
            catch_all_response_handler = none;
            prebuffered_responses = [];
            prebuffering_flags = [];
            stream_method_router = none;
          };
        },
        counter',
      )

  unfoldable pub register_response : ℕ → Option H → Bool → Routing H W → Routing H W
  register_response id none prebuffer t = record t {
    prebuffering_flags = insert id prebuffer t.prebuffering_flags;
  }
  register_response id (some on_response) prebuffer t = record t {
    prebuffering_flags = insert id prebuffer t.prebuffering_flags;
    response_handlers = insert id on_response t.response_handlers;
  }

  unfoldable pub start_reply_stream :
      RpcHeader
      → ℕ
      → RpcRespondableSession H W
      → ℕ
      → Option (Result FrameEncodeError RpcStreamEncoder) × RpcRespondableSession H W × ℕ
  unfolding Session.init_request as_corrupt
  start_reply_stream hdr max_chunk_size s counter =
      let (e, t, counter') = Session.init_request hdr max_chunk_size s.rpc_session counter in
      (as_corrupt e, record s { rpc_session = t }, counter')

  unfoldable pub init_respondable_request :
      RpcHeader
      → ℕ
      → Option H
      → Bool
      → RpcRespondableSession H W
      → ℕ
      → Option (Result FrameEncodeError RpcStreamEncoder) × RpcRespondableSession H W × ℕ
  unfolding Session.init_request as_corrupt
  init_respondable_request hdr max_chunk_size on_response prebuffer s counter =
      let t = register_response hdr.rpc_request_id on_response prebuffer s.routing in
      let (e, r, counter') = Session.init_request hdr max_chunk_size s.rpc_session counter in
      (as_corrupt e, record { rpc_session = r; routing = t }, counter')

  unfoldable pub set_stream_method_router :
      (ℕ → ℕ → W → Option H × W) → RpcRespondableSession H W → RpcRespondableSession H W
  set_stream_method_router router s = record s {
    routing = record s.routing { stream_method_router = some router };
  }

  unfoldable pub set_catch_all_response_handler :
      H → RpcRespondableSession H W → RpcRespondableSession H W
  set_catch_all_response_handler handler s = record s {
    routing = record s.routing { catch_all_response_handler = some handler };
  }

  unfoldable pub get_remaining_response_handlers : RpcRespondableSession H W → ℕ
  get_remaining_response_handlers s = length s.routing.response_handlers

  unfoldable pub clear_all_prebuffering : RpcRespondableSession H W → RpcRespondableSession H W
  clear_all_prebuffering s = record s {
    routing = record s.routing { prebuffering_flags = []; prebuffered_responses = [] };
  }

  -- A handler that the router gives back for a `Header` event is registered.
  unfoldable pub route_with : ℕ → Routing H W → Option H × W → Routing H W × W
  route_with id t (none, w) = (t, w)
  route_with id t (some handler, w) =
      (record t { response_handlers = insert id handler t.response_handlers }, w)

  unfoldable pub consult :
      ℕ → ℕ → Option (ℕ → ℕ → W → Option H × W) → Routing H W → W → Routing H W × W
  consult id method none t w = (t, w)
  consult id method (some router) t w = route_with id t (router method id w)

  unfoldable pub route_header : RpcStreamEvent → Routing H W → W → Routing H W × W
  route_header (header id method h) t w = consult id method t.stream_method_router t w
  route_header _ t w = (t, w)

  module _ (invoke : H → RpcStreamEvent → W → W) where
    unfoldable pub invoke_if : Option H → RpcStreamEvent → W → W
    invoke_if none evt w = w
    invoke_if (some h) evt w = invoke h evt w

    -- The routing and the handlers' state.
    abbrev pub Handling : Type 0
    Handling = Routing H W × W

    -- The `End` of a response that is prebuffered, at its handler.
    unfoldable pub finish_prebuffered :
        ℕ
        → Option ℕ
        → RpcHeader
        → RpcStreamEvent
        → Option H
        → Routing H W
        → W
        → Result FrameDecodeError (Unit {0}) × Handling
    finish_prebuffered id method h evt none t w = (ok tt, (t, w))
    finish_prebuffered id none h evt (some cb) t w = (err corrupt_frame, (t, w))
    finish_prebuffered id (some method) h evt (some cb) t w =
        let chunk = payload_chunk h id method (or_default [] (get id t.prebuffered_responses)) in
        (
          ok tt,
          (
            record t {
              prebuffered_responses = remove id t.prebuffered_responses;
              prebuffering_flags = remove id t.prebuffering_flags;
            },
            invoke cb evt (invoke cb chunk w),
          ),
        )

    -- The branch of a response that is prebuffered; its buffer has an entry.
    unfoldable pub prebuffer :
        ℕ → RpcStreamEvent → Routing H W → W → Result FrameDecodeError (Unit {0}) × Handling
    prebuffer id (header r m h) t w =
        (ok tt, (t, invoke_if (get id t.response_handlers) (header r m h) w))
    prebuffer id (payload_chunk h r m bytes) t w = (
      ok tt,
      (
        record t {
          prebuffered_responses =
              insert id (or_default [] (get id t.prebuffered_responses) ++ bytes)
                t.prebuffered_responses;
        },
        w,
      ),
    )
    prebuffer id (end h r m) t w =
        finish_prebuffered id (event_method (end h r m)) h (end h r m) (get id t.response_handlers)
          t w
    prebuffer id (error h r m e) t w = (ok tt, (t, w))

    -- `entry(rpc_id).or_default()`
    unfoldable pub open_buffer : ℕ → Routing H W → Routing H W
    open_buffer id t = record t {
      prebuffered_responses =
          insert id (or_default [] (get id t.prebuffered_responses)) t.prebuffered_responses;
    }

    -- After the last event of a request nothing is kept of it.
    unfoldable pub forget : ℕ → RpcStreamEvent → Routing H W → Routing H W
    forget id evt t =
        if is_last_event evt
        then record t {
          response_handlers = remove id t.response_handlers;
          prebuffering_flags = remove id t.prebuffering_flags;
          prebuffered_responses = remove id t.prebuffered_responses;
        }
        else t

    -- The catch-all handler, for an event that no response handler has handled.
    unfoldable pub fall_through : RpcStreamEvent → Handling → Handling
    fall_through evt (t, w) = (t, invoke_if t.catch_all_response_handler evt w)

    -- An event with the handler of its request, outside of prebuffering.
    unfoldable pub dispatch : ℕ → RpcStreamEvent → Option H → Routing H W → W → Handling
    dispatch id evt none t w = fall_through evt (forget id evt t, w)
    dispatch id evt (some cb) t w = (forget id evt t, invoke cb evt w)

    -- What follows the prebuffering branch; an error ends the callback.
    unfoldable pub after_prebuffer :
        ℕ
        → RpcStreamEvent
        → Result FrameDecodeError (Unit {0}) × Handling
        → Result FrameDecodeError (Unit {0}) × Handling
    after_prebuffer id evt (err e, (t, w)) = (err e, (t, w))
    after_prebuffer id evt (ok u, (t, w)) = (ok u, fall_through evt (forget id evt t, w))

    unfoldable pub handle_for :
        Option ℕ → RpcStreamEvent → Routing H W → W → Result FrameDecodeError (Unit {0}) × Handling
    handle_for none evt t w = (ok tt, fall_through evt (t, w))
    handle_for (some id) evt t w =
        if or_default false (get id t.prebuffering_flags)
        then after_prebuffer id evt (prebuffer id evt (open_buffer id t) w)
        else (ok tt, dispatch id evt (get id t.response_handlers) t w)

    -- The callback that `read_bytes` hands to the session.
    unfoldable pub on_rpc_stream_event :
        RpcStreamEvent → Handling → Result FrameDecodeError (Unit {0}) × Handling
    on_rpc_stream_event evt (t, w) =
        let (t', w') = route_header evt t w in handle_for (event_id evt) evt t' w'

    unfoldable pub read_bytes :
        List ℕ
        → RpcRespondableSession H W
        → W
        → Result FrameDecodeError (Unit {0}) × RpcRespondableSession H W × W
    read_bytes bytes s w =
        let (r, session, handling) =
          Session.read_bytes on_rpc_stream_event bytes s.rpc_session (s.routing, w) in
        (r, record { rpc_session = session; routing = handling.0 }, handling.1)
