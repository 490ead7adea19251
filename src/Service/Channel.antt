-- ===== src/Service/Channel.antt =====
-- extensions/muxio-tokio-mpsc-adapter/src: client.rs, `open_channel`, and server.rs,
-- `register_channel_handler`. Of a sender its fields tell whether it is still held, and what was
-- sent; the receiver is alive, and a bounded channel has room.
pub mod Streaming
pub mod Ports
use rust_muxio.Prelude.{
  ℕ, Bool, false, Option, none, some, List, [], ◌∷◌, ◌++◌, if◌then◌else◌, Result, ok, err,
}
use rust_muxio.Frame.Types.{FrameEncodeError}
use rust_muxio.Rpc.Types.{RpcRequest, RpcStreamEvent, header, payload_chunk, end, error}
use rust_muxio.Rpc.StreamEncoder
use rust_muxio.Rpc.StreamEncoder.{RpcStreamEncoder}
use rust_muxio.Rpc.Dispatcher
use rust_muxio.Rpc.Dispatcher.{RpcDispatcher, ignore_error}
use rust_muxio.Service.Endpoint.{default_service_max_chunk_size}

pub record Port : Type 0 where
  pub is_held : Bool
  pub sent : List (List ℕ)

unfoldable pub forward : List ℕ → Port → Port
forward bytes p = if p.is_held then record p { sent = p.sent ++ bytes ∷ [] } else p

-- `recv_fn` of `open_channel`: what it does with the response.
unfoldable pub on_response : RpcStreamEvent → Port → Port
unfolding forward
on_response (payload_chunk h id m bytes) p = forward bytes p
on_response (end h id m) p = record p { is_held = false }
on_response (error h id m e) p = record p { is_held = false }
on_response (header id m h) p = p

-- The handler that `register_channel_handler` registers; one port for all streams of the method.
unfoldable pub on_request : RpcStreamEvent → Port → Port
unfolding forward
on_request (payload_chunk h id m bytes) p = forward bytes p
on_request (end h id m) p = record p { is_held = false }
on_request (error h id m e) p = record p { is_held = false }
on_request (header id m h) p = p

-- The request of `open_channel`, which stays open.
unfoldable pub channel_request : ℕ → RpcRequest
channel_request method_id = record {
  rpc_method_id = method_id;
  rpc_param_bytes = none;
  rpc_prebuffered_payload_bytes = none;
  is_finalized = false;
}

-- `flush()?` on the encoder of the call.
unfoldable pub flushed :
    Option (Result FrameEncodeError ℕ × RpcStreamEncoder)
    → Option (Result FrameEncodeError RpcStreamEncoder)
flushed none = none
flushed (some (ok n, e)) = some (ok e)
flushed (some (err x, e)) = some (err x)

unfoldable pub open_stream :
    Option (Result FrameEncodeError RpcStreamEncoder)
    → Option (Result FrameEncodeError RpcStreamEncoder)
unfolding flushed
open_stream none = none
open_stream (some (err x)) = some (err x)
open_stream (some (ok e)) = flushed (StreamEncoder.flush e)

-- What `open_channel` may give: no connection, or what the call and its flush gave.
pub data Opened : Type 0 where
  not_connected : Opened
  called : Option (Result FrameEncodeError RpcStreamEncoder) → Opened

module _ {H U : Type 0} where
  unfoldable pub open_channel :
      Bool → ℕ → H → RpcDispatcher H U → ℕ → Opened × RpcDispatcher H U × ℕ
  unfolding Dispatcher.start_call open_stream channel_request
  open_channel is_connected method_id recv_fn d counter =
      if is_connected
      then (let (e, d', counter') =
            Dispatcher.start_call (channel_request method_id) default_service_max_chunk_size
              (some recv_fn) false d counter in
          (called (open_stream e), d', counter'))
      else (not_connected, d, counter)

-- The task behind `open_channel`: the chunks of the writer up to its drop; an error ends it early.
-- `none` where a call does not return.
unfoldable pub write_task : List (List ℕ) → RpcStreamEncoder → Option RpcStreamEncoder
unfolding ignore_error
write_task [] e = ignore_error (StreamEncoder.end_stream e)
write_task (bytes ∷ rest) e = elim (StreamEncoder.write_bytes bytes e) [
  | none ↦ none
  | some (err x, e1) ↦ ignore_error (StreamEncoder.end_stream e1)
  | some (ok n, e1) ↦ elim (StreamEncoder.flush e1) [
    | none ↦ none
    | some (err x, e2) ↦ ignore_error (StreamEncoder.end_stream e2)
    | some (ok n, e2) ↦ write_task rest e2
  ]
]

unfoldable pub returned :
    Option RpcStreamEncoder → Option (Result FrameEncodeError RpcStreamEncoder)
returned none = none
returned (some e) = some (ok e)

-- The stream of a channel from its call to the drop of the writer.
unfoldable pub stream_on :
    List (List ℕ)
    → Option (Result FrameEncodeError RpcStreamEncoder)
    → Option (Result FrameEncodeError RpcStreamEncoder)
unfolding write_task returned
stream_on chunks none = none
stream_on chunks (some (err x)) = some (err x)
stream_on chunks (some (ok e)) = returned (write_task chunks e)
