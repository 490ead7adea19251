-- ===== src/Rpc/Examples.antt =====
-- The theorems of the RPC layer at concrete inputs.
use rust_muxio.Prelude.{
  ℕ, ◌+◌, ◌^◌, ◌%◌, ◌<◌, ◌≡◌, ◌≢◌, refl, true, none, List, [], ◌∷◌, ok, err, arith,
}
use rust_muxio.Prelude.Map.{get, insert}
use rust_muxio.Frame.Types.{read_after_cancel, incomplete_header, data_kind}
use rust_muxio.Frame.Codec.{read_uint}
use rust_muxio.Frame.Decoder.{Item}
use rust_muxio.Rpc.Types.{
  RpcHeader, RpcStreamEvent, message_type_try_from, response, header, end, payload_chunk,
}
use rust_muxio.Rpc.IdSpace.{client, server, place}
use rust_muxio.Rpc.IdSpace.Apart.{place-apart}
use rust_muxio.Rpc.Respondable.{Routing, on_rpc_stream_event}
use rust_muxio.Rpc.Respondable.Isolation.{IsSame, on_rpc_stream_event-IsSame}
use rust_muxio.Rpc.Respondable.Prebuffering.{quiet, handle_all, handle_all-prebuffered}
use rust_muxio.Rpc.Session.{read_items, read_frame, deliver, clean_up, decoder_or_new}
use rust_muxio.Rpc.Session.Frames.{calls}
use rust_muxio.Rpc.Session.Demux.{only, read_items-only}
use rust_muxio.Rpc.StreamDecoder
use rust_muxio.Rpc.StreamDecoder.{decode_rpc_frame, decode_in, read_header, take_header}
use rust_muxio.Rpc.Dispatcher
use rust_muxio.Rpc.Dispatcher.{RpcDispatcher, contains_request, fail_all_pending_requests}
use rust_muxio.Rpc.Dispatcher.Sending.{message_events}
use rust_muxio.Rpc.Dispatcher.Requests.{queue_all, collected, request_so_far}
use rust_muxio.Rpc.Dispatcher.Interleaved.{entries, queue_all-interleaved}
use rust_muxio.Rpc.Dispatcher.Failing.{IsFailed, users, fail_all_pending_requests-IsFailed}

place-apart_example :
    (place client 7 ≢ place server 7)
    × (place client 7 < 2 ^ 32)
    × (place client 7 % 2 ^ 31 ≡ 7 % 2 ^ 31)
place-apart_example = place-apart 7 7 client

abbrev a_header : RpcHeader
a_header = record {
  rpc_msg_type = response;
  rpc_request_id = 5;
  rpc_method_id = 6;
  rpc_metadata_bytes = 0 ∷ [];
}

-- Two requests wait; the response of request 5 is prebuffered.
abbrev two_pending : Routing ℕ ℕ
two_pending = quiet ((5, 1) ∷ (9, 2) ∷ []) [] ((5, true) ∷ [])

on_rpc_stream_event-IsSame_example :
    IsSame 9 two_pending
      (on_rpc_stream_event
        (λ h e w. w + h)
        (payload_chunk a_header 5 6 (42 ∷ []))
        (two_pending, 0)).1.0
on_rpc_stream_event-IsSame_example =
    on_rpc_stream_event-IsSame (λ h e w. w + h) 9 (payload_chunk a_header 5 6 (42 ∷ [])) two_pending
      0 (λ e. ground arith)

handle_all-prebuffered_example :
    (t : Routing ℕ ℕ) × (handle_all
        (λ h e w. w + h)
        (message_events a_header ((42 ∷ []) ∷ (43 ∷ []) ∷ []))
        (two_pending, 0)
      ≡ (ok tt, (t, 3)))
handle_all-prebuffered_example =
    handle_all-prebuffered (λ h e w. w + h) a_header 1 ((5, 1) ∷ (9, 2) ∷ []) ((5, true) ∷ [])
      (unfold get in refl) (unfold get in refl) ((42 ∷ []) ∷ (43 ∷ []) ∷ []) [] 0
      (unfold get in refl)

-- Frames of streams 1 and 3, a header in two parts and a stray part between them.
abbrev part : ℕ → ℕ → List ℕ → Item
part stream n bytes = ok (record {
  inner = record { stream_id = stream; seq_id = n; kind = data_kind; payload = bytes };
  decode_error = none;
})

abbrev mixed : List Item
mixed =
    part 1 0 (1 ∷ 5 ∷ 0 ∷ 0 ∷ 0 ∷ 6 ∷ [])
    ∷ part 3 0 (1 ∷ 7 ∷ [])
    ∷ err incomplete_header
    ∷ part 1 1 (0 ∷ 0 ∷ 0 ∷ 0 ∷ 0 ∷ 0 ∷ 0 ∷ 0 ∷ 0 ∷ 42 ∷ [])
    ∷ []

read_items-only_example :
    (get 1 (read_items (calls (λ e w. w + 1)) mixed [] 0).1
      ≡ get 1 (read_items (calls (λ e w. w + 1)) (only 1 mixed) [] 0).1)
    × ((read_items (calls (λ e w. w + 1)) (only 1 mixed) [] 0).0 ≡ ok tt)
read_items-only_example =
    read_items-only (λ e w. w + 1) 1 mixed [] [] 0 0 refl
      (unfold read_items read_frame decode_rpc_frame decode_in read_header take_header deliver
          clean_up decoder_or_new get insert StreamDecoder.new message_type_try_from read_uint in
        refl)

-- A dispatcher in which two calls wait for their responses.
abbrev two_calls : RpcDispatcher ℕ ℕ
two_calls =
    let d : RpcDispatcher ℕ ℕ = (Dispatcher.new 0).0 in
    record d {
      rpc_respondable_session = record d.rpc_respondable_session {
        routing = quiet (users ((5, 1) ∷ (9, 2) ∷ [])) [] [];
      };
    }

fail_all_pending_requests-IsFailed_example :
    IsFailed
      (λ h e w. w + h)
      read_after_cancel
      ((5, 1) ∷ (9, 2) ∷ [])
      two_calls
      0
      (fail_all_pending_requests (λ h e w. w + h) read_after_cancel two_calls 0)
fail_all_pending_requests-IsFailed_example =
    fail_all_pending_requests-IsFailed (λ h e w. w + h) read_after_cancel ((5, 1) ∷ (9, 2) ∷ [])
      two_calls 0 refl

abbrev other_header : RpcHeader
other_header = record a_header { rpc_request_id = 9 }

-- The events of request 5, of two chunks, between those of request 9, which is not whole.
abbrev interleaved : List RpcStreamEvent
interleaved =
    header 9 6 other_header
    ∷ header 5 6 a_header
    ∷ payload_chunk a_header 5 6 (42 ∷ [])
    ∷ payload_chunk other_header 9 6 (8 ∷ [])
    ∷ payload_chunk a_header 5 6 (43 ∷ [])
    ∷ end a_header 5 6
    ∷ []

queue_all-interleaved_example :
    entries 5 (queue_all interleaved [])
    ≡ (5, request_so_far a_header (collected ((42 ∷ []) ∷ (43 ∷ []) ∷ [])) true) ∷ []
queue_all-interleaved_example =
    queue_all-interleaved a_header ((42 ∷ []) ∷ (43 ∷ []) ∷ []) interleaved []
      (unfold contains_request in refl) refl
