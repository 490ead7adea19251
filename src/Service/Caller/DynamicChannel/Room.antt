-- ===== src/Service/Caller/DynamicChannel/Room.antt =====
-- What a reader finds in the channel of a call when it comes late.
use rust_muxio.Prelude.{
  ℕ, zero, suc, ◌+◌, ◌≡◌, refl, ap, ◌∙◌, true, false, some, List, [], ◌∷◌, ◌++◌, map, length,
  length-snoc, append-nil, append_assoc, take, ltb, if◌then◌else◌, le→ltb, lt→ltb, ok, arith,
}
use rust_muxio.Rpc.Types.{RpcHeader, end}
use rust_muxio.Rpc.StreamDecoder.Events.{join, chunk_of}
use rust_muxio.Rpc.Dispatcher.Sending.{message_events}
use rust_muxio.Service.ResultStatus.{RpcResultStatus, success}
use rust_muxio.Service.Caller.{
  RecvState, Delivery, fresh, recv_fn, on_chunk, signal, send, final, result_status, consume,
}
use rust_muxio.Service.Caller.DynamicChannel.{
  BoundedChannel, HasRoom, bounded, unbounded, DynamicChannelType, bounded_type, unbounded_type,
  new_channel, default_rpc_stream_channel_buffer_size, send_and_ignore, waiting, send_all, on_event,
  on_events,
}

-- A list that takes items up to a capacity.
abbrev pub filled : ℕ → List Delivery → List Delivery → List Delivery
filled capacity xs [] = xs
filled capacity xs (y ∷ ys) =
    filled capacity (if ltb (length xs) capacity then xs ++ y ∷ [] else xs) ys

filled-take :
    (capacity free : ℕ) (xs ys : List Delivery)
    → length xs + free ≡ capacity
    → filled capacity xs ys ≡ xs ++ take free ys
filled-take capacity zero xs [] h = rw append-nil
filled-take capacity (suc free) xs [] h = rw append-nil
filled-take capacity zero xs (y ∷ ys) h =
    rw (le→ltb (length xs) capacity (omega arith)) (filled-take capacity zero xs ys h)
filled-take capacity (suc free) xs (y ∷ ys) h = rw (lt→ltb (length xs) capacity (omega arith)) (
    filled-take capacity free (xs ++ y ∷ []) ys (omega (arith, length-snoc xs y))
    ∙ append_assoc xs (y ∷ []) (take free ys))

-- A call whose header has come.
abbrev answering : RpcResultStatus → List Delivery → RecvState
answering st sent = record {
  tx = true;
  sent = sent;
  ready_tx = false;
  readiness = some (ok tt);
  status = some st;
  error_buffer = [];
}

module _ {Q : Type 0} (channel : BoundedChannel Q) (room : HasRoom channel)
    (lossy : List ℕ → List ℕ) where
  chunks_fill :
      (h : RpcHeader) (cs : List (List ℕ)) (last : List Delivery) (q : Q)
      → waiting channel
          (on_events channel lossy
            (map (chunk_of h) cs ++ end h h.rpc_request_id h.rpc_method_id ∷ [])
            (answering success last, bounded q)).1
        ≡ filled channel.capacity (channel.contents q) (map ok cs)
  unfolding on_events on_event recv_fn on_chunk send send_all send_and_ignore waiting final
  chunks_fill h [] last q = refl
  chunks_fill h (c ∷ cs) last q =
      chunks_fill h cs (ok c ∷ []) (channel.try_send (ok c) q).1
      ∙ ap (λ t. filled channel.capacity t (map ok cs)) (room.try_send_lem (ok c) q)

  consume_chunks :
      (cs : List (List ℕ)) (buf : List ℕ) → consume (map ok cs) buf ≡ ok (buf ++ join cs)
  unfolding consume
  consume_chunks [] buf = rw append-nil
  consume_chunks (c ∷ cs) buf = consume_chunks cs (buf ++ c) ∙ rw append_assoc

  take-map : (n : ℕ) (cs : List (List ℕ)) → take n (map ok cs) ≡ map {B = Delivery} ok (take n cs)
  take-map zero cs = refl
  take-map (suc n) [] = refl
  take-map (suc n) (c ∷ cs) = ap (λ t. ok c ∷ t) (take-map n cs)

  chunks_kept :
      (h : RpcHeader) (cs : List (List ℕ)) (last items : List Delivery)
      → waiting channel
          (on_events channel lossy
            (map (chunk_of h) cs ++ end h h.rpc_request_id h.rpc_method_id ∷ [])
            (answering success last, unbounded items)).1
        ≡ items ++ map ok cs
  unfolding on_events on_event recv_fn on_chunk send send_all send_and_ignore waiting final
  chunks_kept h [] last items = rw append-nil
  chunks_kept h (c ∷ cs) last items =
      chunks_kept h cs (ok c ∷ []) (items ++ ok c ∷ []) ∙ append_assoc items (ok c ∷ []) (map ok cs)

  -- The chunks that a channel has room for.
  abbrev pub room_for : DynamicChannelType → List (List ℕ) → List (List ℕ)
  room_for bounded_type cs = take channel.capacity cs
  room_for unbounded_type cs = cs

  chunks_in :
      (kind : DynamicChannelType) (new : ℕ → Q) (h : RpcHeader) (cs : List (List ℕ))
      → channel.contents (new default_rpc_stream_channel_buffer_size) ≡ []
      → waiting channel
          (on_events channel lossy
            (map (chunk_of h) cs ++ end h h.rpc_request_id h.rpc_method_id ∷ [])
            (answering success [], new_channel new kind)).1
        ≡ map ok (room_for kind cs)
  unfolding new_channel
  chunks_in bounded_type new h cs empty =
      chunks_fill h cs [] (new default_rpc_stream_channel_buffer_size)
      ∙ ap (λ t. filled channel.capacity t (map ok cs)) empty
      ∙ filled-take channel.capacity channel.capacity [] (map ok cs) (omega arith)
      ∙ take-map channel.capacity cs
  chunks_in unbounded_type new h cs empty = chunks_kept h cs [] []

  -- A call whose reader comes when the response is complete: of a success response, in whatever
  -- chunks, it finds all where the call has an unbounded channel; on a bounded one, which is new and
  -- empty, it finds those that the channel had room for and no error, so that the body is cut off
  -- behind them.
  pub on_events-room :
      (kind : DynamicChannelType) (new : ℕ → Q) (h : RpcHeader) (cs : List (List ℕ))
      → channel.contents (new default_rpc_stream_channel_buffer_size) ≡ []
      → result_status h.rpc_metadata_bytes ≡ success
      → consume
          (waiting channel
            (on_events channel lossy (message_events h cs) (fresh, new_channel new kind)).1)
          []
        ≡ ok (join (room_for kind cs))
  unfolding on_events on_event recv_fn signal fresh send_all
  on_events-room kind new h cs empty status =
      let rest = map (chunk_of h) cs ++ end h h.rpc_request_id h.rpc_method_id ∷ [] in
      ap
        (λ st.
          consume
            (waiting channel
              (on_events channel lossy rest (answering st [], new_channel new kind)).1)
            [])
        status
      ∙ ap (λ t. consume t []) (chunks_in kind new h cs empty)
      ∙ consume_chunks (room_for kind cs) []
