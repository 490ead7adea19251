-- ===== src/Rpc/Dispatcher/Whole.antt =====
-- A message that arrives whole at an idle dispatcher, in one read of its bytes: a request goes to
-- the queue, and a response to the handler that waits for it.
use mathlib.Core.List.Permᴰ
use rust_muxio.Prelude.{
  ℕ, ◌≡◌, refl, sym, ap, ◌∙◌, true, false, Option, none, List, [], ◌∷◌, ◌++◌, append-nil, map,
  length-map, Result, ok, err,
}
use rust_muxio.Prelude.Bytes.{IsU32}
use rust_muxio.Prelude.Map.{get}
use rust_muxio.Frame.Types.{FrameDecodeError, FrameEncodeError}
use rust_muxio.Frame.Codec.{encode}
use rust_muxio.Frame.Codec.RoundTrip.{decoded}
use rust_muxio.Frame.Decoder
use rust_muxio.Frame.Decoder.Wire.{wire}
use rust_muxio.Frame.Delivery.{joined, read_all, read_all-in_order, read_all-rests}
use rust_muxio.Rpc.Types.{RpcHeader, RpcStreamEvent}
use rust_muxio.Rpc.StreamEncoder.{RpcStreamEncoder}
use rust_muxio.Rpc.StreamDecoder
use rust_muxio.Rpc.Session
use rust_muxio.Rpc.Session.{RpcSession, decoder_or_new}
use rust_muxio.Rpc.Session.Message.{read_items-runs, RunsTo}
use rust_muxio.Rpc.Respondable
use rust_muxio.Rpc.Respondable.{Routing}
use rust_muxio.Rpc.Dispatcher
use rust_muxio.Rpc.Dispatcher.{RpcDispatcher, World, Handler, contains_request}
use rust_muxio.Rpc.Dispatcher.Sending.{Sends, message_events}
use rust_muxio.Rpc.Dispatcher.Requests.{queue_all-message_events, collected, request_so_far}
use rust_muxio.Rpc.Dispatcher.Receiving.{
  IsQuiet, callback, events_queue, message_events-IsOf, forgotten, IsAwaited, calls, events_handled,
}

joined-encode : (fs : List _) → joined (map encode fs) ≡ wire fs
joined-encode [] = refl
joined-encode (f ∷ fs) = ap (λ t. encode f ++ t) (joined-encode fs)

-- A session that holds no part of a frame and does not know the stream.
pub record IsIdle (sid : ℕ) (s : RpcSession) : Type 0 where
  pub no_bytes : s.frame_mux_stream_decoder.buffer ≡ []
  pub no_stream : get sid s.frame_mux_stream_decoder.streams ≡ none
  pub no_decoder : get sid s.rpc_stream_decoders ≡ none

-- A session that holds nothing of any stream.
abbrev pub IsAtRest : RpcSession → Type 0
IsAtRest s = (k : ℕ) → IsIdle k s

module _ {H U : Type 0} where
  -- What follows the session's read.
  abbrev pub behind_session :
      RpcDispatcher H U
      → Result FrameDecodeError (Unit {0}) × RpcSession × (Routing (Handler H) (World U) × World U)
      → Result FrameDecodeError (List ℕ) × RpcDispatcher H U × U
  behind_session d p =
      let d' = record d {
        rpc_respondable_session = record { rpc_session = p.1; routing = p.2.0 };
        rpc_request_queue = p.2.1.0;
      } in
      elim p.0 [ ok _ ↦ (ok (map (λ q. q.0) p.2.1.0), d', p.2.1.1) | err e ↦ (err e, d', p.2.1.1) ]

module _ {sid : ℕ} {h : RpcHeader} {body : List ℕ}
    {r : Option (Result FrameEncodeError RpcStreamEncoder)} (fits : IsU32 sid)
    (sent : Sends sid h body r) where
  decoder_rests :
      (s : RpcSession)
      → IsIdle sid s
      → let d =
          (Decoder.read_bytes s.frame_mux_stream_decoder (joined sent.encoder.encoder.emitted)).0 in
        (d.buffer ≡ [])
        × ((k : ℕ) → get k s.frame_mux_stream_decoder.streams ≡ none → get k d.streams ≡ none)
  unfolding read_all
  decoder_rests s idle =
      read_all-rests sid sent.frames sent.frames s.frame_mux_stream_decoder
        (joined sent.encoder.encoder.emitted ∷ []) fits sent.some_frame sent.few sent.short
        sent.stream (Permᴰ.refl sent.frames) idle.no_bytes idle.no_stream
        (append-nil (joined sent.encoder.encoder.emitted)
          ∙ ap joined sent.emits
          ∙ joined-encode sent.frames)

  items :
      (s : RpcSession)
      → IsIdle sid s
      → (Decoder.read_bytes s.frame_mux_stream_decoder (joined sent.encoder.encoder.emitted)).1
        ≡ map ok (map decoded sent.frames)
  unfolding read_all
  items s idle =
      sym (
        append-nil
          (Decoder.read_bytes s.frame_mux_stream_decoder (joined sent.encoder.encoder.emitted)).1)
      ∙ read_all-in_order sid sent.frames sent.frames s.frame_mux_stream_decoder
          (joined sent.encoder.encoder.emitted ∷ []) fits sent.some_frame sent.few sent.short
          sent.stream (Permᴰ.refl sent.frames) idle.no_bytes idle.no_stream
          (append-nil (joined sent.encoder.encoder.emitted)
            ∙ ap joined sent.emits
            ∙ joined-encode sent.frames)

  module _ {W : Type 0}
      (on_event : RpcStreamEvent → W → Result FrameDecodeError (Unit {0}) × W) where
    pub session_reads :
        (s : RpcSession) (w w' : W)
        → IsIdle sid s
        → RunsTo on_event (message_events h sent.chunks) w w'
        → (s' : RpcSession) × (Session.read_bytes on_event (joined sent.encoder.encoder.emitted) s w
            ≡ (ok tt, s', w'))
          × (s'.id_space ≡ s.id_space)
          × (s'.next_stream_id ≡ s.next_stream_id)
          × (IsAtRest s → IsAtRest s')
    unfolding Session.read_bytes decoder_or_new
    session_reads s w w' idle runs =
        let (m, e, gone) =
          read_items-runs on_event sid 0 (map decoded sent.frames) s.rpc_stream_decoders
            StreamDecoder.new sent.decoder _ w w' sent.stream (ap decoder_or_new idle.no_decoder)
            sent.decodes runs in
        (
          record s {
            frame_mux_stream_decoder =
                (Decoder.read_bytes s.frame_mux_stream_decoder
                  (joined sent.encoder.encoder.emitted)).0;
            rpc_stream_decoders = m;
          },
          rw (items s idle) (rw e refl),
          refl,
          refl,
          λ rests k. record {
            no_bytes = (decoder_rests s idle).0;
            no_stream = (decoder_rests s idle).1 k (rests k).no_stream;
            no_decoder = gone (rw length-map sent.some_frame) (λ j ne. (rests j).no_decoder) k;
          },
        )

  module _ {H U : Type 0} (invoke : H → RpcStreamEvent → U → U) where
    -- The dispatcher behind the read.
    abbrev pub received : RpcDispatcher H U → RpcSession → RpcDispatcher H U
    received d s = record d {
      rpc_respondable_session = record {
        rpc_session = s;
        routing = d.rpc_respondable_session.routing;
      };
      rpc_request_queue =
          d.rpc_request_queue
          ++ (h.rpc_request_id, request_so_far h (collected sent.chunks) true) ∷ [];
    }

    pub dispatcher_reads :
        (d : RpcDispatcher H U) (u : U)
        → IsIdle sid d.rpc_respondable_session.rpc_session
        → IsQuiet h.rpc_request_id h.rpc_method_id d.rpc_respondable_session.routing
        → contains_request h.rpc_request_id d.rpc_request_queue ≡ false
        → (s : RpcSession) × (Dispatcher.read_bytes invoke (joined sent.encoder.encoder.emitted) d u
            ≡ (ok (map (λ p. p.0) (received d s).rpc_request_queue), received d s, u))
          × (s.id_space ≡ d.rpc_respondable_session.rpc_session.id_space)
          × (s.next_stream_id ≡ d.rpc_respondable_session.rpc_session.next_stream_id)
          × (IsAtRest d.rpc_respondable_session.rpc_session → IsAtRest s)
    unfolding Dispatcher.read_bytes Respondable.read_bytes
    dispatcher_reads d u idle quiet new =
        let t = d.rpc_respondable_session.routing in
        let (s, e, space, next, rests) =
          session_reads (callback invoke) d.rpc_respondable_session.rpc_session
            (t, (d.rpc_request_queue, u)) _ idle
            (events_queue invoke h.rpc_request_id h.rpc_method_id (message_events h sent.chunks) t
              d.rpc_request_queue u quiet (message_events-IsOf h sent.chunks)) in
        (
          s,
          ap (behind_session d) e
              ∙ ap (λ q. behind_session d (ok tt, s, (t, (q, u))))
                  (queue_all-message_events h sent.chunks d.rpc_request_queue new),
          space,
          next,
          rests,
        )

    -- The caller's dispatcher behind the read of a response.
    abbrev pub returned : RpcDispatcher H U → RpcSession → RpcDispatcher H U
    returned d s = record d {
      rpc_respondable_session = record {
        rpc_session = s;
        routing = forgotten h.rpc_request_id d.rpc_respondable_session.routing;
      };
    }

    -- A response that arrives whole: the handler that waits for it gets its events, in order.
    pub dispatcher_hands_over :
        (on_result : H) (d : RpcDispatcher H U) (u : U)
        → IsIdle sid d.rpc_respondable_session.rpc_session
        → IsAwaited h.rpc_request_id on_result d.rpc_respondable_session.routing
        → (s : RpcSession) × (Dispatcher.read_bytes invoke (joined sent.encoder.encoder.emitted) d u
            ≡ (
              ok (map (λ p. p.0) d.rpc_request_queue),
              returned d s,
              calls invoke on_result (message_events h sent.chunks) u,
            ))
          × (IsAtRest d.rpc_respondable_session.rpc_session → IsAtRest s)
    unfolding Dispatcher.read_bytes Respondable.read_bytes
    dispatcher_hands_over on_result d u idle awaited =
        let (s, e, space, next, rests) =
          session_reads (callback invoke) d.rpc_respondable_session.rpc_session
            (d.rpc_respondable_session.routing, (d.rpc_request_queue, u)) _ idle
            (events_handled invoke on_result h sent.chunks d.rpc_respondable_session.routing
              d.rpc_request_queue u awaited) in
        (s, ap (behind_session d) e, rests)
