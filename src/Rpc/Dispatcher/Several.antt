-- ===== src/Rpc/Dispatcher/Several.antt =====
-- Several whole messages that arrive in one read, one behind the other.
pub mod Requests
pub mod Responses
use rust_muxio.Prelude.{ℕ, ◌≡◌, refl, ap, ◌∙◌, Option, List, [], ◌∷◌, ◌++◌, Result, ok, err}
use rust_muxio.Prelude.Bytes.{IsU32}
use rust_muxio.Prelude.Map.{Map}
use rust_muxio.Frame.Types.{FrameDecodeError, FrameEncodeError}
use rust_muxio.Frame.Decoder
use rust_muxio.Frame.Decoder.{FrameMuxStreamDecoder, Item}
use rust_muxio.Frame.Decoder.Chunks.{read_bytes-append}
use rust_muxio.Frame.Decoder.Wire.{head_empty}
use rust_muxio.Frame.Delivery.{joined, read_bytes_nothing}
use rust_muxio.Rpc.Types.{RpcHeader, RpcStreamEvent}
use rust_muxio.Rpc.StreamEncoder.{RpcStreamEncoder}
use rust_muxio.Rpc.StreamDecoder.{RpcStreamDecoder}
use rust_muxio.Rpc.Session
use rust_muxio.Rpc.Session.{RpcSession, Reading, read_items, read_frame, error_event}
use rust_muxio.Rpc.Session.Message.{RunsTo}
use rust_muxio.Rpc.Dispatcher.Sending.{Sends, message_events}
use rust_muxio.Rpc.Dispatcher.Whole.{IsAtRest, session_reads}

-- A message that was sent whole.
pub record Sent : Type 0 where
  pub sid : ℕ
  pub header : RpcHeader
  pub body : List ℕ
  pub result : Option (Result FrameEncodeError RpcStreamEncoder)
  pub fits : IsU32 sid
  pub sends : Sends sid header body result

abbrev pub bytes_of : Sent → List ℕ
bytes_of m = joined m.sends.encoder.encoder.emitted

abbrev pub all_bytes : List Sent → List ℕ
all_bytes [] = []
all_bytes (m ∷ ms) = bytes_of m ++ all_bytes ms

module _ {W : Type 0} (on_event : RpcStreamEvent → W → Result FrameDecodeError (Unit {0}) × W) where
  abbrev behind_item : List Item → Reading on_event → Reading on_event
  behind_item rest p = elim p.0 [
    | ok _ ↦ read_items on_event rest p.1 p.2
    | err e ↦ (err e, p.1, p.2)
  ]

  -- Items are read one after the other, up to an error.
  read_items-append :
      (xs ys : List Item) (m : Map RpcStreamDecoder) (w : W)
      → read_items on_event (xs ++ ys) m w ≡ behind_item ys (read_items on_event xs m w)
  unfolding read_items
  read_items-append [] ys m w = refl
  read_items-append (ok frame ∷ xs) ys m w =
      go (read_frame on_event frame m w) (λ m' w'. read_items-append xs ys m' w')
    where
      go :
          (p : Reading on_event)
          → ((m' : Map RpcStreamDecoder) (w' : W)
              → read_items on_event (xs ++ ys) m' w'
                ≡ behind_item ys (read_items on_event xs m' w'))
          → behind_item (xs ++ ys) p ≡ behind_item ys (behind_item xs p)
      go (ok u, m', w') more = more m' w'
      go (err x, m', w') more = refl
  read_items-append (err x ∷ xs) ys m w =
      go (on_event (error_event x) w) (λ w'. read_items-append xs ys m w')
    where
      go :
          (p : Result FrameDecodeError (Unit {0}) × W)
          → ((w' : W)
              → read_items on_event (xs ++ ys) m w' ≡ behind_item ys (read_items on_event xs m w'))
          → behind_item (xs ++ ys) (p.0, m, p.1) ≡ behind_item ys (behind_item xs (p.0, m, p.1))
      go (ok u, w') more = more w'
      go (err y, w') more = refl

  -- A session behind the reading of its items, and a second read where that has succeeded.
  abbrev behind_items :
      RpcSession
      → FrameMuxStreamDecoder
      → Reading on_event
      → Result FrameDecodeError (Unit {0}) × RpcSession × W
  behind_items s d p =
      (p.0, record s { frame_mux_stream_decoder = d; rpc_stream_decoders = p.1 }, p.2)

  abbrev second_read :
      List ℕ
      → Result FrameDecodeError (Unit {0}) × RpcSession × W
      → Result FrameDecodeError (Unit {0}) × RpcSession × W
  second_read ys t = elim t.0 [
    | ok _ ↦ Session.read_bytes on_event ys t.1 t.2
    | err e ↦ (
      err e,
      record t.1 {
        frame_mux_stream_decoder = (Decoder.read_bytes t.1.frame_mux_stream_decoder ys).0;
      },
      t.2,
    )
  ]

  second_read_lem :
      (s : RpcSession) (d : FrameMuxStreamDecoder) (ys : List ℕ) (p : Reading on_event)
      → behind_items s (Decoder.read_bytes d ys).0 (behind_item (Decoder.read_bytes d ys).1 p)
        ≡ second_read ys (behind_items s d p)
  unfolding Session.read_bytes
  second_read_lem s d ys (ok u, m, w) = refl
  second_read_lem s d ys (err e, m, w) = refl

  -- Bytes behind those of a read that succeeds are read by a second read.
  read_bytes-behind :
      (xs ys : List ℕ) (s s1 : RpcSession) (w w1 : W)
      → Session.read_bytes on_event xs s w ≡ (ok tt, s1, w1)
      → Session.read_bytes on_event (xs ++ ys) s w ≡ Session.read_bytes on_event ys s1 w1
  unfolding Session.read_bytes
  read_bytes-behind xs ys s s1 w w1 e =
      let d = s.frame_mux_stream_decoder in
      let d1 = (Decoder.read_bytes d xs).0 in
      ap (λ p. behind_items s p.0 (read_items on_event p.1 s.rpc_stream_decoders w))
        (read_bytes-append d xs ys)
      ∙ ap (behind_items s (Decoder.read_bytes d1 ys).0) (
          read_items-append (Decoder.read_bytes d xs).1 (Decoder.read_bytes d1 ys).1
            s.rpc_stream_decoders w)
      ∙ second_read_lem s d1 ys
          (read_items on_event (Decoder.read_bytes d xs).1 s.rpc_stream_decoders w)
      ∙ ap (second_read ys) e

  -- The events of the messages, one after the other, lead from one state to the other.
  abbrev pub AllRun : List Sent → W → W → Type 0
  AllRun [] w w' = w ≡ w'
  AllRun (m ∷ ms) w w' =
      (v : W) × RunsTo on_event (message_events m.header m.sends.chunks) w v × AllRun ms v w'

  read_nothing :
      (s : RpcSession) (w : W) → IsAtRest s → Session.read_bytes on_event [] s w ≡ (ok tt, s, w)
  unfolding Session.read_bytes read_items
  read_nothing s w rests =
      ap
        (λ p.
          let (d, queue) = p in
          let (r, decoders, w') = read_items on_event queue s.rpc_stream_decoders w in
          (r, record s { frame_mux_stream_decoder = d; rpc_stream_decoders = decoders }, w'))
        (read_bytes_nothing s.frame_mux_stream_decoder (rw (rests 0).no_bytes head_empty))

  pub sessions_read :
      (ms : List Sent) (s : RpcSession) (w w' : W)
      → IsAtRest s
      → AllRun ms w w'
      → (s' : RpcSession) × (Session.read_bytes on_event (all_bytes ms) s w ≡ (ok tt, s', w'))
        × (s'.id_space ≡ s.id_space)
        × (s'.next_stream_id ≡ s.next_stream_id)
        × IsAtRest s'
  sessions_read [] s w w' rests runs =
      (s, read_nothing s w rests ∙ ap (λ v. (ok tt, s, v)) runs, refl, refl, rests)
  sessions_read (m ∷ ms) s w w' rests (v, run, runs) =
      let (s1, e, space, next, at_rest) =
        session_reads m.fits m.sends on_event s w v (rests m.sid) run in
      let (s2, e', space', next', at_rest') = sessions_read ms s1 v w' (at_rest rests) runs in
      (
        s2,
        read_bytes-behind (bytes_of m) (all_bytes ms) s s1 w v e ∙ e',
        space' ∙ space,
        next' ∙ next,
        at_rest',
      )
