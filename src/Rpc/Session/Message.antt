-- ===== src/Rpc/Session/Message.antt =====
-- A whole message on a stream of its own, at a session that does not know the stream.
use rust_muxio.Prelude.{
  ℕ, suc, ◌<◌, ◌≡◌, refl, sym, ap, ◌∙◌, Bool, true, false, none, ◌||◌, ◌==◌, Bool-cases, inl, inr,
  arith, length, List, [], ◌∷◌, ◌++◌, map, Result, ok, err, if◌then◌else◌, subst,
}
use rust_muxio.Prelude.Map.{Map, get, insert, remove, get-remove}
use rust_muxio.Frame.Types.{DecodedFrame, FrameDecodeError, is_end, is_cancel}
use rust_muxio.Frame.Decoder.Permutation.{IsStream}
use rust_muxio.Rpc.Types.{RpcStreamEvent, is_end_event}
use rust_muxio.Rpc.StreamDecoder.{RpcStreamDecoder, Decoding, decode_rpc_frame}
use rust_muxio.Rpc.StreamDecoder.Open.{GoesOn, decode_rpc_frame-GoesOn}
use rust_muxio.Rpc.StreamDecoder.Runs.{step_fails}
use rust_muxio.Rpc.StreamDecoder.Events.{behind, decode_all, step}
use rust_muxio.Rpc.Session.{
  Reading, deliver, clean_up, fail_stream, read_frame, read_items, decoder_or_new,
}
use rust_muxio.Rpc.Session.Frames.{get-insert_same, get-insert_other}

module _ {W : Type 0} (on_event : RpcStreamEvent → W → Result FrameDecodeError (Unit {0}) × W) where
  -- The callback takes the events without failing, and leads from one state to the other.
  abbrev pub RunsTo : List RpcStreamEvent → W → W → Type 0
  RunsTo [] w w' = w ≡ w'
  RunsTo (e ∷ es) w w' = (v : W) × (on_event e w ≡ (ok tt, v)) × RunsTo es v w'

  RunsTo-split :
      (xs ys : List RpcStreamEvent) (w w' : W)
      → RunsTo (xs ++ ys) w w'
      → (v : W) × RunsTo xs w v × RunsTo ys v w'
  RunsTo-split [] ys w w' h = (w, refl, h)
  RunsTo-split (e ∷ xs) ys w w' (v, c, h) =
      let (u, a, b) = RunsTo-split xs ys v w' h in (u, (v, c, a), b)

  -- What follows an event, a frame that was decoded, and a frame that was read.
  abbrev after_event :
      ℕ
      → List RpcStreamEvent
      → Map RpcStreamDecoder
      → Result FrameDecodeError (Unit {0}) × W
      → Reading on_event
  after_event sid es m p = elim p.0 [
    | ok _ ↦ deliver on_event sid es m p.1
    | err e ↦ (err e, m, p.1)
  ]

  abbrev after_decoding :
      DecodedFrame → Map RpcStreamDecoder → W → Decoding (List RpcStreamEvent) → Reading on_event
  after_decoding f m w p = elim p.0 [
    | ok es ↦
        clean_up on_event f
          (deliver on_event f.inner.stream_id es (insert f.inner.stream_id p.1 m) w)
    | err e ↦ fail_stream on_event f.inner.stream_id e (insert f.inner.stream_id p.1 m) w
  ]

  abbrev after_frame : List DecodedFrame → Reading on_event → Reading on_event
  after_frame fs p = elim p.0 [
    | ok _ ↦ read_items on_event (map ok fs) p.1 p.2
    | err e ↦ (err e, p.1, p.2)
  ]

  -- No key but perhaps `sid` is in the map.
  abbrev pub HoldsAtMost : ℕ → Map RpcStreamDecoder → Type 0
  HoldsAtMost sid m = (k : ℕ) → (sid == k) ≡ false → get k m ≡ none

  abbrev pub HoldsNone : Map RpcStreamDecoder → Type 0
  HoldsNone m = (k : ℕ) → get k m ≡ none

  remove-absent :
      (id k : ℕ) (m : Map RpcStreamDecoder) → get k m ≡ none → get k (remove id m) ≡ none
  remove-absent id k m h = rw get-remove (ground (arith, h))

  remove_if-absent :
      (b : Bool) (id k : ℕ) (m : Map RpcStreamDecoder)
      → get k m ≡ none
      → get k (if b then remove id m else m) ≡ none
  remove_if-absent true id k m h = remove-absent id k m h
  remove_if-absent false id k m h = h

  -- Behind the removal of `sid` nothing is left.
  remove-HoldsNone :
      (sid : ℕ) (m : Map RpcStreamDecoder) → HoldsAtMost sid m → HoldsNone (remove sid m)
  remove-HoldsNone sid m h k = elim (Bool-cases (sid == k)) [
    | inl e ↦ rw (get-remove, e)
    | inr e ↦ remove-absent sid k m (h k e)
  ]

  insert-HoldsAtMost :
      (sid : ℕ) (d : RpcStreamDecoder) (m : Map RpcStreamDecoder)
      → HoldsAtMost sid m
      → HoldsAtMost sid (insert sid d m)
  insert-HoldsAtMost sid d m h k ne = get-insert_other sid k d m ne ∙ h k ne

  -- Events are delivered; the decoders stay unless one is the end.
  deliver-runs :
      (sid : ℕ) (es : List RpcStreamEvent) (m : Map RpcStreamDecoder) (w w' : W)
      → RunsTo es w w'
      → (m' : Map RpcStreamDecoder) × (deliver on_event sid es m w ≡ (ok tt, m', w'))
        × (GoesOn es → m' ≡ m)
        × ((k : ℕ) → get k m ≡ none → get k m' ≡ none)
  unfolding deliver
  deliver-runs sid [] m w w' h = (m, rw h, (λ _. refl), λ k n. n)
  deliver-runs sid (e ∷ es) m w w' (v, c, h) =
      let m1 = if is_end_event e then remove sid m else m in
      let (m', d, same, absent) = deliver-runs sid es m1 v w' h in
      (
        m',
        ap (after_event sid es m1) c ∙ d,
        (λ g. same g.1 ∙ rw g.0),
        λ k n. absent k (remove_if-absent (is_end_event e) sid k m n),
      )

  read_frame-runs :
      (f : DecodedFrame) (m : Map RpcStreamDecoder) (es : List RpcStreamEvent)
      (d : RpcStreamDecoder) (w w' : W)
      → decode_rpc_frame f (decoder_or_new (get f.inner.stream_id m)) ≡ (ok es, d)
      → RunsTo es w w'
      → is_cancel f.inner.kind ≡ false
      → (m' : Map RpcStreamDecoder) × (read_frame on_event f m w ≡ (ok tt, m', w'))
        × (is_end f.inner.kind ≡ false → GoesOn es → m' ≡ insert f.inner.stream_id d m)
        × (is_end f.inner.kind ≡ true → HoldsAtMost f.inner.stream_id m → HoldsNone m')
  unfolding read_frame clean_up
  read_frame-runs f m es d w w' e h plain =
      let (m', dl, same, absent) =
        deliver-runs f.inner.stream_id es (insert f.inner.stream_id d m) w w' h in
      (
        (if is_cancel f.inner.kind || is_end f.inner.kind then remove f.inner.stream_id m' else m'),
        ap (after_decoding f m w) e ∙ ap (clean_up on_event f) dl,
        (λ last g. rw (plain, last) (same g)),
        λ last none_else.
            rw (plain, last)
              (remove-HoldsNone f.inner.stream_id m'
                (λ k ne. absent k (insert-HoldsAtMost f.inner.stream_id d m none_else k ne))),
      )

  -- What a run of frames gives, of its first frame and of the others.
  decode_all-first :
      (f : DecodedFrame) (fs : List DecodedFrame) (d d' : RpcStreamDecoder)
      (es : List RpcStreamEvent)
      → decode_all (f ∷ fs) d ≡ (ok es, d')
      → (e1 e2 : List RpcStreamEvent) × (d1 : RpcStreamDecoder) × (decode_rpc_frame f d
          ≡ (ok e1, d1))
        × (decode_all fs d1 ≡ (ok e2, d'))
        × (e1 ++ e2 ≡ es)
  decode_all-first f fs d d' es e = first (decode_rpc_frame f d) refl
    where
      second :
          (e1 : List RpcStreamEvent) (d1 : RpcStreamDecoder) (out : Decoding (List RpcStreamEvent))
          → behind e1 out ≡ (ok es, d')
          → (e2 : List RpcStreamEvent) × (out ≡ (ok e2, d')) × (e1 ++ e2 ≡ es)
      second e1 d1 (ok e2, d2) h = (e2, cc, cc)
      second e1 d1 (err x, d2) h = absurd (cc)

      first :
          (out : Decoding (List RpcStreamEvent))
          → decode_rpc_frame f d ≡ out
          → (e1 e2 : List RpcStreamEvent) × (d1 : RpcStreamDecoder) × (decode_rpc_frame f d
              ≡ (ok e1, d1))
            × (decode_all fs d1 ≡ (ok e2, d'))
            × (e1 ++ e2 ≡ es)
      first (ok e1, d1) h =
          let (e2, a, b) = second e1 d1 (decode_all fs d1) (sym (step f fs d d1 e1 h) ∙ e) in
          (e1, e2, d1, h, a, b)
      first (err x, d1) h = let no = sym (step_fails f fs d d1 x h) ∙ e in absurd (cc)

  read_items_step :
      (f : DecodedFrame) (fs : List DecodedFrame) (m m1 : Map RpcStreamDecoder) (w v : W)
      → read_frame on_event f m w ≡ (ok tt, m1, v)
      → read_items on_event (map ok (f ∷ fs)) m w ≡ read_items on_event (map ok fs) m1 v
  unfolding read_items
  read_items_step f fs m m1 w v e = ap (after_frame fs) e

  no_events :
      (d d' : RpcStreamDecoder) (es : List RpcStreamEvent) (w w' : W)
      → decode_all [] d ≡ (ok es, d')
      → RunsTo es w w'
      → w ≡ w'
  unfolding decode_all
  no_events d d' es w w' e h =
      let none_left : es ≡ [] = cc in subst (λ l. RunsTo l w w') none_left h

  at_stream :
      (f : DecodedFrame) (m : Map RpcStreamDecoder) (d : RpcStreamDecoder) (sid : ℕ)
      → f.inner.stream_id ≡ sid
      → decoder_or_new (get sid m) ≡ d
      → decode_rpc_frame f (decoder_or_new (get f.inner.stream_id m)) ≡ decode_rpc_frame f d
  at_stream f m d sid s k = ap (decode_rpc_frame f) (ap (λ i. decoder_or_new (get i m)) s ∙ k)

  found :
      (m1 : Map RpcStreamDecoder) (d1 : RpcStreamDecoder) (m : Map RpcStreamDecoder) (sid id : ℕ)
      → id ≡ sid
      → m1 ≡ insert id d1 m
      → decoder_or_new (get sid m1) ≡ d1
  unfolding decoder_or_new
  found m1 d1 m sid id s e =
      ap decoder_or_new
        (ap (get sid) e ∙ ap (λ i. get sid (insert i d1 m)) s ∙ get-insert_same sid d1 m)

  -- The frames of a whole stream, where its decoder is `d`: their events are delivered.
  pub read_items-runs :
      (sid n : ℕ) (fs : List DecodedFrame) (m : Map RpcStreamDecoder) (d d' : RpcStreamDecoder)
      (es : List RpcStreamEvent) (w w' : W)
      → IsStream sid n fs
      → decoder_or_new (get sid m) ≡ d
      → decode_all fs d ≡ (ok es, d')
      → RunsTo es w w'
      → (m' : Map RpcStreamDecoder) × (read_items on_event (map ok fs) m w ≡ (ok tt, m', w'))
        × (0 < length fs → HoldsAtMost sid m → HoldsNone m')
  unfolding read_items
  read_items-runs sid n [] m d d' es w w' s k e h =
      (m, ap (λ v. (ok tt, m, v)) (no_events d d' es w w' e h), λ none_there. absurd (omega arith))
  read_items-runs sid n (f ∷ []) m d d' es w w' s k e h =
      let (e1, e2, d1, first, rest, both) = decode_all-first f [] d d' es e in
      let (v, h1, h2) = RunsTo-split e1 e2 w w' (rw both h) in
      let (m1, r, kept, gone) =
        read_frame-runs f m e1 d1 w v (at_stream f m d sid s.0 k ∙ first) h1 s.2 in
      (
        m1,
        read_items_step f [] m m1 w v r
            ∙ ap (λ u. (ok tt, m1, u)) (no_events d1 d' e2 v w' rest h2),
        λ some_frame none_else. gone s.3 (subst (λ i. HoldsAtMost i m) (sym s.0) none_else),
      )
  read_items-runs sid n (f ∷ g ∷ fs) m d d' es w w' s k e h =
      let (e1, e2, d1, first, rest, both) = decode_all-first f (g ∷ fs) d d' es e in
      let (v, h1, h2) = RunsTo-split e1 e2 w w' (rw both h) in
      let (m1, r, kept, _) =
        read_frame-runs f m e1 d1 w v (at_stream f m d sid s.0 k ∙ first) h1 s.2 in
      let is_kept = kept s.3 (decode_rpc_frame-GoesOn f d d1 e1 first s.3) in
      let (m', more, gone) =
        read_items-runs sid (suc n) (g ∷ fs) m1 d1 d' e2 v w' s.4
          (found m1 d1 m sid f.inner.stream_id s.0 is_kept) rest h2 in
      (
        m',
        read_items_step f (g ∷ fs) m m1 w v r ∙ more,
        λ some_frame none_else. gone (omega arith) (
            rw is_kept (
              subst (λ i. HoldsAtMost sid (insert i d1 m)) (sym s.0)
                (insert-HoldsAtMost sid d1 m none_else))),
      )
