-- ===== src/Frame/Decoder/Streams.antt =====
-- Which streams the decoder keeps, whatever bytes it has read.
use rust_muxio.Prelude.{
  ℕ, zero, suc, ◌≡◌, refl, sym, ◌∙◌, subst, false, ◌&&◌, Option, none, some, List, [], ◌∷◌, ◌++◌,
  ok, err, if_cases, if◌then◌else◌, ◌==◌, is_empty, length, Option-cases, inl, inr,
}
use rust_muxio.Prelude.Map.{Map, get, insert, remove, get-insert, get-remove, get_empty}
use rust_muxio.Frame.Types.{DecodedFrame, is_cancel}
use rust_muxio.Frame.Decoder.{
  FrameMuxStreamDecoder, StreamReassembly, Item, Head, wait, no_length, whole, new, release,
  stream_or_fresh, enqueue, reassemble, known_canceled, mark_canceled, accept, canceled, handle,
  head, read_loop, read_bytes,
}

-- A stream that is kept was not cancelled, and is not finished.
abbrev pub IsLive : Option StreamReassembly → Type 0
IsLive none = Unit
IsLive (some st) = (st.is_canceled ≡ false) × ((st.is_ended && is_empty st.buffer) ≡ false)

abbrev pub AllLive : Map StreamReassembly → Type 0
AllLive streams = (id : ℕ) → IsLive (get id streams)

-- The decoders that reads can lead to.
pub data Reachable : FrameMuxStreamDecoder → Type 0 where
  start : Reachable new
  read :
      {d : FrameMuxStreamDecoder}
      → Reachable d
      → (input : List ℕ) → Reachable (read_bytes d input).0

AllLive-insert :
    (id : ℕ) (st : StreamReassembly) (streams : Map StreamReassembly)
    → st.is_canceled ≡ false
    → (st.is_ended && is_empty st.buffer) ≡ false
    → AllLive streams
    → AllLive (insert id st streams)
AllLive-insert id st streams c f h k =
    subst IsLive (sym (get-insert id k st streams))
      (if_cases IsLive (id == k) (some st) (get k streams) (λ e. (c, f)) (λ e. h k))

AllLive-remove :
    (id : ℕ) (streams : Map StreamReassembly)
    → ((k : ℕ) → (id == k) ≡ false → IsLive (get k streams))
    → AllLive (remove id streams)
AllLive-remove id streams h k =
    subst IsLive (sym (get-remove id k streams))
      (if_cases IsLive (id == k) none (get k streams) (λ e. tt) (λ e. h k e))

release-is_canceled :
    (fuel : ℕ) (st : StreamReassembly) → (release fuel st).0.is_canceled ≡ st.is_canceled
unfolding release
release-is_canceled zero st = refl
release-is_canceled (suc fuel) st = elim (Option-cases (get st.next_expected st.buffer)) [
  | inl e ↦ rw (e, release)
  | inr (frame, e) ↦ rw (e, release) (release-is_canceled fuel _)
]

stream_or_fresh-is_canceled :
    (o : Option StreamReassembly) → IsLive o → (stream_or_fresh o).is_canceled ≡ false
unfolding stream_or_fresh
stream_or_fresh-is_canceled none h = refl
stream_or_fresh-is_canceled (some st) h = h.0

reassemble-AllLive :
    (streams : Map StreamReassembly) (frame : DecodedFrame)
    → AllLive streams
    → AllLive (reassemble streams frame).0
unfolding reassemble enqueue
reassemble-AllLive streams frame h =
    let id = frame.inner.stream_id in
    let st = enqueue frame (stream_or_fresh (get id streams)) in
    let st' = (release (length st.buffer) st).0 in
    if_cases AllLive (st'.is_ended && is_empty st'.buffer) (remove id (insert id st' streams))
      (insert id st' streams)
      (λ e.
        AllLive-remove id (insert id st' streams)
          (λ k ne. subst IsLive (sym (get-insert id k st' streams)) (rw ne (h k))))
      (λ e.
        AllLive-insert id st' streams
          (release-is_canceled (length st.buffer) st
            ∙ stream_or_fresh-is_canceled (get id streams) (h id))
          e h)

known_canceled-IsLive : (o : Option StreamReassembly) → IsLive o → known_canceled o ≡ false
unfolding known_canceled
known_canceled-IsLive none h = refl
known_canceled-IsLive (some st) h = h.0

-- The mark of a cancelled stream is on that stream alone.
mark_canceled_other :
    (id k : ℕ) (streams : Map StreamReassembly) (o : Option StreamReassembly)
    → get id streams ≡ o
    → (id == k) ≡ false
    → get k (mark_canceled id streams) ≡ get k streams
unfolding mark_canceled
mark_canceled_other id k streams none e ne = rw (e, mark_canceled)
mark_canceled_other id k streams (some st) e ne =
    rw (e, mark_canceled) (get-insert id k _ streams ∙ rw ne)

cancel-AllLive :
    (id : ℕ) (streams : Map StreamReassembly)
    → AllLive streams
    → AllLive (remove id (mark_canceled id streams))
cancel-AllLive id streams h =
    AllLive-remove id (mark_canceled id streams)
      (λ k ne. subst IsLive (sym (mark_canceled_other id k streams (get id streams) refl ne)) (h k))

accept-AllLive :
    (streams : Map StreamReassembly) (frame : DecodedFrame)
    → AllLive streams
    → AllLive (accept streams frame).0
unfolding accept
accept-AllLive streams frame h =
    let P = λ (r : Map StreamReassembly × List Item). AllLive r.0 in
    if_cases P (known_canceled (get frame.inner.stream_id streams)) _ _ (λ e. h)
      (λ e.
        if_cases P (is_cancel frame.inner.kind) _ _
          (λ c. cancel-AllLive frame.inner.stream_id streams h)
          (λ c. reassemble-AllLive streams frame h))

handle-AllLive :
    (streams : Map StreamReassembly) (item : Item)
    → AllLive streams
    → AllLive (handle streams item).0
unfolding handle
handle-AllLive streams (ok frame) h = accept-AllLive streams frame h
handle-AllLive streams (err e) h = h

read_loop-AllLive :
    (fuel : ℕ) (d : FrameMuxStreamDecoder)
    → AllLive d.streams
    → AllLive (read_loop fuel d).0.streams
unfolding read_loop
read_loop-AllLive zero d h = h
read_loop-AllLive (suc fuel) d h =
    go (head d.buffer) refl
      (λ rest streams l. read_loop-AllLive fuel (record { buffer = rest; streams = streams }) l)
  where
    go :
        (x : Head)
        → head d.buffer ≡ x
        → ((rest : List ℕ) (streams : Map StreamReassembly)
            → AllLive streams
            → AllLive (read_loop fuel (record { buffer = rest; streams = streams })).0.streams)
        → AllLive (read_loop (suc fuel) d).0.streams
    go wait e rec = rw (e, read_loop) h
    go no_length e rec = rw (e, read_loop) h
    go (whole item rest) e rec =
        rw (e, read_loop) (rec rest (handle d.streams item).0 (handle-AllLive d.streams item h))

-- Whatever bytes a decoder has read, in whatever cuts, no stream that it keeps was cancelled, and
-- none is finished: a stream that has ended with nothing left to wait for has been removed.
pub Reachable-AllLive : {d : FrameMuxStreamDecoder} → Reachable d → AllLive d.streams
unfolding new read_bytes
Reachable-AllLive start = λ id. subst IsLive (sym (get_empty id)) tt
Reachable-AllLive (read {d} r input) =
    read_loop-AllLive (length (d.buffer ++ input)) (record d { buffer = d.buffer ++ input })
      (Reachable-AllLive r)

-- The test for a cancelled stream never holds: a decoder that has read any bytes takes a `Cancel`
-- frame by dropping its stream, and any other frame, one that comes after a `Cancel` of its stream
-- too, as a frame of a stream that is not cancelled.
pub accept-Reachable :
    {d : FrameMuxStreamDecoder} (frame : DecodedFrame)
    → Reachable d
    → accept d.streams frame ≡ (
        if is_cancel frame.inner.kind
        then (
          remove frame.inner.stream_id (mark_canceled frame.inner.stream_id d.streams),
          ok (canceled frame) ∷ [],
        )
        else reassemble d.streams frame)
unfolding accept
accept-Reachable {d} frame r = rw (
    known_canceled-IsLive (get frame.inner.stream_id d.streams)
      (Reachable-AllLive r frame.inner.stream_id))
