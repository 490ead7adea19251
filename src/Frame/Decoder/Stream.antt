-- ===== src/Frame/Decoder/Stream.antt =====
-- One frame of a stream, and the life of a stream from its first frame to its last.
use rust_muxio.Prelude.{
  ℕ, suc, ◌^◌, ◌≤◌, ◌<◌, ◌≡◌, ◌≢◌, refl, sym, ◌∙◌, Option, none, some, List, ◌++◌, length, ◌==◌,
  if◌then◌else◌, arith, Option-cases, inl, inr, ◌⊎◌, true, false, ◌&&◌, is_empty, Bool-cases, ==→eq,
}
use native.Mathlib.Decide.{dec_le}
use rust_muxio.Prelude.Map.{
  Map, get, remove, insert, get-remove, get-insert, empty_of_get, get_of_empty,
}
use rust_muxio.Frame.Types.{DecodedFrame, is_end, is_cancel}
use rust_muxio.Frame.Decoder.{
  StreamReassembly, Item, release, enqueue, accept, reassemble, stream_or_fresh, known_canceled,
}
use rust_muxio.Frame.Decoder.Release.{
  Arrived, arrive, in_order, Holds, Released, release-Released, Holds-enqueue,
}

-- A stream whose `End` frame has number `last`, with entry `o` in the decoder, waits for frames.
pub record IsWaiting (last : ℕ) (A : Arrived) (o : Option StreamReassembly) (out : List Item)
    : Type 0 where
  pub holds : Holds A (stream_or_fresh o) out
  pub stops : A (stream_or_fresh o).next_expected ≡ none
  pub ended : (stream_or_fresh o).is_ended ≡ true → A last ≢ none
  pub end_seen : A last ≢ none → (stream_or_fresh o).is_ended ≡ true
  pub not_canceled : (stream_or_fresh o).is_canceled ≡ false
  pub unfinished : (stream_or_fresh o).next_expected ≤ last

-- All frames of stream `sid` were put out, in order, and the decoder has forgotten the stream.
pub record IsFinished (sid last : ℕ) (A : Arrived) (streams : Map StreamReassembly)
    (out : List Item) : Type 0 where
  pub forgotten : get sid streams ≡ none
  pub released : out ≡ in_order A (suc last)
  pub complete : (k : ℕ) → k ≤ last → A k ≢ none

-- `f` may come next on stream `sid`.
pub record Fits (sid last : ℕ) (A : Arrived) (f : DecodedFrame) : Type 0 where
  pub stream : f.inner.stream_id ≡ sid
  pub not_cancel : is_cancel f.inner.kind ≡ false
  pub new : A f.inner.seq_id ≡ none
  pub below : f.inner.seq_id ≤ last
  pub ends : is_end f.inner.kind ≡ (f.inner.seq_id == last)

-- Nothing beyond `last` has arrived.
abbrev pub IsBelow : ℕ → Arrived → Type 0
IsBelow last A = (k : ℕ) → A k ≢ none → k ≤ last

abbrev enqueued : ℕ → Map StreamReassembly → DecodedFrame → StreamReassembly
enqueued sid streams f = enqueue f (stream_or_fresh (get sid streams))

abbrev step : ℕ → Map StreamReassembly → DecodedFrame → StreamReassembly × List Item
step sid streams f = release (length (enqueued sid streams f).buffer) (enqueued sid streams f)

accept_eq :
    (sid : ℕ) (streams : Map StreamReassembly) (f : DecodedFrame)
    → f.inner.stream_id ≡ sid
    → is_cancel f.inner.kind ≡ false
    → known_canceled (get sid streams) ≡ false
    → accept streams f ≡ (
      (if (step sid streams f).0.is_ended && is_empty (step sid streams f).0.buffer
          then remove sid (insert sid (step sid streams f).0 streams)
          else insert sid (step sid streams f).0 streams),
      (step sid streams f).1,
    )
unfolding accept reassemble
accept_eq sid streams f e c n = rw (e, n, c)

-- After a release: the number that is expected next, where the stream's last number is `last`.
module _ (last : ℕ) (A : Arrived) (st : StreamReassembly) (out : List Item) (h : Holds A st out)
    (below : IsBelow last A) where
  next_bound : st.next_expected ≤ suc last
  next_bound = elim (dec_le st.next_expected (suc last)) [
    | yes le ↦ le
    | no gt ↦ absurd (omega (arith, below (suc last) (h.complete (suc last) (omega arith))))
  ]

  -- With the last frame there and nothing waiting, all frames were put out.
  next_of_empty : is_empty st.buffer ≡ true → A last ≢ none → st.next_expected ≡ suc last
  next_of_empty e a = elim (dec_le st.next_expected last) [
    | no gt ↦ omega (arith, next_bound)
    | yes le ↦ absurd (a (nothing le))
  ]
    where
      nothing : st.next_expected ≤ last → A last ≡ none
      nothing le = ground (arith, h.waits last, get_of_empty last st.buffer e)

  -- Past the last frame nothing waits.
  empty_of_next : last < st.next_expected → is_empty st.buffer ≡ true
  empty_of_next lt = empty_of_get st.buffer (λ k. nothing k (Option-cases (A k)))
    where
      nothing :
          (k : ℕ) → (A k ≡ none) ⊎ ((f : DecodedFrame) × (A k ≡ some f)) → get k st.buffer ≡ none
      nothing k (inl e) = ground (arith, h.waits k)
      nothing k (inr (f, e)) = ground (arith, h.waits k, below k (λ n. cc))

-- What the decoder knows of the stream after a frame.
pub data Progress (sid last : ℕ) (A : Arrived) (streams : Map StreamReassembly) (out : List Item)
    : Type 0 where
  waiting : IsWaiting last A (get sid streams) out → Progress sid last A streams out
  finished : IsFinished sid last A streams out → Progress sid last A streams out

finishes :
    (sid last : ℕ) (A : Arrived) (streams : Map StreamReassembly) (st : StreamReassembly)
    (out : List Item)
    → Holds A st out
    → IsBelow last A
    → A last ≢ none
    → is_empty st.buffer ≡ true
    → IsFinished sid last A (remove sid (insert sid st streams)) out
finishes sid last A streams st out h below a e =
    let n = next_of_empty last A st out h below e a in
    record {
      forgotten = ground (arith, get-remove sid sid (insert sid st streams));
      released = rw n at h.released;
      complete = λ k le. h.complete k (omega arith);
    }

waits_on :
    (sid last : ℕ) (A : Arrived) (streams : Map StreamReassembly) (st : StreamReassembly)
    (out : List Item)
    → Holds A st out
    → A st.next_expected ≡ none
    → (st.is_ended ≡ true → A last ≢ none)
    → (A last ≢ none → st.is_ended ≡ true)
    → st.is_canceled ≡ false
    → st.next_expected ≤ last
    → IsWaiting last A (get sid (insert sid st streams)) out
unfolding stream_or_fresh
waits_on sid last A streams st out h stops ended seen c le =
    let e : get sid (insert sid st streams) ≡ some st =
      ground (arith, get-insert sid sid st streams) in
    rw e (record {
      holds = h;
      stops = stops;
      ended = ended;
      end_seen = seen;
      not_canceled = c;
      unfinished = le;
    })

known_canceled-eq :
    (o : Option StreamReassembly) → (stream_or_fresh o).is_canceled ≡ known_canceled o
unfolding stream_or_fresh known_canceled
known_canceled-eq none = refl
known_canceled-eq (some st) = refl

module _ (sid last : ℕ) (A : Arrived) (streams : Map StreamReassembly) (out : List Item)
    (f : DecodedFrame) (small : suc last < 2 ^ 32) (below : IsBelow last A)
    (w : IsWaiting last A (get sid streams) out) (fits : Fits sid last A f) where
  pub arrive-IsBelow : IsBelow last (arrive f A)
  arrive-IsBelow k a = elim (Bool-cases (f.inner.seq_id == k)) [
    | inl e ↦ omega (arith, ==→eq f.inner.seq_id k e, fits.below)
    | inr e ↦ below k (λ n. a (rw e n))
  ]

  released : Released (arrive f A) (enqueued sid streams f) out (step sid streams f)
  released =
      release-Released (length (enqueued sid streams f).buffer) (arrive f A)
        (enqueued sid streams f) out (λ k a. omega (arith, arrive-IsBelow k a)) (omega arith)
        (Holds-enqueue A (stream_or_fresh (get sid streams)) out f fits.new w.holds)

  -- The stream is marked as ended exactly when its last frame has arrived.
  step_ended : (step sid streams f).0.is_ended ≡ true → arrive f A last ≢ none
  unfolding enqueue
  step_ended e = elim (Bool-cases (f.inner.seq_id == last)) [
    | inl l ↦ rw l (λ n. cc)
    | inr l ↦ rw l (w.ended (ground (arith, released.same_end, fits.ends)))
  ]

  step_end_seen : arrive f A last ≢ none → (step sid streams f).0.is_ended ≡ true
  unfolding enqueue
  step_end_seen a = elim (Bool-cases (f.inner.seq_id == last)) [
    | inl l ↦ ground (arith, released.same_end, fits.ends)
    | inr l ↦ ground (arith, released.same_end, fits.ends, w.end_seen (rw l at a))
  ]

  not_finished :
      ((step sid streams f).0.is_ended && is_empty (step sid streams f).0.buffer) ≡ false
      → (step sid streams f).0.next_expected ≤ last
  not_finished e = elim (dec_le (step sid streams f).0.next_expected last) [
    | yes le ↦ le
    | no gt ↦
        let lt : last < (step sid streams f).0.next_expected = omega arith in
        absurd (
          ground (
            arith,
            e,
            step_end_seen (released.holds.complete last lt),
            empty_of_next last (arrive f A) (step sid streams f).0 (out ++ (step sid streams f).1)
                released.holds arrive-IsBelow lt,
          ))
  ]

  step_canceled : (step sid streams f).0.is_canceled ≡ false
  unfolding enqueue
  step_canceled = released.same_cancel ∙ w.not_canceled

  -- A frame that fits is kept, or put out with all that it sets free; the frame that makes the
  -- stream complete finishes it.
  pub accept-Progress :
      Progress sid last (arrive f A) (accept streams f).0 (out ++ (accept streams f).1)
  accept-Progress =
      rw
        (accept_eq sid streams f fits.stream fits.not_cancel
          (sym (known_canceled-eq (get sid streams)) ∙ w.not_canceled))
        (elim (Bool-cases
          ((step sid streams f).0.is_ended && is_empty (step sid streams f).0.buffer)) [
            | inl e ↦ rw e (
                finished (
                  finishes sid last (arrive f A) streams (step sid streams f).0 _ released.holds
                    arrive-IsBelow (step_ended (ground (arith, e))) (ground (arith, e))))
            | inr e ↦ rw e (
                waiting (
                  waits_on sid last (arrive f A) streams (step sid streams f).0 _ released.holds
                    released.stops step_ended step_end_seen step_canceled (not_finished e)))
          ])

  -- The other streams are left alone.
  pub accept_other : (j : ℕ) → sid ≢ j → get j (accept streams f).0 ≡ get j streams
  accept_other j ne =
      rw
        (accept_eq sid streams f fits.stream fits.not_cancel
          (sym (known_canceled-eq (get sid streams)) ∙ w.not_canceled))
        (ground (
          arith,
          ne,
          get-remove sid j (insert sid (step sid streams f).0 streams),
          get-insert sid j (step sid streams f).0 streams,
        ))
