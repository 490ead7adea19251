-- ===== src/Frame/Decoder/Reassembly.antt =====
-- The frames of a stream in any order of arrival come out in the order of their numbers.
use rust_muxio.Prelude.{
  ℕ, suc, ◌^◌, ◌≤◌, ◌<◌, ◌≡◌, ◌≢◌, refl, ◌∙◌, none, List, [], ◌∷◌, ◌++◌, append_assoc, append-nil,
  ◌==◌, arith, false, All, ==_ne,
}
use rust_muxio.Prelude.Map.{Map, get, get_empty}
use rust_muxio.Frame.Types.{DecodedFrame, is_end, is_cancel}
use rust_muxio.Frame.Decoder.{StreamReassembly, Item, accept, stream_or_fresh}
use rust_muxio.Frame.Decoder.Release.{Arrived, arrive}
use rust_muxio.Frame.Decoder.Stream.{
  IsWaiting, IsFinished, Fits, IsBelow, Progress, waiting, finished, accept-Progress, accept_other,
  arrive-IsBelow,
}

-- The decoder's work on a list of frames, one after the other.
unfoldable pub accept_all :
    Map StreamReassembly → List DecodedFrame → Map StreamReassembly × List Item
accept_all streams [] = (streams, [])
accept_all streams (f ∷ fs) =
    let (streams', out) = accept streams f in
    let (streams'', more) = accept_all streams' fs in (streams'', out ++ more)

abbrev pub arrive_all : List DecodedFrame → Arrived → Arrived
arrive_all [] A = A
arrive_all (f ∷ fs) A = arrive_all fs (arrive f A)

-- What a frame of stream `sid` with last number `last` is, whatever has arrived before.
pub record IsMember (sid last : ℕ) (f : DecodedFrame) : Type 0 where
  pub stream : f.inner.stream_id ≡ sid
  pub not_cancel : is_cancel f.inner.kind ≡ false
  pub below : f.inner.seq_id ≤ last
  pub ends : is_end f.inner.kind ≡ (f.inner.seq_id == last)

-- No number twice.
abbrev pub IsDistinct : List DecodedFrame → Type 0
IsDistinct [] = Unit
IsDistinct (f ∷ fs) = All (λ g. f.inner.seq_id ≢ g.inner.seq_id) fs × IsDistinct fs

-- None of the frames has arrived.
abbrev pub AreNew : Arrived → List DecodedFrame → Type 0
AreNew A fs = All (λ g. A g.inner.seq_id ≡ none) fs

AreNew-arrive :
    (A : Arrived) (f : DecodedFrame) (fs : List DecodedFrame)
    → AreNew A fs
    → All (λ g. f.inner.seq_id ≢ g.inner.seq_id) fs
    → AreNew (arrive f A) fs
AreNew-arrive A f [] n d = tt
AreNew-arrive A f (g ∷ gs) n d =
    (rw (==_ne f.inner.seq_id g.inner.seq_id d.0) n.0, AreNew-arrive A f gs n.1 d.1)

module _ (sid last : ℕ) (small : suc last < 2 ^ 32) where
  -- The frames `fs` bring a stream that waits to its end, if they are all that it waits for.
  pub accept_all-finishes :
      (fs : List DecodedFrame) (A : Arrived) (streams : Map StreamReassembly) (out : List Item)
      → All (IsMember sid last) fs
      → IsDistinct fs
      → AreNew A fs
      → IsBelow last A
      → Progress sid last A streams out
      → ((k : ℕ) → k ≤ last → arrive_all fs A k ≢ none)
      → IsFinished sid last
          (arrive_all fs A)
          (accept_all streams fs).0
          (out ++ (accept_all streams fs).1)
  unfolding accept_all
  accept_all-finishes [] A streams out m d n below (finished p) complete = rw append-nil p
  accept_all-finishes [] A streams out m d n below (waiting p) complete =
      absurd (complete (stream_or_fresh (get sid streams)).next_expected p.unfinished p.stops)
  accept_all-finishes (f ∷ fs) A streams out m d n below (finished p) complete =
      absurd (p.complete f.inner.seq_id m.0.below n.0)
  accept_all-finishes (f ∷ fs) A streams out m d n below (waiting p) complete =
      let fits : Fits sid last A f = record {
        stream = m.0.stream;
        not_cancel = m.0.not_cancel;
        new = n.0;
        below = m.0.below;
        ends = m.0.ends;
      } in
      rw append_assoc at (
        accept_all-finishes fs (arrive f A) (accept streams f).0 (out ++ (accept streams f).1) m.1
          d.1 (AreNew-arrive A f fs n.1 d.0)
          (arrive-IsBelow sid last A streams out f small below p fits)
          (accept-Progress sid last A streams out f small below p fits) complete)

  -- Streams other than `sid` are as they were.
  pub accept_all_other :
      (fs : List DecodedFrame) (A : Arrived) (streams : Map StreamReassembly) (out : List Item)
      (j : ℕ)
      → sid ≢ j
      → All (IsMember sid last) fs
      → IsDistinct fs
      → AreNew A fs
      → IsBelow last A
      → Progress sid last A streams out
      → get j (accept_all streams fs).0 ≡ get j streams
  unfolding accept_all
  accept_all_other [] A streams out j ne m d n below p = refl
  accept_all_other (f ∷ fs) A streams out j ne m d n below (finished p) =
      absurd (p.complete f.inner.seq_id m.0.below n.0)
  accept_all_other (f ∷ fs) A streams out j ne m d n below (waiting p) =
      let fits : Fits sid last A f = record {
        stream = m.0.stream;
        not_cancel = m.0.not_cancel;
        new = n.0;
        below = m.0.below;
        ends = m.0.ends;
      } in
      accept_all_other fs (arrive f A) (accept streams f).0 (out ++ (accept streams f).1) j ne m.1
        d.1 (AreNew-arrive A f fs n.1 d.0)
        (arrive-IsBelow sid last A streams out f small below p fits)
        (accept-Progress sid last A streams out f small below p fits)
      ∙ accept_other sid last A streams out f small below p fits j ne

pub IsWaiting-none : (last : ℕ) → IsWaiting last (λ k. none) none []
unfolding stream_or_fresh
IsWaiting-none last = record {
  holds = record {
    waits = λ k. ground (arith, get_empty {V = DecodedFrame} k);
    released = refl;
    complete = λ k lt. absurd (omega arith);
  };
  stops = refl;
  ended = λ e. cc;
  end_seen = λ a. absurd (a refl);
  not_canceled = refl;
  unfinished = omega arith;
}
