-- ===== src/Frame/Decoder/Permutation.antt =====
-- A whole stream of frames, permuted.
use mathlib.Core.List.{Permᴰ}
use mathlib.Core.Path.{fun_ext, subst₂}
use rust_muxio.Prelude.{
  ℕ, suc, ◌+◌, ◌-◌, ◌^◌, ◌≤◌, ◌<◌, ◌≡◌, ◌≢◌, refl, sym, ap, ◌∙◌, none, some, List, [], ◌∷◌, map,
  ◌++◌, append_assoc, append-nil, length, ◌==◌, ok, arith, false, is_empty, All, Bool-cases, inl,
  inr, ==_refl,
}
use native.Mathlib.Decide.{ℕ_discrete}
use rust_muxio.Prelude.Perm.{All-perm}
use rust_muxio.Prelude.Map.{Map, get}
use rust_muxio.Frame.Types.{DecodedFrame, is_end, is_cancel}
use rust_muxio.Frame.Decoder.{StreamReassembly}
use rust_muxio.Frame.Decoder.Release.{Arrived, arrive, in_order, in_order-eq}
use rust_muxio.Frame.Decoder.Stream.{waiting, Progress, IsFinished}
use rust_muxio.Frame.Decoder.Reassembly.{
  accept_all, arrive_all, IsMember, IsDistinct, accept_all-finishes, accept_all_other,
  IsWaiting-none, AreNew,
}

-- The frames of stream `sid` from number `n` on, in order, the last of which is its `End` frame.
abbrev pub IsStream : ℕ → ℕ → List DecodedFrame → Type 0
IsStream sid n [] = Unit
IsStream sid n (f ∷ fs) =
    (f.inner.stream_id ≡ sid)
    × (f.inner.seq_id ≡ n)
    × (is_cancel f.inner.kind ≡ false)
    × (is_end f.inner.kind ≡ is_empty fs)
    × IsStream sid (suc n) fs

last_lem :
    (fs : List DecodedFrame) (n last : ℕ)
    → n + suc (length fs) ≡ suc last
    → is_empty fs ≡ (n == last)
last_lem [] n last e = ground arith
last_lem (g ∷ gs) n last e = ground arith

IsStream-members :
    (sid last n : ℕ) (fs : List DecodedFrame)
    → n + length fs ≡ suc last
    → IsStream sid n fs
    → All (IsMember sid last) fs
IsStream-members sid last n [] e h = tt
IsStream-members sid last n (f ∷ fs) e h = (
  record {
    stream = h.0;
    not_cancel = h.2;
    below = omega (arith, h.1);
    ends = rw h.1 (h.3 ∙ last_lem fs n last e);
  },
  IsStream-members sid last (suc n) fs (omega arith) h.4,
)

IsStream-above :
    (sid n : ℕ) (f : DecodedFrame) (fs : List DecodedFrame)
    → f.inner.seq_id < n
    → IsStream sid n fs
    → All (λ g. f.inner.seq_id ≢ g.inner.seq_id) fs
IsStream-above sid n f [] lt h = tt
IsStream-above sid n f (g ∷ gs) lt h =
    (λ e. absurd (omega (arith, e, h.1)), IsStream-above sid (suc n) f gs (omega arith) h.4)

IsStream-IsDistinct : (sid n : ℕ) (fs : List DecodedFrame) → IsStream sid n fs → IsDistinct fs
IsStream-IsDistinct sid n [] h = tt
IsStream-IsDistinct sid n (f ∷ fs) h = (
  IsStream-above sid (suc n) f fs (omega (arith, h.1)) h.4,
  IsStream-IsDistinct sid (suc n) fs h.4,
)

arrive_self : (A : Arrived) (f : DecodedFrame) (n : ℕ) → f.inner.seq_id ≡ n → arrive f A n ≡ some f
arrive_self A f n e = ground arith

same_below :
    (A : Arrived) (f : DecodedFrame) (n : ℕ)
    → f.inner.seq_id ≡ n
    → in_order (arrive f A) n ≡ in_order A n
same_below A f n e = in_order-eq (arrive f A) A n (λ k lt. ground arith)

-- A stream that has arrived reads back in its order.
in_order-arrive_all :
    (sid n : ℕ) (fs : List DecodedFrame) (A : Arrived)
    → IsStream sid n fs
    → in_order (arrive_all fs A) (n + length fs) ≡ in_order A n ++ map ok fs
in_order-arrive_all sid n [] A h = let e : n + 0 ≡ n = omega arith in rw (e, append-nil)
in_order-arrive_all sid n (f ∷ fs) A h =
    let e : n + suc (length fs) ≡ suc n + length fs = omega arith in
    rw e (
      in_order-arrive_all sid (suc n) fs (arrive f A) h.4
      ∙ rw (arrive_self A f n h.1, append_assoc, same_below A f n h.1))

arrive-keeps : (A : Arrived) (f : DecodedFrame) (k : ℕ) → A k ≢ none → arrive f A k ≢ none
arrive-keeps A f k a = elim (Bool-cases (f.inner.seq_id == k)) [
  | inl e ↦ rw e (λ n. cc)
  | inr e ↦ rw e a
]

arrive_all-keeps :
    (fs : List DecodedFrame) (A : Arrived) (k : ℕ) → A k ≢ none → arrive_all fs A k ≢ none
arrive_all-keeps [] A k a = a
arrive_all-keeps (f ∷ fs) A k a = arrive_all-keeps fs (arrive f A) k (arrive-keeps A f k a)

arrive_all_complete :
    (sid n : ℕ) (fs : List DecodedFrame) (A : Arrived)
    → IsStream sid n fs
    → (k : ℕ) → n ≤ k
    → k < n + length fs
    → arrive_all fs A k ≢ none
arrive_all_complete sid n [] A h k le lt = absurd (omega arith)
arrive_all_complete sid n (f ∷ fs) A h k le lt = elim (ℕ_discrete n k) [
  | yes e ↦ arrive_all-keeps fs (arrive f A) k (rw (h.1, e, ==_refl k) (λ q. cc))
  | no ne ↦ arrive_all_complete sid (suc n) fs (arrive f A) h.4 k (omega arith) (omega arith)
]

IsDistinct-perm : {xs ys : List DecodedFrame} → Permᴰ xs ys → IsDistinct xs → IsDistinct ys
IsDistinct-perm Permᴰ.nil h = tt
IsDistinct-perm (Permᴰ.cons e p) h = (rw (← e) (All-perm _ p h.0), IsDistinct-perm p h.1)
IsDistinct-perm (Permᴰ.swap {l = l} e d) h =
    subst₂ (λ x y. IsDistinct (x ∷ y ∷ l)) d e (((λ q. h.0.0 (sym q)), h.1.0), (h.0.1, h.1.1))
IsDistinct-perm (Permᴰ.trans p q) h = IsDistinct-perm q (IsDistinct-perm p h)

arrive-swap :
    (A : Arrived) (f g : DecodedFrame)
    → f.inner.seq_id ≢ g.inner.seq_id
    → arrive f (arrive g A) ≡ arrive g (arrive f A)
arrive-swap A f g ne = fun_ext (λ k. ground (arith, ne))

-- Which frames have arrived does not depend on the order of arrival.
arrive_all-perm :
    {xs ys : List DecodedFrame}
    → Permᴰ xs ys
    → IsDistinct xs
    → (A : Arrived) → arrive_all xs A ≡ arrive_all ys A
arrive_all-perm Permᴰ.nil h A = refl
arrive_all-perm (Permᴰ.cons {b = b} e p) h A = rw e (arrive_all-perm p h.1 (arrive b A))
arrive_all-perm (Permᴰ.swap {a = a} {b = b} {l = l} e d) h A =
    rw (← e, ← d) (ap (arrive_all l) (arrive-swap A b a (λ q. h.0.0 (sym q))))
arrive_all-perm (Permᴰ.trans p q) h A =
    arrive_all-perm p h A ∙ arrive_all-perm q (IsDistinct-perm p h) A

none-AreNew : (fs : List DecodedFrame) → AreNew (λ k. none) fs
none-AreNew [] = tt
none-AreNew (f ∷ fs) = (refl, none-AreNew fs)

module _ (sid : ℕ) (frames fs : List DecodedFrame) (streams : Map StreamReassembly)
    (some_frame : 0 < length frames) (few : length frames < 2 ^ 32) (stream : IsStream sid 0 frames)
    (perm : Permᴰ frames fs) (unknown : get sid streams ≡ none) where
  abbrev last : ℕ
  last = length frames - 1

  members : All (IsMember sid last) fs
  members =
      All-perm (IsMember sid last) perm (IsStream-members sid last 0 frames (omega arith) stream)

  distinct : IsDistinct fs
  distinct = IsDistinct-perm perm (IsStream-IsDistinct sid 0 frames stream)

  arrived : arrive_all fs (λ k. none) ≡ arrive_all frames (λ k. none)
  arrived = sym (arrive_all-perm perm (IsStream-IsDistinct sid 0 frames stream) (λ k. none))

  start : Progress sid last (λ k. none) streams []
  start = waiting (rw unknown (IsWaiting-none last))

  done :
      IsFinished sid last
        (arrive_all fs (λ k. none))
        (accept_all streams fs).0
        (accept_all streams fs).1
  done =
      accept_all-finishes sid last (omega arith) fs (λ k. none) streams [] members distinct
        (none-AreNew fs) (λ k a. absurd (a refl)) start
        (rw arrived (λ k le.
          arrive_all_complete sid 0 frames (λ k. none) stream k (omega arith) (omega arith)))

  -- The frames of a whole stream, in whatever order they come, are put out once each in the order
  -- of the stream.
  pub accept_all-in_order : (accept_all streams fs).1 ≡ map ok frames
  accept_all-in_order =
      let e : suc last ≡ 0 + length frames = omega arith in
      done.released
      ∙ ap (in_order (arrive_all fs (λ k. none))) e
      ∙ rw arrived (in_order-arrive_all sid 0 frames (λ k. none) stream)

  -- When the last of them has come the decoder has forgotten the stream.
  pub accept_all-forgets : get sid (accept_all streams fs).0 ≡ none
  accept_all-forgets = done.forgotten

  pub accept_all-others : (j : ℕ) → sid ≢ j → get j (accept_all streams fs).0 ≡ get j streams
  accept_all-others j ne =
      accept_all_other sid last (omega arith) fs (λ k. none) streams [] j ne members distinct
        (none-AreNew fs) (λ k a. absurd (a refl)) start
