-- ===== src/Frame/Decoder/Release.antt =====
-- One stream's reassembly: what is released is in order, and what waits is what came too early.
use rust_muxio.Prelude.{
  ℕ, zero, suc, ◌+◌, ◌%◌, ◌^◌, ◌≤◌, ◌<◌, ◌≡◌, ◌≢◌, refl, ◌∙◌, Option, none, some, List, [], ◌∷◌,
  ◌++◌, append_assoc, append-nil, length, ltb, ◌==◌, if◌then◌else◌, ok, arith, Option-cases, inl,
  inr,
}
use rust_muxio.Prelude.Map.{get, remove, get-remove, get-insert, get_short, length-remove_lt}
use rust_muxio.Frame.Types.{DecodedFrame}
use rust_muxio.Frame.Decoder.{StreamReassembly, Item, release, enqueue}

-- The frames of a stream that have arrived, by their numbers.
abbrev pub Arrived : Type 0
Arrived = ℕ → Option DecodedFrame

abbrev pub arrive : DecodedFrame → Arrived → Arrived
arrive f A k = if f.inner.seq_id == k then some f else A k

abbrev pub items : Option DecodedFrame → List Item
items none = []
items (some f) = ok f ∷ []

-- The arrived frames below `n`, in the order of their numbers.
abbrev pub in_order : Arrived → ℕ → List Item
in_order A zero = []
in_order A (suc n) = in_order A n ++ items (A n)

-- Of the arrived frames those below `next_expected` were put out, in order and none missing, and
-- the others wait.
pub record Holds (A : Arrived) (st : StreamReassembly) (out : List Item) : Type 0 where
  pub waits : (k : ℕ) → get k st.buffer ≡ (if ltb k st.next_expected then none else A k)
  pub released : out ≡ in_order A st.next_expected
  pub complete : (k : ℕ) → k < st.next_expected → A k ≢ none

-- No number is so large that `next_expected` would wrap.
abbrev pub IsNumbered : Arrived → Type 0
IsNumbered A = (k : ℕ) → A k ≢ none → suc k < 2 ^ 32

stopped :
    (A : Arrived) (st : StreamReassembly) (out : List Item)
    → Holds A st out
    → get st.next_expected st.buffer ≡ none
    → A st.next_expected ≡ none
stopped A st out h e = ground (arith, h.waits st.next_expected)

taken :
    (A : Arrived) (st : StreamReassembly) (out : List Item) (f : DecodedFrame)
    → Holds A st out
    → get st.next_expected st.buffer ≡ some f
    → A st.next_expected ≡ some f
taken A st out f h e = ground (arith, h.waits st.next_expected)

abbrev take_out : StreamReassembly → StreamReassembly
take_out st = record st {
  next_expected = (st.next_expected + 1) % 2 ^ 32;
  buffer = remove st.next_expected st.buffer;
}

Holds-take_out :
    (A : Arrived) (st : StreamReassembly) (out : List Item) (f : DecodedFrame)
    → IsNumbered A
    → Holds A st out
    → get st.next_expected st.buffer ≡ some f
    → Holds A (take_out st) (out ++ ok f ∷ [])
Holds-take_out A st out f num h e =
    let a : A st.next_expected ≡ some f = taken A st out f h e in
    let fits : suc st.next_expected < 2 ^ 32 = num st.next_expected (λ n. cc) in
    let next : (st.next_expected + 1) % 2 ^ 32 ≡ suc st.next_expected = omega arith in
    record {
      waits = λ k. rw next (ground (arith, get-remove st.next_expected k st.buffer, h.waits k));
      released = rw (next, a, h.released);
      complete = λ k lt. ground (arith, h.complete k, next);
    }

-- What a run of `release` does.
pub record Released (A : Arrived) (st : StreamReassembly) (out : List Item)
    (r : StreamReassembly × List Item) : Type 0 where
  pub holds : Holds A r.0 (out ++ r.1)
  pub stops : A r.0.next_expected ≡ none
  pub same_end : r.0.is_ended ≡ st.is_ended
  pub same_cancel : r.0.is_canceled ≡ st.is_canceled

-- `release` ends within its fuel, at a number that has not arrived.
pub release-Released :
    (fuel : ℕ) (A : Arrived) (st : StreamReassembly) (out : List Item)
    → IsNumbered A
    → length st.buffer ≤ fuel
    → Holds A st out
    → Released A st out (release fuel st)
unfolding release
release-Released zero A st out num enough h = record {
  holds = rw append-nil h;
  stops = stopped A st out h (get_short st.next_expected st.buffer enough);
  same_end = refl;
  same_cancel = refl;
}
release-Released (suc fuel) A st out num enough h =
    elim (Option-cases (get st.next_expected st.buffer)) [
      | inl e ↦
          rw (e, release)
            (record {
              holds = rw append-nil h;
              stops = stopped A st out h e;
              same_end = refl;
              same_cancel = refl;
            })
      | inr (f, e) ↦
          let r =
            release-Released fuel A (take_out st) (out ++ ok f ∷ []) num
              (omega (arith, length-remove_lt st.next_expected st.buffer f e))
              (Holds-take_out A st out f num h e) in
          rw (e, release)
            (record {
              holds = rw append_assoc at r.holds;
              stops = r.stops;
              same_end = r.same_end;
              same_cancel = r.same_cancel;
            })
    ]

pub in_order-eq :
    (A B : Arrived) (n : ℕ) → ((k : ℕ) → k < n → A k ≡ B k) → in_order A n ≡ in_order B n
in_order-eq A B zero h = refl
in_order-eq A B (suc n) h = rw (h n (omega arith), in_order-eq A B n (λ k lt. h k (omega arith)))

-- A frame that had not arrived joins the waiting ones.
pub Holds-enqueue :
    (A : Arrived) (st : StreamReassembly) (out : List Item) (f : DecodedFrame)
    → A f.inner.seq_id ≡ none
    → Holds A st out
    → Holds (arrive f A) (enqueue f st) out
unfolding enqueue
Holds-enqueue A st out f new h = record {
  waits = λ k. ground (arith, get-insert f.inner.seq_id k f st.buffer, h.waits k, h.complete k);
  released =
      h.released
      ∙ in_order-eq A (arrive f A) st.next_expected (λ k lt. ground (arith, h.complete k lt));
  complete = λ k lt. ground (arith, h.complete k lt);
}
