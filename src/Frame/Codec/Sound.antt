-- ===== src/Frame/Codec/Sound.antt =====
-- What `decode` accepts: the byte forms of frames, and nothing else.
use rust_muxio.Prelude.{
  ℕ, zero, suc, ◌≢◌, ◌+◌, ◌-◌, ◌%◌, ◌^◌, ◌<◌, ◌≤◌, ◌≡◌, refl, sym, ap, ◌∙◌, subst, none, List, [],
  ◌∷◌, ◌++◌, length, take, drop, ltb, Bool-cases, inl, inr, Result, ok, err, and_then, arith, All,
  length-take, take-append-drop, le→ltb, ltb→le,
}
use rust_muxio.Prelude.Bytes.{
  IsByte, IsU32, to_le_bytes, from_le_bytes, from_le_bytes-lt, to_le_bytes-from_le_bytes,
}
use rust_muxio.Frame.Types.{
  FrameKind, cancel_kind, kind_to_u8, kind_try_from, FrameDecodeError, Frame, DecodedFrame,
  frame_header_size,
}
use rust_muxio.Frame.Codec.{encode, decode, read_uint, read_kind, payload_of}
use rust_muxio.Frame.Codec.RoundTrip.{IsFrame}

-- A frame that stands at the front of some bytes.
pub record StandsIn (bytes : List ℕ) (f : DecodedFrame) : Type 0 where
  pub fits : IsFrame f.inner
  pub payload_bytes : All IsByte f.inner.payload
  pub not_marked : f.decode_error ≡ none
  pub wire : f.inner.kind ≢ cancel_kind → (rest : List ℕ) × (bytes ≡ encode f.inner ++ rest)

read_kind-kind_to_u8 : (b : ℕ) (k : FrameKind) → read_kind b ≡ ok k → kind_to_u8 k ≡ b
unfolding read_kind kind_try_from kind_to_u8
read_kind-kind_to_u8 b k h = ground arith

All-take : (n : ℕ) (xs : List ℕ) → All IsByte xs → All IsByte (take n xs)
All-take zero xs h = tt
All-take (suc n) [] h = tt
All-take (suc n) (x ∷ xs) h = (h.0, All-take n xs h.1)

All-split : (xs ys : List ℕ) → All IsByte (xs ++ ys) → All IsByte xs × All IsByte ys
All-split [] ys h = (tt, h)
All-split (x ∷ xs) ys h = let (a, b) = All-split xs ys h.1 in ((h.0, a), b)

payload_of-All : (k : FrameKind) (xs : List ℕ) → All IsByte xs → All IsByte (payload_of k xs)
unfolding payload_of
payload_of-All cancel_kind xs h = tt
payload_of-All _ xs h = h

payload_of-length : (k : FrameKind) (xs : List ℕ) → length (payload_of k xs) ≤ length xs
unfolding payload_of
payload_of-length cancel_kind xs = omega arith
payload_of-length _ xs = omega arith

payload_of-other : (k : FrameKind) (xs : List ℕ) → k ≢ cancel_kind → payload_of k xs ≡ xs
unfolding payload_of
payload_of-other cancel_kind xs h = absurd (h refl)
payload_of-other _ xs h = refl

-- The 13 bytes of a frame's head in their fields, and what follows.
abbrev four : ℕ → ℕ → ℕ → ℕ → List ℕ
four a b c d = a ∷ b ∷ c ∷ d ∷ []

-- What `decode` makes of the fields that it has read.
abbrev built : ℕ → ℕ → FrameKind → List ℕ → DecodedFrame
built stream_id seq_id kind payload = record {
  inner = record {
    stream_id = stream_id;
    seq_id = seq_id;
    kind = kind;
    payload = payload_of kind payload;
  };
  decode_error = none;
}

wire_of :
    (f : Frame) (l s q p rest : List ℕ) (b : ℕ)
    → to_le_bytes 4 (length f.payload % 2 ^ 32) ≡ l
    → to_le_bytes 4 f.stream_id ≡ s
    → to_le_bytes 4 f.seq_id ≡ q
    → kind_to_u8 f.kind ≡ b
    → f.payload ++ rest ≡ p
    → l ++ (s ++ (q ++ b ∷ p)) ≡ encode f ++ rest
unfolding encode
wire_of f l s q p rest b el es eq ek ep = rw (← el, ← es, ← eq, ← ek, ← ep) refl

field_bytes : (l : List ℕ) → length l ≡ 4 → All IsByte l → to_le_bytes 4 (from_le_bytes l) ≡ l
field_bytes l n h =
    subst (λ k. to_le_bytes k (from_le_bytes l) ≡ l) n (to_le_bytes-from_le_bytes l h)

field_fits : (l : List ℕ) → length l ≡ 4 → All IsByte l → IsU32 (from_le_bytes l)
field_fits l n h = omega (arith, subst (λ k. from_le_bytes l < 256 ^ k) n (from_le_bytes-lt l h))

built-StandsIn :
    (l s q p : List ℕ) (b : ℕ) (kind : FrameKind)
    → length l ≡ 4
    → length s ≡ 4
    → length q ≡ 4
    → All IsByte l
    → All IsByte s
    → All IsByte q
    → All IsByte p
    → kind_to_u8 kind ≡ b
    → from_le_bytes l ≤ length p
    → StandsIn
        (l ++ (s ++ (q ++ b ∷ p)))
        (built (from_le_bytes s) (from_le_bytes q) kind (take (from_le_bytes l) p))
unfolding encode
built-StandsIn l s q p b kind nl ns nq al as_ aq ap_ k few = record {
  fits = record {
    stream_id_fits = field_fits s ns as_;
    seq_id_fits = field_fits q nq aq;
    payload_fits = omega (
      arith,
      payload_of-length kind (take (from_le_bytes l) p),
      length-take (from_le_bytes l) p few,
      field_fits l nl al,
    );
  };
  payload_bytes = payload_of-All kind _ (All-take (from_le_bytes l) p ap_);
  not_marked = refl;
  wire = λ other.
      let whole = payload_of-other kind (take (from_le_bytes l) p) other in
      let n : length (payload_of kind (take (from_le_bytes l) p)) % 2 ^ 32 ≡ from_le_bytes l =
        omega (arith, ap length whole, length-take (from_le_bytes l) p few, field_fits l nl al) in
      (
        drop (from_le_bytes l) p,
        wire_of (built (from_le_bytes s) (from_le_bytes q) kind (take (from_le_bytes l) p)).inner l
            s q p (drop (from_le_bytes l) p) b (ap (to_le_bytes 4) n ∙ field_bytes l nl al)
            (field_bytes s ns as_) (field_bytes q nq aq) k
            (ap (λ t. t ++ drop (from_le_bytes l) p) whole ∙ take-append-drop (from_le_bytes l) p),
      );
}

-- The read of a kind, and what it is for where it fails.
decode_kind :
    (b : ℕ) (built_with : FrameKind → DecodedFrame) (f : DecodedFrame)
    → and_then (read_kind b) (λ kind. ok (built_with kind)) ≡ ok f
    → (kind : FrameKind) × (read_kind b ≡ ok kind) × (built_with kind ≡ f)
decode_kind b built_with f h = go (read_kind b) refl h
  where
    go :
        (r : Result FrameDecodeError FrameKind)
        → read_kind b ≡ r
        → and_then r (λ kind. ok (built_with kind)) ≡ ok f
        → (kind : FrameKind) × (read_kind b ≡ ok kind) × (built_with kind ≡ f)
    go (ok kind) e h = (kind, e, cc)
    go (err x) e h = absurd (cc)

decode_lem :
    (l0 l1 l2 l3 s0 s1 s2 s3 q0 q1 q2 q3 b : ℕ) (p : List ℕ) (f : DecodedFrame)
    → let l = four l0 l1 l2 l3 in
      let s = four s0 s1 s2 s3 in
      let q = four q0 q1 q2 q3 in
      decode (l ++ (s ++ (q ++ b ∷ p))) ≡ ok f
      → (kind : FrameKind) × (read_kind b ≡ ok kind)
        × (built (from_le_bytes s) (from_le_bytes q) kind (take (from_le_bytes l) p) ≡ f)
        × (from_le_bytes l ≤ length p)
unfolding decode read_uint
decode_lem l0 l1 l2 l3 s0 s1 s2 s3 q0 q1 q2 q3 b p f h =
    let len = from_le_bytes (four l0 l1 l2 l3) in
    let buf = four l0 l1 l2 l3 ++ (four s0 s1 s2 s3 ++ (four q0 q1 q2 q3 ++ b ∷ p)) in
    elim (Bool-cases (ltb (length buf) (frame_header_size + len))) [
      | inl e ↦
          let no = rw (le→ltb (length buf) frame_header_size (omega arith), e) at h in absurd (cc)
      | inr e ↦
          let h' = rw (le→ltb (length buf) frame_header_size (omega arith), e) at h in
          let exact : 13 + len - 13 ≡ len = omega arith in
          let stream_id = from_le_bytes (four s0 s1 s2 s3) in
          let seq_id = from_le_bytes (four q0 q1 q2 q3) in
          let (kind, is_kind, is_f) =
            decode_kind b (λ k. built stream_id seq_id k (take (13 + len - 13) p)) f h' in
          (
            kind,
            is_kind,
            ap (λ n. built stream_id seq_id kind (take n p)) (sym exact) ∙ is_f,
            omega (arith, ltb→le (length buf) (frame_header_size + len) e),
          )
    ]

-- What `decode` accepts is a frame at the front of the bytes: the ids and the length of its payload
-- fit 32 bits, its payload is bytes, it is not marked with an error, and, unless it is a cancel
-- frame, the bytes are those that `encode` writes for it, and whatever follows them.
pub decode-StandsIn :
    (bytes : List ℕ) (f : DecodedFrame) → All IsByte bytes → decode bytes ≡ ok f → StandsIn bytes f
unfolding decode
decode-StandsIn (l0 ∷ l1 ∷ l2 ∷ l3 ∷ s0 ∷ s1 ∷ s2 ∷ s3 ∷ q0 ∷ q1 ∷ q2 ∷ q3 ∷ b ∷ p) f all h =
    let (al, rest) =
      All-split (four l0 l1 l2 l3) (four s0 s1 s2 s3 ++ (four q0 q1 q2 q3 ++ b ∷ p)) all in
    let (as_, rest') = All-split (four s0 s1 s2 s3) (four q0 q1 q2 q3 ++ b ∷ p) rest in
    let (aq, behind) = All-split (four q0 q1 q2 q3) (b ∷ p) rest' in
    let (kind, is_kind, is_f, few) = decode_lem l0 l1 l2 l3 s0 s1 s2 s3 q0 q1 q2 q3 b p f h in
    subst (StandsIn _) is_f (
      built-StandsIn (four l0 l1 l2 l3) (four s0 s1 s2 s3) (four q0 q1 q2 q3) p b kind refl refl
        refl al as_ aq behind.1 (read_kind-kind_to_u8 b kind is_kind) few)
decode-StandsIn _ f all h = absurd (cc)
