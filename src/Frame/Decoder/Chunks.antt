-- ===== src/Frame/Decoder/Chunks.antt =====
-- How the bytes are cut into calls of `read_bytes` makes no difference.
use rust_muxio.Prelude.{
  ℕ, zero, suc, ◌+◌, ◌≤◌, ◌<◌, ◌≡◌, refl, sym, ap, ◌∙◌, List, [], ◌++◌, append_assoc, length,
  length-append, length-drop, take, drop, take-append_le, drop-append_le, arith,
}
use native.Mathlib.Decide.{dec_lt}
use rust_muxio.Prelude.{lt→ltb, le→ltb, le→leb}
use rust_muxio.Prelude.Map.{Map}
use rust_muxio.Prelude.Bytes.{from_le_bytes}
use rust_muxio.Frame.Types.{frame_header_size, frame_length_field_size}
use rust_muxio.Frame.Codec.{decode}
use rust_muxio.Frame.Decoder.{
  FrameMuxStreamDecoder, StreamReassembly, Item, wait, whole, length_field, head, handle, read_loop,
  read_bytes,
}

-- The three ways that the head of a buffer can be.
pub data HeadCase (buf : List ℕ) : Type 0 where
  waiting : head buf ≡ wait → HeadCase buf
  framed :
      (item : Item) (rest : List ℕ)
      → head buf ≡ whole item rest
      → length rest < length buf
      → ((more : List ℕ) → head (buf ++ more) ≡ whole item (rest ++ more))
      → HeadCase buf

abbrev total : List ℕ → ℕ
total buf = frame_header_size + from_le_bytes (take frame_length_field_size buf)

head_short : (buf : List ℕ) → length buf < 4 → head buf ≡ wait
unfolding head
head_short buf h = rw (lt→ltb (length buf) frame_length_field_size h)

head_part : (buf : List ℕ) → length buf < total buf → head buf ≡ wait
unfolding head length_field
head_part buf h = ground arith

head_whole :
    (buf : List ℕ)
    → 4 ≤ length buf
    → total buf ≤ length buf
    → head buf ≡ whole (decode (take (total buf) buf)) (drop (total buf) buf)
unfolding head length_field
head_whole buf h k = rw (
  le→ltb (length buf) frame_length_field_size h,
  le→leb frame_length_field_size (length buf) h,
  le→ltb (length buf) (total buf) k,
)

head_whole-append :
    (buf more : List ℕ)
    → 4 ≤ length buf
    → total buf ≤ length buf
    → head (buf ++ more) ≡ whole (decode (take (total buf) buf)) (drop (total buf) buf ++ more)
head_whole-append buf more h k =
    let e : take frame_length_field_size (buf ++ more) ≡ take frame_length_field_size buf =
      take-append_le 4 buf more h in
    let t : total (buf ++ more) ≡ total buf =
      ap (λ (p : List ℕ). frame_header_size + from_le_bytes p) e in
    rw (
      head_whole (buf ++ more) (omega (arith, length-append buf more))
          (rw t (omega (arith, length-append buf more))),
      t,
      take-append_le (total buf) buf more k,
      drop-append_le (total buf) buf more k,
    )

pub head-cases : (buf : List ℕ) → HeadCase buf
head-cases buf = elim (dec_lt (length buf) 4) [
  | yes h ↦ waiting (head_short buf h)
  | no h ↦ elim (dec_lt (length buf) (total buf)) [
    | yes k ↦ waiting (head_part buf k)
    | no k ↦
        framed _ _ (head_whole buf (omega arith) (omega arith))
          (omega (arith, length-drop (total buf) buf))
          (λ more. head_whole-append buf more (omega arith) (omega arith))
  ]
]

abbrev with_rest : List ℕ → Map StreamReassembly → FrameMuxStreamDecoder
with_rest rest streams = record { buffer = rest; streams = streams }

-- What a run has put out before goes in front.
abbrev pub prepend :
    List Item → FrameMuxStreamDecoder × List Item → FrameMuxStreamDecoder × List Item
prepend out (d, more) = (d, out ++ more)

pub read_loop_wait :
    (fuel : ℕ) (d : FrameMuxStreamDecoder) → head d.buffer ≡ wait → read_loop fuel d ≡ (d, [])
unfolding read_loop
read_loop_wait zero d e = refl
read_loop_wait (suc fuel) d e = rw (e, read_loop)

pub read_loop_whole :
    (fuel : ℕ) (d : FrameMuxStreamDecoder) (item : Item) (rest : List ℕ)
    → head d.buffer ≡ whole item rest
    → read_loop (suc fuel) d
      ≡ prepend
          (handle d.streams item).1
          (read_loop fuel (with_rest rest (handle d.streams item).0))
unfolding read_loop
read_loop_whole fuel d item rest e = rw (e, read_loop)

-- Any fuel that is not below the buffer's length gives the same run.
pub read_loop-fuel :
    (f g : ℕ) (d : FrameMuxStreamDecoder)
    → length d.buffer ≤ f
    → length d.buffer ≤ g
    → read_loop f d ≡ read_loop g d
read_loop-fuel zero g d hf hg = elim (head-cases d.buffer) [
  | waiting e ↦ read_loop_wait zero d e ∙ sym (read_loop_wait g d e)
  | framed item rest e less _ ↦ absurd (omega arith)
]
read_loop-fuel (suc f) zero d hf hg = elim (head-cases d.buffer) [
  | waiting e ↦ read_loop_wait (suc f) d e ∙ sym (read_loop_wait zero d e)
  | framed item rest e less _ ↦ absurd (omega arith)
]
read_loop-fuel (suc f) (suc g) d hf hg = elim (head-cases d.buffer) [
  | waiting e ↦ read_loop_wait (suc f) d e ∙ sym (read_loop_wait (suc g) d e)
  | framed item rest e less _ ↦
      read_loop_whole f d item rest e
      ∙ ap (prepend (handle d.streams item).1) (
          read_loop-fuel f g (with_rest rest (handle d.streams item).0) (omega arith) (omega arith))
      ∙ sym (read_loop_whole g d item rest e)
]

prepend-prepend :
    (xs ys : List Item) (r : FrameMuxStreamDecoder × List Item)
    → prepend xs (prepend ys r) ≡ prepend (xs ++ ys) r
prepend-prepend xs ys r = rw append_assoc

-- A first run and then a second on what it left.
abbrev followed : FrameMuxStreamDecoder × List Item → List ℕ → FrameMuxStreamDecoder × List Item
followed (d, out) more = prepend out (read_bytes d more)

read_bytes_whole :
    (d : FrameMuxStreamDecoder) (more : List ℕ) (item : Item) (rest : List ℕ)
    → head (d.buffer ++ more) ≡ whole item (rest ++ more)
    → length rest < length d.buffer
    → read_bytes d more
      ≡ prepend
          (handle d.streams item).1
          (read_bytes (with_rest rest (handle d.streams item).0) more)
unfolding read_bytes
read_bytes_whole d more item rest e less =
    read_loop-fuel (length (d.buffer ++ more)) (suc (length (d.buffer ++ more)))
      (with_rest (d.buffer ++ more) d.streams) (omega arith) (omega arith)
    ∙ read_loop_whole (length (d.buffer ++ more)) (with_rest (d.buffer ++ more) d.streams) item
        (rest ++ more) e
    ∙ ap (prepend (handle d.streams item).1) (
        read_loop-fuel (length (d.buffer ++ more)) (length (rest ++ more))
          (with_rest (rest ++ more) (handle d.streams item).0)
          (omega (arith, length-append d.buffer more, length-append rest more)) (omega arith))

prepend-followed :
    (out : List Item) (r : FrameMuxStreamDecoder × List Item) (more : List ℕ)
    → prepend out (followed r more) ≡ followed (prepend out r) more
prepend-followed out r more = prepend-prepend out r.1 (read_bytes r.0 more)

read_loop-append :
    (fuel : ℕ) (d : FrameMuxStreamDecoder) (more : List ℕ)
    → length d.buffer ≤ fuel
    → read_bytes d more ≡ followed (read_loop fuel d) more
read_loop-append zero d more h = elim (head-cases d.buffer) [
  | waiting e ↦ rw (read_loop_wait zero d e)
  | framed item rest e less _ ↦ absurd (omega arith)
]
read_loop-append (suc fuel) d more h = elim (head-cases d.buffer) [
  | waiting e ↦ rw (read_loop_wait (suc fuel) d e)
  | framed item rest e less longer ↦
      let d' = with_rest rest (handle d.streams item).0 in
      read_bytes_whole d more item rest (longer more) less
      ∙ ap (prepend (handle d.streams item).1) (read_loop-append fuel d' more (omega arith))
      ∙ prepend-followed (handle d.streams item).1 (read_loop fuel d') more
      ∙ ap (λ (r : FrameMuxStreamDecoder × List Item). followed r more)
          (sym (read_loop_whole fuel d item rest e))
]

-- Reading `a ++ b` in one call leaves the decoder in the state, and yields the items, that reading
-- `a` and then `b` does: the cut of the byte stream into reads makes no difference.
pub read_bytes-append :
    (d : FrameMuxStreamDecoder) (a b : List ℕ)
    → read_bytes d (a ++ b) ≡ (
      (read_bytes (read_bytes d a).0 b).0,
      (read_bytes d a).1 ++ (read_bytes (read_bytes d a).0 b).1,
    )
unfolding read_bytes
read_bytes-append d a b =
    ap (λ (t : List ℕ). read_loop (length t) (with_rest t d.streams))
      (sym (append_assoc d.buffer a b))
    ∙ read_loop-append (length (d.buffer ++ a)) (with_rest (d.buffer ++ a) d.streams) b
        (omega arith)

-- `read_bytes` takes every whole frame that is there: what stays in the buffer is less than one.
pub read_loop_drains :
    (fuel : ℕ) (d : FrameMuxStreamDecoder)
    → length d.buffer ≤ fuel
    → head (read_loop fuel d).0.buffer ≡ wait
read_loop_drains zero d h = elim (head-cases d.buffer) [
  | waiting e ↦ rw (read_loop_wait zero d e) e
  | framed item rest e less _ ↦ absurd (omega arith)
]
read_loop_drains (suc fuel) d h = elim (head-cases d.buffer) [
  | waiting e ↦ rw (read_loop_wait (suc fuel) d e) e
  | framed item rest e less _ ↦
      rw (read_loop_whole fuel d item rest e)
        (read_loop_drains fuel (with_rest rest (handle d.streams item).0) (omega arith))
]

pub read_bytes_drains :
    (d : FrameMuxStreamDecoder) (input : List ℕ) → head (read_bytes d input).0.buffer ≡ wait
unfolding read_bytes
read_bytes_drains d input =
    read_loop_drains _ (with_rest (d.buffer ++ input) d.streams) (omega arith)
